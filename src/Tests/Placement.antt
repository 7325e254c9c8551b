-- ===== src/Tests/Placement.antt =====
-- Placements of VMs on nodes.
use simcan2fog.Prelude.{ℕ, ◌≡◌, ◌<◌, refl, subst, String, Option, some, List, [], ◌∷◌, ok, arith}
use simcan2fog.Resources.{
  VirtualMachine, NodeResources, IsVmWord, IsNodeWord, vm_fits, has_user_and_vm_space,
}
use simcan2fog.Pool.{Node, NodePool, empty_pool, allocate_on_node, allocate_resources}
use simcan2fog.Pool.Accounting.{first_fit_overcommits}
use simcan2fog.Pool.Selection.{first_fit, first_fit_from, best_fit}
use simcan2fog.Pool.Selection.FirstFit.{FirstFitting, first_fit-FirstFitting}
use simcan2fog.Pool.Selection.BestFit.{BestFitting, best_fit-BestFitting}
use simcan2fog.Manager.{
  NodeVmRecord, Signal, allocated_vms, allocated_cores, allocated_ram, allocated_disk, allocate_vms,
  allocate_loop, conclude, place, on_selected,
}
use simcan2fog.Manager.Rollback.{Settled, allocate_vms-Settled}
use simcan2fog.Manager.Totality.{Answers, first_fit-IsStrategy, allocate_vms-Answers}
use simcan2fog.Tests.Heap.{simple_heap}

abbrev pub small_vm : VirtualMachine
small_vm = record { vm_type = "small"; num_cores = 1; disk_mib = 100; memory_mib = 512 }

abbrev deep_vm : VirtualMachine
deep_vm = record { vm_type = "deep"; num_cores = 1; disk_mib = 900; memory_mib = 512 }

abbrev node_resources : NodeResources
node_resources = record { memory_mib = 2048; disk_mib = 500; cores = 4; vms = 4; users = 4 }

abbrev tight_resources : NodeResources
tight_resources = record { memory_mib = 600; disk_mib = 150; cores = 2; vms = 1; users = 1 }

abbrev pub wide_node : Node
wide_node = record { available_resources = node_resources; address = 10; state = 0 }

abbrev pub tight_node : Node
tight_node = record { available_resources = tight_resources; address = 11; state = 0 }

abbrev pub two_nodes : NodePool
two_nodes = record empty_pool { nodes = wide_node ∷ tight_node ∷ [] }

abbrev pub catalogue : String → Option VirtualMachine
catalogue t = some small_vm

pub small_vm-IsVmWord : IsVmWord small_vm
small_vm-IsVmWord = record {
  cores_word = omega arith;
  disk_word = omega arith;
  memory_word = omega arith;
}

abbrev pub wide_word : IsNodeWord node_resources
wide_word = record {
  cores_word = omega arith;
  disk_word = omega arith;
  memory_word = omega arith;
  vms_word = omega arith;
}

abbrev pub tight_word : IsNodeWord tight_resources
tight_word = record {
  cores_word = omega arith;
  disk_word = omega arith;
  memory_word = omega arith;
  vms_word = omega arith;
}

first_fit_run : first_fit small_vm (wide_node ∷ tight_node ∷ []) ≡ ok (some 0)
unfolding first_fit vm_fits has_user_and_vm_space
first_fit_run = refl

first_fit_overcommits_example :
    (first_fit deep_vm (wide_node ∷ tight_node ∷ []) ≡ ok (some 0))
    × (500 < (allocate_on_node wide_node deep_vm).available_resources.disk_mib)
first_fit_overcommits_example =
    first_fit_overcommits deep_vm wide_node (tight_node ∷ [])
      (record { cores_word = omega arith; disk_word = omega arith; memory_word = omega arith })
      (omega arith) (omega arith) (omega arith) (omega arith)

first_fit-FirstFitting_example :
    (r : Option ℕ) × (first_fit small_vm (wide_node ∷ tight_node ∷ []) ≡ ok r)
    × FirstFitting small_vm (wide_node ∷ tight_node ∷ []) r
first_fit-FirstFitting_example = first_fit-FirstFitting small_vm (wide_node ∷ tight_node ∷ [])

best_fit-BestFitting_example :
    (r : Option ℕ) × (best_fit simple_heap small_vm (wide_node ∷ tight_node ∷ []) ≡ ok r)
    × BestFitting small_vm (wide_node ∷ tight_node ∷ []) r
best_fit-BestFitting_example =
    best_fit-BestFitting simple_heap small_vm (wide_node ∷ tight_node ∷ []) (omega arith)
      (omega arith, (omega arith, tt)) (λ e. cc)

-- Both VMs go to the first node.
abbrev pub after_two : NodePool
after_two = record two_nodes {
  nodes =
      record wide_node {
        available_resources = record {
          memory_mib = 1024;
          disk_mib = 300;
          cores = 2;
          vms = 2;
          users = 4;
        };
      }
      ∷ tight_node
      ∷ [];
}

abbrev pub two_records : List NodeVmRecord
two_records =
    record { node_index = 0; vm_template = small_vm }
    ∷ record { node_index = 0; vm_template = small_vm }
    ∷ []

abbrev pub two_signals : List Signal
two_signals = allocated_vms 2 ∷ allocated_cores 2 ∷ allocated_ram 1024 ∷ allocated_disk 200 ∷ []

pub two_allocated :
    allocate_vms first_fit catalogue two_nodes ("a" ∷ "b" ∷ [])
    ≡ ok (some two_records, after_two, two_signals)
unfolding allocate_vms first_fit first_fit_from allocate_loop conclude place on_selected
    allocate_resources allocate_on_node vm_fits has_user_and_vm_space
two_allocated = refl

allocate_vms-Settled_example : Settled two_nodes (some two_records) after_two two_signals
allocate_vms-Settled_example =
    allocate_vms-Settled first_fit catalogue (λ t vm h. subst IsVmWord (cc) small_vm-IsVmWord)
      two_nodes (wide_word, (tight_word, tt)) ("a" ∷ "b" ∷ []) (some two_records) after_two
      two_signals two_allocated

allocate_vms-Answers_example :
    (r : Option (List NodeVmRecord)) × (q : NodePool) × (signals : List Signal) × (allocate_vms
        first_fit catalogue two_nodes
        ("a" ∷ "b" ∷ [])
      ≡ ok (r, q, signals))
    × Answers catalogue ("a" ∷ "b" ∷ []) r
allocate_vms-Answers_example =
    allocate_vms-Answers first_fit first_fit-IsStrategy catalogue two_nodes ("a" ∷ "b" ∷ [])
      ((small_vm, refl), ((small_vm, refl), tt))
