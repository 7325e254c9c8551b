-- ===== src/Manager.antt =====
-- The resource manager of a data center (src/s2f/management/managers/ResourceManager.{h,cc}).
-- `search_vm` stands for DataManager::searchVm, whose null result is `none`; `select` for the
-- selection strategy. A signal in GiB is kept in MiB, before the division by 1024.0.
pub mod Rollback
pub mod Totality
pub mod Usage
use simcan2fog.Prelude.{
  ℕ, suc, ◌-◌, String, Bool, true, false, Option, none, some, List, [], ◌∷◌, ◌++◌, length,
  if◌then◌else◌, add64, sub32, u64_mod, ◌+◌, ◌*◌, ◌%◌, Outcome, ok, fault, undefined, or_fault,
  ◌>>=◌,
}
use simcan2fog.Resources.{VirtualMachine, NodeResources}
use simcan2fog.Pool.{Node, NodePool, get_node, allocate_resources, deallocate_resources, add_node}

pub record NodeVmRecord : Type 0 where
  pub node_index : ℕ
  pub vm_template : VirtualMachine

-- `released_vms n` is the signal allocatedVms with the value -n.
pub data Signal : Type 0 where
  allocated_vms released_vms allocated_cores allocated_ram allocated_disk : ℕ → Signal

-- The pool, and what the loop of allocateVms has gathered.
pub record Allocation : Type 0 where
  pub pool : NodePool
  pub records : List NodeVmRecord
  pub cores : ℕ
  pub ram : ℕ
  pub disk : ℕ

abbrev pub start : NodePool → Allocation
start p = record { pool = p; records = []; cores = 0; ram = 0; disk = 0 }

-- The branch that has found a node.
unfoldable pub place : VirtualMachine → ℕ → Allocation → Outcome Allocation
place vm index a = do
  pool ← allocate_resources a.pool index vm
  ok (record {
    pool = pool;
    records = a.records ++ record { node_index = index; vm_template = vm } ∷ [];
    cores = add64 a.cores vm.num_cores;
    ram = add64 a.ram vm.memory_mib;
    disk = add64 a.disk vm.disk_mib;
  })

-- The body of the loop after selectNode; `next` is the rest of the loop.
unfoldable pub on_selected :
    VirtualMachine
    → Allocation
    → (Allocation → Outcome (Bool × Allocation))
    → Option ℕ
    → Outcome (Bool × Allocation)
on_selected vm a next none = ok (false, a)
on_selected vm a next (some index) = place vm index a >>= next

-- The loop over the VMs of the request, which ends at the first that no node can take.
unfoldable pub allocate_loop :
    (VirtualMachine → List Node → Outcome (Option ℕ))
    → (String → Option VirtualMachine)
    → List String
    → Allocation
    → Outcome (Bool × Allocation)
unfolding on_selected
allocate_loop select search_vm [] a = ok (true, a)
allocate_loop select search_vm (vm_type ∷ vm_types) a = do
  vm ← or_fault (search_vm vm_type) undefined
  found ← select vm a.pool.nodes
  on_selected vm a (allocate_loop select search_vm vm_types) found

-- The loop that restores the resources, in the order of allocation.
unfoldable pub release_records : List NodeVmRecord → NodePool → Outcome NodePool
release_records [] p = ok p
release_records (r ∷ rs) p =
    deallocate_resources p r.node_index r.vm_template >>= release_records rs

-- The signals of a request that was met.
abbrev pub allocation_signals : ℕ → Allocation → List Signal
allocation_signals n a =
    allocated_vms n ∷ allocated_cores a.cores ∷ allocated_ram a.ram ∷ allocated_disk a.disk ∷ []

unfoldable pub conclude :
    ℕ → Bool × Allocation → Outcome (Option (List NodeVmRecord) × NodePool × List Signal)
conclude n (true, a) = ok (some a.records, a.pool, allocation_signals n a)
conclude n (false, a) = do pool ← release_records a.records a.pool; ok (none, pool, [])

-- allocateVms: the records of the placed VMs or null, the pool, and the signals.
unfoldable pub allocate_vms :
    (VirtualMachine → List Node → Outcome (Option ℕ))
    → (String → Option VirtualMachine)
    → NodePool
    → List String
    → Outcome (Option (List NodeVmRecord) × NodePool × List Signal)
allocate_vms select search_vm p vm_types =
    allocate_loop select search_vm vm_types (start p) >>= conclude (length vm_types)

-- emitSignals. The unary minus stands before an unsigned operand, so it wraps.
unfoldable pub emit_signals : Bool → VirtualMachine → Bool → List Signal
emit_signals has_listeners vm allocation =
    if has_listeners
    then (if allocation
        then allocated_vms 1
          ∷ allocated_cores vm.num_cores
          ∷ allocated_ram vm.memory_mib
          ∷ allocated_disk vm.disk_mib
          ∷ []
        else released_vms 1
          ∷ allocated_cores (sub32 0 vm.num_cores)
          ∷ allocated_ram (sub32 0 vm.memory_mib)
          ∷ allocated_disk (sub32 0 vm.memory_mib)
          ∷ [])
    else []

unfoldable pub confirm_node_deallocation :
    Bool → NodePool → ℕ → VirtualMachine → Outcome (NodePool × List Signal)
confirm_node_deallocation has_listeners p node_id vm = do
  pool ← deallocate_resources p node_id vm
  ok (pool, emit_signals has_listeners vm false)

-- The load of the pool as a fraction in percent: (total - available) / total * 100. The subtraction
-- is on uint64_t, the division on doubles.
unfoldable pub get_aggregate_cpu_usage : NodePool → ℕ × ℕ
get_aggregate_cpu_usage p =
    let used = (p.total_resources.cores + u64_mod - p.available_resources.cores) % u64_mod in
    (used * 100, p.total_resources.cores)

-- The three getters of available resources read the totals.
unfoldable pub get_available_cores : NodePool → ℕ
get_available_cores p = p.total_resources.cores

unfoldable pub get_available_disk_mib : NodePool → ℕ
get_available_disk_mib p = p.total_resources.disk_mib

unfoldable pub get_available_ram_mib : NodePool → ℕ
get_available_ram_mib p = p.total_resources.memory_mib

unfoldable pub get_node_available_resources : NodePool → ℕ → Outcome NodeResources
get_node_available_resources p node_id = do node ← get_node p node_id; ok node.available_resources
