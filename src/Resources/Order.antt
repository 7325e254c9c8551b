-- ===== src/Resources/Order.antt =====
-- How the comparisons of a template with a node relate to the amounts that each has.
use simcan2fog.Prelude.{
  ℕ, ◌+◌, ◌-◌, ◌≤◌, ◌<◌, ◌≡◌, refl, ◌⊎◌, inl, inr, true, none, some, arith, ok,
}
use simcan2fog.Resources.{
  VirtualMachine, NodeResources, node_covers, vm_fits, get_logical_distance, i32_limit,
}

-- What a placement needs: room for one more VM and user, and enough of each resource.
pub record Suffices (r : NodeResources) (vm : VirtualMachine) : Type 0 where
  pub vm_slot : 0 < r.vms
  pub user_slot : 0 < r.users
  pub enough_cores : vm.num_cores ≤ r.cores
  pub enough_disk : vm.disk_mib ≤ r.disk_mib
  pub enough_memory : vm.memory_mib ≤ r.memory_mib

-- Enough of everything passes the test.
pub Suffices-vm_fits :
    (r : NodeResources) (vm : VirtualMachine) → Suffices r vm → vm_fits vm r ≡ true
unfolding vm_fits
Suffices-vm_fits r vm h = ground arith

pub node_covers-eq : (r : NodeResources) (vm : VirtualMachine) → node_covers r vm ≡ vm_fits vm r
unfolding node_covers vm_fits
node_covers-eq r vm = refl

abbrev pub leftover : NodeResources → VirtualMachine → ℕ
leftover r vm =
    (r.cores - vm.num_cores) + (r.disk_mib - vm.disk_mib) + (r.memory_mib - vm.memory_mib)

-- Some resource is short.
abbrev Lacks : NodeResources → VirtualMachine → Type 0
Lacks r vm =
    (r.vms ≡ 0)
    ⊎ ((r.users ≡ 0)
        ⊎ ((r.cores < vm.num_cores)
            ⊎ ((r.disk_mib < vm.disk_mib) ⊎ (r.memory_mib < vm.memory_mib))))

Suffices-or-Lacks : (r : NodeResources) (vm : VirtualMachine) → Suffices r vm ⊎ Lacks r vm
Suffices-or-Lacks r vm = grind arith

Lacks-distance :
    (r : NodeResources) (vm : VirtualMachine)
    → r.cores + r.disk_mib + r.memory_mib < i32_limit
    → vm.num_cores + vm.disk_mib + vm.memory_mib < i32_limit
    → Lacks r vm
    → get_logical_distance r vm ≡ ok none
unfolding get_logical_distance
Lacks-distance r vm s h l = ground arith

pub Suffices-distance :
    (r : NodeResources) (vm : VirtualMachine)
    → r.cores + r.disk_mib + r.memory_mib < i32_limit
    → Suffices r vm
    → get_logical_distance r vm ≡ ok (some (leftover r vm))
unfolding get_logical_distance
Suffices-distance r vm s h = ground arith

-- For amounts whose sum stays below 2^31, the distance is what would be left over, or DBL_MAX
-- exactly where the node does not have enough of everything.
pub get_logical_distance_cases :
    (r : NodeResources) (vm : VirtualMachine)
    → r.cores + r.disk_mib + r.memory_mib < i32_limit
    → vm.num_cores + vm.disk_mib + vm.memory_mib < i32_limit
    → (Suffices r vm × (get_logical_distance r vm ≡ ok (some (leftover r vm))))
      ⊎ ((¬ Suffices r vm) × (get_logical_distance r vm ≡ ok none))
get_logical_distance_cases r vm s h = elim (Suffices-or-Lacks r vm) [
  | inl e ↦ inl (e, Suffices-distance r vm s e)
  | inr l ↦ inr ((λ e. ground arith), Lacks-distance r vm s h l)
]
