-- ===== src/Hardware/Edge.antt =====
-- The resources of an edge node across a VM's stay.
use simcan2fog.Prelude.{ℕ, suc, ◌≤◌, ◌≡◌, subst, sym, some, List, arith, ok}
use simcan2fog.Resources.{VirtualMachine, NodeResources, IsVmWord, IsNodeWord}
use simcan2fog.Resources.Order.{Suffices, Suffices-vm_fits}
use simcan2fog.Hardware.{
  allocate_core, EdgeManager, allocate_cores, deallocate_cores, try_allocate_resources,
  deallocate_resources, take_resources, give_resources,
}
use simcan2fog.Hardware.Cores.{
  free_cores, first_free, on_first_free, lent, allocate_cores_lem, deallocate_cores_lem,
}

give-take_resources :
    (r : NodeResources) (vm : VirtualMachine)
    → IsNodeWord r
    → IsVmWord vm
    → give_resources (take_resources r vm) vm ≡ r
give-take_resources r vm w v = ground arith

-- A VM that an edge node has enough of everything and enough free cores for is accepted; when it
-- leaves, the available resources are what they were and its cores are free with the time of the
-- stay added to their usage.
pub edge_stay :
    (m : EdgeManager) (vm : VirtualMachine) (k now later : ℕ)
    → vm.num_cores ≡ suc k
    → suc k ≤ free_cores m.cores_state
    → Suffices m.available vm
    → IsNodeWord m.available
    → IsVmWord vm
    → (index : List ℕ) × (taken : EdgeManager) × (try_allocate_resources now vm m
        ≡ ok (some index, taken))
      × (deallocate_resources later vm index taken
          ≡ ok (record m { cores_state = on_first_free (lent now later) (suc k) m.cores_state }))
unfolding try_allocate_resources deallocate_resources
edge_stay m vm k now later cores room enough w v =
    let cs = m.cores_state in
    let busy = on_first_free (allocate_core now) (suc k) cs in
    let index = first_free (suc k) 0 cs in
    let lending : allocate_cores vm.num_cores now cs ≡ ok (busy, index) =
      subst (λ n. allocate_cores n now cs ≡ ok (busy, index)) (sym cores)
        (allocate_cores_lem k now cs room) in
    let back = on_first_free (lent now later) (suc k) cs in
    let returning : deallocate_cores vm.num_cores later index busy ≡ ok back =
      subst (λ n. deallocate_cores n later index busy ≡ ok back) (sym cores)
        (deallocate_cores_lem (suc k) now later cs room) in
    (
      index,
      record m { available = take_resources m.available vm; cores_state = busy },
      rw (Suffices-vm_fits m.available vm enough, try_allocate_resources) (rw lending),
      rw (returning, give-take_resources m.available vm w v),
    )
