-- ===== src/Tests/Machines.antt =====
-- Deployments and the table of VMs.
use simcan2fog.Prelude.{◌≡◌, refl, none, some, [], ◌∷◌, ok, fault, failed_assert}
use simcan2fog.ControlTable.{vm_suspended, initialize, allocate_vm}
use simcan2fog.ControlTable.Operations.{
  suspend_vm, deallocate_vm, op_allocate_vm, op_suspend_vm, perform, initially, after,
}
use simcan2fog.ControlTable.Invariant.{IsTable}
use simcan2fog.ControlTable.Invariant.Preserved.{Reachable-IsTable, initialize-IsTable}
use simcan2fog.ControlTable.Slots.{IsTaken}
use simcan2fog.ControlTable.Slots.Kept.{deallocate_vm_never_frees}
use simcan2fog.Tests.Deployments.{block, running, running_taken}

allocated :
    perform (op_allocate_vm none "user") (initialize 2 3)
    ≡ ok (allocate_vm (initialize 2 3) none "user").0
unfolding perform
allocated = refl

Reachable-IsTable_example : IsTable (allocate_vm (initialize 2 3) none "user").0
Reachable-IsTable_example =
    Reachable-IsTable (initialize 2 3) (allocate_vm (initialize 2 3) none "user").0
      (initialize-IsTable 2 3)
      (after (op_allocate_vm none "user") (initialize 2 3)
        (allocate_vm (initialize 2 3) none "user").0 initially allocated)

suspending :
    perform (op_suspend_vm (some 0)) running
    ≡ ok (record running { vms = record block { state = vm_suspended } ∷ [] })
unfolding perform suspend_vm
suspending = refl

deallocate_vm_never_frees_example :
    IsTaken (record running { vms = record block { state = vm_suspended } ∷ [] }) 0
    × (deallocate_vm (record running { vms = record block { state = vm_suspended } ∷ [] }) (some 0)
        ≡ fault failed_assert)
deallocate_vm_never_frees_example =
    deallocate_vm_never_frees running
      (record running { vms = record block { state = vm_suspended } ∷ [] }) 0 running_taken
      (after (op_suspend_vm (some 0)) running
        (record running { vms = record block { state = vm_suspended } ∷ [] }) initially suspending)
