-- ===== src/Hypervisor.antt =====
-- The hypervisor of a node: its state, the system calls and the end of an application
-- (src/s2f/os/hypervisors/Hypervisor.cc and .h). A message that it sends is an event of the result.
pub mod Commands
pub mod Suspension
pub mod Termination
pub mod Refusal
use simcan2fog.Prelude.{
  ℕ, String, Bool, true, false, Option, none, some, List, [], ◌∷◌, ◌++◌, get_elem?, set, Outcome,
  ok, fault, runtime_error, undefined, or_fault, ◌>>=◌,
}
use simcan2fog.Cpu.Scheduler.{Scheduler, Sent}
use simcan2fog.Hardware.{CoreState}
use simcan2fog.Pool.{NodePool}
use simcan2fog.Manager.{Signal}
use simcan2fog.UserApp.{
  AppState, app_finished_ok, app_finished_error, UserApp, change_state_by_index, all_finished,
}
use simcan2fog.ControlTable.{
  Syscall, SyscallCode, read, write, exec, exit, abort, live, VmControlBlock, VmControlTable,
  put_vm, get_vm_control_block, get_app_control_block,
}
use simcan2fog.ControlTable.Operations.{
  entry, deref, vm_is_suspended, buffer_call, deallocate_app, get_global_vm_id,
}

-- What the hypervisor owns or reaches: the table, the schedulers of the VMs, the cores of the node,
-- and the pool in which the node stands under `node_id`.
pub record Hypervisor : Type 0 where
  pub is_virtual_hardware : Bool
  pub has_listeners : Bool
  pub node_id : ℕ
  pub table : VmControlTable
  pub schedulers : List Scheduler
  pub cores : List CoreState
  pub pool : NodePool

-- `build_app` and `delete_app` are the calls of the application builder on the module of a process.
pub data Event : Type 0 where
  to_scheduler to_app : ℕ → Syscall → Event
  to_disk : Syscall → Event
  abort_disk_ios : ℕ → Event
  build_app delete_app : ℕ → Option ℕ → Event
  send_event : UserApp → Event
  scheduler_sent : List Sent → Event
  signals : List Signal → Event

abbrev pub with_table : Hypervisor → VmControlTable → Hypervisor
with_table h t = record h { table = t }

-- The update that goes to the manager when the last application has ended.
abbrev pub update_of : UserApp → String → UserApp
update_of r global = record r {
  destination_topic = r.return_topic;
  accepted = true;
  vm_id = global;
  is_response = true;
}

unfoldable pub notify : VmControlTable → ℕ → UserApp → Outcome (List Event)
notify t i r = elim (all_finished r.apps) [
  | false ↦ ok []
  | true ↦ get_global_vm_id t i >>= λ global. ok (send_event (update_of r global) ∷ [])
]

-- The request is changed through the pointer that the table holds.
abbrev pub store_request : VmControlTable → ℕ → UserApp → Outcome VmControlTable
store_request t i r =
    or_fault (get_elem? t.vms i) undefined >>= λ b. ok (put_vm t i (record b { request = live r }))

-- handleAppTermination at the time `now`.
unfoldable pub handle_app_termination :
    ℕ → Option ℕ → Option ℕ → AppState → VmControlTable → Outcome (VmControlTable × List Event)
unfolding notify
handle_app_termination now pid vm_id status t = do
  e ← entry t vm_id
  app ← get_app_control_block t vm_id pid
  freed ← deallocate_app t vm_id pid
  r ← deref e.1.request
  changed ← change_state_by_index now app.deployment_index status r
  stored ← store_request freed e.0 changed
  sent ← notify stored e.0 changed
  ok (stored, delete_app e.0 pid ∷ sent)

-- The call of a VM that runs.
unfoldable pub run_syscall :
    ℕ → ℕ → Syscall → VmControlTable → Outcome (VmControlTable × List Event)
unfolding handle_app_termination
run_syscall now i call t =
    let ended = handle_app_termination now call.pid call.vm_id in
    elim call.op_code [
      | exec ↦ ok (t, to_scheduler i call ∷ [])
      | read ↦ ok (t, to_disk call ∷ [])
      | write ↦ ok (t, to_disk call ∷ [])
      | exit ↦ ended app_finished_ok t
      | abort ↦ ended app_finished_error t
      | _ ↦ fault runtime_error
    ]

abbrev pub buffered : Syscall → VmControlTable → Outcome (VmControlTable × List Event)
buffered call t = buffer_call t call.vm_id call >>= λ u. ok (u, [])

-- processSyscallStart
unfoldable pub process_syscall_start :
    ℕ → Syscall → VmControlTable → Outcome (VmControlTable × List Event)
unfolding run_syscall
process_syscall_start now call t = do
  e ← entry t call.vm_id
  suspended ← vm_is_suspended t call.vm_id
  elim suspended [ true ↦ buffered call t | false ↦ run_syscall now e.0 call t ]

-- sendOrBufferToApp
unfoldable pub send_or_buffer_to_app :
    Syscall → VmControlTable → Outcome (VmControlTable × List Event)
send_or_buffer_to_app call t = do
  e ← entry t call.vm_id
  suspended ← vm_is_suspended t call.vm_id
  elim suspended [ true ↦ buffered call t | false ↦ ok (t, to_app e.0 call ∷ []) ]

-- An update of the scheduler on a request that goes on.
abbrev pub is_progress : Syscall → Bool
is_progress call = elim call.is_exec_cpu [
  | true ↦ elim call.is_completed [ true ↦ false | false ↦ true ]
  | false ↦ false
]

-- processSyscallEnd
unfoldable pub process_syscall_end :
    Syscall → VmControlTable → Outcome (VmControlTable × List Event)
unfolding send_or_buffer_to_app
process_syscall_end call t = elim (is_progress call) [
  | true ↦ ok (t, [])
  | false ↦ send_or_buffer_to_app (record call { is_response = true }) t
]
