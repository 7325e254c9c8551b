-- ===== src/Hypervisor/Commands.antt =====
-- The commands to a hypervisor (src/s2f/os/hypervisors/Hypervisor.cc). The catalogue of the types,
-- the data manager, is a parameter.
use simcan2fog.Prelude.{
  ℕ, zero, suc, String, Bool, true, false, Option, some, List, [], ◌∷◌, ◌++◌, get_elem?, set,
  length, Outcome, ok, fault, runtime_error, undefined, or_fault, ◌>>=◌, ◌>>◌, check,
}
use simcan2fog.Cpu.Scheduler.{set_managed_cpu_cores, set_cpu_core_index, set_is_running}
use simcan2fog.Hardware.{dc_try_allocate_resources, dc_deallocate_resources}
use simcan2fog.Resources.{VirtualMachine}
use simcan2fog.UserApp.{app_finished_timeout, UserApp, AppRequest}
use simcan2fog.ControlTable.{
  Syscall, VmControlTable, get_vm_control_block, allocate_vm, get_app_control_block,
}
use simcan2fog.ControlTable.Operations.{
  allocate_app, deallocate_vm, resume_vm, create_mapping, get_local_vm_id,
  associate_deployment_to_vm, get_pid_from_service_name,
}
use simcan2fog.Hypervisor.{
  Hypervisor, Event, abort_disk_ios, build_app, scheduler_sent, signals, with_table,
  handle_app_termination, process_syscall_start, process_syscall_end,
}

pub record VmRequest : Type 0 where
  pub vm_id : String
  pub vm_type : String

-- The message after the decapsulation; the operation of the source selects the constructor.
pub data Message : Type 0 where
  app_request : UserApp → Message
  vm_request : String → List VmRequest → Message
  vm_extension : String → Bool → Message
  app_settings : String → String → Message
  syscall : Syscall → Message

-- messageIsCommand
abbrev pub message_is_command : Message → Bool
message_is_command (syscall call) = false
message_is_command _ = true

-- The loop of deallocateVmResources over the `left` applications from place `p` on.
unfoldable pub terminate_apps :
    ℕ → ℕ → ℕ → ℕ → VmControlTable → Outcome (VmControlTable × List Event)
unfolding handle_app_termination
terminate_apps now i zero p t = ok (t, [])
terminate_apps now i (suc left) p t = do
  app ← get_app_control_block t (some i) (some p)
  r ← handle_app_termination now app.pid app.vm_id app_finished_timeout t
  s ← terminate_apps now i left (suc p) r.0
  ok (s.0, r.1 ++ s.1)

-- The part of deallocateVmResources for a node with virtual hardware: the type of the VM is read
-- from the entry after it has been freed.
unfoldable pub release_hardware : ℕ → ℕ → Hypervisor → Outcome (Hypervisor × List Event)
release_hardware now i h = do
  b ← get_vm_control_block h.table (some i)
  s ← or_fault (get_elem? h.schedulers i) runtime_error
  vm ← or_fault b.vm_type undefined
  index ← or_fault s.cpu_core_index undefined
  r ← dc_deallocate_resources h.has_listeners h.node_id now vm index (h.cores, h.pool)
  stopped ← set_is_running s false
  ok (
    record h { cores = r.0; pool = r.1; schedulers = set h.schedulers i stopped.0 },
    signals r.2 ∷ scheduler_sent stopped.1 ∷ abort_disk_ios i ∷ [],
  )

-- deallocateVmResources
unfoldable pub deallocate_vm_resources : ℕ → ℕ → Hypervisor → Outcome (Hypervisor × List Event)
unfolding terminate_apps release_hardware
deallocate_vm_resources now i h = do
  b ← get_vm_control_block h.table (some i)
  r ← terminate_apps now i (length b.apps) 0 h.table
  t ← deallocate_vm r.0 (some i)
  let freed = with_table h t
  let released = release_hardware now i freed
  elim h.is_virtual_hardware [
    | false ↦ ok (freed, r.1)
    | true ↦ released >>= λ s. ok (s.0, r.1 ++ s.1)
  ]

abbrev pub handle_syscall : ℕ → Syscall → VmControlTable → Outcome (VmControlTable × List Event)
handle_syscall now call t = elim call.is_response [
  | true ↦ process_syscall_end call t
  | false ↦ process_syscall_start now call t
]

-- cQueue::pop, an error on an empty queue.
abbrev pub pop_call : List Syscall → Outcome (Syscall × List Syscall)
pop_call [] = fault runtime_error
pop_call (c ∷ calls) = ok (c, calls)

abbrev pub buffer_is_empty : List Syscall → Bool
buffer_is_empty [] = true
buffer_is_empty (c ∷ calls) = false

-- The loop over the buffer of handleVmExtension, with fuel for its turns. It runs while the buffer is
-- empty, and pop is an error then, so that one turn is enough.
unfoldable pub drain : ℕ → ℕ → VmControlTable × List Syscall → Outcome (VmControlTable × List Event)
drain now zero (t, calls) = fault undefined
drain now (suc turns) (t, calls) = elim (buffer_is_empty calls) [
  | true ↦ pop_call calls >>= λ popped. handle_syscall now popped.0 t >>= λ r.
      drain now turns (r.0, popped.1) >>= (λ rest. ok (rest.0, r.1 ++ rest.1))
  | false ↦ ok (t, [])
]

-- handleVmExtension
unfoldable pub handle_vm_extension :
    ℕ → String → Bool → Hypervisor → Outcome (Hypervisor × List Event)
unfolding deallocate_vm_resources drain
handle_vm_extension now global accepted h = do
  i ← get_local_vm_id h.table global
  let resumed = resume_vm h.table (some i) >>= drain now 1
  let refused = deallocate_vm_resources now i h
  elim accepted [ true ↦ resumed >>= λ r. ok (with_table h r.0, r.1) | false ↦ refused ]

abbrev pub on_table :
    Hypervisor → Outcome (VmControlTable × List Event) → Outcome (Hypervisor × List Event)
on_table h m = m >>= λ r. ok (with_table h r.0, r.1)

module _ (app_is_known : String → Bool) (search_vm : String → Option VirtualMachine) where
  -- The loop of handleAppRequest, from the application at place `k` on.
  unfoldable pub start_apps :
      ℕ → ℕ → List AppRequest → VmControlTable → Outcome (VmControlTable × List Event)
  start_apps i k [] t = ok (t, [])
  start_apps i k (a ∷ apps) t = do
    check (app_is_known a.app_type) runtime_error
    r ← allocate_app t (some i) (some k)
    s ← start_apps i (suc k) apps r.0
    ok (s.0, build_app i r.1 ∷ s.1)

  -- handleAppRequest
  unfoldable pub handle_app_request : UserApp → Hypervisor → Outcome (Hypervisor × List Event)
  unfolding start_apps
  handle_app_request r h = do
    i ← get_local_vm_id h.table r.vm_id
    t ← associate_deployment_to_vm h.table (some i) r
    s ← start_apps i 0 r.apps t
    ok (with_table h s.0, s.1)

  -- One turn of the loop of handleVmRequest. The scheduler of an id of -1 is out of range.
  unfoldable pub start_vm : ℕ → String → VmRequest → Hypervisor → Outcome (Hypervisor × List Event)
  start_vm now user v h = do
    vm ← or_fault (search_vm v.vm_type) undefined
    r ← dc_try_allocate_resources now vm h.cores
    let a = allocate_vm h.table (some vm) user
    t ← create_mapping a.0 v.vm_id a.1
    i ← or_fault a.1 runtime_error
    s ← or_fault (get_elem? h.schedulers i) runtime_error
    managed ← set_managed_cpu_cores s vm.num_cores
    started ← set_is_running (set_cpu_core_index managed r.1) true
    ok (
      record h { table = t; cores = r.0; schedulers = set h.schedulers i started.0 },
      scheduler_sent started.1 ∷ [],
    )

  unfoldable pub start_vms :
      ℕ → String → List VmRequest → Hypervisor → Outcome (Hypervisor × List Event)
  unfolding start_vm
  start_vms now user [] h = ok (h, [])
  start_vms now user (v ∷ vms) h = do
    r ← start_vm now user v h
    s ← start_vms now user vms r.0
    ok (s.0, r.1 ++ s.1)

  -- handleVmRequest
  unfoldable pub handle_vm_request :
      ℕ → String → List VmRequest → Hypervisor → Outcome (Hypervisor × List Event)
  unfolding start_vms
  handle_vm_request now user vms h = do
    check h.is_virtual_hardware runtime_error
    start_vms now user vms h

  -- handleMessage and processCommand. The settings of an application are set on its module.
  unfoldable pub handle_message : ℕ → Message → Hypervisor → Outcome (Hypervisor × List Event)
  unfolding handle_app_request handle_vm_request handle_vm_extension process_syscall_start
      process_syscall_end
  handle_message now (app_request r) h = handle_app_request r h
  handle_message now (vm_request user vms) h = handle_vm_request now user vms h
  handle_message now (vm_extension global accepted) h = handle_vm_extension now global accepted h
  handle_message now (app_settings global service) h = do
    i ← get_local_vm_id h.table global
    pid ← get_pid_from_service_name h.table (some i) service
    ok (h, [])
  handle_message now (syscall call) h = on_table h (handle_syscall now call h.table)
