-- ===== src/ControlTable/Operations.antt =====
-- The operations of src/s2f/os/control/VmControlTable.cc on one entry of the table. Each first checks
-- the bounds of its index by ASSERT2, here a fault.
use simcan2fog.Prelude.{
  ℕ, ◌≡◌, String, Bool, Option, none, some, List, [], ◌∷◌, ◌++◌, get_elem?, set, Outcome, ok, fault,
  failed_assert, undefined, or_fault, check, ◌>>=◌, ◌>>◌, lookup, insert, string_key, nat_key,
  runtime_error,
}
use simcan2fog.ControlTable.{
  Syscall, AppControlBlock, free_app, vm_running, vm_suspended, Pointer, live, null, dangling,
  VmControlBlock, is_running, is_suspended, is_free, free_block, VmControlTable, put_vm, in_bounds,
  first_free_app, allocate_vm,
}
use simcan2fog.UserApp.{UserApp, find_request_index}
use simcan2fog.Resources.{VirtualMachine}

-- The entry of an index, with the index.
abbrev pub entry : VmControlTable → Option ℕ → Outcome (ℕ × VmControlBlock)
entry t id = do i ← in_bounds t.vms id; b ← or_fault (get_elem? t.vms i) undefined; ok (i, b)

abbrev pub put_app : VmControlBlock → ℕ → AppControlBlock → VmControlBlock
put_app b p a = record b { apps = set b.apps p a }

-- The application `p` of the VM `i`.
abbrev pub new_app : ℕ → ℕ → Option ℕ → AppControlBlock
new_app i p deployment = record { pid = some p; vm_id = some i; deployment_index = deployment }

abbrev pub allocate_app_at :
    VmControlTable → ℕ → VmControlBlock → Option ℕ → Option ℕ → VmControlTable × Option ℕ
allocate_app_at t i b deployment none = (t, none)
allocate_app_at t i b deployment (some p) =
    (put_vm t i (put_app b p (new_app i p deployment)), some p)

-- allocateApp
unfoldable pub allocate_app :
    VmControlTable → Option ℕ → Option ℕ → Outcome (VmControlTable × Option ℕ)
unfolding first_free_app
allocate_app t id deployment = do
  e ← entry t id
  check (is_running e.1.state) failed_assert
  ok (allocate_app_at t e.0 e.1 deployment (first_free_app e.1.apps))

-- deallocateVm
unfoldable pub deallocate_vm : VmControlTable → Option ℕ → Outcome VmControlTable
unfolding free_block
deallocate_vm t id = do
  e ← entry t id
  check (is_free e.1.state) failed_assert
  b ← free_block e.1
  ok (put_vm t e.0 b)

-- deallocateApp
unfoldable pub deallocate_app : VmControlTable → Option ℕ → Option ℕ → Outcome VmControlTable
deallocate_app t id app_id = do
  e ← entry t id
  p ← in_bounds e.1.apps app_id
  a ← or_fault (get_elem? e.1.apps p) undefined
  ok (put_vm t e.0 (put_app e.1 p (free_app a)))

-- suspendVm
unfoldable pub suspend_vm : VmControlTable → Option ℕ → Outcome VmControlTable
suspend_vm t id = do
  e ← entry t id
  check (is_running e.1.state) failed_assert
  ok (put_vm t e.0 (record e.1 { state = vm_suspended }))

-- bufferCall
unfoldable pub buffer_call : VmControlTable → Option ℕ → Syscall → Outcome VmControlTable
buffer_call t id call = do
  e ← entry t id
  check (is_suspended e.1.state) failed_assert
  ok (put_vm t e.0 (record e.1 { call_buffer = e.1.call_buffer ++ call ∷ [] }))

-- vmIsSuspended
unfoldable pub vm_is_suspended : VmControlTable → Option ℕ → Outcome Bool
vm_is_suspended t id = entry t id >>= λ e. ok (is_suspended e.1.state)

-- resumeVm. The buffer is returned by reference: here its contents, which also stay in the table.
unfoldable pub resume_vm : VmControlTable → Option ℕ → Outcome (VmControlTable × List Syscall)
resume_vm t id = do
  e ← entry t id
  check (is_suspended e.1.state) failed_assert
  ok (put_vm t e.0 (record e.1 { state = vm_running }), e.1.call_buffer)

-- createMapping
unfoldable pub create_mapping : VmControlTable → String → Option ℕ → Outcome VmControlTable
create_mapping t global id = do
  i ← in_bounds t.vms id
  ok (record t {
    global_to_local = insert global i t.global_to_local;
    local_to_global = insert i global t.local_to_global;
  })

-- getGlobalVmId and getLocalVmId: std::map::at throws on a key that is missing.
unfoldable pub get_global_vm_id : VmControlTable → ℕ → Outcome String
get_global_vm_id t i = or_fault (lookup i t.local_to_global) runtime_error

unfoldable pub get_local_vm_id : VmControlTable → String → Outcome ℕ
get_local_vm_id t global = or_fault (lookup global t.global_to_local) runtime_error

-- associateDeploymentToVm: the pointer that was there is overwritten.
unfoldable pub associate_deployment_to_vm :
    VmControlTable → Option ℕ → UserApp → Outcome VmControlTable
associate_deployment_to_vm t id r = do
  e ← entry t id
  ok (put_vm t e.0 (record e.1 { request = live r }))

abbrev pub deref : Pointer → Outcome UserApp
deref (live r) = ok r
deref null = fault undefined
deref dangling = fault undefined

-- getPidFromServiceName: the place of the service in the request.
unfoldable pub get_pid_from_service_name : VmControlTable → Option ℕ → String → Outcome (Option ℕ)
get_pid_from_service_name t id service = do
  e ← entry t id
  r ← deref e.1.request
  ok (find_request_index service r.apps)

-- The calls that change the table.
pub data Operation : Type 0 where
  op_allocate_vm : Option VirtualMachine → String → Operation
  op_allocate_app : Option ℕ → Option ℕ → Operation
  op_deallocate_vm op_suspend_vm op_resume_vm : Option ℕ → Operation
  op_deallocate_app : Option ℕ → Option ℕ → Operation
  op_buffer_call : Option ℕ → Syscall → Operation
  op_create_mapping : String → Option ℕ → Operation
  op_associate : Option ℕ → UserApp → Operation

unfoldable pub perform : Operation → VmControlTable → Outcome VmControlTable
perform (op_allocate_vm vm user) t = ok (allocate_vm t vm user).0
perform (op_allocate_app id deployment) t = allocate_app t id deployment >>= λ r. ok r.0
perform (op_deallocate_vm id) t = deallocate_vm t id
perform (op_suspend_vm id) t = suspend_vm t id
perform (op_resume_vm id) t = resume_vm t id >>= λ r. ok r.0
perform (op_deallocate_app id app) t = deallocate_app t id app
perform (op_buffer_call id call) t = buffer_call t id call
perform (op_create_mapping global id) t = create_mapping t global id
perform (op_associate id r) t = associate_deployment_to_vm t id r

-- The tables that the calls reach from `s`.
pub data Reachable (s : VmControlTable) : VmControlTable → Type 0 where
  initially : Reachable s s
  after :
      (o : Operation) (t u : VmControlTable) → Reachable s t → perform o t ≡ ok u → Reachable s u
