-- ===== src/ControlTable.antt =====
-- The table of the VMs of a node (src/s2f/os/control/VmControlTable.cc and .h, ControlEntries.cc
-- and .h) and the system call messages that it keeps (src/s2f/messages/Syscall.msg). An int that
-- is an index is an optional number: `none` is a negative one.

pub mod Operations
pub mod Invariant
pub mod Slots
pub mod Buffer
use simcan2fog.Prelude.{
  ℕ, zero, suc, String, Bool, true, false, Option, none, some, List, [], ◌∷◌, ◌++◌, map, get_elem?,
  set, length, replicate, ltb, Outcome, ok, fault, failed_assert, undefined, runtime_error,
  or_fault, check, ◌>>=◌, ◌>>◌, lookup, insert, string_key, nat_key,
}
use simcan2fog.Resources.{VirtualMachine}
use simcan2fog.UserApp.{UserApp, find_request_index}

-- SyscallCode
pub data SyscallCode : Type 0 where
  read write exec open_cli open_serv resolve send_data recv close exit abort : SyscallCode

-- The fields of Syscall, and those of SM_CPU_Message: `is_exec_cpu` is the operation SM_ExecCpu.
pub record Syscall : Type 0 where
  pub pid : Option ℕ
  pub vm_id : Option ℕ
  pub op_code : SyscallCode
  pub is_response : Bool
  pub is_exec_cpu : Bool
  pub is_completed : Bool

pub record AppControlBlock : Type 0 where
  pub pid : Option ℕ
  pub vm_id : Option ℕ
  pub deployment_index : Option ℕ

abbrev pub fresh_app : AppControlBlock
fresh_app = record { pid = none; vm_id = none; deployment_index = none }

-- AppControlBlock::free keeps all but the pid.
abbrev pub free_app : AppControlBlock → AppControlBlock
free_app a = record a { pid = none }

abbrev pub app_is_free : AppControlBlock → Bool
app_is_free a = elim a.pid [ none ↦ true | some p ↦ false ]

-- tVmState
pub data VmState : Type 0 where
  vm_idle vm_accepted vm_running vm_suspended vm_finished : VmState

-- A pointer to a deployment. `dangling` is one whose object is deleted.
pub data Pointer : Type 0 where
  null dangling : Pointer
  live : UserApp → Pointer

-- `vm_id` is `none` until it is first written, and the null user id is the empty string.
pub record VmControlBlock : Type 0 where
  pub vm_id : Option ℕ
  pub state : VmState
  pub vm_type : Option VirtualMachine
  pub user_id : String
  pub apps : List AppControlBlock
  pub call_buffer : List Syscall
  pub request : Pointer

abbrev pub is_running : VmState → Bool
is_running vm_running = true
is_running _ = false

abbrev pub is_suspended : VmState → Bool
is_suspended vm_suspended = true
is_suspended _ = false

abbrev pub is_free : VmState → Bool
is_free vm_idle = true
is_free _ = false

-- std::vector::resize: cut, or padded with fresh entries.
unfoldable pub resize : ℕ → List AppControlBlock → List AppControlBlock
resize zero apps = []
resize (suc n) [] = fresh_app ∷ resize n []
resize (suc n) (a ∷ apps) = a ∷ resize n apps

-- VmControlBlock::initialize: the buffer of calls stays.
unfoldable pub initialize_block :
    ℕ → Option VirtualMachine → String → ℕ → VmControlBlock → VmControlBlock
initialize_block vm_id vm user n b = record b {
  vm_id = some vm_id;
  vm_type = vm;
  user_id = user;
  state = vm_idle;
  request = null;
  apps = resize n b.apps;
}

-- `delete request`, after which the pointer dangles. A second delete is undefined.
abbrev pub delete_request : Pointer → Outcome Pointer
delete_request null = ok null
delete_request (live r) = ok dangling
delete_request dangling = fault undefined

-- VmControlBlock::free
unfoldable pub free_block : VmControlBlock → Outcome VmControlBlock
free_block b = do
  request ← delete_request b.request
  ok (record b { state = vm_idle; vm_type = none; call_buffer = []; apps = []; request = request })

pub record VmControlTable : Type 0 where
  pub num_apps_per_vm : ℕ
  pub vms : List VmControlBlock
  pub global_to_local : List (String × ℕ)
  pub local_to_global : List (ℕ × String)

abbrev fresh_block : ℕ → VmControlBlock
fresh_block n = record {
  vm_id = none;
  state = vm_idle;
  vm_type = none;
  user_id = "";
  apps = replicate n fresh_app;
  call_buffer = [];
  request = null;
}

-- initialize, with the parameters numVMs and numAppsPerVm.
abbrev pub initialize : ℕ → ℕ → VmControlTable
initialize num_vms n = record {
  num_apps_per_vm = n;
  vms = replicate num_vms (fresh_block n);
  global_to_local = [];
  local_to_global = [];
}

abbrev pub finish : VmControlTable → VmControlTable
finish t = record t { vms = []; global_to_local = []; local_to_global = [] }

-- The first free entry of the table.
unfoldable pub first_free_vm : List VmControlBlock → Option ℕ
first_free_vm [] = none
first_free_vm (b ∷ vms) =
    let rest = first_free_vm vms in
    elim (is_free b.state) [
      | true ↦ some 0
      | false ↦ elim rest [ none ↦ none | some i ↦ some (suc i) ]
    ]

abbrev pub put_vm : VmControlTable → ℕ → VmControlBlock → VmControlTable
put_vm t i b = record t { vms = set t.vms i b }

-- The entry that `i` finds, initialized and running.
abbrev pub taken_block :
    VmControlTable → Option VirtualMachine → String → ℕ → VmControlBlock → VmControlBlock
taken_block t vm user i b = record (initialize_block i vm user t.num_apps_per_vm b) {
  state = vm_running;
}

abbrev pub take_entry :
    VmControlTable
    → Option VirtualMachine
    → String
    → ℕ
    → Option VmControlBlock
    → VmControlTable × Option ℕ
take_entry t vm user i none = (t, none)
take_entry t vm user i (some b) = (put_vm t i (taken_block t vm user i b), some i)

abbrev pub allocate_vm_at :
    VmControlTable → Option VirtualMachine → String → Option ℕ → VmControlTable × Option ℕ
allocate_vm_at t vm user none = (t, none)
allocate_vm_at t vm user (some i) = take_entry t vm user i (get_elem? t.vms i)

-- allocateVm
unfoldable pub allocate_vm :
    VmControlTable → Option VirtualMachine → String → VmControlTable × Option ℕ
unfolding first_free_vm initialize_block
allocate_vm t vm user = allocate_vm_at t vm user (first_free_vm t.vms)

-- The bounds that ASSERT2 checks first in each of the following.
abbrev pub in_bounds {ℓ} : {A : Type ℓ} → List A → Option ℕ → Outcome ℕ
in_bounds xs none = fault failed_assert
in_bounds xs (some i) = check (ltb i (length xs)) failed_assert >>= λ _. ok i

-- getVmControlBlock
unfoldable pub get_vm_control_block : VmControlTable → Option ℕ → Outcome VmControlBlock
get_vm_control_block t id = in_bounds t.vms id >>= λ i. or_fault (get_elem? t.vms i) undefined

-- getAppControlBlock
unfoldable pub get_app_control_block :
    VmControlTable → Option ℕ → Option ℕ → Outcome AppControlBlock
unfolding get_vm_control_block
get_app_control_block t vm_id app_id = do
  b ← get_vm_control_block t vm_id
  p ← in_bounds b.apps app_id
  or_fault (get_elem? b.apps p) undefined

unfoldable pub first_free_app : List AppControlBlock → Option ℕ
first_free_app [] = none
first_free_app (a ∷ apps) =
    let rest = first_free_app apps in
    elim (app_is_free a) [
      | true ↦ some 0
      | false ↦ elim rest [ none ↦ none | some i ↦ some (suc i) ]
    ]
