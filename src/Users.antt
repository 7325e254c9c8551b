-- ===== src/Users.antt =====
-- The VMs of a user in the cloud and whether they are finished
-- (src/s2f/management/dataClasses/Users/CloudUserInstance.{h,cc}). A VM is its state. The number of
-- finished VMs is an int, and `- 1` stops at 0 where that goes on.
pub mod Finishing
use simcan2fog.Prelude.{
  ℕ, zero, suc, ◌-◌, Name, Bool, true, false, List, [], ◌∷◌, length, get_elem?, set, leb, name_key,
  lookup, Outcome, ok, runtime_error, or_fault, ◌>>=◌,
}
use simcan2fog.ControlTable.{VmState, vm_idle, vm_accepted, vm_running, vm_suspended, vm_finished}

pub record CloudUserInstance : Type 0 where
  pub states : List VmState
  pub vm_id_map : List (Name × ℕ)
  pub num_finished_vms : ℕ
  pub end_time : ℕ
  pub is_finished : Bool

-- state == vmFinished
abbrev pub is_vm_finished : VmState → Bool
is_vm_finished vm_idle = false
is_vm_finished vm_accepted = false
is_vm_finished vm_running = false
is_vm_finished vm_suspended = false
is_vm_finished vm_finished = true

-- The number of finished VMs after one of them changes, given whether it was and is finished.
abbrev pub recount : Bool → Bool → ℕ → ℕ
recount false true n = suc n
recount true false n = n - 1
recount true true n = n
recount false false n = n

-- allVmsFinished
abbrev pub all_vms_finished : CloudUserInstance → Bool
all_vms_finished u = leb (length u.states) u.num_finished_vms

-- finish
abbrev pub finish : ℕ → CloudUserInstance → CloudUserInstance
finish now u = record u { end_time = now; is_finished = true }

abbrev pub finish_if : Bool → ℕ → CloudUserInstance → CloudUserInstance
finish_if true now u = finish now u
finish_if false now u = u

-- The end of both updates.
abbrev pub conclude_update : ℕ → CloudUserInstance → CloudUserInstance
conclude_update now u = finish_if (all_vms_finished u) now u

-- updateVmInstanceStatus of a VM, given its place and its state.
abbrev pub update_at : VmState → ℕ → ℕ → CloudUserInstance → VmState → CloudUserInstance
update_at state now i u old = conclude_update now (record u {
  states = set u.states i state;
  num_finished_vms = recount (is_vm_finished old) (is_vm_finished state) u.num_finished_vms;
})

-- updateVmInstanceStatus of a VM: both accesses by at() throw where there is nothing.
unfoldable pub update_vm_instance_status :
    Name → VmState → ℕ → CloudUserInstance → Outcome CloudUserInstance
update_vm_instance_status vm_id state now u =
    or_fault (lookup vm_id u.vm_id_map) runtime_error >>= λ i.
    or_fault (get_elem? u.states i) runtime_error >>= λ old. ok (update_at state now i u old)

-- The loop of updateVmInstanceStatus of a request.
abbrev pub recount_all : VmState → List VmState → ℕ → ℕ
recount_all state [] n = n
recount_all state (old ∷ olds) n =
    recount_all state olds (recount (is_vm_finished old) (is_vm_finished state) n)

abbrev pub set_all : VmState → List VmState → List VmState
set_all state [] = []
set_all state (old ∷ olds) = state ∷ set_all state olds

-- updateVmInstanceStatus of a request: the request is not read.
unfoldable pub update_request_status : VmState → ℕ → CloudUserInstance → CloudUserInstance
update_request_status state now u = conclude_update now (record u {
  states = set_all state u.states;
  num_finished_vms = recount_all state u.states u.num_finished_vms;
})
