-- ===== src/Tests/Accounts.antt =====
-- A user with two VMs, both of which finish.
use simcan2fog.Prelude.{◌≡◌, refl, Name, name_beq, false, List, [], ◌∷◌, ok, arith}
use simcan2fog.ControlTable.{vm_idle, vm_accepted, vm_finished}
use simcan2fog.Users.{CloudUserInstance}
use simcan2fog.Users.Finishing.{
  StatusUpdate, of_vm, of_request, perform_all, IsSettled, perform_all-IsSettled,
}

abbrev first : Name
first = b'a' ∷ []

abbrev second : Name
second = b'b' ∷ []

abbrev user : CloudUserInstance
user = record {
  states = vm_idle ∷ vm_idle ∷ [];
  vm_id_map = (first, 0) ∷ (second, 1) ∷ [];
  num_finished_vms = 0;
  end_time = 0;
  is_finished = false;
}

abbrev all_end : List StatusUpdate
all_end = of_vm second vm_finished 8 ∷ of_vm first vm_finished 9 ∷ []

perform_all-IsSettled_example :
    (v : CloudUserInstance) × (perform_all (of_request vm_accepted 3 ∷ all_end) user ≡ ok v)
    × IsSettled v
unfolding name_beq
perform_all-IsSettled_example =
    perform_all-IsSettled (of_request vm_accepted 3) all_end user refl
      (tt, ((1, refl, omega arith), ((0, refl, omega arith), tt)))
