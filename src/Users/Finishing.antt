-- ===== src/Users/Finishing.antt =====
-- When the VMs of a user are finished (CloudUserInstance.cc).
use simcan2fog.Prelude.{
  ℕ, zero, suc, ◌+◌, ◌≡◌, ◌≤◌, ◌<◌, refl, ap, sym, subst, ◌∙◌, Name, Bool, true, false, some, List,
  [], ◌∷◌, length, get_elem?, set, leb, name_key, lookup, Outcome, ok, runtime_error, or_fault,
  ◌>>=◌, length-set, arith,
}
use simcan2fog.ControlTable.{VmState}
use simcan2fog.Users.{
  CloudUserInstance, is_vm_finished, recount, all_vms_finished, conclude_update, finish_if,
  update_at, update_vm_instance_status, recount_all, set_all, update_request_status,
}

abbrev pub one_if : Bool → ℕ
one_if true = 1
one_if false = 0

abbrev pub finished_count : List VmState → ℕ
finished_count [] = 0
finished_count (s ∷ ss) = one_if (is_vm_finished s) + finished_count ss

finished_count-le : (ss : List VmState) → finished_count ss ≤ length ss
finished_count-le [] = omega arith
finished_count-le (s ∷ ss) = by_state (is_vm_finished s) (finished_count-le ss)
  where
    by_state :
        (b : Bool) → finished_count ss ≤ length ss → one_if b + finished_count ss ≤ suc (length ss)
    by_state true h = omega (arith, h)
    by_state false h = omega (arith, h)

-- A VM that was counted as `b` and is now counted as `c`.
recount-one_if : (b c : Bool) (n : ℕ) → recount b c (one_if b + n) ≡ one_if c + n
recount-one_if true true n = refl
recount-one_if true false n = omega arith
recount-one_if false true n = omega arith
recount-one_if false false n = refl

recount-add : (b c : Bool) (k n : ℕ) → one_if b ≤ n → recount b c (k + n) ≡ k + recount b c n
recount-add true true k n h = refl
recount-add true false k n h = omega (arith, h)
recount-add false true k n h = omega arith
recount-add false false k n h = refl

one_if-le :
    (ss : List VmState) (i : ℕ) (old : VmState)
    → get_elem? ss i ≡ some old
    → one_if (is_vm_finished old) ≤ finished_count ss
one_if-le [] i old h = cc
one_if-le (r ∷ ss) zero old h =
    subst (λ s. one_if (is_vm_finished s) ≤ one_if (is_vm_finished r) + finished_count ss)
      (let e : r ≡ old = cc in e) (omega arith)
one_if-le (r ∷ ss) (suc i) old h = let rest = one_if-le ss i old h in omega (arith, rest)

recount-set :
    (ss : List VmState) (i : ℕ) (old s : VmState)
    → get_elem? ss i ≡ some old
    → recount (is_vm_finished old) (is_vm_finished s) (finished_count ss)
      ≡ finished_count (set ss i s)
recount-set [] i old s h = cc
recount-set (r ∷ ss) zero old s h =
    subst
      (λ q.
        recount (is_vm_finished q) (is_vm_finished s)
          (one_if (is_vm_finished r) + finished_count ss)
        ≡ one_if (is_vm_finished s) + finished_count ss)
      (let e : r ≡ old = cc in e)
      (recount-one_if (is_vm_finished r) (is_vm_finished s) (finished_count ss))
recount-set (r ∷ ss) (suc i) old s h =
    recount-add (is_vm_finished old) (is_vm_finished s) (one_if (is_vm_finished r))
      (finished_count ss) (one_if-le ss i old h)
    ∙ ap (λ n. one_if (is_vm_finished r) + n) (recount-set ss i old s h)

recount_all-set_all :
    (ss : List VmState) (s : VmState) (n m : ℕ)
    → m ≡ finished_count ss + n
    → recount_all s ss m ≡ finished_count (set_all s ss) + n
recount_all-set_all [] s n m h = h
recount_all-set_all (r ∷ ss) s n m h =
    recount_all-set_all ss s (one_if (is_vm_finished s) + n)
      (recount (is_vm_finished r) (is_vm_finished s) m)
      (ap (recount (is_vm_finished r) (is_vm_finished s)) (h ∙ omega arith)
        ∙ recount-one_if (is_vm_finished r) (is_vm_finished s) (finished_count ss + n)
        ∙ omega arith)
    ∙ omega arith

-- The number is that of the finished VMs, and when it is that of all, the user is finished.
pub record IsSettled (u : CloudUserInstance) : Type 0 where
  pub counted : u.num_finished_vms ≡ finished_count u.states
  pub flagged : finished_count u.states ≡ length u.states → u.is_finished ≡ true

-- The same VMs under the same names.
pub record IsSameUser (u v : CloudUserInstance) : Type 0 where
  pub same_map : v.vm_id_map ≡ u.vm_id_map
  pub same_number : length v.states ≡ length u.states

conclude_update-IsSettled :
    (now : ℕ) (u : CloudUserInstance)
    → u.num_finished_vms ≡ finished_count u.states
    → IsSettled (conclude_update now u) × IsSameUser u (conclude_update now u)
conclude_update-IsSettled now u h = by_number (all_vms_finished u) refl
  where
    by_number :
        (b : Bool)
        → leb (length u.states) u.num_finished_vms ≡ b
        → IsSettled (finish_if b now u) × IsSameUser u (finish_if b now u)
    by_number true e = (
      record { counted = h; flagged = λ all. refl },
      record { same_map = refl; same_number = refl },
    )
    by_number false e = (
      record {
        counted = h;
        flagged = λ all.
            let t : leb (length u.states) u.num_finished_vms ≡ true =
              (let le : length u.states ≤ u.num_finished_vms = omega arith in ground arith) in
            let c : true ≡ false = sym t ∙ e in cc;
      },
      record { same_map = refl; same_number = refl },
    )

length-set_all : (s : VmState) (ss : List VmState) → length (set_all s ss) ≡ length ss
length-set_all s [] = refl
length-set_all s (r ∷ ss) = ap suc (length-set_all s ss)

-- A call of updateVmInstanceStatus, of a VM or of a request, with the time it is at.
pub data StatusUpdate : Type 0 where
  of_vm : Name → VmState → ℕ → StatusUpdate
  of_request : VmState → ℕ → StatusUpdate

abbrev pub perform : StatusUpdate → CloudUserInstance → Outcome CloudUserInstance
perform (of_vm vm_id s now) u = update_vm_instance_status vm_id s now u
perform (of_request s now) u = ok (update_request_status s now u)

abbrev pub perform_all : List StatusUpdate → CloudUserInstance → Outcome CloudUserInstance
perform_all [] u = ok u
perform_all (x ∷ xs) u = perform x u >>= perform_all xs

-- The name of the VM leads to one of the `n` places.
abbrev pub Names : List (Name × ℕ) → ℕ → StatusUpdate → Type 0
Names m n (of_vm vm_id s now) = (i : ℕ) × (lookup vm_id m ≡ some i) × (i < n)
Names m n (of_request s now) = Unit

abbrev pub AllNames : List (Name × ℕ) → ℕ → List StatusUpdate → Type 0
AllNames m n [] = Unit
AllNames m n (x ∷ xs) = Names m n x × AllNames m n xs

get_elem?-below :
    (ss : List VmState) (i : ℕ) → i < length ss → (s : VmState) × (get_elem? ss i ≡ some s)
get_elem?-below [] i h = absurd (omega arith)
get_elem?-below (s ∷ ss) zero h = (s, refl)
get_elem?-below (s ∷ ss) (suc i) h = get_elem?-below ss i (omega arith)

perform-IsSettled :
    (x : StatusUpdate) (u : CloudUserInstance)
    → u.num_finished_vms ≡ finished_count u.states
    → Names u.vm_id_map (length u.states) x
    → (v : CloudUserInstance) × (perform x u ≡ ok v) × IsSettled v × IsSameUser u v
unfolding update_vm_instance_status update_request_status
perform-IsSettled (of_vm vm_id s now) u h (i, known, inside) =
    let (old, there) = get_elem?-below u.states i inside in
    let w : CloudUserInstance = record u {
      states = set u.states i s;
      num_finished_vms = recount (is_vm_finished old) (is_vm_finished s) u.num_finished_vms;
    } in
    let (settled, same) = conclude_update-IsSettled now w (
      ap (recount (is_vm_finished old) (is_vm_finished s)) h
      ∙ recount-set u.states i old s there) in
    (
      conclude_update now w,
      ap
            (λ o. or_fault o runtime_error >>= λ i.
              or_fault (get_elem? u.states i) runtime_error >>= λ old. ok (update_at s now i u old))
            known
          ∙ ap (λ o. or_fault o runtime_error >>= λ old. ok (update_at s now i u old)) there,
      settled,
      record { same_map = same.same_map; same_number = same.same_number ∙ length-set u.states i s },
    )
perform-IsSettled (of_request s now) u h named =
    let w : CloudUserInstance = record u {
      states = set_all s u.states;
      num_finished_vms = recount_all s u.states u.num_finished_vms;
    } in
    let (settled, same) =
      conclude_update-IsSettled now w
        (recount_all-set_all u.states s 0 u.num_finished_vms (h ∙ omega arith) ∙ omega arith) in
    (
      conclude_update now w,
      refl,
      settled,
      record {
        same_map = same.same_map;
        same_number = same.same_number ∙ length-set_all s u.states;
      },
    )

-- Whatever calls update the states of the VMs of a user, where the number of finished VMs is right at
-- first and the names of the VMs lead to places: all succeed, the number is kept right, and after the
-- last of them the user is finished if all its VMs are.
pub perform_all-IsSettled :
    (x : StatusUpdate) (xs : List StatusUpdate) (u : CloudUserInstance)
    → u.num_finished_vms ≡ finished_count u.states
    → AllNames u.vm_id_map (length u.states) (x ∷ xs)
    → (v : CloudUserInstance) × (perform_all (x ∷ xs) u ≡ ok v) × IsSettled v
perform_all-IsSettled x [] u h (named, rest) =
    let (v, e, settled, same) = perform-IsSettled x u h named in
    (v, ap (λ o. o >>= λ w. ok w) e, settled)
perform_all-IsSettled x (y ∷ ys) u h (named, rest) =
    let (v, e, settled, same) = perform-IsSettled x u h named in
    let (w, f, ends) = perform_all-IsSettled y ys v settled.counted (
      subst (λ m. AllNames m (length v.states) (y ∷ ys)) (sym same.same_map)
        (subst (λ n. AllNames u.vm_id_map n (y ∷ ys)) (sym same.same_number) rest)) in
    (w, ap (λ o. o >>= perform_all (y ∷ ys)) e ∙ f, ends)
