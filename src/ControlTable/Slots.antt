-- ===== src/ControlTable/Slots.antt =====
-- Which entries of the table the VMs take (src/s2f/os/control/VmControlTable.cc).
pub mod Kept
use simcan2fog.Prelude.{
  ℕ, zero, suc, ◌+◌, ◌≤◌, ◌<◌, ◌≡◌, ◌≢◌, refl, subst, sym, ap, ◌∙◌, ◌⊎◌, inl, inr, String, Bool,
  true, false, Option, none, some, List, [], ◌∷◌, ◌++◌, get_elem?, set, length, replicate, Outcome,
  ok, fault, failed_assert, undefined, or_fault, or_fault-ok, check-ok, length-set, check, ◌>>=◌,
  ◌>>◌, ltb, lt→ltb, lookup, insert, string_key, nat_key, runtime_error, Ensures, Ensures->>=,
  Ensures-ok, arith, Option-cases, Bool-cases, get_elem?-set_self, get_elem?-set_ne, set-set,
  get_elem?-lt, lookup-insert, lookup-insert_ne,
}
use simcan2fog.ControlTable.{
  Syscall, AppControlBlock, free_app, fresh_app, VmState, vm_idle, vm_running, vm_suspended,
  Pointer, live, null, dangling, VmControlBlock, is_running, is_suspended, is_free, free_block,
  get_vm_control_block, delete_request, VmControlTable, put_vm, in_bounds, first_free_app,
  allocate_vm, allocate_vm_at, taken_block, take_entry, initialize_block, initialize, resize,
  first_free_vm,
}
use simcan2fog.ControlTable.Operations.{
  entry, put_app, new_app, allocate_app, allocate_app_at, deallocate_vm, deallocate_app, suspend_vm,
  buffer_call, resume_vm, create_mapping, associate_deployment_to_vm, Operation, op_allocate_vm,
  op_allocate_app, op_deallocate_vm, op_suspend_vm, op_resume_vm, op_deallocate_app, op_buffer_call,
  op_create_mapping, op_associate, perform, vm_is_suspended, get_global_vm_id, get_local_vm_id,
  Reachable, initially, after,
}
use simcan2fog.Resources.{VirtualMachine}
use simcan2fog.UserApp.{UserApp}
use simcan2fog.ControlTable.Invariant.{Ensures-entry}

-- An entry that can be read.
pub entry-at :
    (t : VmControlTable) (i : ℕ) (b : VmControlBlock)
    → get_elem? t.vms i ≡ some b
    → entry t (some i) ≡ ok (i, b)
entry-at t i b h =
    ap
      (λ c. (check c failed_assert >>= λ _. ok i) >>= λ j.
        or_fault (get_elem? t.vms j) undefined >>= λ b. ok (j, b))
      (lt→ltb i (length t.vms) (get_elem?-lt t.vms i b h))
    ∙ ap (λ o. or_fault o undefined >>= λ b. ok (i, b)) h

-- The entry `i` is in use.
pub record IsTaken (t : VmControlTable) (i : ℕ) : Type 0 where
  pub block : VmControlBlock
  pub there : get_elem? t.vms i ≡ some block
  pub taken : is_free block.state ≡ false

-- Every entry below `n` is in use.
abbrev pub TakenBelow : VmControlTable → ℕ → Type 0
TakenBelow t n = (j : ℕ) → j < n → IsTaken t j

abbrev with_vms : List VmControlBlock → VmControlTable
with_vms vms = record { num_apps_per_vm = 0; vms = vms; global_to_local = []; local_to_global = [] }

-- What the search for a free entry finds.
abbrev Found : List VmControlBlock → Option ℕ → Type 0
Found vms none = (j : ℕ) → j < length vms → IsTaken (with_vms vms) j
Found vms (some i) =
    ((b : VmControlBlock) × (get_elem? vms i ≡ some b) × (is_free b.state ≡ true))
    × TakenBelow (with_vms vms) i

later :
    (b : VmControlBlock) (vms : List VmControlBlock) (j : ℕ)
    → IsTaken (with_vms vms) j
    → IsTaken (with_vms (b ∷ vms)) (suc j)
later b vms j h = record { block = h.block; there = h.there; taken = h.taken }

below_suc :
    (b : VmControlBlock) (vms : List VmControlBlock) (n : ℕ)
    → is_free b.state ≡ false
    → TakenBelow (with_vms vms) n
    → TakenBelow (with_vms (b ∷ vms)) (suc n)
below_suc b vms n h below zero k = record { block = b; there = refl; taken = h }
below_suc b vms n h below (suc j) k = later b vms j (below j (omega arith))

first_free_vm-Found : (vms : List VmControlBlock) → Found vms (first_free_vm vms)
unfolding first_free_vm
first_free_vm-Found [] = λ j h. absurd (omega arith)
first_free_vm-Found (b ∷ vms) =
    by_state (is_free b.state) refl (first_free_vm vms) (first_free_vm-Found vms)
  where
    by_state :
        (c : Bool)
        → is_free b.state ≡ c
        → (o : Option ℕ) → Found vms o
        → Found
            (b ∷ vms)
            (elim c [ true ↦ some 0 | false ↦ elim o [ none ↦ none | some i ↦ some (suc i) ] ])
    by_state true e o h = ((b, refl, e), λ j k. absurd (omega arith))
    by_state false e none h = below_suc b vms (length vms) e h
    by_state false e (some i) h = (h.0, below_suc b vms i e h.1)

of_vms : (t : VmControlTable) (j : ℕ) → IsTaken (with_vms t.vms) j → IsTaken t j
of_vms t j h = record { block = h.block; there = h.there; taken = h.taken }

-- The outcome of allocateVm.
abbrev pub Allocates :
    VmControlTable → Option VirtualMachine → String → VmControlTable × Option ℕ → Type 0
Allocates t vm user r =
    ((r ≡ (t, none)) × TakenBelow t (length t.vms))
    ⊎ ((i : ℕ) × (b : VmControlBlock) × (get_elem? t.vms i ≡ some b)
        × (is_free b.state ≡ true)
        × TakenBelow t i
        × (r ≡ (put_vm t i (taken_block t vm user i b), some i)))

-- A VM gets the first entry that is free, and none only when every entry is in use; no other entry
-- changes.
pub allocate_vm_lem :
    (t : VmControlTable) (vm : Option VirtualMachine) (user : String)
    → Allocates t vm user (allocate_vm t vm user)
unfolding allocate_vm
allocate_vm_lem t vm user = by_found (first_free_vm t.vms) (first_free_vm-Found t.vms)
  where
    by_found : (o : Option ℕ) → Found t.vms o → Allocates t vm user (allocate_vm_at t vm user o)
    by_found none h = inl (refl, λ j k. of_vms t j (h j k))
    by_found (some i) h =
        let b = h.0.0 in
        inr (i, b, h.0.1, h.0.2, (λ j k. of_vms t j (h.1 j k)), ap (take_entry t vm user i) h.0.1)
