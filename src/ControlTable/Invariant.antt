-- ===== src/ControlTable/Invariant.antt =====
-- The identifiers in the table agree with the places where they stand.
pub mod Preserved
use simcan2fog.Prelude.{
  ℕ, zero, suc, ◌+◌, ◌≤◌, ◌<◌, ◌≡◌, ◌≢◌, refl, subst, sym, ap, ◌∙◌, ◌⊎◌, inl, inr, String, Bool,
  true, false, Option, none, some, List, [], ◌∷◌, ◌++◌, get_elem?, set, length, replicate, Outcome,
  ok, fault, failed_assert, undefined, or_fault, or_fault-ok, length-set, check, ◌>>=◌, ◌>>◌, ltb,
  lookup, insert, string_key, nat_key, runtime_error, Ensures, Ensures->>=, Ensures-ok, arith,
  Option-cases,
}
use simcan2fog.ControlTable.{
  Syscall, AppControlBlock, free_app, fresh_app, VmState, vm_idle, vm_running, vm_suspended,
  Pointer, live, null, dangling, VmControlBlock, is_running, is_suspended, is_free, free_block,
  delete_request, VmControlTable, put_vm, in_bounds, first_free_app, allocate_vm, allocate_vm_at,
  taken_block, take_entry, initialize_block, initialize, resize, first_free_vm,
}
use simcan2fog.ControlTable.Operations.{
  entry, put_app, new_app, allocate_app, allocate_app_at, deallocate_vm, deallocate_app, suspend_vm,
  buffer_call, resume_vm, create_mapping, associate_deployment_to_vm, Operation, op_allocate_vm,
  op_allocate_app, op_deallocate_vm, op_suspend_vm, op_resume_vm, op_deallocate_app, op_buffer_call,
  op_create_mapping, op_associate, perform, Reachable, initially, after,
}
use simcan2fog.Resources.{VirtualMachine}
use simcan2fog.UserApp.{UserApp}

-- A process has the pid of its place and the id of its VM.
abbrev pub IsApp : ℕ → ℕ → AppControlBlock → Type 0
IsApp i p a = (a.pid ≡ none) ⊎ ((a.pid ≡ some p) × (a.vm_id ≡ some i))

-- What holds of the entry at each place of a list.
abbrev pub Each {ℓ κ} : {A : Type ℓ} → (ℕ → A → Type κ) → ℕ → List A → Type κ
Each P p [] = Unit
Each P p (a ∷ xs) = P p a × Each P (suc p) xs

-- An entry in use has the id of its place and the full number of places for applications.
pub record IsEntry (n i : ℕ) (b : VmControlBlock) : Type 0 where
  pub apps_are : Each (IsApp i) 0 b.apps
  pub in_use : (is_free b.state ≡ true) ⊎ ((b.vm_id ≡ some i) × (length b.apps ≡ n))

abbrev pub IsTable : VmControlTable → Type 0
IsTable t = Each (IsEntry t.num_apps_per_vm) 0 t.vms

module _ {ℓ κ} {A : Type ℓ} (P : ℕ → A → Type κ) where
  pub Each-get_elem? :
      (p : ℕ) (xs : List A) (i : ℕ) (a : A) → Each P p xs → get_elem? xs i ≡ some a → P (p + i) a
  Each-get_elem? p [] i a h e = cc
  Each-get_elem? p (x ∷ xs) zero a h e = subst (λ q. P q a) (omega arith) (subst (P p) (cc) h.0)
  Each-get_elem? p (x ∷ xs) (suc i) a h e =
      subst (λ q. P q a) (omega arith) (Each-get_elem? (suc p) xs i a h.1 e)

  pub Each-set :
      (p : ℕ) (xs : List A) (i : ℕ) (a : A) → Each P p xs → P (p + i) a → Each P p (set xs i a)
  Each-set p [] i a h k = h
  Each-set p (x ∷ xs) zero a h k = (subst (λ q. P q a) (omega arith) k, h.1)
  Each-set p (x ∷ xs) (suc i) a h k =
      (h.0, Each-set (suc p) xs i a h.1 (subst (λ q. P q a) (omega arith) k))

entry-Ensures :
    (t : VmControlTable) (id : Option ℕ)
    → Ensures (λ e. get_elem? t.vms e.0 ≡ some e.1) (entry t id)
entry-Ensures t id =
    Ensures->>= (λ e. get_elem? t.vms e.0 ≡ some e.1) (in_bounds t.vms id) _
      λ i _.
        Ensures->>= (λ e. get_elem? t.vms e.0 ≡ some e.1) (or_fault (get_elem? t.vms i) undefined) _
          λ b k. or_fault-ok (get_elem? t.vms i) undefined b k

pub entry-get_elem? :
    (t : VmControlTable) (id : Option ℕ) (e : ℕ × VmControlBlock)
    → entry t id ≡ ok e
    → get_elem? t.vms e.0 ≡ some e.1
entry-get_elem? t id e h =
    Ensures-ok (λ e. get_elem? t.vms e.0 ≡ some e.1) (entry t id) (entry-Ensures t id) h

pub Ensures-entry {κ} :
    {B : Type 0} (P : B → Type κ) (t : VmControlTable) (id : Option ℕ)
    (f : ℕ × VmControlBlock → Outcome B)
    → ((i : ℕ) (b : VmControlBlock) → get_elem? t.vms i ≡ some b → Ensures P (f (i, b)))
    → Ensures P (entry t id >>= f)
Ensures-entry P t id f h = Ensures->>= P (entry t id) f λ e k. h e.0 e.1 (entry-get_elem? t id e k)

-- A changed entry that agrees with its place keeps the table.
pub put_vm-IsTable :
    (t : VmControlTable) (i : ℕ) (b : VmControlBlock)
    → IsTable t
    → IsEntry t.num_apps_per_vm i b
    → IsTable (put_vm t i b)
put_vm-IsTable t i b w h =
    Each-set (IsEntry t.num_apps_per_vm) 0 t.vms i b w
      (subst (λ j. IsEntry t.num_apps_per_vm j b) (omega arith) h)

pub at-IsEntry :
    (t : VmControlTable) (i : ℕ) (b : VmControlBlock)
    → IsTable t
    → get_elem? t.vms i ≡ some b
    → IsEntry t.num_apps_per_vm i b
at-IsEntry t i b w e =
    subst (λ j. IsEntry t.num_apps_per_vm j b) (omega arith)
      (Each-get_elem? (IsEntry t.num_apps_per_vm) 0 t.vms i b w e)

length-resize : (n : ℕ) (apps : List AppControlBlock) → length (resize n apps) ≡ n
unfolding resize
length-resize zero apps = refl
length-resize (suc n) [] = ap suc (length-resize n [])
length-resize (suc n) (a ∷ apps) = ap suc (length-resize n apps)

resize-Each :
    (i p n : ℕ) (apps : List AppControlBlock)
    → Each (IsApp i) p apps
    → Each (IsApp i) p (resize n apps)
unfolding resize
resize-Each i p zero apps h = tt
resize-Each i p (suc n) [] h = (inl refl, resize-Each i (suc p) n [] tt)
resize-Each i p (suc n) (a ∷ apps) h = (h.0, resize-Each i (suc p) n apps h.1)

taken_block-IsEntry :
    (t : VmControlTable) (vm : Option VirtualMachine) (user : String) (i : ℕ) (b : VmControlBlock)
    → IsEntry t.num_apps_per_vm i b
    → IsEntry t.num_apps_per_vm i (taken_block t vm user i b)
unfolding initialize_block
taken_block-IsEntry t vm user i b w = record {
  apps_are = resize-Each i 0 t.num_apps_per_vm b.apps w.apps_are;
  in_use = inr (refl, length-resize t.num_apps_per_vm b.apps);
}

take_entry-IsTable :
    (t : VmControlTable) (vm : Option VirtualMachine) (user : String) (i : ℕ)
    (o : Option VmControlBlock)
    → IsTable t
    → get_elem? t.vms i ≡ o
    → IsTable (take_entry t vm user i o).0
take_entry-IsTable t vm user i none w e = w
take_entry-IsTable t vm user i (some b) w e =
    put_vm-IsTable t i _ w (taken_block-IsEntry t vm user i b (at-IsEntry t i b w e))

pub allocate_vm_at-IsTable :
    (t : VmControlTable) (vm : Option VirtualMachine) (user : String) (found : Option ℕ)
    → IsTable t
    → IsTable (allocate_vm_at t vm user found).0
allocate_vm_at-IsTable t vm user none w = w
allocate_vm_at-IsTable t vm user (some i) w =
    take_entry-IsTable t vm user i (get_elem? t.vms i) w refl

pub put_app-IsEntry :
    (n i p : ℕ) (b : VmControlBlock) (a : AppControlBlock)
    → IsEntry n i b
    → IsApp i p a
    → IsEntry n i (put_app b p a)
put_app-IsEntry n i p b a w h = record {
  apps_are = Each-set (IsApp i) 0 b.apps p a w.apps_are (subst (λ q. IsApp i q a) (omega arith) h);
  in_use = sized w.in_use;
}
  where
    sized :
        (is_free b.state ≡ true) ⊎ ((b.vm_id ≡ some i) × (length b.apps ≡ n))
        → (is_free b.state ≡ true) ⊎ ((b.vm_id ≡ some i) × (length (set b.apps p a) ≡ n))
    sized (inl f) = inl f
    sized (inr u) = inr (u.0, length-set b.apps p a ∙ u.1)

pub allocate_app_at-IsTable :
    (t : VmControlTable) (i : ℕ) (b : VmControlBlock) (deployment found : Option ℕ)
    → IsTable t
    → IsEntry t.num_apps_per_vm i b
    → IsTable (allocate_app_at t i b deployment found).0
allocate_app_at-IsTable t i b deployment none w h = w
allocate_app_at-IsTable t i b deployment (some p) w h =
    put_vm-IsTable t i _ w (put_app-IsEntry _ i p b _ h (inr (refl, refl)))

-- An entry that stays in use keeps what it agrees on, whatever else of it changes.
pub used :
    (n i : ℕ) (b : VmControlBlock)
    → is_free b.state ≡ false
    → (is_free b.state ≡ true) ⊎ ((b.vm_id ≡ some i) × (length b.apps ≡ n))
    → (b.vm_id ≡ some i) × (length b.apps ≡ n)
used n i b h (inl f) = absurd (cc)
used n i b h (inr u) = u
