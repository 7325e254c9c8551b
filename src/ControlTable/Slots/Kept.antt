-- ===== src/ControlTable/Slots/Kept.antt =====
-- An entry that is in use stays in use (src/s2f/os/control/VmControlTable.cc).
use simcan2fog.Prelude.{
  ℕ, ◌≡◌, refl, sym, ap, ◌∙◌, inl, inr, String, false, Option, none, some, List, get_elem?, set, ok,
  fault, failed_assert, undefined, or_fault, check-ok, check, ◌>>=◌, string_key, nat_key, Ensures,
  Ensures->>=, Ensures-ok, arith, Bool-cases, ◌==◌, ==_iff, get_elem?-set_self, get_elem?-set_ne,
}
use simcan2fog.ControlTable.{
  VmControlBlock, is_running, is_suspended, is_free, free_block, VmControlTable, put_vm, in_bounds,
  first_free_app, allocate_vm, allocate_vm_at, taken_block, take_entry, first_free_vm,
}
use simcan2fog.ControlTable.Operations.{
  allocate_app, allocate_app_at, deallocate_vm, deallocate_app, suspend_vm, buffer_call, resume_vm,
  create_mapping, associate_deployment_to_vm, Operation, op_allocate_vm, op_allocate_app,
  op_deallocate_vm, op_suspend_vm, op_resume_vm, op_deallocate_app, op_buffer_call,
  op_create_mapping, op_associate, perform, Reachable, initially, after,
}
use simcan2fog.Resources.{VirtualMachine}
use simcan2fog.ControlTable.Invariant.{Ensures-entry}
use simcan2fog.ControlTable.Slots.{entry-at, IsTaken}

block_unique :
    (vms : List VmControlBlock) (i j : ℕ) (b c : VmControlBlock)
    → get_elem? vms i ≡ some b
    → get_elem? vms j ≡ some c
    → i ≡ j
    → is_free b.state ≡ false
    → is_free c.state ≡ false
block_unique vms i j b c h k same f =
    let at : some b ≡ some c = sym h ∙ ap (get_elem? vms) same ∙ k in
    let e : b ≡ c = cc in ap (λ d. is_free d.state) (sym e) ∙ f

module _ (t : VmControlTable) (i : ℕ) (k : IsTaken t i) where
  pub same_entry :
      (j : ℕ) (b : VmControlBlock) → get_elem? t.vms j ≡ some b → i ≡ j → is_free b.state ≡ false
  same_entry j b e same = block_unique t.vms i j k.block b k.there e same k.taken

  -- A write elsewhere, or of an entry that is in use, keeps the entry in use.
  pub put_vm-IsTaken :
      (j : ℕ) (c : VmControlBlock) → (i ≡ j → is_free c.state ≡ false) → IsTaken (put_vm t j c) i
  put_vm-IsTaken j c h = elim (Bool-cases (i == j)) [
    | inl e ↦
        let same = (==_iff i j).0 e in
        record {
          block = c;
          there =
              ap (λ n. get_elem? (set t.vms n c) i) (sym same)
              ∙ get_elem?-set_self t.vms i k.block c k.there;
          taken = h same;
        }
    | inr e ↦ record {
      block = k.block;
      there = get_elem?-set_ne t.vms j i c (λ p. absurd (ground (arith, e, p))) ∙ k.there;
      taken = k.taken;
    }
  ]

  deallocate_vm-IsTaken : (id : Option ℕ) → Ensures (λ u. IsTaken u i) (deallocate_vm t id)
  unfolding deallocate_vm
  deallocate_vm-IsTaken id =
      Ensures-entry (λ u. IsTaken u i) t id _
        λ j b e.
          Ensures->>= (λ u. IsTaken u i) (check (is_free b.state) failed_assert) _
            λ u free.
              Ensures->>= (λ u. IsTaken u i) (free_block b) _
                λ c f.
                  put_vm-IsTaken j c
                    λ same. absurd (ground (arith, same_entry j b e same, check-ok _ _ u free))

  take_entry-IsTaken :
      (vm : Option VirtualMachine) (user : String) (j : ℕ) (o : Option VmControlBlock)
      → IsTaken (take_entry t vm user j o).0 i
  take_entry-IsTaken vm user j none = k
  take_entry-IsTaken vm user j (some b) = put_vm-IsTaken j (taken_block t vm user j b) λ _. refl

  allocate_vm_at-IsTaken :
      (vm : Option VirtualMachine) (user : String) (found : Option ℕ)
      → IsTaken (allocate_vm_at t vm user found).0 i
  allocate_vm_at-IsTaken vm user none = k
  allocate_vm_at-IsTaken vm user (some j) = take_entry-IsTaken vm user j (get_elem? t.vms j)

  allocate_app_at-IsTaken :
      (j : ℕ) (b : VmControlBlock) (deployment found : Option ℕ)
      → get_elem? t.vms j ≡ some b
      → IsTaken (allocate_app_at t j b deployment found).0 i
  allocate_app_at-IsTaken j b deployment none e = k
  allocate_app_at-IsTaken j b deployment (some p) e = put_vm-IsTaken j _ (same_entry j b e)

  allocate_app-IsTaken :
      (id deployment : Option ℕ) → Ensures (λ r. IsTaken r.0 i) (allocate_app t id deployment)
  unfolding allocate_app
  allocate_app-IsTaken id deployment =
      Ensures-entry (λ r. IsTaken r.0 i) t id _
        λ j b e.
          Ensures->>= (λ r. IsTaken r.0 i) (check (is_running b.state) failed_assert) _
            λ _ _. allocate_app_at-IsTaken j b deployment (first_free_app b.apps) e

  resume_vm-IsTaken : (id : Option ℕ) → Ensures (λ r. IsTaken r.0 i) (resume_vm t id)
  unfolding resume_vm
  resume_vm-IsTaken id =
      Ensures-entry (λ r. IsTaken r.0 i) t id _
        λ j b e.
          Ensures->>= (λ r. IsTaken r.0 i) (check (is_suspended b.state) failed_assert) _
            λ _ _. put_vm-IsTaken j _ λ _. refl

  pub deallocate_app-IsTaken :
      (id app : Option ℕ) → Ensures (λ u. IsTaken u i) (deallocate_app t id app)
  unfolding deallocate_app
  deallocate_app-IsTaken id app =
      Ensures-entry (λ u. IsTaken u i) t id _
        λ j b e.
          Ensures->>= (λ u. IsTaken u i) (in_bounds b.apps app) _
            λ p _.
              Ensures->>= (λ u. IsTaken u i) (or_fault (get_elem? b.apps p) undefined) _
                λ a _. put_vm-IsTaken j _ (same_entry j b e)

  perform-IsTaken : (o : Operation) → Ensures (λ u. IsTaken u i) (perform o t)
  unfolding perform allocate_vm suspend_vm buffer_call create_mapping associate_deployment_to_vm
  perform-IsTaken (op_allocate_vm vm user) = allocate_vm_at-IsTaken vm user (first_free_vm t.vms)
  perform-IsTaken (op_allocate_app id deployment) =
      Ensures->>= (λ u. IsTaken u i) (allocate_app t id deployment) _
        λ r e.
          Ensures-ok (λ r. IsTaken r.0 i) (allocate_app t id deployment)
            (allocate_app-IsTaken id deployment) e
  perform-IsTaken (op_deallocate_vm id) = deallocate_vm-IsTaken id
  perform-IsTaken (op_suspend_vm id) =
      Ensures-entry (λ u. IsTaken u i) t id _
        λ j b e.
          Ensures->>= (λ u. IsTaken u i) (check (is_running b.state) failed_assert) _
            λ _ _. put_vm-IsTaken j _ λ _. refl
  perform-IsTaken (op_resume_vm id) =
      Ensures->>= (λ u. IsTaken u i) (resume_vm t id) _
        λ r e. Ensures-ok (λ r. IsTaken r.0 i) (resume_vm t id) (resume_vm-IsTaken id) e
  perform-IsTaken (op_deallocate_app id app) = deallocate_app-IsTaken id app
  perform-IsTaken (op_buffer_call id call) =
      Ensures-entry (λ u. IsTaken u i) t id _
        λ j b e.
          Ensures->>= (λ u. IsTaken u i) (check (is_suspended b.state) failed_assert) _
            λ _ _. put_vm-IsTaken j _ (same_entry j b e)
  perform-IsTaken (op_create_mapping global id) =
      Ensures->>= (λ u. IsTaken u i) (in_bounds t.vms id) _
        λ j _. record { block = k.block; there = k.there; taken = k.taken }
  perform-IsTaken (op_associate id r) =
      Ensures-entry (λ u. IsTaken u i) t id _ λ j b e. put_vm-IsTaken j _ (same_entry j b e)

  pub deallocate_vm-faults : deallocate_vm t (some i) ≡ fault failed_assert
  unfolding deallocate_vm
  deallocate_vm-faults =
      ap
        (λ m. m >>= λ e. check (is_free e.1.state) failed_assert >>= λ _.
          free_block e.1 >>= λ b. ok (put_vm t e.0 b))
        (entry-at t i k.block k.there)
      ∙ ap (λ c. check c failed_assert >>= λ _. free_block k.block >>= λ b. ok (put_vm t i b))
          k.taken

-- Once a VM is in an entry of the table, no sequence of calls frees the entry: it is in use in
-- every table that they reach, and there deallocateVm fails its assertion.
pub deallocate_vm_never_frees :
    (s t : VmControlTable) (i : ℕ)
    → IsTaken s i
    → Reachable s t
    → IsTaken t i × (deallocate_vm t (some i) ≡ fault failed_assert)
deallocate_vm_never_frees s t i k r = (still t r, deallocate_vm-faults t i (still t r))
  where
    still : (t : VmControlTable) → Reachable s t → IsTaken t i
    still t initially = k
    still t (after o u v r e) =
        Ensures-ok (λ u. IsTaken u i) (perform o u) (perform-IsTaken u i (still u r) o) e
