-- ===== src/ControlTable/Invariant/Preserved.antt =====
-- The operations of src/s2f/os/control/VmControlTable.cc and the invariant of the table.
use simcan2fog.Prelude.{
  ℕ, zero, suc, ◌≡◌, refl, subst, sym, ap, ◌∙◌, inl, inr, true, false, Option, get_elem?, length,
  replicate, failed_assert, undefined, or_fault, check-ok, check, string_key, nat_key, Ensures,
  Ensures->>=, Ensures-ok,
}
use simcan2fog.ControlTable.{
  AppControlBlock, free_app, fresh_app, VmState, vm_idle, vm_accepted, vm_finished, vm_running,
  vm_suspended, VmControlBlock, is_running, is_suspended, is_free, free_block, delete_request,
  VmControlTable, in_bounds, first_free_app, allocate_vm, initialize, first_free_vm,
}
use simcan2fog.ControlTable.Operations.{
  allocate_app, deallocate_vm, deallocate_app, suspend_vm, buffer_call, resume_vm, create_mapping,
  associate_deployment_to_vm, Operation, op_allocate_vm, op_allocate_app, op_deallocate_vm,
  op_suspend_vm, op_resume_vm, op_deallocate_app, op_buffer_call, op_create_mapping, op_associate,
  perform, Reachable, initially, after,
}
use simcan2fog.ControlTable.Invariant.{
  IsApp, Each, IsEntry, IsTable, Ensures-entry, put_vm-IsTable, at-IsEntry, allocate_vm_at-IsTable,
  put_app-IsEntry, allocate_app_at-IsTable, used,
}

-- With another state, buffer or request, an entry in use agrees with its place as before.
kept :
    (n i : ℕ) (b c : VmControlBlock)
    → is_free b.state ≡ false
    → c.vm_id ≡ b.vm_id
    → c.apps ≡ b.apps
    → IsEntry n i b
    → IsEntry n i c
kept n i b c h id apps w =
    let u = used n i b h w.in_use in
    record {
      apps_are = subst (Each (IsApp i) 0) (sym apps) w.apps_are;
      in_use = inr (id ∙ u.0, ap (length {A = AppControlBlock}) apps ∙ u.1);
    }

running-taken : (s : VmState) → is_running s ≡ true → is_free s ≡ false
running-taken vm_idle h = cc
running-taken vm_accepted h = refl
running-taken vm_finished h = refl
running-taken vm_running h = refl
running-taken vm_suspended h = refl

suspended-taken : (s : VmState) → is_suspended s ≡ true → is_free s ≡ false
suspended-taken vm_idle h = cc
suspended-taken vm_accepted h = refl
suspended-taken vm_finished h = refl
suspended-taken vm_running h = refl
suspended-taken vm_suspended h = refl

allocate_app-IsTable :
    (t : VmControlTable) (id deployment : Option ℕ)
    → IsTable t
    → Ensures (λ r. IsTable r.0) (allocate_app t id deployment)
unfolding allocate_app
allocate_app-IsTable t id deployment w =
    Ensures-entry (λ r. IsTable r.0) t id _
      λ i b e.
        Ensures->>= (λ r. IsTable r.0) (check (is_running b.state) failed_assert) _
          λ _ _.
            allocate_app_at-IsTable t i b deployment (first_free_app b.apps) w
              (at-IsEntry t i b w e)

free_block-IsEntry : (n i : ℕ) (b : VmControlBlock) → Ensures (IsEntry n i) (free_block b)
unfolding free_block
free_block-IsEntry n i b =
    Ensures->>= (IsEntry n i) (delete_request b.request) _
      λ _ _. record { apps_are = tt; in_use = inl refl }

deallocate_vm-IsTable :
    (t : VmControlTable) (id : Option ℕ) → IsTable t → Ensures IsTable (deallocate_vm t id)
unfolding deallocate_vm
deallocate_vm-IsTable t id w = Ensures-entry IsTable t id _ λ i b e.
    Ensures->>= IsTable (check (is_free b.state) failed_assert) _ λ _ _.
      Ensures->>= IsTable (free_block b) _ λ c k.
        put_vm-IsTable t i c w
          (Ensures-ok (IsEntry t.num_apps_per_vm i) (free_block b) (free_block-IsEntry _ i b) k)

resume_vm-IsTable :
    (t : VmControlTable) (id : Option ℕ) → IsTable t → Ensures (λ r. IsTable r.0) (resume_vm t id)
unfolding resume_vm
resume_vm-IsTable t id w =
    Ensures-entry (λ r. IsTable r.0) t id _
      λ i b e.
        Ensures->>= (λ r. IsTable r.0) (check (is_suspended b.state) failed_assert) _
          λ u k. put_vm-IsTable t i _ w (
            kept _ i b _ (suspended-taken b.state (check-ok _ _ u k)) refl refl
              (at-IsEntry t i b w e))

free_app-IsApp : (i p : ℕ) (a : AppControlBlock) → IsApp i p (free_app a)
free_app-IsApp i p a = inl refl

deallocate_app-IsTable :
    (t : VmControlTable) (id app : Option ℕ) → IsTable t → Ensures IsTable (deallocate_app t id app)
unfolding deallocate_app
deallocate_app-IsTable t id app w = Ensures-entry IsTable t id _ λ i b e.
    Ensures->>= IsTable (in_bounds b.apps app) _ λ p _.
      Ensures->>= IsTable (or_fault (get_elem? b.apps p) undefined) _ λ a _.
        put_vm-IsTable t i _ w
          (put_app-IsEntry _ i p b (free_app a) (at-IsEntry t i b w e) (free_app-IsApp i p a))

-- Every operation that succeeds keeps the agreement of the identifiers with the places.
pub perform-IsTable :
    (o : Operation) (t : VmControlTable) → IsTable t → Ensures IsTable (perform o t)
unfolding perform allocate_vm suspend_vm buffer_call create_mapping associate_deployment_to_vm
perform-IsTable (op_allocate_vm vm user) t w =
    allocate_vm_at-IsTable t vm user (first_free_vm t.vms) w
perform-IsTable (op_allocate_app id deployment) t w =
    Ensures->>= IsTable (allocate_app t id deployment) _ λ r k.
      Ensures-ok (λ r. IsTable r.0) (allocate_app t id deployment)
        (allocate_app-IsTable t id deployment w) k
perform-IsTable (op_deallocate_vm id) t w = deallocate_vm-IsTable t id w
perform-IsTable (op_suspend_vm id) t w = Ensures-entry IsTable t id _ λ i b e.
    Ensures->>= IsTable (check (is_running b.state) failed_assert) _ λ u k.
      put_vm-IsTable t i _ w
        (kept _ i b _ (running-taken b.state (check-ok _ _ u k)) refl refl (at-IsEntry t i b w e))
perform-IsTable (op_resume_vm id) t w =
    Ensures->>= IsTable (resume_vm t id) _
      λ r k. Ensures-ok (λ r. IsTable r.0) (resume_vm t id) (resume_vm-IsTable t id w) k
perform-IsTable (op_deallocate_app id app) t w = deallocate_app-IsTable t id app w
perform-IsTable (op_buffer_call id call) t w = Ensures-entry IsTable t id _ λ i b e.
    Ensures->>= IsTable (check (is_suspended b.state) failed_assert) _ λ u k.
      put_vm-IsTable t i _ w
        (kept _ i b _ (suspended-taken b.state (check-ok _ _ u k)) refl refl (at-IsEntry t i b w e))
perform-IsTable (op_create_mapping global id) t w =
    Ensures->>= IsTable (in_bounds t.vms id) _ λ i _. w
perform-IsTable (op_associate id r) t w = Ensures-entry IsTable t id _ λ i b e.
    let old = at-IsEntry t i b w e in
    put_vm-IsTable t i _ w (record { apps_are = old.apps_are; in_use = old.in_use })

-- In every table that the calls reach from one whose identifiers agree with their places, the
-- identifiers agree with their places.
pub Reachable-IsTable : (s t : VmControlTable) → IsTable s → Reachable s t → IsTable t
Reachable-IsTable s t w initially = w
Reachable-IsTable s t w (after o u v r e) =
    Ensures-ok IsTable (perform o u) (perform-IsTable o u (Reachable-IsTable s u w r)) e

fresh-Each : (i p n : ℕ) → Each (IsApp i) p (replicate n fresh_app)
fresh-Each i p zero = tt
fresh-Each i p (suc n) = (inl refl, fresh-Each i (suc p) n)

pub initialize-IsTable : (num_vms n : ℕ) → IsTable (initialize num_vms n)
initialize-IsTable num_vms n = from 0 num_vms
  where
    from : (i k : ℕ) → Each (IsEntry n) i (initialize k n).vms
    from i zero = tt
    from i (suc k) = (record { apps_are = fresh-Each i 0 n; in_use = inl refl }, from (suc i) k)
