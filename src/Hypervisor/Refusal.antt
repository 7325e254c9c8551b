-- ===== src/Hypervisor/Refusal.antt =====
-- The release of a VM whose extension is refused (src/s2f/os/hypervisors/Hypervisor.cc).
use simcan2fog.Prelude.{
  ℕ, zero, suc, ◌≡◌, subst, sym, ap, ◌∙◌, String, false, Option, some, List, get_elem?, length, ok,
  undefined, or_fault, or_fault-ok, ◌>>=◌, Ensures, Ensures->>=, Ensures-ok,
}
use simcan2fog.UserApp.{AppState, app_finished_timeout, change_state_by_index, UserApp}
use simcan2fog.ControlTable.{VmControlTable, get_vm_control_block, get_app_control_block}
use simcan2fog.ControlTable.Operations.{
  entry, deallocate_app, deallocate_vm, deref, get_local_vm_id,
}
use simcan2fog.ControlTable.Slots.{IsTaken}
use simcan2fog.ControlTable.Slots.Kept.{
  deallocate_app-IsTaken, put_vm-IsTaken, same_entry, deallocate_vm-faults,
}
use simcan2fog.Hypervisor.{Hypervisor, Event, store_request, notify, handle_app_termination}
use simcan2fog.Hypervisor.Commands.{terminate_apps, deallocate_vm_resources, handle_vm_extension}

-- The table of the result still has the VM.
abbrev Holds : ℕ → VmControlTable × List Event → Type 0
Holds i r = IsTaken r.0 i

store_request-IsTaken :
    (t : VmControlTable) (i j : ℕ) (r : UserApp)
    → IsTaken t i
    → Ensures (λ u. IsTaken u i) (store_request t j r)
store_request-IsTaken t i j r k =
    Ensures->>= (λ u. IsTaken u i) (or_fault (get_elem? t.vms j) undefined) _
      λ b e.
        put_vm-IsTaken t i k j _
          (same_entry t i k j b (or_fault-ok (get_elem? t.vms j) undefined b e))

handle_app_termination-Holds :
    (now i : ℕ) (pid vm_id : Option ℕ) (status : AppState) (t : VmControlTable)
    → IsTaken t i
    → Ensures (Holds i) (handle_app_termination now pid vm_id status t)
unfolding handle_app_termination
handle_app_termination-Holds now i pid vm_id status t k =
    Ensures->>= (Holds i) (entry t vm_id) _ λ e _.
      Ensures->>= (Holds i) (get_app_control_block t vm_id pid) _ λ app _.
        Ensures->>= (Holds i) (deallocate_app t vm_id pid) _ λ freed f.
          Ensures->>= (Holds i) (deref e.1.request) _ λ r _.
            Ensures->>= (Holds i) (change_state_by_index now app.deployment_index status r) _
              λ changed _. Ensures->>= (Holds i) (store_request freed e.0 changed) _ λ stored g.
                Ensures->>= (Holds i) (notify stored e.0 changed) _ λ sent _.
                  Ensures-ok (λ u. IsTaken u i) (store_request freed e.0 changed)
                    (store_request-IsTaken freed i e.0 changed (
                      Ensures-ok (λ u. IsTaken u i) (deallocate_app t vm_id pid)
                        (deallocate_app-IsTaken t i k vm_id pid) f))
                    g

terminate_apps-Holds :
    (now i left p : ℕ) (t : VmControlTable)
    → IsTaken t i
    → Ensures (Holds i) (terminate_apps now i left p t)
unfolding terminate_apps
terminate_apps-Holds now i zero p t k = k
terminate_apps-Holds now i (suc left) p t k =
    Ensures->>= (Holds i) (get_app_control_block t (some i) (some p)) _ λ app _.
      let end = handle_app_termination now app.pid app.vm_id app_finished_timeout t in
      Ensures->>= (Holds i) end _ λ r e.
        Ensures->>= (Holds i) (terminate_apps now i left (suc p) r.0) _ λ s f.
          Ensures-ok (Holds i) (terminate_apps now i left (suc p) r.0)
            (terminate_apps-Holds now i left (suc p) r.0 (
              Ensures-ok (Holds i) end
                (handle_app_termination-Holds now i app.pid app.vm_id app_finished_timeout t k) e))
            f

-- Nothing that ends well.
abbrev Never {ℓ} : {A : Type ℓ} → A → Type 0
Never a = ⊥

deallocate_vm_resources-Never :
    (now i : ℕ) (h : Hypervisor)
    → IsTaken h.table i
    → Ensures Never (deallocate_vm_resources now i h)
unfolding deallocate_vm_resources
deallocate_vm_resources-Never now i h k =
    Ensures->>= Never (get_vm_control_block h.table (some i)) _ λ b _.
      Ensures->>= Never (terminate_apps now i (length b.apps) 0 h.table) _ λ r e.
        Ensures->>= Never (deallocate_vm r.0 (some i)) _ λ t f. absurd (
          Ensures-ok Never (deallocate_vm r.0 (some i))
            (subst (Ensures Never)
              (sym (
                deallocate_vm-faults r.0 i (
                  Ensures-ok (Holds i) (terminate_apps now i (length b.apps) 0 h.table)
                    (terminate_apps-Holds now i (length b.apps) 0 h.table k) e)))
              tt)
            f)

-- Refusing the extension of a VM that is in the table always ends in a fault.
pub refused_extension_fails :
    (h : Hypervisor) (now i : ℕ) (global : String)
    → get_local_vm_id h.table global ≡ ok i
    → IsTaken h.table i
    → (r : Hypervisor × List Event) → ¬ (handle_vm_extension now global false h ≡ ok r)
unfolding handle_vm_extension
refused_extension_fails h now i global named k r e =
    Ensures-ok Never (deallocate_vm_resources now i h) (deallocate_vm_resources-Never now i h k)
      (sym (ap (λ m. m >>= λ j. deallocate_vm_resources now j h) named) ∙ e)
