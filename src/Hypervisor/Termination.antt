-- ===== src/Hypervisor/Termination.antt =====
-- The end of one application of a deployment (src/s2f/os/hypervisors/Hypervisor.cc).
use simcan2fog.Prelude.{
  ℕ, suc, ◌≡◌, ◌≢◌, refl, ap, ◌∙◌, ◌⊎◌, inl, inr, String, Bool, true, false, some, List, [], ◌∷◌,
  get_elem?, length, Outcome, ok, undefined, failed_assert, or_fault, ◌>>=◌, check,
  get_elem?-set_self, set-set, lt→ltb, get_elem?-lt, >>=-ok, arith, Bool-cases,
}
use simcan2fog.UserApp.{
  AppState, AppRequest, UserApp, is_finished, all_finished, change_state_by_index, set_state,
}
use simcan2fog.UserApp.States.{pending, all_finished_iff, change_state_by_index_finishes}
use simcan2fog.ControlTable.{
  AppControlBlock, live, free_app, VmControlBlock, VmControlTable, put_vm, in_bounds,
  get_vm_control_block, get_app_control_block,
}
use simcan2fog.ControlTable.Operations.{deallocate_app, put_app, get_global_vm_id, deref}
use simcan2fog.ControlTable.Slots.{entry-at}
use simcan2fog.Hypervisor.{
  Event, delete_app, send_event, update_of, notify, store_request, handle_app_termination,
}

-- The process `p` of the VM `i` runs the application `d` of the deployment of the VM.
pub record IsProcess (t : VmControlTable) (i p d : ℕ) : Type 0 where
  pub block : VmControlBlock
  pub app : AppControlBlock
  pub deployment : UserApp
  pub instance_of : AppRequest
  pub global : String
  pub there : get_elem? t.vms i ≡ some block
  pub process : get_elem? block.apps p ≡ some app
  pub deployed : app.deployment_index ≡ some d
  pub requested : block.request ≡ live deployment
  pub application : get_elem? deployment.apps d ≡ some instance_of
  pub unfinished : is_finished instance_of.state ≡ false
  pub named : get_global_vm_id t i ≡ ok global

module _ (t : VmControlTable) (i p d : ℕ) (s : IsProcess t i p d) where
  in_bounds-at : in_bounds s.block.apps (some p) ≡ ok p
  in_bounds-at =
      ap (λ c. check c failed_assert >>= λ _. ok p)
        (lt→ltb p (length s.block.apps) (get_elem?-lt s.block.apps p s.app s.process))

  get_vm_control_block-at : get_vm_control_block t (some i) ≡ ok s.block
  unfolding get_vm_control_block
  get_vm_control_block-at =
      ap
        (λ c. (check c failed_assert >>= λ _. ok i) >>= λ j. or_fault (get_elem? t.vms j) undefined)
        (lt→ltb i (length t.vms) (get_elem?-lt t.vms i s.block s.there))
      ∙ ap (λ o. or_fault o undefined) s.there

  get_app_control_block-at : get_app_control_block t (some i) (some p) ≡ ok s.app
  unfolding get_app_control_block
  get_app_control_block-at =
      >>=-ok _ _ s.block get_vm_control_block-at
      ∙ >>=-ok _ _ p in_bounds-at
      ∙ ap (λ o. or_fault o undefined) s.process

  abbrev pub freed : VmControlTable
  freed = put_vm t i (put_app s.block p (free_app s.app))

  deallocate_app-at : deallocate_app t (some i) (some p) ≡ ok freed
  unfolding deallocate_app
  deallocate_app-at =
      >>=-ok _ _ (i, s.block) (entry-at t i s.block s.there)
      ∙ >>=-ok _ _ p in_bounds-at
      ∙ ap (λ o. or_fault o undefined >>= λ a. ok (put_vm t i (put_app s.block p (free_app a))))
          s.process

  -- The table with the process freed and its deployment as `r`.
  abbrev pub ended : UserApp → VmControlTable
  ended r = put_vm t i (record (put_app s.block p (free_app s.app)) { request = live r })

  store_request-at : (r : UserApp) → store_request freed i r ≡ ok (ended r)
  store_request-at r =
      ap (λ o. or_fault o undefined >>= λ b. ok (put_vm freed i (record b { request = live r })))
        (get_elem?-set_self t.vms i s.block (put_app s.block p (free_app s.app)) s.there)
      ∙ ap (λ vms. ok (record t { vms = vms })) (set-set t.vms i _ _)

  -- The update goes out with the last application, and only then.
  abbrev pub Notifies : UserApp → List Event → Type 0
  Notifies r sent =
      ((pending r.apps ≡ 0) × (sent ≡ send_event (update_of r s.global) ∷ []))
      ⊎ ((pending r.apps ≢ 0) × (sent ≡ []))

  abbrev notify_if : UserApp → Bool → Outcome (List Event)
  notify_if r c = elim c [
    | false ↦ ok []
    | true ↦ get_global_vm_id t i >>= λ global. ok (send_event (update_of r global) ∷ [])
  ]

  notify-if : (r : UserApp) → notify (ended r) i r ≡ notify_if r (all_finished r.apps)
  unfolding notify get_global_vm_id
  notify-if r = refl

  notify-Notifies :
      (r : UserApp) → (sent : List Event) × (notify (ended r) i r ≡ ok sent) × Notifies r sent
  notify-Notifies r = elim (Bool-cases (all_finished r.apps)) [
    | inl h ↦ (
      _,
      notify-if r
          ∙ ap (notify_if r) h
          ∙ >>=-ok (get_global_vm_id t i) (λ global. ok (send_event (update_of r global) ∷ []))
              s.global s.named,
      inl ((all_finished_iff r.apps).0 h, refl),
    )
    | inr h ↦ (
      _,
      notify-if r ∙ ap (notify_if r) h,
      inr ((λ e. absurd (ground (arith, h, (all_finished_iff r.apps).1 e))), refl),
    )
  ]

-- A final state given by a process of a live deployment always succeeds: it frees the pid, records
-- the state in the deployment, which has one application less pending, and sends the update of the
-- deployment exactly when none is pending any more.
pub handle_app_termination_lem :
    (t : VmControlTable) (i p d now : ℕ) (status : AppState) (s : IsProcess t i p d)
    → is_finished status ≡ true
    → (r : UserApp) × (sent : List Event) × (handle_app_termination now (some p) (some i) status t
        ≡ ok (ended t i p d s r, delete_app i (some p) ∷ sent))
      × (get_elem? r.apps d ≡ some (set_state now status s.instance_of))
      × (suc (pending r.apps) ≡ pending s.deployment.apps)
      × Notifies t i p d s r sent
unfolding handle_app_termination
handle_app_termination_lem t i p d now status s h =
    let changed =
      change_state_by_index_finishes now d status s.deployment s.instance_of s.application
        s.unfinished h in
    let r = changed.0 in
    let sent = notify-Notifies t i p d s r in
    (
      r,
      sent.0,
      >>=-ok _ _ (i, s.block) (entry-at t i s.block s.there)
          ∙ >>=-ok _ _ s.app (get_app_control_block-at t i p d s)
          ∙ >>=-ok _ _ (freed t i p d s) (deallocate_app-at t i p d s)
          ∙ >>=-ok _ _ s.deployment (ap deref s.requested)
          ∙ >>=-ok _ _ r
              (ap (λ j. change_state_by_index now j status s.deployment) s.deployed ∙ changed.1)
          ∙ >>=-ok _ _ (ended t i p d s r) (store_request-at t i p d s r)
          ∙ >>=-ok _ _ sent.0 sent.1,
      changed.3,
      changed.2,
      sent.2,
    )
