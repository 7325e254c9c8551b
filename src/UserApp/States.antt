-- ===== src/UserApp/States.antt =====
-- How the states of the applications of a deployment change.
use simcan2fog.Prelude.{
  ℕ, zero, suc, ◌≡◌, ◌↔◌, ◌≢◌, refl, sym, ap, ◌∙◌, ◌⊎◌, inl, inr, Bool, true, false, ◌&&◌, Option,
  none, some, List, [], ◌∷◌, set, get_elem?, get_elem?-set_self, get_elem?-set_ne, arith, ok, ◌>>=◌,
  or_fault, undefined,
}
use simcan2fog.UserApp.{
  AppState, app_finished_timeout, AppRequest, UserApp, is_finished, set_state,
  change_state_by_index, all_finished, abort_app, abort_all, abort_all_apps,
}

-- How many applications have not finished.
pub pending : List AppRequest → ℕ
pending [] = 0
pending (a ∷ apps) = elim (is_finished a.state) [ true ↦ pending apps | false ↦ suc (pending apps) ]

-- The test that ends a deployment holds exactly when no application is pending.
pub all_finished_iff : (apps : List AppRequest) → (all_finished apps ≡ true) ↔ (pending apps ≡ 0)
unfolding all_finished pending
all_finished_iff [] = (λ _. refl, λ _. refl)
all_finished_iff (a ∷ apps) = by_state (is_finished a.state) (all_finished_iff apps)
  where
    by_state :
        (b : Bool)
        → ((all_finished apps ≡ true) ↔ (pending apps ≡ 0))
        → ((b && all_finished apps) ≡ true)
          ↔ (elim b [ true ↦ pending apps | false ↦ suc (pending apps) ] ≡ 0)
    by_state true rest = rest
    by_state false rest = (λ h. cc, λ h. absurd (omega arith))

pending_by_state :
    (a : AppRequest) (rest : List AppRequest) (b : Bool)
    → is_finished a.state ≡ b
    → pending (a ∷ rest) ≡ elim b [ true ↦ pending rest | false ↦ suc (pending rest) ]
unfolding pending
pending_by_state a rest b e =
    ap (λ c. elim c [ true ↦ pending rest | false ↦ suc (pending rest) ]) e

pending-set :
    (apps : List AppRequest) (i : ℕ) (a b : AppRequest)
    → get_elem? apps i ≡ some a
    → is_finished a.state ≡ false
    → is_finished b.state ≡ true
    → suc (pending (set apps i b)) ≡ pending apps
pending-set [] i a b h fa fb = cc
pending-set (c ∷ apps) zero a b h fa fb =
    let same : c ≡ a = cc in
    ap suc (pending_by_state b apps true fb)
    ∙ sym (pending_by_state c apps false (ap (λ d. is_finished d.state) same ∙ fa))
pending-set (c ∷ apps) (suc i) a b h fa fb =
    by_state (is_finished c.state) refl (pending-set apps i a b h fa fb)
  where
    by_state :
        (d : Bool)
        → is_finished c.state ≡ d
        → suc (pending (set apps i b)) ≡ pending apps
        → suc (pending (c ∷ set apps i b)) ≡ pending (c ∷ apps)
    by_state true e rest =
        ap suc (pending_by_state c (set apps i b) true e)
        ∙ rest
        ∙ sym (pending_by_state c apps true e)
    by_state false e rest =
        ap suc (pending_by_state c (set apps i b) false e ∙ rest)
        ∙ sym (pending_by_state c apps false e)

set_state-state : (now : ℕ) (s : AppState) (a : AppRequest) → (set_state now s a).state ≡ s
unfolding set_state
set_state-state now s a = by_state (is_finished s)
  where
    by_state :
        (b : Bool)
        → (elim b as (λ _. AppRequest) [
          | true ↦ record a { state = s; finish_time = now }
          | false ↦ record a { state = s }
        ]).state
          ≡ s
    by_state true = refl
    by_state false = refl

-- Giving a final state to an application that has none succeeds, leaves one application less
-- pending, and changes no other application.
pub change_state_by_index_finishes :
    (now i : ℕ) (s : AppState) (r : UserApp) (a : AppRequest)
    → get_elem? r.apps i ≡ some a
    → is_finished a.state ≡ false
    → is_finished s ≡ true
    → (t : UserApp) × (change_state_by_index now (some i) s r ≡ ok t)
      × (suc (pending t.apps) ≡ pending r.apps)
      × (get_elem? t.apps i ≡ some (set_state now s a))
      × ((j : ℕ) → i ≢ j → get_elem? t.apps j ≡ get_elem? r.apps j)
unfolding change_state_by_index
change_state_by_index_finishes now i s r a h fa fs =
    let b = set_state now s a in
    (
      record r { apps = set r.apps i b },
      ap
          (λ o.
            or_fault o undefined >>= λ c. ok (record r { apps = set r.apps i (set_state now s c) }))
          h,
      pending-set r.apps i a b h fa (ap is_finished (set_state-state now s a) ∙ fs),
      get_elem?-set_self r.apps i a b h,
      λ j n. get_elem?-set_ne r.apps i j b n,
    )

-- What abortAllApps makes of one application.
abbrev pub Aborted : ℕ → Option AppRequest → Option AppRequest → Type 0
Aborted now none after = after ≡ none
Aborted now (some a) after =
    ((is_finished a.state ≡ true) × (after ≡ some a))
    ⊎ ((is_finished a.state ≡ false) × (after ≡ some (set_state now app_finished_timeout a)))

abort_app-if :
    (now : ℕ) (a : AppRequest) (b : Bool)
    → is_finished a.state ≡ b
    → abort_app now a ≡ elim b [ true ↦ a | false ↦ set_state now app_finished_timeout a ]
abort_app-if now a b e =
    ap (λ b. elim b [ true ↦ a | false ↦ set_state now app_finished_timeout a ]) e

abort_app_by_state :
    (now : ℕ) (a : AppRequest) (b : Bool)
    → is_finished a.state ≡ b
    → Aborted now (some a) (some (abort_app now a))
abort_app_by_state now a true e = inl (e, ap some (abort_app-if now a true e))
abort_app_by_state now a false e = inr (e, ap some (abort_app-if now a false e))

abort_all-Aborted :
    (now : ℕ) (apps : List AppRequest) (i : ℕ)
    → Aborted now (get_elem? apps i) (get_elem? (abort_all now apps) i)
unfolding abort_all
abort_all-Aborted now [] i = refl
abort_all-Aborted now (a ∷ apps) zero = abort_app_by_state now a (is_finished a.state) refl
abort_all-Aborted now (a ∷ apps) (suc i) = abort_all-Aborted now apps i

abort_app-is_finished :
    (now : ℕ) (a : AppRequest) (b : Bool)
    → is_finished a.state ≡ b
    → is_finished (abort_app now a).state ≡ true
abort_app-is_finished now a true e = ap (λ c. is_finished c.state) (abort_app-if now a true e) ∙ e
abort_app-is_finished now a false e =
    ap (λ c. is_finished c.state) (abort_app-if now a false e)
    ∙ ap is_finished (set_state-state now app_finished_timeout a)

all_finished-abort_all :
    (now : ℕ) (apps : List AppRequest) → all_finished (abort_all now apps) ≡ true
unfolding all_finished abort_all
all_finished-abort_all now [] = refl
all_finished-abort_all now (a ∷ apps) =
    rw (abort_app-is_finished now a (is_finished a.state) refl) (all_finished-abort_all now apps)

-- Aborting finishes every application: one that was pending by timeout, and the others keep the
-- state and the time they ended with.
pub abort_all_apps_lem :
    (now : ℕ) (r : UserApp)
    → (all_finished (abort_all_apps now r).apps ≡ true)
      × ((i : ℕ) → Aborted now (get_elem? r.apps i) (get_elem? (abort_all_apps now r).apps i))
unfolding abort_all_apps
abort_all_apps_lem now r = (all_finished-abort_all now r.apps, abort_all-Aborted now r.apps)
