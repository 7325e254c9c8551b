-- ===== src/Cpu/Scheduler/Fairness.antt =====
-- No core idles while a request waits, and requests take turns.
use simcan2fog.Prelude.{
  ℕ, zero, suc, ◌≡◌, refl, ◌∙◌, ◌⊎◌, inl, inr, Bool, true, false, Option, none, some, List, [], ◌∷◌,
  ◌++◌, set, get_elem?, length, length-set, arith, Option-cases, String, or_fault, check, ◌||◌,
  undefined, runtime_error, Ensures, Ensures->>=,
}
use simcan2fog.Cpu.{CpuMessage, CpuOperation, exec_cpu, abort_cpu}
use simcan2fog.Cpu.Scheduler.{
  Scheduler, Sent, search_idle_cpu, get_virtual_cpu_index, delete_request, abort_request, assign,
  process_request_message, process_response_message, answer, dispatch, handle_running,
}

-- Every managed core is busy.
abbrev pub AllBusy : List Bool → Type 0
AllBusy [] = Unit {0}
AllBusy (idle ∷ cores) = (idle ≡ false) × AllBusy cores

-- A request waits only while every core is busy.
pub record IsWorkConserving (s : Scheduler) : Type 0 where
  pub managed : length s.cores ≡ s.managed_cpu_cores
  pub no_idling : (s.requests_queue ≡ []) ⊎ AllBusy s.cores

search_idle_cpu-none : (cores : List Bool) → search_idle_cpu cores ≡ none → AllBusy cores
unfolding search_idle_cpu
search_idle_cpu-none [] h = tt
search_idle_cpu-none (true ∷ cores) h = cc
search_idle_cpu-none (false ∷ cores) h = elim (Option-cases (search_idle_cpu cores)) [
  | inl e ↦ (refl, search_idle_cpu-none cores e)
  | inr (i, e) ↦ absurd (ground (arith, e))
]

set-true-false-AllBusy :
    (cores : List Bool) (v : ℕ) → AllBusy cores → AllBusy (set (set cores v true) v false)
set-true-false-AllBusy [] v b = tt
set-true-false-AllBusy (c ∷ cores) zero b = (refl, b.1)
set-true-false-AllBusy (c ∷ cores) (suc v) b = (b.0, set-true-false-AllBusy cores v b.1)

delete_request-nil :
    (app : String) (ms rest : List CpuMessage) → ms ≡ [] → delete_request app ms ≡ some rest → ⊥
unfolding delete_request
delete_request-nil app [] rest e h = cc
delete_request-nil app (m ∷ ms) rest e h = cc

search_idle_cpu-some :
    (cores : List Bool) (i : ℕ) → search_idle_cpu cores ≡ some i → ¬ AllBusy cores
unfolding search_idle_cpu
search_idle_cpu-some [] i h b = cc
search_idle_cpu-some (true ∷ cores) i h b = cc
search_idle_cpu-some (false ∷ cores) i h b = elim (Option-cases (search_idle_cpu cores)) [
  | inl e ↦ absurd (ground (arith, e))
  | inr (j, e) ↦ search_idle_cpu-some cores j e b.1
]

-- The state after an operation keeps the policy.
abbrev pub Keeps : Scheduler × List Sent → Type 0
Keeps r = IsWorkConserving r.0

assign-Keeps :
    (s : Scheduler) (m : CpuMessage) (found : Option ℕ)
    → search_idle_cpu s.cores ≡ found
    → IsWorkConserving s
    → Ensures Keeps (assign s m found)
unfolding assign
assign-Keeps s m none e w = record {
  managed = w.managed;
  no_idling = inr (search_idle_cpu-none s.cores e);
}
assign-Keeps s m (some i) e w = Ensures->>= Keeps (or_fault s.cpu_core_index undefined) _ λ index _.
    Ensures->>= Keeps (or_fault (get_elem? index i) undefined) _ λ real _. record {
      managed = length-set s.cores i false ∙ w.managed;
      no_idling = inl (empty w.no_idling);
    }
  where
    empty : (s.requests_queue ≡ []) ⊎ AllBusy s.cores → s.requests_queue ≡ []
    empty (inl q) = q
    empty (inr b) = absurd (search_idle_cpu-some s.cores i e b)

abort_request-IsWorkConserving :
    (s : Scheduler) (m : CpuMessage) → IsWorkConserving s → IsWorkConserving (abort_request s m)
unfolding abort_request
abort_request-IsWorkConserving s m w =
    elim (Option-cases (delete_request m.app_instance s.requests_queue)) [
      | inl e ↦ rw (e, abort_request) (record { managed = w.managed; no_idling = w.no_idling })
      | inr (rest, e) ↦
          rw (e, abort_request)
            (record { managed = w.managed; no_idling = still rest e w.no_idling })
    ]
  where
    still :
        (rest : List CpuMessage)
        → delete_request m.app_instance s.requests_queue ≡ some rest
        → (s.requests_queue ≡ []) ⊎ AllBusy s.cores
        → (rest ≡ []) ⊎ AllBusy s.cores
    still rest e (inl q) = absurd (delete_request-nil m.app_instance s.requests_queue rest q e)
    still rest e (inr b) = inr b

request_by_operation :
    (s : Scheduler) (m : CpuMessage) (o : CpuOperation)
    → m.operation ≡ o
    → IsWorkConserving s
    → Ensures Keeps (process_request_message s m)
unfolding process_request_message
request_by_operation s m abort_cpu e w =
    rw (e, process_request_message) (abort_request-IsWorkConserving s m w)
request_by_operation s m exec_cpu e w =
    rw (e, process_request_message)
      (Ensures->>= Keeps (check s.is_running runtime_error) _ λ _ _.
        Ensures->>= Keeps (check (m.use_time || m.use_mis) runtime_error) _
          λ _ _. assign-Keeps s (record m { quantum = s.quantum }) (search_idle_cpu s.cores) refl w)

-- A request, be it run, queued or aborted, keeps the policy that no managed core idles while a
-- request waits.
pub request-IsWorkConserving :
    (s : Scheduler) (m : CpuMessage)
    → IsWorkConserving s
    → Ensures Keeps (process_request_message s m)
request-IsWorkConserving s m w = request_by_operation s m m.operation refl w

-- What the queue must be for the head of it to take the core that became idle.
abbrev Waits : List CpuMessage → List Bool → Type 0
Waits [] cores = Unit {0}
Waits (next ∷ queue) cores = (queue ≡ []) ⊎ AllBusy cores

Waits-of_AllBusy : (queue : List CpuMessage) (cores : List Bool) → AllBusy cores → Waits queue cores
Waits-of_AllBusy [] cores b = tt
Waits-of_AllBusy (next ∷ queue) cores b = inr b

dispatch-IsWorkConserving :
    (s : Scheduler) (v real : ℕ) (queue : List CpuMessage)
    → s.requests_queue ≡ queue
    → length s.cores ≡ s.managed_cpu_cores
    → Waits queue (set s.cores v false)
    → IsWorkConserving (dispatch s v real queue).0
unfolding dispatch
dispatch-IsWorkConserving s v real [] e w b = record { managed = w; no_idling = inl e }
dispatch-IsWorkConserving s v real (next ∷ queue) e w b = record {
  managed = length-set s.cores v false ∙ w;
  no_idling = b;
}

freed-Waits :
    (s : Scheduler) (v : ℕ) (m : CpuMessage)
    → (s.requests_queue ≡ []) ⊎ AllBusy s.cores
    → Waits s.requests_queue (set (set s.cores v true) v false)
      × Waits (s.requests_queue ++ m ∷ []) (set (set s.cores v true) v false)
freed-Waits s v m (inl q) = rw q (tt, inl refl)
freed-Waits s v m (inr b) =
    let all = set-true-false-AllBusy s.cores v b in
    (Waits-of_AllBusy _ _ all, Waits-of_AllBusy _ _ all)

-- The scheduler after the answer and before the dispatch.
answered-IsWorkConserving :
    (completed : Bool) (s : Scheduler) (v : ℕ) (m : CpuMessage)
    → IsWorkConserving s
    → let t = (answer completed (record s { cores = set s.cores v true }) m).0 in
      IsWorkConserving (dispatch t v m.next_module_index t.requests_queue).0
answered-IsWorkConserving true s v m w =
    dispatch-IsWorkConserving _ v m.next_module_index _ refl (length-set s.cores v true ∙ w.managed)
      (freed-Waits s v m w.no_idling).0
answered-IsWorkConserving false s v m w =
    dispatch-IsWorkConserving _ v m.next_module_index _ refl (length-set s.cores v true ∙ w.managed)
      (freed-Waits s v (record m { is_response = false }) w.no_idling).1

response_while :
    (s : Scheduler) (m : CpuMessage) (running : Bool)
    → s.is_running ≡ running
    → IsWorkConserving s
    → Ensures Keeps (process_response_message s m)
unfolding process_response_message handle_running
response_while s m false e w = rw (e, process_response_message) w
response_while s m true e w =
    rw (e, process_response_message)
      (Ensures->>= Keeps (or_fault s.cpu_core_index undefined) _ λ index _.
        Ensures->>= Keeps (get_virtual_cpu_index s.managed_cpu_cores index m.next_module_index) _
          λ v _. answered-IsWorkConserving m.is_completed s v m w)

-- Handling a message that comes back from a core, where it succeeds, keeps the policy that no
-- managed core idles while a request waits.
pub response-IsWorkConserving :
    (s : Scheduler) (m : CpuMessage)
    → IsWorkConserving s
    → Ensures Keeps (process_response_message s m)
response-IsWorkConserving s m w = response_while s m s.is_running refl w
