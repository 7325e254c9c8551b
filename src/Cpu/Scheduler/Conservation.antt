-- ===== src/Cpu/Scheduler/Conservation.antt =====
-- No request is lost by the scheduler, and an unfinished one queues behind those that wait.
use simcan2fog.Prelude.{
  ℕ, zero, suc, ◌+◌, ◌≡◌, refl, ap, ◌∙◌, Bool, true, false, some, List, [], ◌∷◌, ◌++◌, set,
  get_elem?, get_elem?-set_self, length, length-append, arith, ok, ◌>>=◌, or_fault, undefined,
}
use simcan2fog.Cpu.{CpuMessage, dup}
use simcan2fog.Cpu.Scheduler.{
  Scheduler, Sent, to_hub, to_hypervisor, get_virtual_cpu_index, process_response_message, answer,
  dispatch, handle_running,
}

-- How many cores work on a request.
pub busy_cores : List Bool → ℕ
busy_cores [] = 0
busy_cores (true ∷ cores) = busy_cores cores
busy_cores (false ∷ cores) = suc (busy_cores cores)

-- The requests that the scheduler has taken and not finished.
abbrev pub load : Scheduler → ℕ
load s = length s.requests_queue + busy_cores s.cores

busy_cores-set-false :
    (cores : List Bool) (i : ℕ)
    → get_elem? cores i ≡ some true
    → busy_cores (set cores i false) ≡ suc (busy_cores cores)
unfolding busy_cores
busy_cores-set-false [] i h = cc
busy_cores-set-false (true ∷ cores) zero h = refl
busy_cores-set-false (false ∷ cores) zero h = cc
busy_cores-set-false (true ∷ cores) (suc i) h = busy_cores-set-false cores i h
busy_cores-set-false (false ∷ cores) (suc i) h = ap suc (busy_cores-set-false cores i h)

busy_cores-set-true :
    (cores : List Bool) (i : ℕ)
    → get_elem? cores i ≡ some false
    → suc (busy_cores (set cores i true)) ≡ busy_cores cores
unfolding busy_cores
busy_cores-set-true [] i h = cc
busy_cores-set-true (true ∷ cores) zero h = cc
busy_cores-set-true (false ∷ cores) zero h = refl
busy_cores-set-true (true ∷ cores) (suc i) h = busy_cores-set-true cores i h
busy_cores-set-true (false ∷ cores) (suc i) h = ap suc (busy_cores-set-true cores i h)

-- The message comes from the core number `v` of this scheduler, which works.
pub record IsServing (s : Scheduler) (m : CpuMessage) : Type 0 where
  pub index : List ℕ
  pub v : ℕ
  pub running : s.is_running ≡ true
  pub indexed : s.cpu_core_index ≡ some index
  pub found : get_virtual_cpu_index s.managed_cpu_cores index m.next_module_index ≡ ok v
  pub working : get_elem? s.cores v ≡ some false

dispatch-load :
    (s : Scheduler) (v real : ℕ) (queue : List CpuMessage)
    → s.requests_queue ≡ queue
    → get_elem? s.cores v ≡ some true
    → load (dispatch s v real queue).0 ≡ load s
unfolding dispatch
dispatch-load s v real [] e h = refl
dispatch-load s v real (next ∷ queue) e h =
    omega (arith, busy_cores-set-false s.cores v h, ap (length {A = CpuMessage}) e)

abbrev pub finished : Bool → ℕ
finished true = 1
finished false = 0

answer-load :
    (completed : Bool) (s : Scheduler) (v : ℕ) (m : CpuMessage)
    → get_elem? s.cores v ≡ some false
    → let t = (answer completed (record s { cores = set s.cores v true }) m).0 in
      load (dispatch t v m.next_module_index t.requests_queue).0 + finished completed ≡ load s
answer-load true s v m h = omega (
  arith,
  dispatch-load (record s { cores = set s.cores v true }) v m.next_module_index s.requests_queue
      refl (get_elem?-set_self s.cores v false true h),
  busy_cores-set-true s.cores v h,
)
answer-load false s v m h =
    let back = record m { is_response = false } in
    omega (
      arith,
      dispatch-load
          (record s { cores = set s.cores v true; requests_queue = s.requests_queue ++ back ∷ [] })
          v m.next_module_index (s.requests_queue ++ back ∷ []) refl
          (get_elem?-set_self s.cores v false true h),
      length-append s.requests_queue (back ∷ []),
      busy_cores-set-true s.cores v h,
    )

-- What handling the message of a core gives, completed or not.
abbrev handled : Bool → Scheduler → ℕ → CpuMessage → Scheduler × List Sent
handled completed s v m =
    let a = answer completed (record s { cores = set s.cores v true }) m in
    let d = dispatch a.0 v m.next_module_index a.0.requests_queue in (d.0, a.1 ∷ d.1)

handle_running-handled :
    (s : Scheduler) (m : CpuMessage) (h : IsServing s m)
    → handle_running s m ≡ ok (handled m.is_completed s h.v m)
unfolding handle_running
handle_running-handled s m h =
    ap
      (λ o. or_fault o undefined >>= λ index.
        get_virtual_cpu_index s.managed_cpu_cores index m.next_module_index >>= λ v.
        ok (handled m.is_completed s v m))
      h.indexed
    ∙ ap (λ o. o >>= λ v. ok (handled m.is_completed s v m)) h.found

process_response_message-running :
    (s : Scheduler) (m : CpuMessage)
    → s.is_running ≡ true
    → process_response_message s m ≡ handle_running s m
unfolding process_response_message
process_response_message-running s m h =
    ap (λ running. elim running [ false ↦ ok (s, []) | true ↦ handle_running s m ]) h

response-handled :
    (s : Scheduler) (m : CpuMessage) (h : IsServing s m)
    → process_response_message s m ≡ ok (handled m.is_completed s h.v m)
response-handled s m h =
    process_response_message-running s m h.running ∙ handle_running-handled s m h

-- A message from a working core is always handled: a completed one leaves the load, an unfinished
-- one stays in it, and the freed core is given to whatever waits.
pub load-response :
    (s : Scheduler) (m : CpuMessage)
    → IsServing s m
    → (t : Scheduler) × (sent : List Sent) × (process_response_message s m ≡ ok (t, sent))
      × (load t + finished m.is_completed ≡ load s)
load-response s m h =
    let r = handled m.is_completed s h.v m in
    (r.0, r.1, response-handled s m h, answer-load m.is_completed s h.v m h.working)

-- Round robin: with a request waiting, an unfinished message goes to the end of the queue, and the
-- head of the queue gets the core and a whole quantum.
pub response_takes_turns :
    (s : Scheduler) (m next : CpuMessage) (rest : List CpuMessage)
    → IsServing s m
    → m.is_completed ≡ false
    → s.requests_queue ≡ next ∷ rest
    → (t : Scheduler) × (process_response_message s m
        ≡ ok (
          t,
          to_hypervisor (record (dup m) { is_response = true })
              ∷ to_hub
                  (record next { next_module_index = m.next_module_index; quantum = s.quantum })
              ∷ [],
        ))
      × (t.requests_queue ≡ rest ++ record m { is_response = false } ∷ [])
unfolding dispatch
response_takes_turns s m next rest h unfinished waiting =
    let back = record m { is_response = false } in
    let freed = record s {
      cores = set s.cores h.v true;
      requests_queue = s.requests_queue ++ back ∷ [];
    } in
    let sent : List CpuMessage → Scheduler × List Sent = λ queue. (
      (dispatch freed h.v m.next_module_index queue).0,
      to_hypervisor (record (dup m) { is_response = true })
          ∷ (dispatch freed h.v m.next_module_index queue).1,
    ) in
    (
      _,
      response-handled s m h
          ∙ ap (λ c. ok (handled c s h.v m)) unfinished
          ∙ ap (λ queue. ok (sent (queue ++ back ∷ []))) waiting,
      refl,
    )
