-- ===== src/Cpu/Core/Run.antt =====
-- How long a core works on a request, and how it leaves the core.
use simcan2fog.Prelude.{
  ℕ, zero, suc, ◌+◌, ◌*◌, ◌≤◌, ◌<◌, ◌≡◌, refl, ◌∙◌, ◌⊎◌, inl, inr, true, false, none, some, ltb,
  arith, ok, Bool-cases,
}
use simcan2fog.Cpu.{ticks, CpuMessage, exec_cpu, execute_time}
use simcan2fog.Cpu.Core.{
  CpuCore, execute, start, process_request_message, process_self_message, run,
}

abbrev pub idle : CpuCore → CpuCore
idle c = record c { pending_message = none; timer_set = false }

abbrev busy : CpuCore → CpuMessage → CpuCore
busy c m = record c { pending_message = some m; timer_set = true }

-- How `n` ticks of work leave a request of `time`: done, in as many ticks as it takes, or, with the
-- quantum of `q` ticks used up, with the rest of its time.
pub record Served (c : CpuCore) (q time n : ℕ) (a : CpuMessage) : Type 0 where
  pub within : n ≤ q
  pub outcome :
      ((a.is_completed ≡ true)
        × (a.cpu_time ≡ 0)
        × (time ≤ n * c.tick)
        × (n * c.tick < time + c.tick))
      ⊎ ((a.is_completed ≡ false) × (n ≡ q) × (a.cpu_time + n * c.tick ≡ time))

run_completed :
    (fuel : ℕ) (c : CpuCore) (m : CpuMessage)
    → m.is_completed ≡ true
    → run (suc fuel) (busy c m) ≡ ok (some (idle c, record m { is_response = true }, 1))
unfolding run process_self_message
run_completed fuel c m done = rw done

run_spent :
    (fuel : ℕ) (c : CpuCore) (m : CpuMessage)
    → m.quantum ≡ ticks 0
    → run (suc fuel) (busy c m) ≡ ok (some (idle c, record m { is_response = true }, 1))
unfolding run process_self_message
run_spent fuel c m spent = ground arith

run_on :
    (fuel q : ℕ) (c : CpuCore) (m : CpuMessage) (d : CpuCore) (a : CpuMessage) (n : ℕ)
    → m.is_completed ≡ false
    → m.quantum ≡ ticks (suc q)
    → run fuel (busy c (execute c m)) ≡ ok (some (d, a, n))
    → run (suc fuel) (busy c m) ≡ ok (some (d, a, suc n))
unfolding run process_self_message execute
run_on fuel q c m d a n more left rest = ground arith

-- The message after one tick of its time.
abbrev worked : CpuCore → CpuMessage → CpuMessage
worked c m = execute_time c.tick m

execute_by_time : (c : CpuCore) (m : CpuMessage) → m.use_time ≡ true → execute c m ≡ worked c m
unfolding execute
execute_by_time c m t = rw t

more_time :
    (c : CpuCore) (m : CpuMessage) (q : ℕ)
    → ltb c.tick m.cpu_time ≡ true
    → m.quantum ≡ ticks (suc q)
    → ((worked c m).cpu_time + c.tick ≡ m.cpu_time)
      × (0 < (worked c m).cpu_time)
      × ((worked c m).is_completed ≡ m.is_completed)
      × ((worked c m).quantum ≡ ticks q)
      × ((worked c m).use_time ≡ m.use_time)
unfolding execute_time
more_time c m q h left = ground arith

last_time :
    (c : CpuCore) (m : CpuMessage)
    → ltb c.tick m.cpu_time ≡ false
    → (m.cpu_time ≤ c.tick) × ((worked c m).cpu_time ≡ 0) × ((worked c m).is_completed ≡ true)
unfolding execute_time
last_time c m h = ground arith

abbrev Serves : CpuCore → ℕ → ℕ → CpuMessage → ℕ → Type 0
Serves c fuel q m time =
    (n : ℕ) × (a : CpuMessage) × (run fuel (busy c m) ≡ ok (some (idle c, a, suc n)))
    × Served c q time n a

Served-suc :
    (c : CpuCore) (q n : ℕ) (m a : CpuMessage)
    → (worked c m).cpu_time + c.tick ≡ m.cpu_time
    → Served c q (worked c m).cpu_time n a
    → Served c (suc q) m.cpu_time (suc n) a
Served-suc c q n m a sum s = record { within = omega arith; outcome = outcome_suc s.outcome }
  where
    outcome_suc :
        ((a.is_completed ≡ true)
            × (a.cpu_time ≡ 0)
            × ((worked c m).cpu_time ≤ n * c.tick)
            × (n * c.tick < (worked c m).cpu_time + c.tick))
          ⊎ ((a.is_completed ≡ false) × (n ≡ q) × (a.cpu_time + n * c.tick ≡ (worked c m).cpu_time))
        → ((a.is_completed ≡ true)
            × (a.cpu_time ≡ 0)
            × (m.cpu_time ≤ suc n * c.tick)
            × (suc n * c.tick < m.cpu_time + c.tick))
          ⊎ ((a.is_completed ≡ false)
              × (suc n ≡ suc q)
              × (a.cpu_time + suc n * c.tick ≡ m.cpu_time))
    outcome_suc (inl (d, z, l, u)) = inl (d, z, omega arith, omega arith)
    outcome_suc (inr (d, e, l)) = inr (d, omega arith, omega arith)

accepted :
    (c : CpuCore) (m : CpuMessage) (q : ℕ)
    → m.operation ≡ exec_cpu
    → m.quantum ≡ ticks (suc q)
    → m.use_time ≡ true
    → process_request_message c m ≡ ok (busy c (worked c m))
unfolding process_request_message start execute
accepted c m q exec left by_time = ground arith

-- From a pending request with `q` ticks left.
run_pending :
    (q fuel : ℕ) (c : CpuCore) (m : CpuMessage)
    → q < fuel
    → m.use_time ≡ true
    → m.is_completed ≡ false
    → m.quantum ≡ ticks q
    → 0 < m.cpu_time
    → Serves c fuel q m m.cpu_time
run_pending q zero c m room by_time more left some_time = absurd (omega arith)
run_pending zero (suc fuel) c m room by_time more left some_time = (
  0,
  record m { is_response = true },
  run_spent fuel c m left,
  record { within = omega arith; outcome = inr (more, refl, omega arith) },
)
run_pending (suc q) (suc zero) c m room by_time more left some_time = absurd (omega arith)
run_pending (suc q) (suc (suc fuel)) c m room by_time more left some_time =
    elim (Bool-cases (ltb c.tick m.cpu_time)) [
      | inl long ↦
          let (sum, positive, same, left', by_time') = more_time c m q long left in
          let (n, a, r, served) =
            run_pending q (suc fuel) c (worked c m) (omega arith) (by_time' ∙ by_time) (same ∙ more)
              left' positive in
          (
            suc n,
            a,
            run_on (suc fuel) q c m (idle c) a (suc n) more left
                (rw (execute_by_time c m by_time) r),
            Served-suc c q n m a sum served,
          )
      | inr short ↦
          let (bound, none_left, done) = last_time c m short in
          let answer = record (worked c m) { is_response = true } in
          (
            1,
            answer,
            run_on (suc fuel) q c m (idle c) answer 1 more left
                (rw (execute_by_time c m by_time) (run_completed fuel c (worked c m) done)),
            record {
              within = omega arith;
              outcome = inl (done, none_left, omega arith, omega arith);
            },
          )
    ]

-- A request for `time` on a core that has just been given `suc q` ticks: the core answers after one
-- timer for each tick that it works. It works no more ticks than the quantum has; the answer is
-- complete when they cover the time, in the least number of ticks that does, or else it carries the
-- time that is left. `suc q` rounds of fuel are enough.
pub core_serves :
    (c : CpuCore) (m : CpuMessage) (q : ℕ)
    → m.operation ≡ exec_cpu
    → m.use_time ≡ true
    → m.is_completed ≡ false
    → m.quantum ≡ ticks (suc q)
    → 0 < m.cpu_time
    → (d : CpuCore) × (n : ℕ) × (a : CpuMessage) × (process_request_message c m ≡ ok d)
      × (run (suc q) d ≡ ok (some (idle c, a, suc n)))
      × Served c (suc q) m.cpu_time (suc n) a
unfolding process_request_message
core_serves c m q exec by_time more left some_time = elim (Bool-cases (ltb c.tick m.cpu_time)) [
  | inl long ↦
      let (sum, positive, same, left', by_time') = more_time c m q long left in
      let (n, a, r, served) =
        run_pending q (suc q) c (worked c m) (omega arith) (by_time' ∙ by_time) (same ∙ more) left'
          positive in
      (
        busy c (worked c m),
        n,
        a,
        accepted c m q exec left by_time,
        r,
        Served-suc c q n m a sum served,
      )
  | inr short ↦
      let (bound, none_left, done) = last_time c m short in
      (
        busy c (worked c m),
        0,
        record (worked c m) { is_response = true },
        accepted c m q exec left by_time,
        run_completed q c (worked c m) done,
        record { within = omega arith; outcome = inl (done, none_left, omega arith, omega arith) },
      )
]
