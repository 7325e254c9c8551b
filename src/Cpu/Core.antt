-- ===== src/Cpu/Core.antt =====
-- One CPU core (src/s2f/architecture/cpu/CpuCore.cc). The core holds the message that it works on
-- and a timer of one tick. An abort drops the message without an answer.
pub mod Run
use simcan2fog.Prelude.{
  ℕ, zero, suc, Bool, true, false, Option, none, some, ◌||◌, if◌then◌else◌, Outcome, ok, fault,
  runtime_error, undefined, or_fault, check, ◌>>=◌, ◌>>◌,
}
use simcan2fog.Cpu.{
  Quantum, ticks, infinite_quantum, negative, CpuMessage, CpuOperation, exec_cpu, abort_cpu,
  execute_mis, execute_time,
}

-- `ipt`, the instructions for each tick, is speed * tick.
pub record CpuCore : Type 0 where
  pub tick : ℕ
  pub ipt : ℕ
  pub pending_message : Option CpuMessage
  pub timer_set : Bool

abbrev pub is_spent : Quantum → Bool
is_spent (ticks zero) = true
is_spent _ = false

-- One tick of work in the unit of the request.
unfoldable pub execute : CpuCore → CpuMessage → CpuMessage
execute c m = if m.use_time then execute_time c.tick m else execute_mis c.ipt m

abbrev pub may_start : Quantum → Bool
may_start (ticks zero) = false
may_start (ticks (suc n)) = true
may_start infinite_quantum = true
may_start negative = false

-- The branch of processRequestMessage for a request that is no abort.
unfoldable pub start : CpuCore → CpuMessage → Outcome CpuCore
unfolding execute
start c m = do
  check (may_start m.quantum) runtime_error
  ok (record c { pending_message = some (execute c m); timer_set = true })

-- processRequestMessage. `pendingMessage` was linked before the check of the quantum, but a failed
-- check ends the simulation.
unfoldable pub process_request_message : CpuCore → CpuMessage → Outcome CpuCore
unfolding start
process_request_message c m = elim m.operation [
  | abort_cpu ↦ ok (record c { pending_message = none; timer_set = false })
  | exec_cpu ↦ start c m
]

-- The answer leaves the core, or one more tick is worked.
unfoldable pub on_timer : CpuCore → CpuMessage → CpuCore × Option CpuMessage
unfolding execute
on_timer c m =
    if m.is_completed || is_spent m.quantum
    then (
      record c { pending_message = none; timer_set = false },
      some (record m { is_response = true }),
    )
    else (record c { pending_message = some (execute c m); timer_set = true }, none)

-- processSelfMessage, when the timer fires: the answer, if the request leaves the core.
unfoldable pub process_self_message : CpuCore → Outcome (CpuCore × Option CpuMessage)
unfolding on_timer
process_self_message c = do m ← or_fault c.pending_message undefined; ok (on_timer c m)

abbrev count_tick : Option (CpuCore × CpuMessage × ℕ) → Option (CpuCore × CpuMessage × ℕ)
count_tick none = none
count_tick (some (c, m, n)) = some (c, m, suc n)

-- The timer fires until the request leaves the core; `fuel` bounds the ticks.
unfoldable pub run : ℕ → CpuCore → Outcome (Option (CpuCore × CpuMessage × ℕ))
run zero c = ok none
run (suc fuel) c = do
  r ← process_self_message c
  let rest = run fuel r.0
  elim r.1 [
    | some answer ↦ ok (some (r.0, answer, 1))
    | none ↦ rest >>= λ more. ok (count_tick more)
  ]
