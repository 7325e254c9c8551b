-- ===== src/Cpu.antt =====
-- The CPU of a node: the messages, one core, and the scheduler over the cores
-- (src/s2f/messages/SM_CPU_Message.{msg,cc}, src/s2f/architecture/cpu/CpuCore.cc,
-- src/s2f/os/schedulers/CpuSchedulerRR.cc).
pub mod Core
pub mod Scheduler
use simcan2fog.Prelude.{
  ℕ, zero, suc, ◌-◌, String, Bool, true, false, Option, none, some, ltb, if◌then◌else◌,
}

-- An int: SM_CpuInfiniteQuantum is -1, and `negative` stands for the numbers below it.
pub data Quantum : Type 0 where
  ticks : ℕ → Quantum
  infinite_quantum negative : Quantum

pub data CpuOperation : Type 0 where
  exec_cpu abort_cpu : CpuOperation

-- `cpu_time` counts in the resolution of simtime_t. `mis_to_execute` is a double in the source; here
-- it counts in a unit small enough for the speeds and requests of a run.
pub record CpuMessage : Type 0 where
  pub operation : CpuOperation
  pub is_response : Bool
  pub next_module_index : ℕ
  pub use_time : Bool
  pub cpu_time : ℕ
  pub use_mis : Bool
  pub mis_to_execute : ℕ
  pub quantum : Quantum
  pub is_completed : Bool
  pub app_instance : String

-- `if (quantum != SM_CpuInfiniteQuantum) quantum--;` from 0 it would step onto the infinite value.
unfoldable pub spend_tick : Quantum → Quantum
spend_tick infinite_quantum = infinite_quantum
spend_tick negative = negative
spend_tick (ticks zero) = infinite_quantum
spend_tick (ticks (suc n)) = ticks n

unfoldable pub execute_mis : ℕ → CpuMessage → CpuMessage
unfolding spend_tick
execute_mis number_mis m =
    let spent = record m { quantum = spend_tick m.quantum } in
    if ltb number_mis m.mis_to_execute
    then record spent { mis_to_execute = m.mis_to_execute - number_mis }
    else record spent { mis_to_execute = 0; is_completed = true }

unfoldable pub execute_time : ℕ → CpuMessage → CpuMessage
unfolding spend_tick
execute_time executed_time m =
    let spent = record m { quantum = spend_tick m.quantum } in
    if ltb executed_time m.cpu_time
    then record spent { cpu_time = m.cpu_time - executed_time }
    else record spent { cpu_time = 0; is_completed = true }

-- The copy is a new message, so the application instance is empty again.
unfoldable pub dup : CpuMessage → CpuMessage
dup m = record m { app_instance = "" }
