-- ===== src/Cpu/Scheduler.antt =====
-- The round-robin scheduler (src/s2f/os/schedulers/CpuSchedulerRR.cc). A message that it deletes is
-- dropped; one that it sends goes into the result, in order.
pub mod Fairness
pub mod Conservation
use simcan2fog.Prelude.{
  ℕ, zero, suc, String, Bool, true, false, not, Option, none, some, List, [], ◌∷◌, ◌++◌, get_elem?,
  set, length, replicate, ◌==◌, ◌||◌, ltb, if◌then◌else◌, Outcome, ok, fault, runtime_error,
  undefined, or_fault, check, ◌>>=◌, ◌>>◌,
}
use simcan2fog.Cpu.{Quantum, CpuMessage, CpuOperation, exec_cpu, abort_cpu, dup, negative}
use text.Mathlib.Text.{◌==◌ as str_eq}

-- `cores` is true where a core is idle. `none` is a null index.
pub record Scheduler : Type 0 where
  pub quantum : Quantum
  pub is_running : Bool
  pub managed_cpu_cores : ℕ
  pub cores : List Bool
  pub cpu_core_index : Option (List ℕ)
  pub requests_queue : List CpuMessage
  pub aborts_queue : List CpuMessage

pub data Sent : Type 0 where
  to_hub : CpuMessage → Sent
  to_hypervisor : CpuMessage → Sent

-- searchIdleCPU over the managed cores.
unfoldable pub search_idle_cpu : List Bool → Option ℕ
search_idle_cpu [] = none
search_idle_cpu (idle ∷ cores) = elim idle [
  | true ↦ some 0
  | false ↦ elim (search_idle_cpu cores) [ none ↦ none | some i ↦ some (suc i) ]
]

-- getVirtualCpuIndex over the managed cores. The result -1 fails the check of the bounds that
-- follows it; an index that is shorter than the cores is undefined.
unfoldable pub get_virtual_cpu_index : ℕ → List ℕ → ℕ → Outcome ℕ
get_virtual_cpu_index zero index real = fault runtime_error
get_virtual_cpu_index (suc n) [] real = fault undefined
get_virtual_cpu_index (suc n) (i ∷ index) real = elim (i == real) [
  | true ↦ ok 0
  | false ↦ get_virtual_cpu_index n index real >>= λ v. ok (suc v)
]

-- deleteFromRequestsQueue: without the first request of the same application instance.
unfoldable pub delete_request : String → List CpuMessage → Option (List CpuMessage)
delete_request app [] = none
delete_request app (m ∷ ms) = elim (str_eq m.app_instance app) [
  | true ↦ some ms
  | false ↦ elim (delete_request app ms) [ none ↦ none | some rest ↦ some (m ∷ rest) ]
]

unfoldable pub abort_request : Scheduler → CpuMessage → Scheduler
abort_request s m = elim (delete_request m.app_instance s.requests_queue) [
  | none ↦ record s { aborts_queue = s.aborts_queue ++ m ∷ [] }
  | some rest ↦ record s { requests_queue = rest }
]

-- A request for an idle core `i`, or for the queue.
unfoldable pub assign : Scheduler → CpuMessage → Option ℕ → Outcome (Scheduler × List Sent)
assign s m none = ok (record s { requests_queue = s.requests_queue ++ m ∷ [] }, [])
assign s m (some i) = do
  index ← or_fault s.cpu_core_index undefined
  real ← or_fault (get_elem? index i) undefined
  ok (record s { cores = set s.cores i false }, to_hub (record m { next_module_index = real }) ∷ [])

unfoldable pub process_request_message : Scheduler → CpuMessage → Outcome (Scheduler × List Sent)
unfolding abort_request assign
process_request_message s m = elim m.operation [
  | abort_cpu ↦ ok (abort_request s m, [])
  | exec_cpu ↦ do
    check s.is_running runtime_error
    check (m.use_time || m.use_mis) runtime_error
    assign s (record m { quantum = s.quantum }) (search_idle_cpu s.cores)
]

-- What processResponseMessage does with the message that came back, completed or not: the queue
-- after it and the answer.
abbrev pub answer : Bool → Scheduler → CpuMessage → Scheduler × Sent
answer true s m = (s, to_hypervisor (record m { is_response = true }))
answer false s m = (
  record s { requests_queue = s.requests_queue ++ record m { is_response = false } ∷ [] },
  to_hypervisor (record (dup m) { is_response = true }),
)

-- The next request, if one waits, goes to the core that has become idle.
unfoldable pub dispatch : Scheduler → ℕ → ℕ → List CpuMessage → Scheduler × List Sent
dispatch s v real [] = (s, [])
dispatch s v real (next ∷ queue) = (
  record s { requests_queue = queue; cores = set s.cores v false },
  to_hub (record next { next_module_index = real; quantum = s.quantum }) ∷ [],
)

unfoldable pub handle_running : Scheduler → CpuMessage → Outcome (Scheduler × List Sent)
unfolding dispatch dup
handle_running s m = do
  index ← or_fault s.cpu_core_index undefined
  v ← get_virtual_cpu_index s.managed_cpu_cores index m.next_module_index
  let freed = record s { cores = set s.cores v true }
  let answered = answer m.is_completed freed m
  let sent = dispatch answered.0 v m.next_module_index answered.0.requests_queue
  ok (sent.0, answered.1 ∷ sent.1)

unfoldable pub process_response_message : Scheduler → CpuMessage → Outcome (Scheduler × List Sent)
process_response_message s m = elim s.is_running [ false ↦ ok (s, []) | true ↦ handle_running s m ]

-- setManagedCpuCores
unfoldable pub set_managed_cpu_cores : Scheduler → ℕ → Outcome Scheduler
set_managed_cpu_cores s n = do
  check (not s.is_running) runtime_error
  ok (record s { managed_cpu_cores = n; cores = replicate n true })

unfoldable pub set_cpu_core_index : Scheduler → List ℕ → Scheduler
set_cpu_core_index s index = record s { cpu_core_index = some index }

-- The message of stopCpu is a new one with the operation and the core set.
abbrev pub abort_message : ℕ → CpuMessage
abort_message real = record {
  operation = abort_cpu;
  is_response = false;
  next_module_index = real;
  use_time = false;
  cpu_time = 0;
  use_mis = false;
  mis_to_execute = 0;
  quantum = Quantum.ticks 0;
  is_completed = false;
  app_instance = "";
}

-- stopAllProcess: an abort to every busy core. The index is read for busy cores only.
unfoldable pub stop_cores : List Bool → List ℕ → Outcome (List Sent)
stop_cores [] index = ok []
stop_cores (true ∷ cores) [] = stop_cores cores []
stop_cores (true ∷ cores) (i ∷ index) = stop_cores cores index
stop_cores (false ∷ cores) [] = fault undefined
stop_cores (false ∷ cores) (i ∷ index) = do
  sent ← stop_cores cores index
  ok (to_hub (abort_message i) ∷ sent)

abbrev index_or_empty : Option (List ℕ) → List ℕ
index_or_empty none = []
index_or_empty (some index) = index

unfoldable pub set_is_running : Scheduler → Bool → Outcome (Scheduler × List Sent)
unfolding stop_cores
set_is_running s running =
    if s.is_running
    then (if running
        then ok (s, [])
        else (stop_cores s.cores (index_or_empty s.cpu_core_index) >>= λ sent.
            ok (record s { requests_queue = []; is_running = false }, sent)))
    else ok (record s { is_running = running }, [])
