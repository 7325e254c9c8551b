-- ===== src/Tests/Processors.antt =====
-- Cores, the managers of an edge node, and the scheduler.
use simcan2fog.Prelude.{
  ℕ, suc, ◌≡◌, refl, inl, inr, true, false, none, some, List, [], ◌∷◌, ok, arith, Ensures,
}
use simcan2fog.Resources.{VirtualMachine}
use simcan2fog.Hardware.{
  CoreState, fresh_core, EdgeManager, try_allocate_resources, deallocate_resources,
}
use simcan2fog.Hardware.Cores.{free_cores, on_first_free, lent}
use simcan2fog.Hardware.Edge.{edge_stay}
use simcan2fog.Cpu.{CpuMessage, exec_cpu, ticks}
use simcan2fog.Cpu.Core.{CpuCore, run}
use simcan2fog.Cpu.Core as Core
use simcan2fog.Cpu.Core.Run.{idle, Served, core_serves}
use simcan2fog.Cpu.Scheduler.{
  Scheduler, get_virtual_cpu_index, process_request_message, process_response_message,
}
use simcan2fog.Cpu.Scheduler.Fairness.{
  IsWorkConserving, Keeps, request-IsWorkConserving, response-IsWorkConserving,
}
use simcan2fog.Cpu.Scheduler.Conservation.{IsServing}

abbrev two_cores : List CoreState
two_cores = record fresh_core { free = false } ∷ fresh_core ∷ fresh_core ∷ []

two_free : free_cores two_cores ≡ 2
unfolding free_cores
two_free = refl

abbrev edge : EdgeManager
edge = record {
  available = record { memory_mib = 2048; disk_mib = 500; cores = 3; vms = 1; users = 1 };
  total = record { memory_mib = 2048; disk_mib = 500; cores = 3; vms = 1; users = 1 };
  cores_state = two_cores;
}

abbrev guest : VirtualMachine
guest = record { vm_type = "guest"; num_cores = 2; disk_mib = 100; memory_mib = 512 }

edge_stay_example :
    (index : List ℕ) × (taken : EdgeManager) × (try_allocate_resources 5 guest edge
      ≡ ok (some index, taken))
    × (deallocate_resources 9 guest index taken
        ≡ ok (record edge { cores_state = on_first_free (lent 5 9) 2 two_cores }))
edge_stay_example =
    edge_stay edge guest 1 5 9 refl (omega (arith, two_free))
      (record {
        vm_slot = omega arith;
        user_slot = omega arith;
        enough_cores = omega arith;
        enough_disk = omega arith;
        enough_memory = omega arith;
      })
      (record {
        cores_word = omega arith;
        disk_word = omega arith;
        memory_word = omega arith;
        vms_word = omega arith;
      })
      (record { cores_word = omega arith; disk_word = omega arith; memory_word = omega arith })

abbrev core : CpuCore
core = record { tick = 10; ipt = 1; pending_message = none; timer_set = false }

abbrev request : CpuMessage
request = record {
  operation = exec_cpu;
  is_response = false;
  next_module_index = 7;
  use_time = true;
  cpu_time = 25;
  use_mis = false;
  mis_to_execute = 0;
  quantum = ticks 2;
  is_completed = false;
  app_instance = "app";
}

core_serves_example :
    (d : CpuCore) × (n : ℕ) × (a : CpuMessage) × (Core.process_request_message core request ≡ ok d)
    × (run 2 d ≡ ok (some (idle core, a, suc n)))
    × Served core 2 25 (suc n) a
core_serves_example = core_serves core request 1 refl refl refl refl (omega arith)

-- One of two cores works; another request waits in the second scheduler.
abbrev half_busy : Scheduler
half_busy = record {
  quantum = ticks 2;
  is_running = true;
  managed_cpu_cores = 2;
  cores = true ∷ false ∷ [];
  cpu_core_index = some (3 ∷ 7 ∷ []);
  requests_queue = [];
  aborts_queue = [];
}

abbrev full : Scheduler
full = record half_busy {
  cores = false ∷ false ∷ [];
  requests_queue = record request { app_instance = "next" } ∷ [];
}

half_conserving : IsWorkConserving half_busy
half_conserving = record { managed = refl; no_idling = inl refl }

full_conserving : IsWorkConserving full
full_conserving = record { managed = refl; no_idling = inr (refl, (refl, tt)) }

request-IsWorkConserving_example : Ensures Keeps (process_request_message half_busy request)
request-IsWorkConserving_example = request-IsWorkConserving half_busy request half_conserving

response-IsWorkConserving_example : Ensures Keeps (process_response_message full request)
response-IsWorkConserving_example = response-IsWorkConserving full request full_conserving

full-IsServing : IsServing full request
unfolding get_virtual_cpu_index
full-IsServing = record {
  index = 3 ∷ 7 ∷ [];
  v = 1;
  running = refl;
  indexed = refl;
  found = refl;
  working = refl;
}
