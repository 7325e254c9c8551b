-- ===== src/Tests/Deployments.antt =====
-- A deployment of two applications and tables with the one VM that it runs on.
use simcan2fog.Prelude.{refl, true, false, none, some, [], ◌∷◌}
use simcan2fog.UserApp.{app_running, app_finished_ok, AppRequest, UserApp}
use simcan2fog.ControlTable.{
  Syscall, exec, AppControlBlock, vm_running, vm_suspended, live, VmControlBlock, VmControlTable,
}
use simcan2fog.ControlTable.Slots.{IsTaken}
use simcan2fog.Hypervisor.Suspension.{IsSuspended}

abbrev pub web : AppRequest
web = record {
  name = "web";
  app_type = "server";
  start_time = 0;
  finish_time = 0;
  state = app_running;
}

abbrev pub batch : AppRequest
batch = record {
  name = "batch";
  app_type = "job";
  start_time = 0;
  finish_time = 8;
  state = app_finished_ok;
}

abbrev pub deployment : UserApp
deployment = record {
  vm_id = "vm-a";
  user_id = "user";
  return_topic = "reply";
  destination_topic = "";
  accepted = false;
  is_response = false;
  apps = batch ∷ web ∷ [];
}

-- A table with one VM, which runs the second application of the deployment as its process 0.
abbrev pub process : AppControlBlock
process = record { pid = some 0; vm_id = some 0; deployment_index = some 1 }

abbrev pub block : VmControlBlock
block = record {
  vm_id = some 0;
  state = vm_running;
  vm_type = none;
  user_id = "user";
  apps = process ∷ [];
  call_buffer = [];
  request = live deployment;
}

abbrev pub call : Syscall
call = record {
  pid = some 0;
  vm_id = some 0;
  op_code = exec;
  is_response = false;
  is_exec_cpu = true;
  is_completed = false;
}

abbrev pub running : VmControlTable
running = record {
  num_apps_per_vm = 1;
  vms = block ∷ [];
  global_to_local = ("vm-a", 0) ∷ [];
  local_to_global = (0, "vm-a") ∷ [];
}

abbrev pub suspended_block : VmControlBlock
suspended_block = record block { state = vm_suspended; call_buffer = call ∷ [] }

abbrev pub suspended : VmControlTable
suspended = record running { vms = suspended_block ∷ [] }

pub running_taken : IsTaken running 0
running_taken = record { block = block; there = refl; taken = refl }

pub suspended_taken : IsTaken suspended 0
suspended_taken = record { block = suspended_block; there = refl; taken = refl }

abbrev pub suspension : IsSuspended suspended 0
suspension = record { block = suspended_block; there = refl; suspended = refl }
