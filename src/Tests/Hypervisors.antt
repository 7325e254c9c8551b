-- ===== src/Tests/Hypervisors.antt =====
-- Suspension, extension and termination at a hypervisor.
use simcan2fog.Prelude.{suc, ◌≡◌, refl, true, false, some, List, [], ◌∷◌, ok, get_elem?}
use simcan2fog.UserApp.{app_finished_ok, UserApp, set_state}
use simcan2fog.UserApp.States.{pending}
use simcan2fog.ControlTable.Operations.{get_local_vm_id, get_global_vm_id}
use simcan2fog.Hypervisor.{Hypervisor, Event, delete_app, handle_app_termination}
use simcan2fog.Hypervisor.Commands.{handle_vm_extension}
use simcan2fog.Hypervisor.Suspension.{
  Turn, starts, ends, perform_all, buffering, suspended_calls_wait, Accepted,
  handle_vm_extension-Accepted,
}
use simcan2fog.Hypervisor.Termination.{IsProcess, Notifies, handle_app_termination_lem}
use simcan2fog.Hypervisor.Termination as Termination
use simcan2fog.Hypervisor.Refusal.{refused_extension_fails}
use simcan2fog.Tests.Deployments.{
  web, batch, deployment, process, block, call, running, suspended_block, suspended,
  suspended_taken, suspension,
}

-- A call, an update on it, and its end.
abbrev turns : List Turn
turns = starts call ∷ ends call ∷ ends (record call { is_completed = true }) ∷ []

suspended_calls_wait_example :
    perform_all 9 turns suspended
    ≡ ok (
      buffering suspended 0 suspended_block
          (call ∷ record call { is_completed = true; is_response = true } ∷ []),
      [],
    )
suspended_calls_wait_example =
    suspended_calls_wait suspended 0 9 turns suspension (refl, (refl, (refl, tt)))

abbrev hypervisor : Hypervisor
hypervisor = record {
  is_virtual_hardware = false;
  has_listeners = false;
  node_id = 0;
  table = suspended;
  schedulers = [];
  cores = [];
  pool = record {
    nodes = [];
    total_resources = record { memory_mib = 0; disk_mib = 0; cores = 0; vms = 0 };
    available_resources = record { memory_mib = 0; disk_mib = 0; cores = 0; vms = 0 };
  };
}

named : get_local_vm_id suspended "vm-a" ≡ ok 0
unfolding get_local_vm_id
named = refl

handle_vm_extension-Accepted_example :
    Accepted hypervisor 0 suspended_block (call ∷ []) (handle_vm_extension 9 "vm-a" true hypervisor)
handle_vm_extension-Accepted_example =
    handle_vm_extension-Accepted hypervisor 9 0 "vm-a" suspension named

refused_extension_fails_example :
    ¬ (handle_vm_extension 9 "vm-a" false hypervisor ≡ ok (hypervisor, []))
refused_extension_fails_example =
    refused_extension_fails hypervisor 9 0 "vm-a" named suspended_taken (hypervisor, [])

global_name : get_global_vm_id running 0 ≡ ok "vm-a"
unfolding get_global_vm_id
global_name = refl

abbrev web_process : IsProcess running 0 0 1
web_process = record {
  block = block;
  app = process;
  deployment = deployment;
  instance_of = web;
  global = "vm-a";
  there = refl;
  process = refl;
  deployed = refl;
  requested = refl;
  application = refl;
  unfinished = refl;
  named = global_name;
}

handle_app_termination_lem_example :
    (r : UserApp) × (sent : List Event) × (handle_app_termination 9
        (some 0)
        (some 0)
        app_finished_ok
        running
      ≡ ok (Termination.ended running 0 0 1 web_process r, delete_app 0 (some 0) ∷ sent))
    × (get_elem? r.apps 1 ≡ some (set_state 9 app_finished_ok web))
    × (suc (pending r.apps) ≡ pending (batch ∷ web ∷ []))
    × Notifies running 0 0 1 web_process r sent
handle_app_termination_lem_example =
    handle_app_termination_lem running 0 0 1 9 app_finished_ok web_process refl
