-- ===== src/DataCenter/Handlers.antt =====
-- The handlers of the manager of a data center (DcManager.cc) and their tables (ManagerBase.cc). A
-- message stands for its operation code or, as a response, for its result.
use simcan2fog.Prelude.{
  ℕ, ◌+◌, String, Bool, true, false, Option, List, [], ◌∷◌, ◌++◌, ltb, ◌==◌, if◌then◌else◌, not,
  Name, string_key, lookup, Outcome, ok, fault, failed_assert, runtime_error, undefined,
  out_of_range, or_fault, ◌>>=◌,
}
use simcan2fog.Resources.{VirtualMachine}
use simcan2fog.Pool.{Node}
use simcan2fog.Manager.{allocate_vms}
use simcan2fog.DataCenter.{
  UserVm, VmExtend, vm_res_accept, vm_res_reject, app_sub_accept, app_sub_reject, vm_req, vm_sub,
  Action, app_to_node, extension_to_node, respond, offer, DcManager, fit_result, vm_types,
  update_of, resolve_hypervisor_url,
}

-- What arrives as a request, and as a response by its result code.
pub data Request : Type 0 where
  app_request : Name → String → Request
  vm_request vm_subscription : UserVm → Request
  extension_offer : VmExtend → Request
  user_control : Request
  other_request : ℕ → Request

pub data Response : Type 0 where
  app_accepted : UserVm → Response
  extension_accepted extension_rejected : VmExtend → Response
  other_response : ℕ → Response

module _ (select : VirtualMachine → List Node → Outcome (Option ℕ))
    (search_vm : String → Option VirtualMachine) where
  -- checkVmUserFit
  unfoldable pub check_vm_user_fit :
      ℕ → UserVm → DcManager → Outcome (Bool × UserVm × DcManager × List Action)
  check_vm_user_fit now request dc =
      allocate_vms select search_vm dc.pool (vm_types request.vms) >>= fit_result now request dc

  -- The fields of the answer to a request for VMs, and of that to a subscription.
  abbrev pub vm_answer : Bool → DcManager → UserVm → UserVm
  vm_answer fits dc request = record request {
    result = if fits then vm_res_accept else vm_res_reject;
    is_response = true;
    operation = vm_req;
    zone = dc.zone;
    domain = dc.domain;
    destination_topic = request.return_topic;
  }

  abbrev pub subscription_answer : Bool → UserVm → UserVm
  subscription_answer fits request = record request {
    result = if fits then app_sub_accept else app_sub_reject;
    is_response = true;
    operation = vm_sub;
    destination_topic = request.return_topic;
  }

  -- The update that follows a refusal.
  abbrev pub update_unless : Bool → DcManager → List Action
  update_unless true dc = []
  update_unless false dc = update_of dc.pool ∷ []

  -- handleVmRequestFits
  unfoldable pub handle_vm_request_fits : ℕ → UserVm → DcManager → Outcome (DcManager × List Action)
  unfolding check_vm_user_fit update_of
  handle_vm_request_fits now request dc =
      check_vm_user_fit now request dc >>= λ (fits, answered, after, sent).
      ok (after, sent ++ (update_unless fits after ++ respond (vm_answer fits after answered) ∷ []))

  -- handleVmSubscription
  unfoldable pub handle_vm_subscription : ℕ → UserVm → DcManager → Outcome (DcManager × List Action)
  unfolding check_vm_user_fit update_of
  handle_vm_subscription now request dc =
      check_vm_user_fit now request dc >>= λ (fits, answered, after, sent). ok (
        after,
        sent ++ (update_unless fits after ++ respond (subscription_answer fits answered) ∷ []),
      )

  module _ (tokens : Name → List Name) where
    -- handleApplicationRequest, of the request named `app` at a URL.
    abbrev pub handle_application_request :
        Name → String → DcManager → Outcome (DcManager × List Action)
    handle_application_request url app dc =
        resolve_hypervisor_url tokens url dc.net_db >>= λ address.
        ok (dc, app_to_node address app ∷ [])

    -- handleVmRentTimeout
    abbrev pub handle_vm_rent_timeout : VmExtend → DcManager → Outcome (DcManager × List Action)
    handle_vm_rent_timeout extension dc =
        or_fault (lookup extension.user_id dc.accepted_users) out_of_range >>= λ topic.
        ok (dc, offer (record extension { destination_topic = topic }) ∷ [])

    -- handleExtendVmAndResumeExecution
    abbrev pub handle_extend_vm : VmExtend → DcManager → Outcome (DcManager × List Action)
    handle_extend_vm response dc =
        resolve_hypervisor_url tokens response.hypervisor_url dc.net_db >>= λ address.
        ok (dc, extension_to_node address response ∷ [])

    -- handleEndVmAndAbortExecution
    abbrev pub handle_end_vm : VmExtend → DcManager → Outcome (DcManager × List Action)
    handle_end_vm response dc =
        resolve_hypervisor_url tokens response.hypervisor_url dc.net_db >>= λ address.
        ok (dc, extension_to_node address response ∷ update_of dc.pool ∷ [])

    -- The try block around a handler: what stands for its result if it throws std::out_of_range.
    abbrev pub if_out_of_range :
        Outcome (DcManager × List Action)
        → Outcome (DcManager × List Action)
        → Outcome (DcManager × List Action)
    if_out_of_range caught (ok done) = ok done
    if_out_of_range caught (fault failed_assert) = fault failed_assert
    if_out_of_range caught (fault runtime_error) = fault runtime_error
    if_out_of_range caught (fault undefined) = fault undefined
    if_out_of_range caught (fault out_of_range) = caught

    -- ManagerBase::processRequestMessage with the handlers of initializeRequestHandlers.
    unfoldable pub process_request_message :
        ℕ → Request → DcManager → Outcome (DcManager × List Action)
    unfolding handle_vm_request_fits handle_vm_subscription resolve_hypervisor_url
    process_request_message now (app_request url app) dc =
        if_out_of_range (fault runtime_error) (handle_application_request url app dc)
    process_request_message now (vm_request request) dc =
        if_out_of_range (fault runtime_error) (handle_vm_request_fits now request dc)
    process_request_message now (vm_subscription request) dc =
        if_out_of_range (fault runtime_error) (handle_vm_subscription now request dc)
    process_request_message now (extension_offer extension) dc =
        if_out_of_range (fault runtime_error) (handle_vm_rent_timeout extension dc)
    process_request_message now user_control dc = ok (record dc { is_finished = true }, [])
    process_request_message now (other_request code) dc = fault runtime_error

    -- ManagerBase::processResponseMessage with those of initializeResponseHandlers: a result without a
    -- handler is only logged, and so is a std::out_of_range that a handler throws.
    unfoldable pub process_response_message :
        Response → DcManager → Outcome (DcManager × List Action)
    unfolding resolve_hypervisor_url update_of
    process_response_message (app_accepted response) dc = ok (dc, respond response ∷ [])
    process_response_message (extension_accepted response) dc =
        if_out_of_range (ok (dc, [])) (handle_extend_vm response dc)
    process_response_message (extension_rejected response) dc =
        if_out_of_range (ok (dc, [])) (handle_end_vm response dc)
    process_response_message (other_response code) dc = ok (dc, [])

-- ResourceManager::setActiveMachines is an error.
abbrev pub set_active_machines : ℕ → DcManager → Outcome DcManager
set_active_machines n dc = fault runtime_error

-- manageActiveMachines, with the numbers of nodes in use and active, and a threshold that is not
-- negative.
unfoldable pub manage_active_machines : Bool → ℕ → ℕ → ℕ → DcManager → Outcome DcManager
manage_active_machines forecast threshold in_use active dc =
    if forecast
    then (if ltb active (in_use + threshold)
        then set_active_machines (in_use + threshold) dc
        else ok dc)
    else if ltb 0 threshold
    then set_active_machines (in_use + threshold) dc
    else ok dc

-- handleManageMachines, with the forecast of the machines in use: whether the timer is set again, and
-- the change of the active machines.
unfoldable pub handle_manage_machines : Bool → ℕ → ℕ → ℕ → DcManager → Outcome (DcManager × Bool)
handle_manage_machines forecast threshold in_use forecast_in_use dc =
    (if forecast
      then (if ltb in_use (forecast_in_use + threshold)
          then set_active_machines (forecast_in_use + threshold) dc
          else ok dc)
      else ok dc)
    >>= λ after. ok (after, not dc.is_finished)

-- handleCpuStatus: whether the timer is set again.
abbrev pub handle_cpu_status : DcManager → Bool
handle_cpu_status dc = not dc.is_finished

-- getOutGate: a message leaves by the network that it came from.
pub record Gates : Type 0 where
  pub network_in : ℕ
  pub network_out : ℕ
  pub queue_in : ℕ
  pub queue_out : ℕ

unfoldable pub get_out_gate : Gates → ℕ → Outcome ℕ
get_out_gate g arrival =
    if arrival == g.network_in
    then ok g.network_out
    else if arrival == g.queue_in
    then ok g.queue_out
    else fault runtime_error
