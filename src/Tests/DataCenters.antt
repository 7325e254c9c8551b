-- ===== src/Tests/DataCenters.antt =====
-- A data center of two nodes.
use simcan2fog.Prelude.{
  ℕ, ◌≡◌, refl, subst, String, false, some, List, [], ◌∷◌, ◌++◌, ◌==◌, if◌then◌else◌, Name, ok,
}
use simcan2fog.Resources.{VirtualMachine, IsVmWord}
use simcan2fog.Pool.{get_node}
use simcan2fog.Pool.Selection.{first_fit}
use simcan2fog.DataCenter.{
  get_host_name, not_assigned, VmOfRequest, no_result, vm_req, UserVm, DcManager,
  generate_hypervisor_url, url_of, dispatch_vms, to_nodes,
}
use simcan2fog.DataCenter.Dispatching.{
  vms_for, placed_at, IsAscending, AllAccepted, dispatch_vms_lem,
}
use simcan2fog.DataCenter.Answers.{Answered, noted, handle_vm_request_fits-Answered}
use simcan2fog.Tests.Placement.{
  small_vm, small_vm-IsVmWord, two_nodes, catalogue, wide_word, tight_word, after_two, two_records,
  two_signals, two_allocated,
}

-- The words of a text between its colons, without the empty ones.
abbrev end_word : Name → List Name → List Name
end_word [] words = words
end_word (c ∷ cs) words = (c ∷ cs) ∷ words

abbrev words_from : Name → Name → List Name
words_from word [] = end_word word []
words_from word (c ∷ cs) =
    let fresh = words_from [] cs in
    let longer = words_from (word ++ c ∷ []) cs in if c == b':' then end_word word fresh else longer

abbrev center : Name
center = b'd' ∷ b'c' ∷ []

abbrev host_a : Name
host_a = b'a' ∷ []

abbrev host_b : Name
host_b = b'b' ∷ []

abbrev manager : DcManager
manager = record {
  pool = two_nodes;
  net_db = record {
    hostname_to_address = (host_a, 10) ∷ (host_b, 11) ∷ [];
    address_to_hostname = (10, host_a) ∷ (11, host_b) ∷ [];
  };
  zone = b'z' ∷ [];
  node_name = center;
  domain = b'd' ∷ [];
  accepted_users = [];
  is_finished = false;
}

abbrev vm : String → VmOfRequest
vm id = record { vm_type = id; vm_id = id; state = not_assigned; start_time = 0; ip = [] }

abbrev asked : UserVm
asked = record {
  user_id = "user";
  return_topic = b'r' ∷ [];
  destination_topic = [];
  zone = [];
  domain = [];
  is_response = false;
  operation = vm_req;
  result = no_result;
  vms = vm "a" ∷ vm "b" ∷ [];
}

a_named :
    (url : Name) × (url_of manager (record { node_index = 0; vm_template = small_vm }) ≡ ok url)
unfolding url_of get_host_name get_node
a_named = (generate_hypervisor_url center host_a, refl)

dispatch_vms_lem_example :
    (after : List VmOfRequest) × (sent : List (ℕ × UserVm)) × (dispatch_vms 5 two_records asked
        manager
      ≡ ok (record asked { vms = after }, to_nodes sent))
    × AllAccepted asked.vms after
    × IsAscending sent
    × ((q : ℕ) → vms_for q sent ≡ placed_at q two_records after)
dispatch_vms_lem_example =
    dispatch_vms_lem 5 manager two_records asked (a_named, (a_named, tt)) refl

templates : (t : String) (vm : VirtualMachine) → catalogue t ≡ some vm → IsVmWord vm
templates t vm h = subst IsVmWord (cc) small_vm-IsVmWord

-- The node has its name too when the VMs are on it.
noted_a :
    (url : Name) × (url_of
        (noted first_fit catalogue templates 5 asked manager
          (wide_word, (tight_word, tt))
          after_two)
        (record { node_index = 0; vm_template = small_vm })
      ≡ ok url)
unfolding url_of get_host_name get_node
noted_a = (generate_hypervisor_url center host_a, refl)

handle_vm_request_fits-Answered_example :
    Answered first_fit catalogue templates 5 asked manager
      (wide_word, (tight_word, tt))
      (some two_records)
      after_two
handle_vm_request_fits-Answered_example =
    handle_vm_request_fits-Answered first_fit catalogue templates 5 asked manager
      (wide_word, (tight_word, tt)) (some two_records) after_two two_signals two_allocated
      ((noted_a, (noted_a, tt)), refl)
