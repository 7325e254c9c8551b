-- ===== src/DataCenter.antt =====
-- The manager of a data center (src/s2f/management/managers/DcManager.cc, ManagerBase.cc) and the
-- addresses of its hosts (src/s2f/architecture/net/db/SimpleNetDb.cc). The selection strategy, the
-- catalogue of VM types, the forecast and the tokens of a URL are parameters. Encapsulation and the
-- trace of a message are left out: what is sent is an action.
pub mod Handlers
pub mod Urls
pub mod Dispatching
pub mod Answers
use simcan2fog.Prelude.{
  ℕ, zero, suc, ◌+◌, String, Bool, true, false, Option, none, some, List, [], ◌∷◌, ◌++◌, map, ltb,
  ◌==◌, if◌then◌else◌, ◌&&◌, Name, name_key, nat_key, string_key, lookup, insert, Outcome, ok,
  fault, runtime_error, out_of_range, or_fault, ◌>>=◌,
}
use simcan2fog.Resources.{VirtualMachine}
use simcan2fog.Pool.{Node, NodePool, get_node}
use simcan2fog.Manager.{
  NodeVmRecord, Signal, allocate_vms, get_available_cores, get_available_disk_mib,
  get_available_ram_mib,
}

-- SimpleNetDb
pub record SimpleNetDb : Type 0 where
  pub hostname_to_address : List (Name × ℕ)
  pub address_to_hostname : List (ℕ × Name)

unfoldable pub register_host : Name → ℕ → SimpleNetDb → SimpleNetDb
register_host host address db = record {
  hostname_to_address = insert host address db.hostname_to_address;
  address_to_hostname = insert address host db.address_to_hostname;
}

unfoldable pub get_address : Name → SimpleNetDb → Outcome ℕ
get_address host db = or_fault (lookup host db.hostname_to_address) out_of_range

unfoldable pub get_host_name : ℕ → SimpleNetDb → Outcome Name
get_host_name address db = or_fault (lookup address db.address_to_hostname) out_of_range

pub data ResponseState : Type 0 where
  not_assigned accepted rejected : ResponseState

-- VM_Request with the response that it carries.
pub record VmOfRequest : Type 0 where
  pub vm_type : String
  pub vm_id : String
  pub state : ResponseState
  pub start_time : ℕ
  pub ip : Name

pub data ResultCode : Type 0 where
  no_result vm_res_accept vm_res_reject app_sub_accept app_sub_reject : ResultCode

pub data Operation : Type 0 where
  vm_req vm_sub : Operation

-- SM_UserVM
pub record UserVm : Type 0 where
  pub user_id : String
  pub return_topic : Name
  pub destination_topic : Name
  pub zone : Name
  pub domain : Name
  pub is_response : Bool
  pub operation : Operation
  pub result : ResultCode
  pub vms : List VmOfRequest

-- `new SM_UserVM()`, as far as the fields are read.
abbrev pub new_user_vm : UserVm
new_user_vm = record {
  user_id = "";
  return_topic = [];
  destination_topic = [];
  zone = [];
  domain = [];
  is_response = false;
  operation = vm_req;
  result = no_result;
  vms = [];
}

-- SM_VmExtend
pub record VmExtend : Type 0 where
  pub user_id : String
  pub vm_id : String
  pub hypervisor_url : Name
  pub destination_topic : Name

pub data Action : Type 0 where
  vms_to_node : ℕ → UserVm → Action
  app_to_node : ℕ → String → Action
  extension_to_node : ℕ → VmExtend → Action
  respond : UserVm → Action
  offer : VmExtend → Action
  update_provider : ℕ → ℕ → ℕ → Action

pub record DcManager : Type 0 where
  pub pool : NodePool
  pub net_db : SimpleNetDb
  pub zone : Name
  pub node_name : Name
  pub domain : Name
  pub accepted_users : List (String × Name)
  pub is_finished : Bool

-- generateHypervisorUrl
unfoldable pub generate_hypervisor_url : Name → Name → Name
generate_hypervisor_url node_name host = node_name ++ (b':' ∷ b':' ∷ []) ++ host

-- resolveHypervisorUrl, of the tokens of the URL. The name of the node is compared with itself.
abbrev pub resolve_tokens : List Name → SimpleNetDb → Outcome ℕ
resolve_tokens [] db = fault runtime_error
resolve_tokens (node_name ∷ []) db = fault runtime_error
resolve_tokens (node_name ∷ host ∷ rest) db = get_address host db

unfoldable pub resolve_hypervisor_url : (Name → List Name) → Name → SimpleNetDb → Outcome ℕ
unfolding get_address
resolve_hypervisor_url tokens url db = resolve_tokens (tokens url) db

-- sendUpdateToCloudProvider
unfoldable pub update_of : NodePool → Action
unfolding get_available_cores get_available_ram_mib get_available_disk_mib
update_of p =
    update_provider (get_available_cores p) (get_available_ram_mib p) (get_available_disk_mib p)

-- The response that a placed VM gets.
abbrev pub accept_vm : ℕ → Name → VmOfRequest → VmOfRequest
accept_vm now url vm = record vm { state = accepted; start_time = now; ip = url }

-- The URL of the node of a record.
unfoldable pub url_of : DcManager → NodeVmRecord → Outcome Name
unfolding get_host_name generate_hypervisor_url
url_of dc r = get_node dc.pool r.node_index >>= λ node.
    get_host_name node.address dc.net_db
    >>= (λ host. ok (generate_hypervisor_url dc.node_name host))

-- dispatchVm: the whole request goes to the one node.
abbrev pub accept_first : ℕ → Name → List VmOfRequest → Outcome (List VmOfRequest)
accept_first now url [] = fault runtime_error
accept_first now url (vm ∷ vms) = ok (accept_vm now url vm ∷ vms)

unfoldable pub dispatch_vm : ℕ → NodeVmRecord → UserVm → DcManager → Outcome (UserVm × List Action)
unfolding url_of
dispatch_vm now r request dc = url_of dc r >>= λ url. accept_first now url request.vms >>= λ vms.
    let answered = record request { vms = vms } in
    ok (answered, vms_to_node r.node_index answered ∷ [])

-- The map from a node to its message, in the order of the nodes: the VM goes to the end of the message
-- of its node.
unfoldable pub append_vm : ℕ → VmOfRequest → List (ℕ × UserVm) → List (ℕ × UserVm)
append_vm k vm [] = (k, record new_user_vm { vms = vm ∷ [] }) ∷ []
append_vm k vm ((j, message) ∷ m) =
    let rest = append_vm k vm m in
    if ltb k j
    then (k, record new_user_vm { vms = vm ∷ [] }) ∷ (j, message) ∷ m
    else if k == j
    then (j, record message { vms = message.vms ++ vm ∷ [] }) ∷ m
    else (j, message) ∷ rest

-- The loop of dispatchVms over the records: the VMs with their responses, and the messages.
unfoldable pub dispatch_loop :
    ℕ
    → DcManager
    → List NodeVmRecord
    → List VmOfRequest
    → List (ℕ × UserVm)
    → Outcome (List VmOfRequest × List (ℕ × UserVm))
unfolding url_of append_vm
dispatch_loop now dc [] vms m = ok (vms, m)
dispatch_loop now dc (r ∷ rs) [] m = fault runtime_error
dispatch_loop now dc (r ∷ rs) (vm ∷ vms) m = url_of dc r >>= λ url.
    dispatch_loop now dc rs vms (append_vm r.node_index (accept_vm now url vm) m)
    >>= (λ done. ok (accept_vm now url vm ∷ done.0, done.1))

abbrev pub to_nodes : List (ℕ × UserVm) → List Action
to_nodes [] = []
to_nodes ((k, message) ∷ m) = vms_to_node k message ∷ to_nodes m

-- dispatchVms
unfoldable pub dispatch_vms :
    ℕ → List NodeVmRecord → UserVm → DcManager → Outcome (UserVm × List Action)
unfolding dispatch_loop
dispatch_vms now records request dc = dispatch_loop now dc records request.vms [] >>= λ done.
    ok (record request { vms = done.0 }, to_nodes done.1)

-- The choice of checkVmUserFit by the number of records.
abbrev pub dispatch : ℕ → List NodeVmRecord → UserVm → DcManager → Outcome (UserVm × List Action)
dispatch now [] request dc = dispatch_vms now [] request dc
dispatch now (r ∷ []) request dc = dispatch_vm now r request dc
dispatch now (r ∷ s ∷ rs) request dc = dispatch_vms now (r ∷ s ∷ rs) request dc

abbrev pub vm_types : List VmOfRequest → List String
vm_types [] = []
vm_types (vm ∷ vms) = vm.vm_type ∷ vm_types vms

-- What checkVmUserFit does with the result of allocateVms.
abbrev pub fit_result :
    ℕ
    → UserVm
    → DcManager
    → Option (List NodeVmRecord) × NodePool × List Signal
    → Outcome (Bool × UserVm × DcManager × List Action)
fit_result now request dc (none, pool, signals) = ok (false, request, record dc { pool = pool }, [])
fit_result now request dc (some records, pool, signals) =
    let noted = record dc {
      pool = pool;
      accepted_users = insert request.user_id request.return_topic dc.accepted_users;
    } in
    dispatch now records request noted >>= λ done. ok (true, done.0, noted, done.1)
