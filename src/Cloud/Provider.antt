-- ===== src/Cloud/Provider.antt =====
-- The cloud provider (src/s2f/management/cloudprovider/CloudProvider.cc). Messages are values with a
-- number for the pointer. Parameters: the lookups of the data manager, and of the module the default
-- zone and whether priority users skip the queue.
pub mod Selection
pub mod Dispatching
pub mod Requests
use simcan2fog.Prelude.{
  ℕ, suc, ◌+◌, ◌-◌, ◌%◌, Bool, true, false, Option, none, some, List, [], ◌∷◌, ◌++◌, ltb, leb, ◌==◌,
  if◌then◌else◌, ◌&&◌, not, set, Name, Outcome, ok, fault, runtime_error, or_fault, ◌>>=◌, u32_mod,
  u64_mod, add64,
}
use simcan2fog.Cloud.NodeTable.{
  NodeEntry, NodeTable, get_node, get_topic_for_node, find_nodes_by_zone, add_or_update_node,
}

pub data Operation : Type 0 where
  vm_req vm_sub node_update : Operation
  other_operation : ℕ → Operation

pub data ResultCode : Type 0 where
  no_result vm_res_reject app_sub_timeout : ResultCode

-- SM_UserVM. `pointer` is its address, `vm_types` the types of its VMs, and the two times are
-- maxSubTime of the first VM and the start of the wait in the queue.
pub record UserVm : Type 0 where
  pub pointer : ℕ
  pub user_id : Name
  pub zone : Name
  pub vm_types : List Name
  pub max_sub_time : ℕ
  pub start_subscription_time : ℕ
  pub end_subscription_time : ℕ
  pub operation : Operation
  pub is_response : Bool
  pub result : ResultCode
  pub return_topic : Name
  pub destination_topic : Name
  pub auto_source_topic : Bool

pub record QueueElement : Type 0 where
  pub request : UserVm
  pub time_out : ℕ

-- What arrives: a timer with its context, a message of a user, or the update of a node with its topic,
-- its zone and its amounts.
pub data Incoming : Type 0 where
  time_out_of : ℕ → Incoming
  user_message : UserVm → Incoming
  update_message : Name → Name → ℕ → ℕ → ℕ → Incoming

-- What the provider does to the outside: sends on queueOut, sets a timer and cancels one.
pub data Action : Type 0 where
  send : UserVm → Action
  schedule : ℕ → ℕ → Action
  cancel : ℕ → Action

-- `next_event` numbers the timers.
pub record CloudProvider : Type 0 where
  pub table : NodeTable
  pub queue : List QueueElement
  pub next_event : ℕ

-- What searchUser gives for the name of a type: a CloudUserPriority with its flag, or another user.
pub data UserType : Type 0 where
  cloud_user_priority : Bool → UserType
  plain_user : UserType

-- An int that took a value of 64 bits, as it is compared with such a value.
abbrev pub int_of : ℕ → ℕ
int_of c = if ltb (c % u32_mod) 2147483648 then c % u32_mod else c % u32_mod + (u64_mod - u32_mod)

-- The loop of selectNodeInPool: the best candidate so far and its node.
unfoldable pub select_best : NodeTable → ℕ → List ℕ → ℕ → Option ℕ → Outcome (Option ℕ)
select_best t total [] best selected = ok selected
select_best t total (i ∷ is) best selected = get_node i t >>= λ node.
    let better = leb total node.available_cores && ltb best node.available_cores in
    select_best t total is (if better then int_of node.available_cores else best)
      (if better then some i else selected)

-- node.availableCores -= totalCores
abbrev pub commit : ℕ → NodeEntry → NodeEntry
commit total node = record node {
  available_cores = (node.available_cores + u64_mod - total) % u64_mod;
}

abbrev pub take_node : ℕ → NodeTable → Option ℕ → Outcome (Option Name × NodeTable)
take_node total t none = ok (none, t)
take_node total t (some i) = get_node i t >>= λ node.
    get_topic_for_node node t
    >>= (λ topic. ok (some topic, record t { nodes = set t.nodes i (commit total node) }))

-- selectNodeInPool, after the requested cores were added up.
unfoldable pub select_node_in_pool : ℕ → List ℕ → NodeTable → Outcome (Option Name × NodeTable)
unfolding select_best
select_node_in_pool total pool t = select_best t total pool 0 none >>= take_node total t

-- find_first_of for one character; `none` is npos.
unfoldable pub find_first_of : ℕ → Name → Option ℕ
find_first_of c [] = none
find_first_of c (d ∷ ds) =
    let rest : Option ℕ = elim (find_first_of c ds) [ none ↦ none | some i ↦ some (suc i) ] in
    if c == d then some 0 else rest

-- substr
unfoldable pub substr : Name → ℕ → ℕ → Name
substr cs ℕ.zero ℕ.zero = []
substr [] ℕ.zero (suc n) = []
substr (c ∷ cs) ℕ.zero (suc n) = c ∷ substr cs ℕ.zero n
substr [] (suc i) n = []
substr (c ∷ cs) (suc i) n = substr cs i n

-- findUserTypeById: the text between the first `)` and the first `[`.
abbrev pub user_type_between :
    (Name → Option UserType) → Name → Option ℕ → Option ℕ → Option UserType
user_type_between search_user user_id none to_pos = none
user_type_between search_user user_id (some from_pos) none = none
user_type_between search_user user_id (some from_pos) (some to_pos) =
    if ltb from_pos to_pos
    then search_user (substr user_id (suc from_pos) (to_pos - from_pos - 1))
    else none

unfoldable pub find_user_type_by_id : (Name → Option UserType) → Name → Option UserType
unfolding find_first_of substr
find_user_type_by_id search_user user_id =
    user_type_between search_user user_id (find_first_of b')' user_id) (find_first_of b'[' user_id)

-- The user type as a CloudUserPriority: check_and_cast_nullable fails on another type.
abbrev pub is_priority : Option UserType → Outcome Bool
is_priority none = ok false
is_priority (some (cloud_user_priority b)) = ok b
is_priority (some plain_user) = fault runtime_error

-- rejectVmRequest
abbrev pub rejection : UserVm → UserVm
rejection request = record request {
  is_response = true;
  operation = vm_req;
  result = vm_res_reject;
  destination_topic = request.return_topic;
}

abbrev pub forwarded : Name → UserVm → UserVm
forwarded topic request = record request { auto_source_topic = false; destination_topic = topic }

abbrev pub answer :
    CloudProvider → UserVm → Option Name × NodeTable → Outcome (CloudProvider × List Action)
answer p request (none, t) = ok (record p { table = t }, send (rejection request) ∷ [])
answer p request (some topic, t) = ok (record p { table = t }, send (forwarded topic request) ∷ [])

abbrev pub has_to_wait : List QueueElement → Bool → Bool
has_to_wait [] skip = false
has_to_wait (e ∷ es) skip = not skip

-- handleVmSubscription
unfoldable pub handle_vm_subscription : ℕ → UserVm → CloudProvider → CloudProvider × List Action
handle_vm_subscription now sm p = (
  record p {
    queue =
        p.queue
        ++ record { request = record sm { start_subscription_time = now }; time_out = p.next_event }
          ∷ [];
    next_event = suc p.next_event;
  },
  schedule (now + sm.max_sub_time) p.next_event ∷ [],
)

-- queue.erase(find_if(...)): the element of the request and the others.
unfoldable pub erase_request : ℕ → List QueueElement → Option (UserVm × List QueueElement)
erase_request pointer [] = none
erase_request pointer (e ∷ es) =
    let rest : Option (UserVm × List QueueElement) = elim (erase_request pointer es) [
      | none ↦ none
      | some (r, others) ↦ some (r, e ∷ others)
    ] in
    if e.request.pointer == pointer then some (e.request, es) else rest

abbrev pub expiry : ℕ → UserVm → UserVm
expiry now request = record request {
  end_subscription_time = now;
  is_response = true;
  operation = vm_sub;
  result = app_sub_timeout;
  destination_topic = request.return_topic;
}

-- handleSubscriptionTimeout, of the timer whose context is the request at `pointer`.
unfoldable pub handle_subscription_timeout :
    ℕ → ℕ → CloudProvider → Outcome (CloudProvider × List Action)
unfolding erase_request
handle_subscription_timeout now pointer p =
    or_fault (erase_request pointer p.queue) runtime_error >>= λ found.
    ok (record p { queue = found.1 }, send (expiry now found.0) ∷ [])

-- attemptDispatching: the loop from the front of the queue, until a request has no node.
abbrev pub dispatch_next :
    QueueElement
    → List QueueElement
    → (NodeTable → Outcome (NodeTable × List QueueElement × List Action))
    → Option Name × NodeTable
    → Outcome (NodeTable × List QueueElement × List Action)
dispatch_next e es next (none, t) = ok (t, e ∷ es, [])
dispatch_next e es next (some topic, t) =
    next t >>= λ r. ok (r.0, r.1, cancel e.time_out ∷ send (forwarded topic e.request) ∷ r.2)

module _ (search_vm : Name → Option ℕ) (default_zone : Name) where
  -- calculateRequestedCores, from a sum on; `search_vm` gives the cores of a type.
  unfoldable pub calculate_requested_cores : ℕ → List Name → Outcome ℕ
  calculate_requested_cores total [] = ok total
  calculate_requested_cores total (vm_type ∷ vm_types) =
      or_fault (search_vm vm_type) runtime_error >>= λ cores.
      calculate_requested_cores (add64 total cores) vm_types

  abbrev pub select_in : List Name → Option (List ℕ) → NodeTable → Outcome (Option Name × NodeTable)
  select_in vm_types none t = ok (none, t)
  select_in vm_types (some pool) t =
      calculate_requested_cores 0 vm_types >>= λ total. select_node_in_pool total pool t

  -- selectNode: the zone of the request, and then the default zone, which must have nodes.
  abbrev pub or_default : List Name → Option Name × NodeTable → Outcome (Option Name × NodeTable)
  or_default vm_types (some topic, t) = ok (some topic, t)
  or_default vm_types (none, t) =
      or_fault (find_nodes_by_zone default_zone t) runtime_error >>= λ pool.
      select_in vm_types (some pool) t

  unfoldable pub select_node : UserVm → NodeTable → Outcome (Option Name × NodeTable)
  unfolding calculate_requested_cores select_node_in_pool
  select_node request t =
      select_in request.vm_types (find_nodes_by_zone request.zone t) t
      >>= or_default request.vm_types

  unfoldable pub attempt_dispatching :
      List QueueElement → NodeTable → Outcome (NodeTable × List QueueElement × List Action)
  unfolding select_node
  attempt_dispatching [] t = ok (t, [], [])
  attempt_dispatching (e ∷ es) t =
      select_node e.request t >>= dispatch_next e es (attempt_dispatching es)

  -- handleNodeUpdate
  unfoldable pub handle_node_update :
      Name → Name → ℕ → ℕ → ℕ → CloudProvider → Outcome (CloudProvider × List Action)
  unfolding attempt_dispatching
  handle_node_update topic zone cores ram disk p =
      add_or_update_node topic zone cores ram disk p.table >>= λ added.
      attempt_dispatching p.queue added.1 >>= (λ r. ok (record p { table = r.0; queue = r.1 }, r.2))

module _ (search_vm : Name → Option ℕ) (search_user : Name → Option UserType) (default_zone : Name)
    (dispatch_priority : Bool) where
  -- Whether the request may go past those that wait.
  abbrev pub skips : UserVm → Outcome Bool
  skips request = elim dispatch_priority [
    | true ↦ is_priority (find_user_type_by_id search_user request.user_id)
    | false ↦ ok false
  ]

  abbrev pub answer_unless : CloudProvider → UserVm → Bool → Outcome (CloudProvider × List Action)
  answer_unless p request true = ok (p, send (rejection request) ∷ [])
  answer_unless p request false =
      select_node search_vm default_zone request p.table >>= answer p request

  unfoldable pub handle_vm_request : UserVm → CloudProvider → Outcome (CloudProvider × List Action)
  unfolding select_node find_user_type_by_id
  handle_vm_request request p =
      skips request >>= λ skip. answer_unless p request (has_to_wait p.queue skip)

  -- handleMessage
  abbrev pub handle_operation :
      ℕ → UserVm → Operation → CloudProvider → Outcome (CloudProvider × List Action)
  handle_operation now sm vm_req p = handle_vm_request sm p
  handle_operation now sm vm_sub p = ok (handle_vm_subscription now sm p)
  handle_operation now sm node_update p = fault runtime_error
  handle_operation now sm (other_operation n) p = fault runtime_error

  unfoldable pub handle_message :
      ℕ → Incoming → CloudProvider → Outcome (CloudProvider × List Action)
  unfolding handle_vm_request handle_vm_subscription handle_subscription_timeout handle_node_update
  handle_message now (time_out_of pointer) p = handle_subscription_timeout now pointer p
  handle_message now (user_message sm) p = handle_operation now sm sm.operation p
  handle_message now (update_message topic zone cores ram disk) p =
      handle_node_update search_vm default_zone topic zone cores ram disk p
