-- ===== src/Tests/Clouds.antt =====
-- Node tables, and requests at the cloud provider.
use simcan2fog.Prelude.{
  ℕ, suc, ◌≡◌, ◌<◌, refl, ap, ◌⊎◌, ◌↔◌, true, false, Option, none, some, List, [], ◌∷◌, ◌++◌,
  get_elem?, Name, less, ok, arith,
}
use simcan2fog.Cloud.Sorted.{AllBelow, find, lower_bound}
use simcan2fog.Cloud.NodeTable.{
  NodeEntry, NodeTable, topic_of, find_node_by_topic, find_nodes_by_zone, get_topic_for_node,
  add_or_update_node,
}
use simcan2fog.Cloud.NodeTable.Lookup.{IsNodeTable, Stored, add_or_update_node-Stored}
use simcan2fog.Cloud.NodeTable.Topics.{new_node_topic}
use simcan2fog.Cloud.Provider.{
  UserVm, vm_req, no_result, QueueElement, CloudProvider, UserType, handle_vm_request,
  handle_node_update, select_node_in_pool,
}
use simcan2fog.Cloud.Provider.Selection.{IsReady, Chosen, select_node_in_pool-Chosen}
use simcan2fog.Cloud.Provider.Dispatching.{Departs, IsServing, departures, elements, IsStuck}
use simcan2fog.Cloud.Provider.Requests.{
  Refuses, Forwards, handle_vm_request-Answers, handle_node_update-LeavesFront,
}

abbrev paris : Name
paris = b'p' ∷ []

abbrev oslo : Name
oslo = b'o' ∷ []

abbrev north : Name
north = b'n' ∷ []

abbrev node_with : ℕ → NodeEntry
node_with cores = record {
  available_cores = cores;
  available_ram = 64;
  available_disk = 100;
  topic_index = 0;
  zone_index = 0;
}

abbrev one_node : ℕ → NodeTable
one_node cores = record {
  nodes = node_with cores ∷ [];
  topics = record { topic = paris; node_id = 0 } ∷ [];
  zones = record { zone = north; nodes = 0 ∷ [] } ∷ [];
}

one_node-IsNodeTable : IsNodeTable (one_node 8)
one_node-IsNodeTable = record { sorted = (tt, tt); ids = (omega arith, tt); one_each = refl }

oslo_unknown : find_node_by_topic oslo (one_node 8) ≡ none
unfolding find_node_by_topic find lower_bound less
oslo_unknown = refl

add_or_update_node-Stored_example :
    (r : ℕ) × (u : NodeTable) × (add_or_update_node oslo north 4 32 50 (one_node 8) ≡ ok (r, u))
    × Stored oslo north 4 32 50 (one_node 8) one_node-IsNodeTable u
add_or_update_node-Stored_example =
    add_or_update_node-Stored oslo north 4 32 50 (one_node 8) one_node-IsNodeTable

-- The new topic comes before the one that is there: the node does not know it.
new_node_topic_example :
    (r : ℕ) × (u : NodeTable) × (n : NodeEntry) × (add_or_update_node oslo north 4 32 50
        (one_node 8)
      ≡ ok (r, u))
    × (get_elem? u.nodes 1 ≡ some n)
    × ((get_topic_for_node n u ≡ ok oslo) ↔ AllBelow topic_of oslo (one_node 8).topics)
    × ((r ≡ 1) ↔ AllBelow topic_of oslo (one_node 8).topics)
new_node_topic_example =
    new_node_topic oslo north 4 32 50 (one_node 8) one_node-IsNodeTable oslo_unknown

topic_in_one : (i : ℕ) (n : NodeEntry) → get_elem? (one_node 8).nodes i ≡ some n → n.topic_index < 1
topic_in_one ℕ.zero n h =
    let same : node_with 8 ≡ n = cc in omega (arith, ap (λ (k : NodeEntry). k.topic_index) same)
topic_in_one (suc i) n h = cc

cores_in_one :
    (i : ℕ) (n : NodeEntry)
    → get_elem? (one_node 8).nodes i ≡ some n
    → n.available_cores < 2147483648
cores_in_one ℕ.zero n h =
    let same : node_with 8 ≡ n = cc in omega (arith, ap (λ (k : NodeEntry). k.available_cores) same)
cores_in_one (suc i) n h = cc

one_node-IsReady : IsReady (one_node 8)
one_node-IsReady = record {
  named = topic_in_one;
  small = cores_in_one;
  zoned = ((omega arith, tt), tt);
}

select_node_in_pool-Chosen_example :
    (o : Option Name × NodeTable) × (select_node_in_pool 3 (0 ∷ []) (one_node 8) ≡ ok o)
    × Chosen (one_node 8) one_node-IsReady 3 (0 ∷ []) o
select_node_in_pool-Chosen_example =
    select_node_in_pool-Chosen (one_node 8) one_node-IsReady 3 (0 ∷ []) (omega arith, tt)

abbrev nobody : Name → Option UserType
nobody name = none

-- Every type has two cores.
abbrev two_cores : Name → Option ℕ
two_cores vm_type = some 2

one_node-IsServing : IsServing two_cores north (one_node 8)
unfolding find_nodes_by_zone find lower_bound less
one_node-IsServing = record { ready = one_node-IsReady; pool = 0 ∷ []; default_there = refl }

abbrev request : ℕ → UserVm
request pointer = record {
  pointer = pointer;
  user_id = b'u' ∷ [];
  zone = oslo;
  vm_types = (b's' ∷ []) ∷ (b's' ∷ []) ∷ [];
  max_sub_time = 60;
  start_subscription_time = 0;
  end_subscription_time = 0;
  operation = vm_req;
  is_response = false;
  result = no_result;
  return_topic = b'r' ∷ [];
  destination_topic = [];
  auto_source_topic = true;
}

abbrev waiting : ℕ → QueueElement
waiting pointer = record { request = request pointer; time_out = pointer }

-- Three requests of four cores wait for a node of one core.
abbrev busy : CloudProvider
busy = record { table = one_node 1; queue = waiting 1 ∷ waiting 2 ∷ waiting 3 ∷ []; next_event = 4 }

freed : add_or_update_node paris north 8 64 100 (one_node 1) ≡ ok (0, one_node 8)
unfolding add_or_update_node find lower_bound less
freed = refl

handle_node_update-LeavesFront_example :
    (u : NodeTable) × (rest : List QueueElement) × (front : List (QueueElement × Name))
    × (handle_node_update two_cores north paris north 8 64 100 busy
        ≡ ok (record busy { table = u; queue = rest }, departures two_cores north front))
    × (busy.queue ≡ elements two_cores north front ++ rest)
    × Departs two_cores north (one_node 8) front u
    × IsStuck two_cores north rest u
handle_node_update-LeavesFront_example =
    handle_node_update-LeavesFront two_cores nobody north false paris north 8 64 100 0 busy
      (one_node 8) freed one_node-IsServing
      (
        ((2, refl), ((2, refl), tt)),
        (((2, refl), ((2, refl), tt)), (((2, refl), ((2, refl), tt)), tt)),
      )

abbrev idle : CloudProvider
idle = record busy { table = one_node 8; queue = [] }

handle_vm_request-Answers_example :
    Refuses two_cores nobody north false idle
      (request 7)
      false
      (handle_vm_request two_cores nobody north false (request 7) idle)
    ⊎ Forwards two_cores nobody north false idle
        (request 7)
        false
        (handle_vm_request two_cores nobody north false (request 7) idle)
handle_vm_request-Answers_example =
    handle_vm_request-Answers two_cores nobody north false idle (request 7) false one_node-IsServing
      ((2, refl), ((2, refl), tt)) refl
