-- ===== src/Cloud/NodeTable.antt =====
-- The table of the nodes, by topic and by zone (src/s2f/management/cloudprovider/NodeTable.{h,cc}).
-- The vectors of topics and zones are kept in the order of their names. A set of node ids is the list
-- of its elements in ascending order.
pub mod Lookup
pub mod Topics
use simcan2fog.Prelude.{
  ℕ, ◌≡◌, Bool, true, false, Option, none, some, List, [], ◌∷◌, ◌++◌, length, get_elem?, set, ltb,
  ◌==◌, if◌then◌else◌, Name, Outcome, ok, runtime_error, undefined, or_fault, ◌>>=◌,
}
use simcan2fog.Cloud.Sorted.{find, lower_bound, sort}
use mathlib.Core.Option

pub record NodeEntry : Type 0 where
  pub available_cores : ℕ
  pub available_ram : ℕ
  pub available_disk : ℕ
  pub topic_index : ℕ
  pub zone_index : ℕ

pub record NodeTopic : Type 0 where
  pub topic : Name
  pub node_id : ℕ

pub record NodeZone : Type 0 where
  pub zone : Name
  pub nodes : List ℕ

pub record NodeTable : Type 0 where
  pub nodes : List NodeEntry
  pub topics : List NodeTopic
  pub zones : List NodeZone

abbrev pub clear : NodeTable
clear = record { nodes = []; topics = []; zones = [] }

abbrev pub topic_of : NodeTopic → Name
topic_of t = t.topic

abbrev pub zone_of : NodeZone → Name
zone_of z = z.zone

-- findNodeByTopic; `none` is -1.
unfoldable pub find_node_by_topic : Name → NodeTable → Option ℕ
find_node_by_topic topic t = Option.map (λ e. e.node_id) (find topic_of topic t.topics)

-- findNodesByZone
unfoldable pub find_nodes_by_zone : Name → NodeTable → Option (List ℕ)
find_nodes_by_zone zone t = Option.map (λ z. z.nodes) (find zone_of zone t.zones)

-- getNode
abbrev pub get_node : ℕ → NodeTable → Outcome NodeEntry
get_node i t = or_fault (get_elem? t.nodes i) runtime_error

-- getTopicForNode
unfoldable pub get_topic_for_node : NodeEntry → NodeTable → Outcome Name
get_topic_for_node node t =
    or_fault (get_elem? t.topics node.topic_index) undefined >>= λ e. ok e.topic

-- getZoneForNode
unfoldable pub get_zone_for_node : NodeEntry → NodeTable → Outcome Name
get_zone_for_node node t = or_fault (get_elem? t.zones node.zone_index) undefined >>= λ z. ok z.zone

-- std::set<int>::insert
unfoldable pub set_insert : ℕ → List ℕ → List ℕ
set_insert i [] = i ∷ []
set_insert i (j ∷ js) =
    let rest = set_insert i js in
    if ltb i j then i ∷ j ∷ js else if i == j then j ∷ js else j ∷ rest

-- The index of the zone of a new node, and the zones with the node in its own. The index of a new
-- zone is that of its place before the zones are sorted.
unfoldable pub enter_zone : Name → ℕ → List NodeZone → Option NodeZone → ℕ × List NodeZone
unfolding set_insert
enter_zone zone i zones none =
    (length zones, sort zone_of (zones ++ record { zone = zone; nodes = i ∷ [] } ∷ []))
enter_zone zone i zones (some z) =
    let place = lower_bound zone_of zone zones in
    (place, set zones place (record z { nodes = set_insert i z.nodes }))

-- The branch of addOrUpdateNode for a new node. What it returns is read through the reference to the
-- last place of the topics, after they were sorted.
unfoldable pub add_node : Name → Name → ℕ → ℕ → ℕ → NodeTable → Outcome (ℕ × NodeTable)
unfolding enter_zone
add_node topic zone cores ram disk t =
    let node_index = length t.nodes in
    let topic_index = length t.topics in
    let topics = sort topic_of (t.topics ++ record { topic = topic; node_id = node_index } ∷ []) in
    let entered = enter_zone zone node_index t.zones (find zone_of zone t.zones) in
    let node : NodeEntry = record {
      available_cores = cores;
      available_ram = ram;
      available_disk = disk;
      topic_index = topic_index;
      zone_index = entered.0;
    } in
    or_fault (get_elem? topics topic_index) undefined >>= λ new_topic.
    ok (
      new_topic.node_id,
      record { nodes = t.nodes ++ node ∷ []; topics = topics; zones = entered.1 },
    )

-- addOrUpdateNode
abbrev pub update_node : ℕ → ℕ → ℕ → NodeTopic → NodeTable → Outcome (ℕ × NodeTable)
update_node cores ram disk e t = get_node e.node_id t >>= λ node. ok (
  e.node_id,
  record t {
    nodes =
        set t.nodes e.node_id
          (record node { available_cores = cores; available_ram = ram; available_disk = disk });
  },
)

abbrev pub add_or_update :
    Name → Name → ℕ → ℕ → ℕ → NodeTable → Option NodeTopic → Outcome (ℕ × NodeTable)
add_or_update topic zone cores ram disk t none = add_node topic zone cores ram disk t
add_or_update topic zone cores ram disk t (some e) = update_node cores ram disk e t

unfoldable pub add_or_update_node : Name → Name → ℕ → ℕ → ℕ → NodeTable → Outcome (ℕ × NodeTable)
unfolding add_node
add_or_update_node topic zone cores ram disk t =
    add_or_update topic zone cores ram disk t (find topic_of topic t.topics)
