-- ===== src/Cloud/NodeTable/Lookup.antt =====
-- What addOrUpdateNode leaves of the table: its order, and the nodes that are found by topic
-- (NodeTable.cc).
use simcan2fog.Prelude.{
  ℕ, suc, ◌≡◌, ◌≢◌, ◌<◌, ◌+◌, refl, sym, subst, ap, ◌∙◌, inl, inr, none, some, List, [], ◌∷◌, ◌++◌,
  length, get_elem?, set, length-set, length-append, Name, ok, runtime_error, or_fault, ◌>>=◌,
  arith, Option-cases, get_elem?-set_self,
}
use mathlib.Core.Option
use simcan2fog.Cloud.Sorted.{
  find, insert_sorted, IsSorted, All, find-insert_self, find-insert_ne, insert-IsSorted, sort-snoc,
  length-insert_sorted, All-insert, find-All,
}
use simcan2fog.Cloud.NodeTable.{
  NodeEntry, NodeTopic, NodeTable, topic_of, zone_of, find_node_by_topic, enter_zone, add_node,
  add_or_update, add_or_update_node,
}

-- The id of a topic is that of a node.
abbrev pub IsBelow : ℕ → NodeTopic → Type 0
IsBelow n e = e.node_id < n

pub record IsNodeTable (t : NodeTable) : Type 0 where
  pub sorted : IsSorted topic_of t.topics
  pub ids : All (IsBelow (length t.nodes)) t.topics
  pub one_each : length t.topics ≡ length t.nodes

-- The node that is found for the topic has these amounts.
pub record HasAmounts (topic : Name) (cores ram disk : ℕ) (t : NodeTable) : Type 0 where
  pub id : ℕ
  pub node : NodeEntry
  pub by_topic : find_node_by_topic topic t ≡ some id
  pub there : get_elem? t.nodes id ≡ some node
  pub cores_kept : node.available_cores ≡ cores
  pub ram_kept : node.available_ram ≡ ram
  pub disk_kept : node.available_disk ≡ disk

All-weaken : (m n : ℕ) (es : List NodeTopic) → m < suc n → All (IsBelow m) es → All (IsBelow n) es
All-weaken m n [] h a = tt
All-weaken m n (e ∷ es) h a = (omega (arith, a.0), All-weaken m n es h a.1)

pub get_elem?-append_last {ℓ} :
    {A : Type ℓ} (xs : List A) (x : A) → get_elem? (xs ++ x ∷ []) (length xs) ≡ some x
get_elem?-append_last [] x = refl
get_elem?-append_last (y ∷ ys) x = get_elem?-append_last ys x

pub get_elem?-below {ℓ} :
    {A : Type ℓ} (xs : List A) (i : ℕ) → i < length xs → (x : A) × (get_elem? xs i ≡ some x)
get_elem?-below [] i h = absurd (omega arith)
get_elem?-below (x ∷ xs) ℕ.zero h = (x, refl)
get_elem?-below (x ∷ xs) (suc i) h = get_elem?-below xs i (omega arith)

module _ (topic zone : Name) (cores ram disk : ℕ) (t : NodeTable) (inv : IsNodeTable t) where
  abbrev pub new_topic : NodeTopic
  new_topic = record { topic = topic; node_id = length t.nodes }

  -- The topics with the new one.
  abbrev pub grown : List NodeTopic
  grown = insert_sorted topic_of new_topic t.topics

  abbrev pub new_node : NodeEntry
  new_node = record {
    available_cores = cores;
    available_ram = ram;
    available_disk = disk;
    topic_index = length t.topics;
    zone_index = (enter_zone zone (length t.nodes) t.zones (find zone_of zone t.zones)).0;
  }

  abbrev pub grown_table : NodeTable
  grown_table = record {
    nodes = t.nodes ++ new_node ∷ [];
    topics = grown;
    zones = (enter_zone zone (length t.nodes) t.zones (find zone_of zone t.zones)).1;
  }

  pub add_node_grows :
      (e : NodeTopic) × (get_elem? grown (length t.topics) ≡ some e)
      × (add_node topic zone cores ram disk t ≡ ok (e.node_id, grown_table))
  unfolding add_node
  add_node_grows =
      let (e, last) =
        get_elem?-below grown (length t.topics)
          (omega (arith, length-insert_sorted topic_of new_topic t.topics)) in
      (e, last, rw (sort-snoc topic_of t.topics new_topic inv.sorted, last) refl)

  pub absent : find_node_by_topic topic t ≡ none → find topic_of topic t.topics ≡ none
  unfolding find_node_by_topic
  absent h = elim (Option-cases (find topic_of topic t.topics)) [
    | inl e ↦ e
    | inr (a, e) ↦
        absurd (let n : none ≡ some a.node_id = sym h ∙ ap (Option.map (λ e. e.node_id)) e in cc)
  ]

  grown-IsNodeTable : find topic_of topic t.topics ≡ none → IsNodeTable grown_table
  grown-IsNodeTable h = record {
    sorted = insert-IsSorted topic_of new_topic t.topics h inv.sorted;
    ids =
        subst (λ n. All (IsBelow n) grown) (sym (length-append t.nodes (new_node ∷ [])))
          (All-insert topic_of (IsBelow (length t.nodes + 1)) new_topic t.topics (omega arith)
            (All-weaken (length t.nodes) (length t.nodes + 1) t.topics (omega arith) inv.ids));
    one_each = omega (
      arith,
      length-insert_sorted topic_of new_topic t.topics,
      inv.one_each,
      length-append t.nodes (new_node ∷ []),
    );
  }

  grown-HasAmounts :
      find topic_of topic t.topics ≡ none → HasAmounts topic cores ram disk grown_table
  unfolding find_node_by_topic
  grown-HasAmounts h = record {
    id = length t.nodes;
    node = new_node;
    by_topic = ap (Option.map (λ e. e.node_id)) (find-insert_self topic_of new_topic t.topics h);
    there = get_elem?-append_last t.nodes new_node;
    cores_kept = refl;
    ram_kept = refl;
    disk_kept = refl;
  }

  -- What the call leaves: the table is in order, the node has the amounts, and every other topic finds
  -- the node that it found.
  pub record Stored (u : NodeTable) : Type 0 where
    pub valid : IsNodeTable u
    pub stored : HasAmounts topic cores ram disk u
    pub others :
        (other : Name) → other ≢ topic → find_node_by_topic other u ≡ find_node_by_topic other t

  grown-Stored : find topic_of topic t.topics ≡ none → Stored grown_table
  unfolding find_node_by_topic
  grown-Stored h = record {
    valid = grown-IsNodeTable h;
    stored = grown-HasAmounts h;
    others = λ other n.
        ap (Option.map (λ e. e.node_id)) (find-insert_ne topic_of other new_topic t.topics n);
  }

  module _ (e : NodeTopic) (node : NodeEntry) (found : find topic_of topic t.topics ≡ some e)
      (there : get_elem? t.nodes e.node_id ≡ some node) where
    abbrev changed : NodeEntry
    changed = record node { available_cores = cores; available_ram = ram; available_disk = disk }

    abbrev changed_table : NodeTable
    changed_table = record t { nodes = set t.nodes e.node_id changed }

    changed-Stored : Stored changed_table
    unfolding find_node_by_topic
    changed-Stored = record {
      valid = record {
        sorted = inv.sorted;
        ids =
            subst (λ n. All (IsBelow n) t.topics) (sym (length-set t.nodes e.node_id changed))
              inv.ids;
        one_each = inv.one_each ∙ sym (length-set t.nodes e.node_id changed);
      };
      stored = record {
        id = e.node_id;
        node = changed;
        by_topic = ap (Option.map (λ e. e.node_id)) found;
        there = get_elem?-set_self t.nodes e.node_id node changed there;
        cores_kept = refl;
        ram_kept = refl;
        disk_kept = refl;
      };
      others = λ other n. refl;
    }

  -- Storing a node in a table that is in order always succeeds and keeps the order; the node found by
  -- the topic has the amounts that were given, and every other topic finds what it found.
  pub add_or_update_node-Stored :
      (r : ℕ) × (u : NodeTable) × (add_or_update_node topic zone cores ram disk t ≡ ok (r, u))
      × Stored u
  unfolding add_or_update_node
  add_or_update_node-Stored = elim (Option-cases (find topic_of topic t.topics)) [
    | inl h ↦
        let (e, last, added) = add_node_grows in
        (
          e.node_id,
          grown_table,
          ap (add_or_update topic zone cores ram disk t) h ∙ added,
          grown-Stored h,
        )
    | inr (e, h) ↦
        let below = find-All topic_of (IsBelow (length t.nodes)) topic t.topics e inv.ids h in
        let (node, there) = get_elem?-below t.nodes e.node_id below.0 in
        (
          e.node_id,
          changed_table e node h there,
          ap (add_or_update topic zone cores ram disk t) h
              ∙ ap
                  (λ o. or_fault o runtime_error >>= λ n. ok (
                    e.node_id,
                    record t {
                      nodes = set t.nodes e.node_id (record n {
                        available_cores = cores;
                        available_ram = ram;
                        available_disk = disk;
                      });
                    },
                  ))
                  there,
          changed-Stored e node h there,
        )
  ]
