-- ===== src/Cloud/NodeTable/Topics.antt =====
-- The place of a new node's topic, which addOrUpdateNode writes down before it sorts the topics
-- (NodeTable.cc, lines 30 to 40).
use simcan2fog.Prelude.{
  ℕ, ◌≡◌, ◌≢◌, ◌↔◌, sym, ap, ◌∙◌, inl, inr, none, some, List, [], ◌∷◌, length, get_elem?, Name, ok,
  fault, undefined, Option-cases, or_fault, ◌>>=◌, arith,
}
use simcan2fog.Cloud.Sorted.{
  find, AllBelow, All, Lacks, find-none-Lacks, insert_above_all, last_is_new,
}
use simcan2fog.Cloud.NodeTable.{
  NodeEntry, NodeTopic, NodeTable, topic_of, find_node_by_topic, get_topic_for_node, add_or_update,
  add_or_update_node,
}
use simcan2fog.Cloud.NodeTable.Lookup.{
  IsBelow, IsNodeTable, get_elem?-append_last, new_topic, grown, new_node, grown_table,
  add_node_grows, absent,
}

module _ (topic zone : Name) (cores ram disk : ℕ) (t : NodeTable) (inv : IsNodeTable t)
    (unknown : find_node_by_topic topic t ≡ none) where
  abbrev entry : NodeEntry
  entry = new_node topic zone cores ram disk t inv

  abbrev table : NodeTable
  table = grown_table topic zone cores ram disk t inv

  abbrev topics : List NodeTopic
  topics = grown topic zone cores ram disk t inv

  abbrev newest : NodeTopic
  newest = new_topic topic zone cores ram disk t inv

  no_entry : find topic_of topic t.topics ≡ none
  no_entry = absent topic zone cores ram disk t inv unknown

  lacks : Lacks topic_of topic t.topics
  lacks = find-none-Lacks topic_of topic t.topics inv.sorted no_entry

  old_ids :
      (es : List NodeTopic)
      → All (IsBelow (length t.nodes)) es
      → All (λ e. e.node_id ≢ length t.nodes) es
  old_ids [] a = tt
  old_ids (e ∷ es) a = (λ h. omega (arith, a.0), old_ids es a.1)

  last_if_above :
      AllBelow topic_of topic t.topics → get_elem? topics (length t.topics) ≡ some newest
  last_if_above a =
      rw (insert_above_all topic_of newest t.topics a) (get_elem?-append_last t.topics newest)

  topic_iff : (get_topic_for_node entry table ≡ ok topic) ↔ AllBelow topic_of topic t.topics
  unfolding get_topic_for_node
  topic_iff = (named, λ a. ap (λ o. or_fault o undefined >>= λ e. ok e.topic) (last_if_above a))
    where
      named : get_topic_for_node entry table ≡ ok topic → AllBelow topic_of topic t.topics
      named h = elim (Option-cases (get_elem? topics (length t.topics))) [
        | inl e ↦ absurd (
            let f : fault undefined ≡ ok topic =
              sym (ap (λ o. or_fault o undefined >>= λ e. ok e.topic) e) ∙ h in
            cc)
        | inr (e, last) ↦
            let f : ok e.topic ≡ ok topic =
              sym (ap (λ o. or_fault o undefined >>= λ e. ok e.topic) last) ∙ h in
            last_is_new topic_of (λ e. e.topic ≡ topic) newest e t.topics lacks lacks last (cc)
      ]

  -- A topic that the table does not have gets the next node. The node knows its topic, and its id is
  -- what is returned, exactly if all topics before it are less: else the node names another topic, and
  -- the id of another node is returned.
  pub new_node_topic :
      (r : ℕ) × (u : NodeTable) × (n : NodeEntry) × (add_or_update_node topic zone cores ram disk t
        ≡ ok (r, u))
      × (get_elem? u.nodes (length t.nodes) ≡ some n)
      × ((get_topic_for_node n u ≡ ok topic) ↔ AllBelow topic_of topic t.topics)
      × ((r ≡ length t.nodes) ↔ AllBelow topic_of topic t.topics)
  unfolding add_or_update_node
  new_node_topic =
      let (e, last, added) = add_node_grows topic zone cores ram disk t inv in
      (
        e.node_id,
        table,
        entry,
        ap (add_or_update topic zone cores ram disk t) no_entry ∙ added,
        get_elem?-append_last t.nodes entry,
        topic_iff,
        (
          λ same.
              last_is_new topic_of (λ e. e.node_id ≡ length t.nodes) newest e t.topics lacks
                (old_ids t.topics inv.ids) last same,
          λ a.
              let g : some e ≡ some newest = sym last ∙ last_if_above a in
              let same : e ≡ newest = cc in ap (λ (e : NodeTopic). e.node_id) same,
        ),
      )
