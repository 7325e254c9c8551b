-- ===== src/Cloud/Provider/Selection.antt =====
-- Which node of a zone the cloud provider chooses (selectNodeInPool of CloudProvider.cc).
use simcan2fog.Prelude.{
  ℕ, ◌+◌, ◌≡◌, ◌≤◌, ◌<◌, refl, sym, subst, ap, ◌∙◌, ◌⊎◌, inl, inr, Bool, true, false, Option, none,
  some, List, [], ◌∷◌, ltb, leb, ◌&&◌, if◌then◌else◌, get_elem?, set, length, length-set,
  get_elem?-set_self, get_elem?-set_ne, ==_iff, ◌==◌, Name, ok, undefined, or_fault, ◌>>=◌, arith,
  Bool-cases, Option-cases,
}
use simcan2fog.Cloud.NodeTable.Lookup.{get_elem?-below}
use simcan2fog.Cloud.Sorted.{All}
use simcan2fog.Cloud.NodeTable.{NodeEntry, NodeTopic, NodeTable, get_topic_for_node}
use simcan2fog.Cloud.Provider.{int_of, select_best, commit, take_node, select_node_in_pool}

abbrev pub Among : ℕ → List ℕ → Type 0
Among i [] = ⊥
Among i (j ∷ js) = (i ≡ j) ⊎ Among i js

-- The cores of a node, 0 where there is none.
abbrev pub cores_at : Option NodeEntry → ℕ
cores_at none = 0
cores_at (some n) = n.available_cores

abbrev pub cores_of : NodeTable → ℕ → ℕ
cores_of t i = cores_at (get_elem? t.nodes i)

-- The node is in the table, and its cores fit an int.
abbrev pub IsNode : NodeTable → ℕ → Type 0
IsNode t i = (n : NodeEntry) × (get_elem? t.nodes i ≡ some n) × (n.available_cores < 2147483648)

module _ (t : NodeTable) (total : ℕ) where
  -- No node of the pool has enough cores and more than `best`.
  abbrev pub NoBetter : ℕ → List ℕ → Type 0
  NoBetter best = All (λ j. total ≤ cores_of t j → cores_of t j ≤ best)

  -- The node has enough cores and more than `best`, and none that has enough has more.
  pub record IsBest (best : ℕ) (pool : List ℕ) (i : ℕ) : Type 0 where
    pub among : Among i pool
    pub enough : total ≤ cores_of t i
    pub more : best < cores_of t i
    pub most : NoBetter (cores_of t i) pool

  abbrev LoopEnds : ℕ → Option ℕ → List ℕ → Option ℕ → Type 0
  LoopEnds best selected pool r =
      ((r ≡ selected) × NoBetter best pool) ⊎ ((i : ℕ) × (r ≡ some i) × IsBest best pool i)

  step :
      (j : ℕ) (js : List ℕ) (best : ℕ) (selected : Option ℕ) (n : NodeEntry) (b : Bool)
      → get_elem? t.nodes j ≡ some n
      → (leb total n.available_cores && ltb best n.available_cores) ≡ b
      → select_best t total (j ∷ js) best selected
        ≡ select_best t total js
            (if b then int_of n.available_cores else best)
            (if b then some j else selected)
  unfolding select_best
  step j js best selected n b there e = rw (there, e) refl

  int_exact : (c : ℕ) → c < 2147483648 → int_of c ≡ c
  int_exact c h = ground arith

  module _ (j : ℕ) (js : List ℕ) (best : ℕ) (n : NodeEntry)
      (there : get_elem? t.nodes j ≡ some n) where
    head-IsBest :
        (leb total n.available_cores && ltb best n.available_cores) ≡ true
        → NoBetter n.available_cores js
        → IsBest best (j ∷ js) j
    head-IsBest e none_better = record {
      among = inl refl;
      enough = ground (arith, ap cores_at there);
      more = ground (arith, ap cores_at there);
      most = (λ h. omega arith, subst (λ c. NoBetter c js) (sym (ap cores_at there)) none_better);
    }

    later-IsBest :
        (i : ℕ)
        → IsBest n.available_cores js i
        → (leb total n.available_cores && ltb best n.available_cores) ≡ true
        → IsBest best (j ∷ js) i
    later-IsBest i b e = record {
      among = inr b.among;
      enough = b.enough;
      more = ground (arith, b.more);
      most = (λ h. omega (arith, ap cores_at there, b.more), b.most);
    }

    head_no_better :
        (leb total n.available_cores && ltb best n.available_cores) ≡ false
        → total ≤ cores_of t j
        → cores_of t j ≤ best
    head_no_better e h = ground (arith, ap cores_at there)

    only_later-IsBest :
        (i : ℕ)
        → (leb total n.available_cores && ltb best n.available_cores) ≡ false
        → IsBest best js i
        → IsBest best (j ∷ js) i
    only_later-IsBest i e b = record {
      among = inr b.among;
      enough = b.enough;
      more = b.more;
      most = (λ h. omega (arith, head_no_better e h, b.more), b.most);
    }

  select_best-LoopEnds :
      (pool : List ℕ) (best : ℕ) (selected : Option ℕ)
      → All (IsNode t) pool
      → (r : Option ℕ) × (select_best t total pool best selected ≡ ok r)
        × LoopEnds best selected pool r
  unfolding select_best
  select_best-LoopEnds [] best selected a = (selected, refl, inl (refl, tt))
  select_best-LoopEnds (j ∷ js) best selected ((n, there, small), rest) =
      elim (Bool-cases (leb total n.available_cores && ltb best n.available_cores)) [
        | inl e ↦
            let (r, run, ends) = select_best-LoopEnds js n.available_cores (some j) rest in
            (
              r,
              step j js best selected n true there e
                  ∙ ap (λ c. select_best t total js c (some j)) (int_exact n.available_cores small)
                  ∙ run,
              inr (elim ends [
                | inl (same, none_better) ↦ (j, same, head-IsBest j js best n there e none_better)
                | inr (i, same, b) ↦ (i, same, later-IsBest j js best n there i b e)
              ]),
            )
        | inr e ↦
            let (r, run, ends) = select_best-LoopEnds js best selected rest in
            (
              r,
              step j js best selected n false there e ∙ run,
              elim ends [
                | inl (same, none_better) ↦
                    inl (same, (head_no_better j js best n there e, none_better))
                | inr (i, same, b) ↦ inr (i, same, only_later-IsBest j js best n there i e b)
              ],
            )
      ]

-- The ids in the zones and the places of the topics lie in the table, and cores fit an int.
pub record IsReady (t : NodeTable) : Type 0 where
  pub named :
      (i : ℕ) (n : NodeEntry) → get_elem? t.nodes i ≡ some n → n.topic_index < length t.topics
  pub small :
      (i : ℕ) (n : NodeEntry) → get_elem? t.nodes i ≡ some n → n.available_cores < 2147483648
  pub zoned : All (λ z. All (λ i. i < length t.nodes) z.nodes) t.zones

pub All-map {ℓ} :
    {A : Type ℓ} (P Q : A → Type 0) (xs : List A) → ((x : A) → P x → Q x) → All P xs → All Q xs
All-map P Q [] f a = tt
All-map P Q (x ∷ xs) f a = (f x a.0, All-map P Q xs f a.1)

module _ (t : NodeTable) (ready : IsReady t) (total i : ℕ) (n : NodeEntry)
    (there : get_elem? t.nodes i ≡ some n) where
  abbrev pub committed : NodeTable
  committed = record t { nodes = set t.nodes i (commit total n) }

  entry_of_committed :
      (j : ℕ) (m : NodeEntry)
      → get_elem? committed.nodes j ≡ some m
      → (k : ℕ) × (old : NodeEntry) × (get_elem? t.nodes k ≡ some old)
        × (m.topic_index ≡ old.topic_index)
        × (total ≤ n.available_cores → m.available_cores ≤ old.available_cores)
  entry_of_committed j m h = elim (Bool-cases (i == j)) [
    | inl e ↦
        let q : some (commit total n) ≡ some m =
          sym (get_elem?-set_self t.nodes i n (commit total n) there)
          ∙ ap (get_elem? committed.nodes) ((==_iff i j).0 e)
          ∙ h in
        let same : commit total n ≡ m = cc in
        (
          i,
          n,
          there,
          ap (λ (k : NodeEntry). k.topic_index) (sym same),
          λ enough.
              omega (arith, ap (λ (k : NodeEntry). k.available_cores) same, ready.small i n there),
        )
    | inr e ↦ (
      j,
      m,
      sym (
            get_elem?-set_ne t.nodes i j (commit total n)
              (λ q. let f : false ≡ true = sym e ∙ (==_iff i j).1 q in cc))
          ∙ h,
      refl,
      λ enough. omega arith,
    )
  ]

  committed-IsReady : total ≤ n.available_cores → IsReady committed
  committed-IsReady enough = record {
    named = λ j m h.
        let (k, old, old_there, same, less) = entry_of_committed j m h in
        omega (arith, ready.named k old old_there);
    small = λ j m h.
        let (k, old, old_there, same, less) = entry_of_committed j m h in
        omega (arith, ready.small k old old_there, less enough);
    zoned =
        subst (λ l. All (λ z. All (λ i. i < l) z.nodes) t.zones)
          (sym (length-set t.nodes i (commit total n))) ready.zoned;
  }

  cores_of-committed : total ≤ n.available_cores → cores_of committed i + total ≡ cores_of t i
  cores_of-committed enough = omega (
    arith,
    ap cores_at there,
    ap cores_at (get_elem?-set_self t.nodes i n (commit total n) there),
    ready.small i n there,
  )

module _ (t : NodeTable) (ready : IsReady t) (total : ℕ) (pool : List ℕ) where
  -- What selectNodeInPool gives: nothing where every node of the pool has too few cores or none, and
  -- else the node that has most of them, which then has `total` less.
  abbrev pub Chosen : Option Name × NodeTable → Type 0
  Chosen (none, u) = (u ≡ t) × All (λ j. total ≤ cores_of t j → cores_of t j ≤ 0) pool
  Chosen (some topic, u) =
      (i : ℕ) × (n : NodeEntry) × IsBest t total 0 pool i
      × (get_elem? t.nodes i ≡ some n)
      × (get_topic_for_node n t ≡ ok topic)
      × (u ≡ record t { nodes = set t.nodes i (commit total n) })
      × (cores_of u i + total ≡ cores_of t i)
      × IsReady u

  nodes_there : (js : List ℕ) → All (λ j. j < length t.nodes) js → All (IsNode t) js
  nodes_there [] a = tt
  nodes_there (j ∷ js) a =
      let (n, there) = get_elem?-below t.nodes j a.0 in
      ((n, there, ready.small j n there), nodes_there js a.1)

  take-Chosen :
      (i : ℕ)
      → IsBest t total 0 pool i
      → (o : Option Name × NodeTable) × (take_node total t (some i) ≡ ok o) × Chosen o
  unfolding get_topic_for_node
  take-Chosen i b = elim (Option-cases (get_elem? t.nodes i)) [
    | inl e ↦ absurd (omega (arith, b.more, ap cores_at e))
    | inr (n, there) ↦
        let (e, place) = get_elem?-below t.topics n.topic_index (ready.named i n there) in
        let enough : total ≤ n.available_cores = omega (arith, b.enough, ap cores_at there) in
        let topic : get_topic_for_node n t ≡ ok e.topic = topic_there n e place in
        (
          (some e.topic, committed t ready total i n there),
          rw (there, topic) refl,
          (
            i,
            n,
            b,
            there,
            topic,
            refl,
            cores_of-committed t ready total i n there enough,
            committed-IsReady t ready total i n there enough,
          ),
        )
  ]
    where
      topic_there :
          (n : NodeEntry) (e : NodeTopic)
          → get_elem? t.topics n.topic_index ≡ some e
          → get_topic_for_node n t ≡ ok e.topic
      topic_there n e place = ap (λ o. or_fault o undefined >>= λ e. ok e.topic) place

  -- Over a table whose nodes name topics of it and have fewer than 2^31 cores, and a pool of
  -- ids in the table, a choice is always made: nothing where every node of the pool has too few
  -- cores or none, and else the node that has most of them, which then has the requested cores
  -- less, without wrapping around.
  pub select_node_in_pool-Chosen :
      All (λ j. j < length t.nodes) pool
      → (o : Option Name × NodeTable) × (select_node_in_pool total pool t ≡ ok o) × Chosen o
  unfolding select_node_in_pool
  select_node_in_pool-Chosen a =
      let (r, run, ends) = select_best-LoopEnds t total pool 0 none (nodes_there pool a) in
      elim ends [
        | inl (same, none_better) ↦ ((none, t), rw (run, same) refl, (refl, none_better))
        | inr (i, same, b) ↦
            let (o, taken, chosen) = take-Chosen i b in (o, rw (run, same) taken, chosen)
      ]
