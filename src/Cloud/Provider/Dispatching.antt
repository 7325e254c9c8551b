-- ===== src/Cloud/Provider/Dispatching.antt =====
-- The queue of the cloud provider, and what leaves it (CloudProvider.cc).
use mathlib.Core.Option
use simcan2fog.Prelude.{
  ℕ, ◌≡◌, ◌<◌, refl, sym, subst, ap, ◌∙◌, inl, inr, Option, none, some, List, [], ◌∷◌, ◌++◌, length,
  Name, Outcome, ok, ◌>>=◌, add64, Option-cases,
}
use simcan2fog.Cloud.Sorted.{All, find, find-All}
use simcan2fog.Cloud.NodeTable.{NodeTable, zone_of, find_nodes_by_zone}
use simcan2fog.Cloud.Provider.{
  UserVm, QueueElement, Action, send, cancel, calculate_requested_cores, select_in, or_default,
  select_node, forwarded, attempt_dispatching,
}
use simcan2fog.Cloud.Provider.Selection.{IsReady, Chosen, select_node_in_pool-Chosen}

module _ (search_vm : Name → Option ℕ) (default_zone : Name) where
  -- All types of VMs are known.
  abbrev pub AllKnown : List Name → Type 0
  AllKnown = All (λ vm_type. (cores : ℕ) × (search_vm vm_type ≡ some cores))

  -- The table is ready and has the default zone.
  pub record IsServing (t : NodeTable) : Type 0 where
    pub ready : IsReady t
    pub pool : List ℕ
    pub default_there : find_nodes_by_zone default_zone t ≡ some pool

  cores_known :
      (total : ℕ) (vm_types : List Name)
      → AllKnown vm_types
      → (sum : ℕ) × (calculate_requested_cores search_vm default_zone total vm_types ≡ ok sum)
  unfolding calculate_requested_cores
  cores_known total [] a = (total, refl)
  cores_known total (v ∷ vs) ((cores, known), rest) =
      let (sum, run) = cores_known (add64 total cores) vs rest in (sum, rw known run)

  abbrev select : UserVm → NodeTable → Outcome (Option Name × NodeTable)
  select = select_node search_vm default_zone

  -- What a selection leaves: a table that serves, and the same one if no node was found.
  abbrev pub Keeps : NodeTable → Option Name × NodeTable → Type 0
  Keeps t (none, u) = u ≡ t
  Keeps t (some topic, u) = IsServing u

  pool_below :
      (t : NodeTable) (zone : Name) (pool : List ℕ)
      → IsReady t
      → find_nodes_by_zone zone t ≡ some pool
      → All (λ j. j < length t.nodes) pool
  unfolding find_nodes_by_zone
  pool_below t zone pool ready h = elim (Option-cases (find zone_of zone t.zones)) [
    | inl e ↦ absurd (let n : none ≡ some pool = sym (ap (Option.map (λ z. z.nodes)) e) ∙ h in cc)
    | inr (z, e) ↦
        let n : some z.nodes ≡ some pool = sym (ap (Option.map (λ z. z.nodes)) e) ∙ h in
        let same : z.nodes ≡ pool = cc in
        subst (All (λ j. j < length t.nodes)) same
          (find-All zone_of (λ z. All (λ i. i < length t.nodes) z.nodes) zone t.zones z ready.zoned
            e).0
  ]

  select_in-Keeps :
      (t : NodeTable) (vm_types : List Name) (zone : Name) (pool : List ℕ)
      → IsServing t
      → AllKnown vm_types
      → find_nodes_by_zone zone t ≡ some pool
      → (o : Option Name × NodeTable) × (select_in search_vm default_zone vm_types (some pool) t
          ≡ ok o)
        × Keeps t o
  unfolding find_nodes_by_zone
  select_in-Keeps t vm_types zone pool s known there =
      let (total, summed) = cores_known 0 vm_types known in
      let (o, run, chosen) =
        select_node_in_pool-Chosen t s.ready total pool (pool_below t zone pool s.ready there) in
      (o, rw summed run, keeps total o chosen)
    where
      keeps : (total : ℕ) (o : Option Name × NodeTable) → Chosen t s.ready total pool o → Keeps t o
      keeps total (none, u) c = c.0
      keeps total (some topic, u) (i, n, best, there, named, same, taken, ready) = record {
        ready = ready;
        pool = s.pool;
        default_there = ap (find_nodes_by_zone default_zone) same ∙ s.default_there;
      }

  -- A table with the default zone always gives an answer to a request of known types.
  pub select_node-Keeps :
      (request : UserVm) (t : NodeTable)
      → IsServing t
      → AllKnown request.vm_types
      → (o : Option Name × NodeTable) × (select request t ≡ ok o) × Keeps t o
  unfolding select_node
  select_node-Keeps request t s known =
      let (o, run, kept) = first (find_nodes_by_zone request.zone t) refl in
      let (o', run', kept') = then_default o kept in
      (o', ap (λ m. m >>= or_default search_vm default_zone request.vm_types) run ∙ run', kept')
    where
      first :
          (pool : Option (List ℕ))
          → find_nodes_by_zone request.zone t ≡ pool
          → (o : Option Name × NodeTable) × (select_in search_vm default_zone request.vm_types pool
                t
              ≡ ok o)
            × Keeps t o
      first none e = ((none, t), refl, refl)
      first (some pool) e = select_in-Keeps t request.vm_types request.zone pool s known e

      then_default :
          (o : Option Name × NodeTable)
          → Keeps t o
          → (o' : Option Name × NodeTable) × (or_default search_vm default_zone request.vm_types o
              ≡ ok o')
            × Keeps t o'
      then_default (some topic, u) kept = ((some topic, u), refl, kept)
      then_default (none, u) kept =
          let (o', run, kept') =
            select_in-Keeps t request.vm_types default_zone s.pool s known s.default_there in
          (o', rw (kept, s.default_there) run, kept')

  -- What is done for the requests that leave the queue, with the topics that they go to.
  abbrev pub departures : List (QueueElement × Name) → List Action
  departures [] = []
  departures ((e, topic) ∷ front) =
      cancel e.time_out ∷ send (forwarded topic e.request) ∷ departures front

  abbrev pub elements : List (QueueElement × Name) → List QueueElement
  elements [] = []
  elements ((e, topic) ∷ front) = e ∷ elements front

  -- The queue is empty, or no node can take its first request.
  abbrev pub IsStuck : List QueueElement → NodeTable → Type 0
  IsStuck [] t = Unit {0}
  IsStuck (e ∷ es) t = select e.request t ≡ ok (none, t)

  abbrev pub AllWaitingKnown : List QueueElement → Type 0
  AllWaitingKnown = All (λ e. AllKnown e.request.vm_types)

  -- Each request goes to the topic that selectNode gives for it, over the table that those before it
  -- have left.
  abbrev pub Departs : NodeTable → List (QueueElement × Name) → NodeTable → Type 0
  Departs t [] u = u ≡ t
  Departs t ((e, topic) ∷ front) u =
      (v : NodeTable) × (select e.request t ≡ ok (some topic, v)) × Departs v front u

  -- Requests have left from the front of the queue, in order, each with its timer cancelled and to its
  -- topic, and the rest is stuck.
  abbrev pub LeavesFront :
      NodeTable → List QueueElement → Outcome (NodeTable × List QueueElement × List Action) → Type 0
  LeavesFront t es run =
      (u : NodeTable) × (rest : List QueueElement) × (front : List (QueueElement × Name)) × (run
        ≡ ok (u, rest, departures front))
      × (es ≡ elements front ++ rest)
      × Departs t front u
      × IsStuck rest u
      × IsServing u

  abbrev dispatch :
      List QueueElement → NodeTable → Outcome (NodeTable × List QueueElement × List Action)
  dispatch = attempt_dispatching search_vm default_zone

  -- The loop over the queue always ends without a fault: requests leave from its front, in order, each
  -- with its timer cancelled and to the topic that selectNode gives, until the queue is empty or its
  -- first request has no node.
  pub attempt_dispatching_lem :
      (es : List QueueElement) (t : NodeTable)
      → IsServing t
      → AllWaitingKnown es
      → LeavesFront t es (attempt_dispatching search_vm default_zone es t)
  unfolding attempt_dispatching
  attempt_dispatching_lem [] t s known = (t, [], [], refl, refl, refl, tt, s)
  attempt_dispatching_lem (e ∷ es) t s (known, others) =
      let (o, run, kept) = select_node-Keeps e.request t s known in
      dispatched o run kept (λ u su. attempt_dispatching_lem es u su others)
    where
      dispatched :
          (o : Option Name × NodeTable)
          → select e.request t ≡ ok o
          → Keeps t o
          → ((u : NodeTable) → IsServing u → LeavesFront u es (dispatch es u))
          → LeavesFront t (e ∷ es) (dispatch (e ∷ es) t)
      dispatched (none, u) run kept ih =
          (t, e ∷ es, [], rw (run, kept) refl, refl, refl, run ∙ ap (λ v. ok (none, v)) kept, s)
      dispatched (some topic, u) run kept ih =
          let (v, rest, front, loop, split, departs, stuck, sv) = ih u kept in
          (
            v,
            rest,
            (e, topic) ∷ front,
            rw (run, loop) refl,
            ap (◌∷◌ e) split,
            (u, run, departs),
            stuck,
            sv,
          )
