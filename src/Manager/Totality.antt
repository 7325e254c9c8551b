-- ===== src/Manager/Totality.antt =====
-- Why a request to a data center is always answered.
use mathlib.Core.List.{map-append, append_assoc, append-nil}
use simcan2fog.Prelude.{
  ℕ, ◌<◌, ◌≡◌, refl, ap, sym, ◌∙◌, String, Bool, true, false, Option, none, some, List, [], ◌∷◌,
  ◌++◌, map, length, get_elem?-lt, arith, Outcome, ok, ◌>>=◌,
}
use simcan2fog.Resources.{VirtualMachine}
use simcan2fog.Pool.{Node, NodePool, allocate_on_node, allocate_resources}
use simcan2fog.Pool.Selection.{first_fit}
use simcan2fog.Pool.Selection.FirstFit.{FirstFitting, first_fit-FirstFitting}
use simcan2fog.Manager.{
  NodeVmRecord, Allocation, Signal, place, on_selected, allocate_loop, conclude, allocation_signals,
  allocate_vms, start,
}
use simcan2fog.Manager.Rollback.{placed}
use simcan2fog.Manager.Rollback.Releases.{
  set-modify, get_elem?-below, length-modify, AllBelow, AllBelow-snoc, AllBelow-length,
  release_records-nodes,
}

-- What the manager needs of a selection strategy.
pub record IsStrategy (select : VirtualMachine → List Node → Outcome (Option ℕ)) : Type 0 where
  pub returns :
      (vm : VirtualMachine) (nodes : List Node) → (r : Option ℕ) × (select vm nodes ≡ ok r)
  pub in_range :
      (vm : VirtualMachine) (nodes : List Node) (k : ℕ)
      → select vm nodes ≡ ok (some k)
      → k < length nodes

first_fit_in_range :
    (vm : VirtualMachine) (nodes : List Node) (k : ℕ) (r : Option ℕ)
    → first_fit vm nodes ≡ ok (some k)
    → first_fit vm nodes ≡ ok r
    → FirstFitting vm nodes r
    → k < length nodes
first_fit_in_range vm nodes k none e f h = absurd (let c : ok (some k) ≡ ok none = sym e ∙ f in cc)
first_fit_in_range vm nodes k (some j) e f ((n, g, _), _) =
    let same : ok (some k) ≡ ok (some j) = sym e ∙ f in
    let at_j : j < length nodes = get_elem?-lt nodes j n g in ground arith

pub first_fit-IsStrategy : IsStrategy first_fit
first_fit-IsStrategy = record {
  returns = λ vm nodes. let (r, e, _) = first_fit-FirstFitting vm nodes in (r, e);
  in_range = λ vm nodes k e.
      let (r, f, h) = first_fit-FirstFitting vm nodes in first_fit_in_range vm nodes k r e f h;
}

place-placed_below :
    (a : Allocation) (vm : VirtualMachine) (index : ℕ)
    → index < length a.pool.nodes
    → place vm index a ≡ ok (placed a vm index)
unfolding place allocate_resources
place-placed_below a vm index h =
    let (n, e) = get_elem?-below a.pool.nodes index h in
    ground (arith, e, set-modify a.pool.nodes index n (λ (m : Node). allocate_on_node m vm) e)

abbrev pub templates : List NodeVmRecord → List (Option VirtualMachine)
templates = map (λ r. some r.vm_template)

-- Every type of the request is in the catalogue.
abbrev pub AllKnown : (String → Option VirtualMachine) → List String → Type 0
AllKnown search_vm [] = Unit {0}
AllKnown search_vm (t ∷ ts) =
    ((vm : VirtualMachine) × (search_vm t ≡ some vm)) × AllKnown search_vm ts

-- A refusal, or a record of each requested template, in the order of the request.
abbrev pub Answers :
    (String → Option VirtualMachine) → List String → Option (List NodeVmRecord) → Type 0
Answers search_vm vm_types none = Unit {0}
Answers search_vm vm_types (some rs) = templates rs ≡ map search_vm vm_types

abbrev Answered :
    (String → Option VirtualMachine)
    → List String
    → Outcome (Option (List NodeVmRecord) × NodePool × List Signal)
    → Type 0
Answered search_vm vm_types m =
    (r : Option (List NodeVmRecord)) × (q : NodePool) × (signals : List Signal) × (m
      ≡ ok (r, q, signals))
    × Answers search_vm vm_types r

module _ (select : VirtualMachine → List Node → Outcome (Option ℕ)) (strategy : IsStrategy select)
    (search_vm : String → Option VirtualMachine) where
  -- How the loop ends from `a`: in range, and with a record for each type unless it was refused.
  record Ends (a : Allocation) (vm_types : List String) (done : Bool) (b : Allocation)
      : Type 0 where
    in_range : AllBelow (length b.pool.nodes) b.records
    complete : done ≡ true → templates b.records ≡ templates a.records ++ map search_vm vm_types

  abbrev LoopEnds : Allocation → List String → Type 0
  LoopEnds a vm_types =
      (done : Bool) × (b : Allocation) × (allocate_loop select search_vm vm_types a ≡ ok (done, b))
      × Ends a vm_types done b

  on_selected-Ends :
      (vm : VirtualMachine) (t : String) (ts : List String) (a : Allocation) (found : Option ℕ)
      → search_vm t ≡ some vm
      → ((k : ℕ) → found ≡ some k → k < length a.pool.nodes)
      → AllBelow (length a.pool.nodes) a.records
      → ((c : Allocation) → AllBelow (length c.pool.nodes) c.records → LoopEnds c ts)
      → (done : Bool) × (b : Allocation) × (on_selected vm a
            (allocate_loop select search_vm ts)
            found
          ≡ ok (done, b))
        × Ends a (t ∷ ts) done b
  unfolding on_selected
  on_selected-Ends vm t ts a none known range below ih =
      (false, a, refl, record { in_range = below; complete = λ h. cc })
  on_selected-Ends vm t ts a (some k) known range below ih =
      let c = placed a vm k in
      let fits : AllBelow (length c.pool.nodes) c.records =
        AllBelow-length c.records (AllBelow-snoc _ a.records _ below (range k refl))
          (length-modify a.pool.nodes k _) in
      let (done, b, loop, ends) = ih c fits in
      (
        done,
        b,
        (ap (λ m. m >>= allocate_loop select search_vm ts)
              (place-placed_below a vm k (range k refl))
            ∙ loop),
        record {
          in_range = ends.in_range;
          complete = λ h. ends.complete h ∙ simp (map-append, append_assoc, known);
        },
      )

  allocate_loop-Ends :
      (vm_types : List String) (a : Allocation)
      → AllKnown search_vm vm_types
      → AllBelow (length a.pool.nodes) a.records
      → LoopEnds a vm_types
  unfolding allocate_loop
  allocate_loop-Ends [] a known below = (
    true,
    a,
    refl,
    record { in_range = below; complete = λ _. sym (append-nil (templates a.records)) },
  )
  allocate_loop-Ends (t ∷ ts) a ((vm, e), known) below =
      let (found, f) = strategy.returns vm a.pool.nodes in
      let range : (k : ℕ) → found ≡ some k → k < length a.pool.nodes =
        λ k g. strategy.in_range vm a.pool.nodes k (f ∙ ap ok g) in
      rw (e, f)
        (on_selected-Ends vm t ts a found e range below
          (λ c fits. allocate_loop-Ends ts c known fits))

  conclude_answers :
      (n : ℕ) (vm_types : List String) (done : Bool) (b : Allocation)
      → AllBelow (length b.pool.nodes) b.records
      → (done ≡ true → templates b.records ≡ map search_vm vm_types)
      → Answered search_vm vm_types (conclude n (done, b))
  unfolding conclude
  conclude_answers n vm_types true b below complete =
      (some b.records, b.pool, allocation_signals n b, refl, complete refl)
  conclude_answers n vm_types false b below complete =
      rw (release_records-nodes b.records b.pool below) (none, _, [], refl, tt)

  -- With a strategy that always returns an index in range, a request of known types is always
  -- answered without a fault, and an answer that is not a refusal names a node for each requested
  -- VM, in order.
  pub allocate_vms-Answers :
      (p : NodePool) (vm_types : List String)
      → AllKnown search_vm vm_types
      → (r : Option (List NodeVmRecord)) × (q : NodePool) × (signals : List Signal) × (allocate_vms
            select search_vm p vm_types
          ≡ ok (r, q, signals))
        × Answers search_vm vm_types r
  unfolding allocate_vms
  allocate_vms-Answers p vm_types known =
      let (done, b, loop, ends) = allocate_loop-Ends vm_types (start p) known tt in
      rw loop (conclude_answers _ vm_types done b ends.in_range ends.complete)
