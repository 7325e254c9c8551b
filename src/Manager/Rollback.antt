-- ===== src/Manager/Rollback.antt =====
-- Why releasing the records in the order of allocation undoes the allocation.
pub mod Releases
use simcan2fog.Prelude.{
  ℕ, zero, suc, ◌<◌, ◌≡◌, refl, ap, sym, subst, Fault, ◌∙◌, inl, inr, String, Bool, true, false,
  Option, none, some, List, [], ◌∷◌, ◌++◌, length, get_elem?, set, get_elem?-lt, add64, arith,
  Outcome, ok, fault, or_fault, ◌>>=◌, undefined, runtime_error, Option-cases,
}
use simcan2fog.Resources.{VirtualMachine, IsVmWord, IsNodeWord}
use simcan2fog.Pool.{
  Node, NodePool, allocate_on_node, deallocate_on_node, allocate_resources, deallocate_resources,
}
use simcan2fog.Pool.Accounting.{deallocate-allocate_on_node}
use simcan2fog.Manager.{
  NodeVmRecord, Allocation, Signal, place, on_selected, allocate_loop, release_records, conclude,
  start, allocate_vms,
}
use simcan2fog.Manager.Rollback.Releases.{
  modify, set-modify, length-modify, AllWords, modify_undo, release_nodes, release_nodes-snoc,
  release_nodes-allocate, AllBelow, AllBelow-snoc, AllBelow-length, get_elem?-below,
  release_records-nodes,
}

-- What the loop keeps: releasing what it has recorded gives back the nodes that it began with.
record IsBalanced (p : NodePool) (a : Allocation) : Type 0 where
  released : release_nodes a.records a.pool.nodes ≡ p.nodes
  in_range : AllBelow (length a.pool.nodes) a.records
  totals_kept : record (a.pool) { nodes = p.nodes } ≡ p

-- The allocation after the branch that has found a node.
abbrev pub placed : Allocation → VirtualMachine → ℕ → Allocation
placed a vm index = record {
  pool = record (a.pool) { nodes = modify a.pool.nodes index (λ n. allocate_on_node n vm) };
  records = a.records ++ record { node_index = index; vm_template = vm } ∷ [];
  cores = add64 a.cores vm.num_cores;
  ram = add64 a.ram vm.memory_mib;
  disk = add64 a.disk vm.disk_mib;
}

place-placed :
    (a b : Allocation) (vm : VirtualMachine) (index : ℕ)
    → place vm index a ≡ ok b
    → (index < length a.pool.nodes) × (b ≡ placed a vm index)
unfolding place allocate_resources
place-placed a b vm index h = elim (Option-cases (get_elem? a.pool.nodes index)) [
  | inl e ↦ absurd (let g : fault runtime_error ≡ ok b = rw e at h in cc)
  | inr (n, e) ↦ (
    get_elem?-lt a.pool.nodes index n e,
    ground (arith, set-modify a.pool.nodes index n (λ (m : Node). allocate_on_node m vm) e),
  )
]

placed-IsBalanced :
    (p : NodePool) (a : Allocation) (vm : VirtualMachine) (index : ℕ)
    → AllWords p.nodes
    → IsVmWord vm
    → IsBalanced p a
    → index < length a.pool.nodes
    → IsBalanced p (placed a vm index)
placed-IsBalanced p a vm index words w inv h = record {
  released =
      release_nodes-snoc a.records _ _
      ∙ ap (λ ns. modify ns index (λ n. deallocate_on_node n vm))
          (release_nodes-allocate a.records a.pool.nodes index vm w)
      ∙ ap
          (λ ns.
            modify (modify ns index (λ n. allocate_on_node n vm)) index
              (λ n. deallocate_on_node n vm))
          inv.released
      ∙ modify_undo p.nodes index vm w words;
  in_range =
      AllBelow-length (placed a vm index).records (AllBelow-snoc _ a.records _ inv.in_range h)
        (length-modify a.pool.nodes index _);
  totals_kept = inv.totals_kept;
}

-- A successful chain has a successful first step.
bind_ok {ℓ κ} :
    {A : Type ℓ} {B : Type κ} (m : Outcome A) (f : A → Outcome B) {b : B}
    → (m >>= f) ≡ ok b
    → (a : A) × (m ≡ ok a) × (f a ≡ ok b)
bind_ok (ok a) f h = (a, refl, h)
bind_ok (fault e) f h = cc

or_fault_ok {ℓ} : {A : Type ℓ} (o : Option A) (e : Fault) {a : A} → or_fault o e ≡ ok a → o ≡ some a
or_fault_ok none e h = cc
or_fault_ok (some b) e h = ground arith

-- What a call leaves behind: a refused request has no effect, and releasing the records of a
-- request that was met gives back the pool.
abbrev pub Settled : NodePool → Option (List NodeVmRecord) → NodePool → List Signal → Type 0
Settled p none q signals = (q ≡ p) × (signals ≡ [])
Settled p (some rs) q signals = release_records rs q ≡ ok p

abbrev OutcomeSettled :
    NodePool → Outcome (Option (List NodeVmRecord) × NodePool × List Signal) → Type 0
OutcomeSettled p (ok (r, q, signals)) = Settled p r q signals
OutcomeSettled p (fault e) = Unit {0}

start-IsBalanced : (p : NodePool) → IsBalanced p (start p)
unfolding release_nodes
start-IsBalanced p = record { released = refl; in_range = tt; totals_kept = refl }

release_records_balanced :
    (p : NodePool) (a : Allocation) → IsBalanced p a → release_records a.records a.pool ≡ ok p
release_records_balanced p a inv =
    release_records-nodes a.records a.pool inv.in_range
    ∙ ap (λ ns. ok (record (a.pool) { nodes = ns })) inv.released
    ∙ ap ok inv.totals_kept

conclude-Settled :
    (p : NodePool) (n : ℕ) (done : Bool) (b : Allocation)
    → IsBalanced p b
    → OutcomeSettled p (conclude n (done, b))
unfolding conclude
conclude-Settled p n true b inv = release_records_balanced p b inv
conclude-Settled p n false b inv = rw (release_records_balanced p b inv) (refl, refl)

module _ (select : VirtualMachine → List Node → Outcome (Option ℕ))
    (search_vm : String → Option VirtualMachine)
    (templates : (t : String) (vm : VirtualMachine) → search_vm t ≡ some vm → IsVmWord vm)
    (p : NodePool) (words : AllWords p.nodes) where
  on_selected-IsBalanced :
      (vm : VirtualMachine) (a : Allocation) (next : Allocation → Outcome (Bool × Allocation))
      (found : Option ℕ) (done : Bool) (b : Allocation)
      → IsVmWord vm
      → IsBalanced p a
      → ((c : Allocation) → IsBalanced p c → next c ≡ ok (done, b) → IsBalanced p b)
      → on_selected vm a next found ≡ ok (done, b)
      → IsBalanced p b
  unfolding on_selected
  on_selected-IsBalanced vm a next none done b w inv ih h = subst (IsBalanced p) (ground arith) inv
  on_selected-IsBalanced vm a next (some index) done b w inv ih h =
      let (c, placing, rest) = bind_ok (place vm index a) next h in
      let (below, same) = place-placed a c vm index placing in
      ih c (subst (IsBalanced p) (sym same) (placed-IsBalanced p a vm index words w inv below)) rest

  allocate_loop-IsBalanced :
      (vm_types : List String) (a : Allocation) (done : Bool) (b : Allocation)
      → IsBalanced p a
      → allocate_loop select search_vm vm_types a ≡ ok (done, b)
      → IsBalanced p b
  unfolding allocate_loop
  allocate_loop-IsBalanced [] a done b inv h = subst (IsBalanced p) (ground arith) inv
  allocate_loop-IsBalanced (t ∷ ts) a done b inv h =
      let (vm, known, rest) = bind_ok (or_fault (search_vm t) undefined) _ h in
      let (found, _, more) = bind_ok (select vm a.pool.nodes) _ rest in
      on_selected-IsBalanced vm a (allocate_loop select search_vm ts) found done b
        (templates t vm (or_fault_ok (search_vm t) undefined known)) inv
        (λ c keeps. allocate_loop-IsBalanced ts c done b keeps) more

  -- Over any pool whose amounts are 32-bit words and any selection strategy: if a VM of a request
  -- finds no node, the pool is afterwards what it was and nothing is signalled; if all find one,
  -- releasing the returned records restores the pool.
  pub allocate_vms-Settled :
      (vm_types : List String) (r : Option (List NodeVmRecord)) (q : NodePool)
      (signals : List Signal)
      → allocate_vms select search_vm p vm_types ≡ ok (r, q, signals)
      → Settled p r q signals
  unfolding allocate_vms
  allocate_vms-Settled vm_types r q signals h =
      let ((done, b), loop, rest) =
        bind_ok (allocate_loop select search_vm vm_types (start p)) _ h in
      subst (OutcomeSettled p) rest (
        conclude-Settled p (length vm_types) done b
          (allocate_loop-IsBalanced vm_types _ done b (start-IsBalanced p) loop))
