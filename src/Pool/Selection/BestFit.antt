-- ===== src/Pool/Selection/BestFit.antt =====
-- BestFit::selectNode against its description, for any heap that keeps its contract.
mod HeapOf
use mathlib.Core.List.{
  Mem, mem-append, mem-append_left, mem-append_right, mem-cons, mem-cons_self, not-mem-nil,
}
use mathlib.Core.List.Perm
use mathlib.Core.Logic.Or
use simcan2fog.Prelude.{
  ℕ, zero, suc, ◌+◌, ◌-◌, ◌≤◌, ◌<◌, ◌≡◌, ◌≢◌, refl, subst, ap, sym, ◌∙◌, ◌⊎◌, inl, inr, Bool, true,
  false, Option, none, some, List, [], ◌∷◌, ◌++◌, get_elem?, ltb, leb→le, arith, Outcome, ok, fault,
  Bool-cases, Option-cases,
}
use simcan2fog.Resources.{VirtualMachine, NodeResources, get_logical_distance, i32_limit}
use simcan2fog.Resources.Order.{Suffices, leftover, Suffices-distance, get_logical_distance_cases}
use simcan2fog.Pool.{Node}
use simcan2fog.Pool.Selection.{
  NodeDistance, MakeHeap, AllLe, distance_le, is_zero_distance, best_of, after_push, best_fit_from,
  best_fit,
}
use HeapOf.{
  value_of, score, score_of, scored, IsBest, AllExact, IsRest, IsHeapOf, best_fit_from-IsBest,
}

-- The sum of the amounts stays in the range where the int arithmetic of the distance is exact.
abbrev pub AllSmall : List Node → Type 0
AllSmall [] = Unit {0}
AllSmall (n ∷ ns) =
    (n.available_resources.cores + n.available_resources.disk_mib + n.available_resources.memory_mib
      < i32_limit)
    × AllSmall ns

start-IsHeapOf :
    (heap : MakeHeap) (vm : VirtualMachine) (all : List Node) → IsHeapOf heap vm all [] 0
start-IsHeapOf heap vm all = record {
  sound = λ d m. absurd (not-mem-nil m);
  complete = λ j e below s. elim below [ ];
  least = λ d es q. cc;
}

AllSmall-AllExact :
    (heap : MakeHeap) (vm : VirtualMachine) (all nodes : List Node)
    → vm.num_cores + vm.disk_mib + vm.memory_mib < i32_limit
    → AllSmall nodes
    → AllExact heap vm all nodes
AllSmall-AllExact heap vm all [] small s = tt
AllSmall-AllExact heap vm all (n ∷ ns) small s = (
  ground (arith, get_logical_distance_cases n.available_resources vm s.0 small),
  AllSmall-AllExact heap vm all ns small s.1,
)

first_of_list : (ns : List Node) → ns ≢ [] → (n : Node) × (get_elem? ns 0 ≡ some n)
first_of_list [] h = absurd (h refl)
first_of_list (n ∷ ns) h = (n, refl)

-- The node with the least left over among those that have enough of everything, or that none has.
abbrev pub BestFitting : VirtualMachine → List Node → Option ℕ → Type 0
BestFitting vm nodes none =
    (j : ℕ) (m : Node) → get_elem? nodes j ≡ some m → ¬ Suffices m.available_resources vm
BestFitting vm nodes (some k) =
    (n : Node) × (get_elem? nodes k ≡ some n)
    × Suffices n.available_resources vm
    × ((j : ℕ) (m : Node)
        → get_elem? nodes j ≡ some m
        → Suffices m.available_resources vm
        → leftover n.available_resources vm ≤ leftover m.available_resources vm)

AllSmall-get_elem? :
    (nodes : List Node) (j : ℕ) (m : Node)
    → AllSmall nodes
    → get_elem? nodes j ≡ some m
    → m.available_resources.cores + m.available_resources.disk_mib
        + m.available_resources.memory_mib
      < i32_limit
AllSmall-get_elem? [] j m s g = cc
AllSmall-get_elem? (n ∷ ns) zero m s g = ground arith
AllSmall-get_elem? (n ∷ ns) (suc j) m s g = AllSmall-get_elem? ns j m s.1 g

module _ (heap : MakeHeap) (vm : VirtualMachine) (nodes : List Node)
    (small_vm : vm.num_cores + vm.disk_mib + vm.memory_mib < i32_limit)
    (small : AllSmall nodes) where
  score-Suffices :
      (j : ℕ) (m : Node)
      → get_elem? nodes j ≡ some m
      → Suffices m.available_resources vm
      → score_of vm (get_elem? nodes j) ≡ some (some (leftover m.available_resources vm))
  score-Suffices j m g s =
      rw (g, score_of)
        (ap (λ x. some (value_of x))
          (Suffices-distance m.available_resources vm (AllSmall-get_elem? nodes j m small g) s))

  BestFitting-none : IsBest heap vm nodes none → BestFitting vm nodes none
  BestFitting-none best j m g s =
      let absent = best j (some (leftover m.available_resources vm)) (score-Suffices j m g s) in
      absurd (ground (arith, absent))

  found_at :
      (k v : ℕ) (o : Option Node)
      → get_elem? nodes k ≡ o
      → score_of vm o ≡ some (some v)
      → (n : Node) × (get_elem? nodes k ≡ some n)
        × Suffices n.available_resources vm
        × (leftover n.available_resources vm ≡ v)
  found_at k v none g s = cc
  found_at k v (some n) g s =
      elim (get_logical_distance_cases n.available_resources vm
        (AllSmall-get_elem? nodes k n small g) small_vm) [
          | inl (enough, d) ↦ (
            n,
            g,
            enough,
            (let e : some (some (leftover n.available_resources vm)) ≡ some (some v) =
                  sym (ap (λ x. some (value_of x)) d) ∙ s in
                ground arith),
          )
          | inr (short, d) ↦
              let e : some none ≡ some (some v) = sym (ap (λ x. some (value_of x)) d) ∙ s in cc
        ]

  IsBest-BestFitting : (r : Option ℕ) → IsBest heap vm nodes r → BestFitting vm nodes r
  IsBest-BestFitting none best = BestFitting-none best
  IsBest-BestFitting (some k) (v, at_k, best) =
      let (n, g, enough, same) = found_at k v (get_elem? nodes k) refl at_k in
      (n, g, enough, (λ j m h s. rw same (leb→le v _ (best j _ (score-Suffices j m h s)))))

  -- Over a pool that has a node, where the amounts of each node and of the template add up to
  -- less than 2^31, BestFit returns the index of a node that has enough of everything and the
  -- least left over, or false exactly when no node has enough.
  pub best_fit-BestFitting :
      nodes ≢ [] → (r : Option ℕ) × (best_fit heap vm nodes ≡ ok r) × BestFitting vm nodes r
  unfolding best_fit
  best_fit-BestFitting filled =
      let (first, at_0) = first_of_list nodes filled in
      let (r, q, best) =
        best_fit_from-IsBest heap vm nodes nodes [] 0 first at_0
          (AllSmall-AllExact heap vm nodes nodes small_vm small)
          (λ j. ap (get_elem? nodes) (omega arith)) (start-IsHeapOf heap vm nodes) in
      (r, q, IsBest-BestFitting r best)
