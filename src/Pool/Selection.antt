-- ===== src/Pool/Selection.antt =====
-- The selection strategies (src/s2f/management/managers/selection/Strategies.{h,cc}). `selectNode`
-- returns a Boolean and writes the index through a reference: here an optional index.
pub mod FirstFit
pub mod BestFit
pub mod Agreement
use simcan2fog.Prelude.{
  ℕ, zero, suc, ◌≤◌, ◌<◌, ◌≡◌, refl, ◌⊎◌, inl, inr, Bool, true, false, Option, none, some, List, [],
  ◌∷◌, ◌++◌, length, get_elem?, if◌then◌else◌, leb, ◌==◌, arith, Outcome, ok, fault, undefined,
  ◌>>=◌, or_fault, Bool-cases,
}
use simcan2fog.Resources.{VirtualMachine, NodeResources, vm_fits, get_logical_distance}
use simcan2fog.Pool.{Node}
use mathlib.Core.List.{Perm}

-- The loop of FirstFit::selectNode; `i` counts the nodes seen.
unfoldable pub first_fit_from : VirtualMachine → ℕ → List Node → Option ℕ
first_fit_from vm i [] = none
first_fit_from vm i (node ∷ nodes) = elim (vm_fits vm node.available_resources) [
  | true ↦ some i
  | false ↦ first_fit_from vm (suc i) nodes
]

-- FirstFit::selectNode. It cannot fault.
unfoldable pub first_fit : VirtualMachine → List Node → Outcome (Option ℕ)
unfolding first_fit_from
first_fit vm nodes = ok (first_fit_from vm 0 nodes)

-- `none` is DBL_MAX, above every other distance.
pub record NodeDistance : Type 0 where
  pub distance : Option ℕ
  pub index : ℕ

abbrev pub distance_le : Option ℕ → Option ℕ → Bool
distance_le d none = true
distance_le none (some e) = false
distance_le (some d) (some e) = leb d e

abbrev pub is_zero_distance : Option ℕ → Bool
is_zero_distance none = false
is_zero_distance (some d) = d == 0

abbrev pub AllLe : NodeDistance → List NodeDistance → Type 0
AllLe d [] = Unit {0}
AllLe d (e ∷ es) = (distance_le d.distance e.distance ≡ true) × AllLe d es

-- std::make_heap over std::greater: it permutes the vector so that a least distance is in front.
-- Which of several least ones comes first is left open by its contract, and so it is here.
pub record MakeHeap : Type 0 where
  pub make_heap : List NodeDistance → List NodeDistance
  pub make_heap_perm : (ds : List NodeDistance) → Perm (make_heap ds) ds
  pub make_heap_front :
      (ds es : List NodeDistance) (d : NodeDistance) → make_heap ds ≡ d ∷ es → AllLe d (d ∷ es)

module _ (heap : MakeHeap) where
  -- `if (bestNode.distance == DBL_MAX) return false;` the front of an empty vector is undefined.
  unfoldable pub best_of : List NodeDistance → Outcome (Option ℕ)
  best_of [] = fault undefined
  best_of (best ∷ distances) = elim best.distance [ none ↦ ok none | some d ↦ ok (some best.index) ]

  -- What the loop does after make_heap: return at an exact match, else go on (`rest`).
  unfoldable pub after_push : List NodeDistance → Outcome (Option ℕ) → Outcome (Option ℕ)
  after_push [] rest = fault undefined
  after_push (front ∷ distances) rest =
      if is_zero_distance front.distance then ok (some front.index) else rest

  -- The loop of BestFit::selectNode; `distances` is the heap so far, `i` the next index.
  unfoldable pub best_fit_from :
      VirtualMachine → List NodeDistance → ℕ → List Node → Outcome (Option ℕ)
  unfolding best_of after_push
  best_fit_from vm distances i [] = best_of distances
  best_fit_from vm distances i (node ∷ nodes) = do
    distance ← get_logical_distance node.available_resources vm
    let pushed : NodeDistance = record { distance = distance; index = i }
    let distances' = heap.make_heap (distances ++ pushed ∷ [])
    let rest = best_fit_from vm distances' (suc i) nodes
    after_push distances' rest

  unfoldable pub best_fit : VirtualMachine → List Node → Outcome (Option ℕ)
  unfolding best_fit_from
  best_fit vm nodes = best_fit_from vm [] 0 nodes
