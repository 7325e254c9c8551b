-- ===== src/Tests/Heap.antt =====
-- A concrete make_heap.
use simcan2fog.Prelude.{
  ℕ, ◌≡◌, refl, subst, Bool, true, false, Option, none, some, List, [], ◌∷◌, ◌≤◌, ok, arith,
}
use simcan2fog.Resources.{VirtualMachine, vm_fits, has_user_and_vm_space, get_logical_distance}
use simcan2fog.Pool.{Node}
use simcan2fog.Pool.Selection.{
  NodeDistance, MakeHeap, AllLe, distance_le, first_fit, best_fit, best_fit_from, after_push,
}
use simcan2fog.Pool.Selection.Agreement.{first_fit-best_fit}
use mathlib.Core.List.Perm
use mathlib.Core.List.{Perm}

-- A heap of the simplest kind: a least element is brought to the front.
put_front : NodeDistance → List NodeDistance → List NodeDistance
put_front d [] = d ∷ []
put_front d (e ∷ es) = elim (distance_le d.distance e.distance) [
  | true ↦ d ∷ e ∷ es
  | false ↦ e ∷ d ∷ es
]

to_front : List NodeDistance → List NodeDistance
to_front [] = []
to_front (d ∷ ds) = put_front d (to_front ds)

distance_le_refl : (d : Option ℕ) → distance_le d d ≡ true
distance_le_refl none = refl
distance_le_refl (some d) = ground arith

distance_le_trans :
    (a b c : Option ℕ) → distance_le a b ≡ true → distance_le b c ≡ true → distance_le a c ≡ true
distance_le_trans a b none h k = refl
distance_le_trans none none (some c) h k = cc
distance_le_trans none (some b) (some c) h k = cc
distance_le_trans (some a) none (some c) h k = cc
distance_le_trans (some a) (some b) (some c) h k = ground arith

distance_le_total : (a b : Option ℕ) → distance_le a b ≡ false → distance_le b a ≡ true
distance_le_total none b h = refl
distance_le_total (some a) none h = cc
distance_le_total (some a) (some b) h = ground arith

AllLe-of :
    (d e : NodeDistance) (es : List NodeDistance)
    → distance_le d.distance e.distance ≡ true
    → AllLe e es
    → AllLe d es
AllLe-of d e [] h k = tt
AllLe-of d e (f ∷ es) h k =
    (distance_le_trans d.distance e.distance f.distance h k.0, AllLe-of d e es h k.1)

-- The front of a list is at most all of it.
abbrev Fronted : List NodeDistance → Type 0
Fronted [] = Unit {0}
Fronted (d ∷ ds) = AllLe d ds

put_front-Fronted :
    (d : NodeDistance) (ds : List NodeDistance) → Fronted ds → Fronted (put_front d ds)
unfolding put_front
put_front-Fronted d [] h = tt
put_front-Fronted d (e ∷ es) h = by_order (distance_le d.distance e.distance) refl
  where
    by_order :
        (b : Bool)
        → distance_le d.distance e.distance ≡ b
        → Fronted (elim b [ true ↦ d ∷ e ∷ es | false ↦ e ∷ d ∷ es ])
    by_order true k = (k, AllLe-of d e es k h)
    by_order false k = (distance_le_total d.distance e.distance k, h)

to_front-Fronted : (ds : List NodeDistance) → Fronted (to_front ds)
unfolding to_front
to_front-Fronted [] = tt
to_front-Fronted (d ∷ ds) = put_front-Fronted d (to_front ds) (to_front-Fronted ds)

put_front-Perm : (d : NodeDistance) (ds : List NodeDistance) → Perm (put_front d ds) (d ∷ ds)
unfolding put_front
put_front-Perm d [] = Perm.rfl
put_front-Perm d (e ∷ es) = by_order (distance_le d.distance e.distance)
  where
    by_order : (b : Bool) → Perm (elim b [ true ↦ d ∷ e ∷ es | false ↦ e ∷ d ∷ es ]) (d ∷ e ∷ es)
    by_order true = Perm.rfl
    by_order false = Perm.swap d e es

to_front-Perm : (ds : List NodeDistance) → Perm (to_front ds) ds
unfolding to_front
to_front-Perm [] = Perm.nil
to_front-Perm (d ∷ ds) =
    Perm.trans (put_front-Perm d (to_front ds)) (Perm.cons d (to_front-Perm ds))

front_of :
    (ds es : List NodeDistance) (d : NodeDistance) → Fronted ds → ds ≡ d ∷ es → AllLe d (d ∷ es)
front_of ds es d h e = (distance_le_refl d.distance, subst Fronted e h)

pub simple_heap : MakeHeap
simple_heap = record {
  make_heap = to_front;
  make_heap_perm = to_front-Perm;
  make_heap_front = λ ds es d e. front_of (to_front ds) es d (to_front-Fronted ds) e;
}

-- A node that is too small, and one that has exactly what is asked for.
abbrev asked : VirtualMachine
asked = record { vm_type = "one"; num_cores = 1; disk_mib = 1; memory_mib = 1 }

abbrev offers : ℕ → Node
offers c = record {
  available_resources = record { memory_mib = 1; disk_mib = 1; cores = c; vms = 1; users = 1 };
  address = 0;
  state = 0;
}

found : best_fit simple_heap asked (offers 0 ∷ offers 1 ∷ []) ≡ ok (some 1)
unfolding best_fit best_fit_from after_push simple_heap to_front put_front get_logical_distance
    vm_fits has_user_and_vm_space
found = refl

first_fit-best_fit_example :
    (j : ℕ) × (first_fit asked (offers 0 ∷ offers 1 ∷ []) ≡ ok (some j)) × (j ≤ 1)
first_fit-best_fit_example =
    first_fit-best_fit simple_heap asked (offers 0 ∷ offers 1 ∷ []) 1 (omega arith)
      (omega arith, (omega arith, tt)) found
