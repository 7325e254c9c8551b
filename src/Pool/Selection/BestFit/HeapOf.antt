-- ===== src/Pool/Selection/BestFit/HeapOf.antt =====
-- The loop of BestFit::selectNode: the heap holds the distances of the nodes seen so far.
use mathlib.Core.List.{
  Mem, mem-append, mem-append_left, mem-append_right, mem-cons, mem-cons_self, not-mem-nil,
}
use mathlib.Core.List.Perm
use mathlib.Core.Logic.Or
use simcan2fog.Prelude.{
  ℕ, suc, ◌+◌, ◌-◌, ◌<◌, ◌≡◌, refl, subst, ap, sym, ◌∙◌, inl, inr, true, Option, none, some, List,
  [], ◌∷◌, ◌++◌, get_elem?, ltb, arith, Outcome, ok, fault, Bool-cases, Option-cases,
}
use simcan2fog.Resources.{VirtualMachine, get_logical_distance}
use simcan2fog.Pool.{Node}
use simcan2fog.Pool.Selection.{
  NodeDistance, MakeHeap, AllLe, distance_le, is_zero_distance, best_of, after_push, best_fit_from,
}

le_of_AllLe :
    (d e : NodeDistance) (es : List NodeDistance)
    → AllLe d es
    → Mem e es
    → distance_le d.distance e.distance ≡ true
le_of_AllLe d e [] a m = absurd (not-mem-nil m)
le_of_AllLe d e (x ∷ es) a m =
    Or.elim (hlevel) (mem-cons.0 m) (λ q. rw q a.0) (le_of_AllLe d e es a.1)

abbrev pub value_of : Outcome (Option ℕ) → Option ℕ
value_of (ok d) = d
value_of (fault e) = none

abbrev pub score : VirtualMachine → Node → Option ℕ
score vm n = value_of (get_logical_distance n.available_resources vm)

abbrev pub score_of : VirtualMachine → Option Node → Option (Option ℕ)
score_of vm none = none
score_of vm (some n) = some (score vm n)

none_of_le : (e : Option ℕ) → distance_le none e ≡ true → e ≡ none
none_of_le none h = refl
none_of_le (some e) h = cc

zero_le : (e : Option ℕ) → distance_le (some 0) e ≡ true
zero_le none = refl
zero_le (some e) = ground arith

zero_of : (d : Option ℕ) → is_zero_distance d ≡ true → d ≡ some 0
zero_of none h = cc
zero_of (some d) h = ground arith

module _ (heap : MakeHeap) (vm : VirtualMachine) (all : List Node) where
  abbrev pub scored : ℕ → Option (Option ℕ)
  scored j = score_of vm (get_elem? all j)

  abbrev pub IsBest : Option ℕ → Type 0
  IsBest none = (j : ℕ) (e : Option ℕ) → scored j ≡ some e → e ≡ none
  IsBest (some k) =
      (v : ℕ) × (scored k ≡ some (some v))
      × ((j : ℕ) (e : Option ℕ) → scored j ≡ some e → distance_le (some v) e ≡ true)

  -- The heap holds the distances of the first `i` nodes, a least one in front.
  pub record IsHeapOf (ds : List NodeDistance) (i : ℕ) : Type 0 where
    pub sound : (d : NodeDistance) → Mem d ds → scored d.index ≡ some d.distance
    pub complete :
        (j : ℕ) (e : Option ℕ)
        → j < i
        → scored j ≡ some e
        → Mem (record { distance = e; index = j }) ds
    pub least : (d : NodeDistance) (es : List NodeDistance) → ds ≡ d ∷ es → AllLe d ds

  abbrev pub IsRest : ℕ → List Node → Type 0
  IsRest i nodes = (j : ℕ) → get_elem? all (i + j) ≡ get_elem? nodes j

  none_after : (i j : ℕ) (e : Option ℕ) → IsRest i [] → scored j ≡ some e → j < i
  none_after i j e rest s = elim (Bool-cases (ltb j i)) [
    | inl h ↦ ground arith
    | inr h ↦
        let past : i + (j - i) ≡ j = ground arith in
        absurd (
          let none_there : get_elem? all j ≡ none =
            subst (λ k. get_elem? all k ≡ none) past (rest (j - i)) in
          ground (arith, none_there))
  ]

  best_of-IsBest :
      (ds : List NodeDistance) (i : ℕ) (n : Node)
      → get_elem? all 0 ≡ some n
      → IsRest i []
      → IsHeapOf ds i
      → (r : Option ℕ) × (best_of heap ds ≡ ok r) × IsBest r
  unfolding best_of
  best_of-IsBest [] i n first rest h = absurd (
      not-mem-nil (
        h.complete 0 (score vm n) (none_after i 0 _ rest (ap (score_of vm) first))
          (ap (score_of vm) first)))
  best_of-IsBest (d ∷ es) i n first rest h =
      let lower : (j : ℕ) (e : Option ℕ) → scored j ≡ some e → distance_le d.distance e ≡ true =
        λ j e s.
          le_of_AllLe d (record { distance = e; index = j }) (d ∷ es) (h.least d es refl)
            (h.complete j e (none_after i j e rest s) s) in
      elim (Option-cases d.distance) [
        | inl q ↦ (
          none,
          rw (q, best_of),
          (λ j e s. none_of_le e (subst (λ x. distance_le x e ≡ true) q (lower j e s))),
        )
        | inr (v, q) ↦ (
          some d.index,
          rw (q, best_of),
          (
            v,
            h.sound d mem-cons_self ∙ ap some q,
            (λ j e s. subst (λ x. distance_le x e ≡ true) q (lower j e s)),
          ),
        )
      ]

  -- The heap after one more node was pushed.
  pushed-IsHeapOf :
      (ds : List NodeDistance) (i : ℕ) (node : Node)
      → get_elem? all i ≡ some node
      → IsHeapOf ds i
      → IsHeapOf
          (heap.make_heap (ds ++ record { distance = score vm node; index = i } ∷ []))
          (suc i)
  pushed-IsHeapOf ds i node at_i h = record {
    sound = λ d m.
        Or.elim (hlevel) (mem-append.0 ((Perm.mem_iff (heap.make_heap_perm _)).0 m)) (h.sound d)
          (λ l. Or.elim (hlevel) (mem-cons.0 l) (sound_last d) (λ z. absurd (not-mem-nil z)));
    complete = λ j e below s. (Perm.mem_iff (heap.make_heap_perm _)).1 (member j e below s);
    least = λ d es q. subst (AllLe d) (sym q) (heap.make_heap_front _ es d q);
  }
    where
      last : NodeDistance
      last = record { distance = score vm node; index = i }

      sound_last : (d : NodeDistance) → d ≡ last → scored d.index ≡ some d.distance
      sound_last d q = subst (λ x. scored x.index ≡ some x.distance) (sym q) (ap (score_of vm) at_i)

      member :
          (j : ℕ) (e : Option ℕ)
          → j < suc i
          → scored j ≡ some e
          → Mem (record { distance = e; index = j }) (ds ++ last ∷ [])
      member j e below s = elim (Bool-cases (ltb j i)) [
        | inl c ↦ mem-append_left (last ∷ []) (h.complete j e (ground arith) s)
        | inr c ↦
            let at_end : j ≡ i = ground arith in
            let same : scored i ≡ some e = subst (λ k. scored k ≡ some e) at_end s in
            let value : some (score vm node) ≡ some e = sym (ap (score_of vm) at_i) ∙ same in
            let here : last ≡ record { distance = e; index = j } = ground arith in
            mem-append_right ds (subst (λ x. Mem x (last ∷ [])) here mem-cons_self)
      ]

  after_push-IsBest :
      (ds : List NodeDistance) (i : ℕ) (n : Node) (m : Outcome (Option ℕ))
      → get_elem? all i ≡ some n
      → IsHeapOf ds (suc i)
      → ((r : Option ℕ) × (m ≡ ok r) × IsBest r)
      → (r : Option ℕ) × (after_push heap ds m ≡ ok r) × IsBest r
  unfolding after_push
  after_push-IsBest [] i n m at_i h rest =
      absurd (not-mem-nil (h.complete i (score vm n) (omega arith) (ap (score_of vm) at_i)))
  after_push-IsBest (d ∷ es) i n m at_i h (r, q, best) =
      elim (Bool-cases (is_zero_distance d.distance)) [
        | inl z ↦
            let zero_there : d.distance ≡ some 0 = zero_of d.distance z in
            (
              some d.index,
              rw z,
              (0, h.sound d mem-cons_self ∙ ap some zero_there, (λ j e s. zero_le e)),
            )
        | inr z ↦ (r, rw z q, best)
      ]

  abbrev pub AllExact : List Node → Type 0
  AllExact [] = Unit {0}
  AllExact (n ∷ ns) =
      (get_logical_distance n.available_resources vm ≡ ok (score vm n)) × AllExact ns

  pub best_fit_from-IsBest :
      (nodes : List Node) (ds : List NodeDistance) (i : ℕ) (first : Node)
      → get_elem? all 0 ≡ some first
      → AllExact nodes
      → IsRest i nodes
      → IsHeapOf ds i
      → (r : Option ℕ) × (best_fit_from heap vm ds i nodes ≡ ok r) × IsBest r
  unfolding best_fit_from
  best_fit_from-IsBest [] ds i first at_0 exact rest h = best_of-IsBest ds i first at_0 rest h
  best_fit_from-IsBest (node ∷ nodes) ds i first at_0 (e, exact) rest h =
      let at_i : get_elem? all i ≡ some node =
        subst (λ k. get_elem? all k ≡ some node) (omega arith) (rest 0) in
      let pushed = pushed-IsHeapOf ds i node at_i h in
      let rest' : IsRest (suc i) nodes =
        λ j. subst (λ k. get_elem? all k ≡ get_elem? nodes j) (omega arith) (rest (suc j)) in
      rw e (
        after_push-IsBest _ i node _ at_i pushed
          (best_fit_from-IsBest nodes _ (suc i) first at_0 exact rest' pushed))
