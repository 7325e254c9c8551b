-- ===== src/Cloud/Sorted.antt =====
-- Vectors that the program keeps in the order of a name: std::sort and std::lower_bound as
-- NodeTable.cc uses them, on elements with different names. lower_bound is the linear search for the
-- first element that is not less, which is what the binary one finds in a vector in order.
use mathlib.Core.List.{append-nil, append_assoc}
use simcan2fog.Prelude.{
  ℕ, zero, suc, ◌≡◌, ◌≢◌, refl, sym, subst, ap, ◌∙◌, inl, inr, true, false, Option, none, some,
  List, [], ◌∷◌, ◌++◌, length, get_elem?, if◌then◌else◌, Name, less, less_irrefl, less_trans,
  less_connected, less_asym, Bool-cases, arith,
}

abbrev pub All {ℓ} : {A : Type ℓ} → (A → Type 0) → List A → Type 0
All P [] = Unit {0}
All P (x ∷ xs) = P x × All P xs

module _ {ℓ} {A : Type ℓ} (key : A → Name) where
  -- std::lower_bound, as an index.
  unfoldable pub lower_bound : Name → List A → ℕ
  lower_bound k [] = 0
  lower_bound k (x ∷ xs) = let rest = lower_bound k xs in if less (key x) k then suc rest else 0

  -- The test `iter != end && !(k < *iter)` on the element at the iterator.
  abbrev pub unless_greater : Name → Option A → Option A
  unless_greater k none = none
  unless_greater k (some x) = if less k (key x) then none else some x

  unfoldable pub find : Name → List A → Option A
  unfolding lower_bound
  find k xs = unless_greater k (get_elem? xs (lower_bound k xs))

  pub insert_sorted : A → List A → List A
  insert_sorted x [] = x ∷ []
  insert_sorted x (y ∷ ys) =
      let rest = insert_sorted x ys in if less (key x) (key y) then x ∷ y ∷ ys else y ∷ rest

  sort_onto : List A → List A → List A
  sort_onto acc [] = acc
  sort_onto acc (x ∷ xs) = sort_onto (insert_sorted x acc) xs

  -- std::sort
  unfoldable pub sort : List A → List A
  unfolding sort_onto insert_sorted
  sort xs = sort_onto [] xs

  -- All names of a list come after `k`.
  abbrev pub AllAbove : Name → List A → Type 0
  AllAbove k [] = Unit {0}
  AllAbove k (x ∷ xs) = (less k (key x) ≡ true) × AllAbove k xs

  abbrev pub IsSorted : List A → Type 0
  IsSorted [] = Unit {0}
  IsSorted (x ∷ xs) = AllAbove (key x) xs × IsSorted xs

  find-cons :
      (k : Name) (x : A) (xs : List A)
      → find k (x ∷ xs)
        ≡ (if less (key x) k then find k xs else if less k (key x) then none else some x)
  unfolding find lower_bound
  find-cons k x xs = elim (Bool-cases (less (key x) k)) [ inl t ↦ rw t | inr f ↦ rw f ]

  find_nil : (k : Name) → find k [] ≡ none
  unfolding find
  find_nil k = refl

  pub find-insert_self :
      (x : A) (l : List A) → find (key x) l ≡ none → find (key x) (insert_sorted x l) ≡ some x
  unfolding insert_sorted
  find-insert_self x [] h = find-cons (key x) x [] ∙ rw less_irrefl
  find-insert_self x (y ∷ ys) h = ground (
    arith,
    find-insert_self x ys,
    find-cons (key x) x (y ∷ ys),
    find-cons (key x) y (insert_sorted x ys),
    find-cons (key x) y ys,
    less_connected (key x) (key y),
    less_irrefl (key x),
  )

  pub find-insert_ne :
      (k : Name) (x : A) (l : List A) → k ≢ key x → find k (insert_sorted x l) ≡ find k l
  unfolding insert_sorted
  find-insert_ne k x [] n = ground (arith, find-cons k x [], less_connected k (key x), find_nil k)
  find-insert_ne k x (y ∷ ys) n = ground (
    arith,
    find-insert_ne k x ys n,
    find-cons k x (y ∷ ys),
    find-cons k y (insert_sorted x ys),
    find-cons k y ys,
    less_connected k (key x),
    less_trans k (key x) (key y),
    less_asym k (key y),
  )

  AllAbove-trans : (j k : Name) (xs : List A) → less j k ≡ true → AllAbove k xs → AllAbove j xs
  AllAbove-trans j k [] h a = tt
  AllAbove-trans j k (x ∷ xs) h a = (less_trans j k (key x) h a.0, AllAbove-trans j k xs h a.1)

  AllAbove-insert :
      (k : Name) (x : A) (xs : List A)
      → less k (key x) ≡ true
      → AllAbove k xs
      → AllAbove k (insert_sorted x xs)
  unfolding insert_sorted
  AllAbove-insert k x [] h a = (h, tt)
  AllAbove-insert k x (y ∷ ys) h a = elim (Bool-cases (less (key x) (key y))) [
    | inl t ↦ rw t (h, a)
    | inr f ↦ rw f (a.0, AllAbove-insert k x ys h a.1)
  ]

  pub insert-IsSorted :
      (x : A) (xs : List A) → find (key x) xs ≡ none → IsSorted xs → IsSorted (insert_sorted x xs)
  unfolding insert_sorted
  insert-IsSorted x [] h s = (tt, tt)
  insert-IsSorted x (y ∷ ys) h s = elim (Bool-cases (less (key x) (key y))) [
    | inl t ↦ rw t ((t, AllAbove-trans (key x) (key y) ys t s.0), s)
    | inr f ↦
        let above : less (key y) (key x) ≡ true =
          ground (arith, find-cons (key x) y ys, less_connected (key x) (key y)) in
        let absent : find (key x) ys ≡ none = ground (arith, find-cons (key x) y ys) in
        rw f (AllAbove-insert (key y) x ys above s.0, insert-IsSorted x ys absent s.1)
  ]

  AllAbove-middle :
      (k : Name) (ys : List A) (x : A) (xs : List A)
      → AllAbove k (ys ++ x ∷ xs)
      → less k (key x) ≡ true
  AllAbove-middle k [] x xs a = a.0
  AllAbove-middle k (y ∷ ys) x xs a = AllAbove-middle k ys x xs a.1

  insert_last :
      (ys : List A) (x : A) (xs : List A)
      → IsSorted (ys ++ x ∷ xs)
      → insert_sorted x ys ≡ ys ++ x ∷ []
  unfolding insert_sorted
  insert_last [] x xs s = refl
  insert_last (y ∷ ys) x xs s =
      rw (less_asym (key y) (key x) (AllAbove-middle (key y) ys x xs s.0))
        (ap (◌∷◌ y) (insert_last ys x xs s.1))

  sort_onto_sorted : (acc xs : List A) → IsSorted (acc ++ xs) → sort_onto acc xs ≡ acc ++ xs
  unfolding sort_onto
  sort_onto_sorted acc [] s = sym (append-nil acc)
  sort_onto_sorted acc (x ∷ xs) s =
      let e : (acc ++ x ∷ []) ++ xs ≡ acc ++ x ∷ xs = append_assoc acc (x ∷ []) xs in
      rw (insert_last acc x xs s) (sort_onto_sorted (acc ++ x ∷ []) xs (rw e s) ∙ e)

  sort_onto_snoc :
      (acc xs : List A) (x : A) → sort_onto acc (xs ++ x ∷ []) ≡ insert_sorted x (sort_onto acc xs)
  unfolding sort_onto
  sort_onto_snoc acc [] x = refl
  sort_onto_snoc acc (y ∷ xs) x = sort_onto_snoc (insert_sorted y acc) xs x

  -- Sorting a vector in order with one element at its end inserts the element.
  pub sort-snoc : (xs : List A) (x : A) → IsSorted xs → sort (xs ++ x ∷ []) ≡ insert_sorted x xs
  unfolding sort
  sort-snoc xs x s = sort_onto_snoc [] xs x ∙ ap (insert_sorted x) (sort_onto_sorted [] xs s)

  pub length-insert_sorted : (x : A) (xs : List A) → length (insert_sorted x xs) ≡ suc (length xs)
  unfolding insert_sorted
  length-insert_sorted x [] = refl
  length-insert_sorted x (y ∷ ys) = ground (arith, length-insert_sorted x ys)

  -- What holds of all elements.
  pub All-insert :
      (P : A → Type 0) (x : A) (xs : List A) → P x → All P xs → All P (insert_sorted x xs)
  unfolding insert_sorted
  All-insert P x [] p a = (p, tt)
  All-insert P x (y ∷ ys) p a = elim (Bool-cases (less (key x) (key y))) [
    | inl t ↦ rw t (p, a)
    | inr f ↦ rw f (a.0, All-insert P x ys p a.1)
  ]

  pub find-All :
      (P : A → Type 0) (k : Name) (xs : List A) (x : A)
      → All P xs
      → find k xs ≡ some x
      → P x × (key x ≡ k)
  find-All P k [] x a h = absurd (let e : none ≡ some x = sym (find_nil k) ∙ h in cc)
  find-All P k (y ∷ ys) x a h = elim (Bool-cases (less (key y) k)) [
    | inl t ↦ find-All P k ys x a.1 (ground (arith, find-cons k y ys))
    | inr f ↦ elim (Bool-cases (less k (key y))) [
      | inl g ↦ absurd (let e : none ≡ some x = ground (arith, find-cons k y ys) in cc)
      | inr g ↦
          let e : y ≡ x = ground (arith, find-cons k y ys) in
          (subst P e a.0, ap key (sym e) ∙ less_connected (key y) k f g)
    ]
  ]

  -- No element has the name `k`.
  abbrev pub Lacks : Name → List A → Type 0
  Lacks k = All (λ x. key x ≢ k)

  AllAbove-Lacks : (k : Name) (xs : List A) → AllAbove k xs → Lacks k xs
  AllAbove-Lacks k [] a = tt
  AllAbove-Lacks k (x ∷ xs) a = (differ, AllAbove-Lacks k xs a.1)
    where
      differ : key x ≢ k
      differ e = let t : true ≡ false = sym a.0 ∙ ap (less k) e ∙ less_irrefl k in cc

  pub find-none-Lacks : (k : Name) (xs : List A) → IsSorted xs → find k xs ≡ none → Lacks k xs
  find-none-Lacks k [] s h = tt
  find-none-Lacks k (x ∷ xs) s h = elim (Bool-cases (less (key x) k)) [
    | inl t ↦ (
      λ e. let f : true ≡ false = sym t ∙ ap (λ j. less j k) e ∙ less_irrefl k in cc,
      find-none-Lacks k xs s.1 (ground (arith, find-cons k x xs)),
    )
    | inr f ↦
        let g : less k (key x) ≡ true = ground (arith, find-cons k x xs) in
        AllAbove-Lacks k (x ∷ xs) (g, AllAbove-trans k (key x) xs g s.0)
  ]

  -- All names of a list come before `k`.
  abbrev pub AllBelow : Name → List A → Type 0
  AllBelow k = All (λ x. less (key x) k ≡ true)

  pub insert_above_all :
      (x : A) (xs : List A) → AllBelow (key x) xs → insert_sorted x xs ≡ xs ++ x ∷ []
  unfolding insert_sorted
  insert_above_all x [] a = refl
  insert_above_all x (y ∷ ys) a =
      rw (less_asym (key y) (key x) a.0) (ap (◌∷◌ y) (insert_above_all x ys a.1))

  All-get_elem? :
      (P : A → Type 0) (xs : List A) (i : ℕ) (x : A) → All P xs → get_elem? xs i ≡ some x → P x
  All-get_elem? P [] i x a h = absurd (let e : none ≡ some x = h in cc)
  All-get_elem? P (y ∷ ys) zero x a h = subst P (let e : some y ≡ some x = h in cc) a.0
  All-get_elem? P (y ∷ ys) (suc i) x a h = All-get_elem? P ys i x a.1 h

  -- Where the last element after an insertion is none of the old ones, it was inserted at the end.
  pub last_is_new :
      (Q : A → Type 0) (x z : A) (xs : List A)
      → Lacks (key x) xs
      → All (λ y. ¬ Q y) xs
      → get_elem? (insert_sorted x xs) (length xs) ≡ some z
      → Q z
      → AllBelow (key x) xs
  unfolding insert_sorted
  last_is_new Q x z [] l n h q = tt
  last_is_new Q x z (y ∷ ys) l n h q = elim (Bool-cases (less (key x) (key y))) [
    | inl t ↦
        let old : get_elem? (y ∷ ys) (length ys) ≡ some z = rw t at h in
        absurd (All-get_elem? (λ y. ¬ Q y) (y ∷ ys) (length ys) z n old q)
    | inr f ↦
        let rest : get_elem? (insert_sorted x ys) (length ys) ≡ some z = rw f at h in
        (ground (arith, less_connected (key y) (key x), l.0), last_is_new Q x z ys l.1 n.1 rest q)
  ]
