-- ===== src/Hardware/Cores.antt =====
-- Which cores are taken, and what comes of a loan of cores.
use mathlib.Core.List.{append_assoc}
use simcan2fog.Prelude.{
  ℕ, zero, suc, ◌+◌, ◌-◌, ◌≤◌, ◌≡◌, refl, ap, sym, ◌∙◌, inl, inr, true, false, some, List, [], ◌∷◌,
  ◌++◌, get_elem?, set, length, replicate, length-replicate, length-append, ltb, if◌then◌else◌,
  arith, ok, ◌>>=◌, Bool-cases,
}
use simcan2fog.Hardware.{
  CoreState, allocate_core, allocate_cores_from, allocate_cores, deallocate_cores,
}

-- How many cores are free.
unfoldable pub free_cores : List CoreState → ℕ
free_cores [] = 0
free_cores (c ∷ cs) = if c.free then suc (free_cores cs) else free_cores cs

-- The numbers of the first `k` free cores, counted from `i`.
pub first_free : ℕ → ℕ → List CoreState → List ℕ
first_free zero i cs = []
first_free (suc k) i [] = []
first_free (suc k) i (c ∷ cs) = elim c.free [
  | true ↦ i ∷ first_free k (suc i) cs
  | false ↦ first_free (suc k) (suc i) cs
]

-- The cores with a change to the first `k` free ones.
pub on_first_free : (CoreState → CoreState) → ℕ → List CoreState → List CoreState
on_first_free f zero cs = cs
on_first_free f (suc k) [] = []
on_first_free f (suc k) (c ∷ cs) = elim c.free [
  | true ↦ f c ∷ on_first_free f k cs
  | false ↦ c ∷ on_first_free f (suc k) cs
]

-- An index array with values put over its front.
overlay : List ℕ → List ℕ → List ℕ
overlay [] xs = xs
overlay (p ∷ ps) [] = []
overlay (p ∷ ps) (x ∷ xs) = p ∷ overlay ps xs

set_at_length :
    (pre : List ℕ) (x y : ℕ) (post : List ℕ)
    → set (pre ++ x ∷ post) (length pre) y ≡ pre ++ y ∷ post
set_at_length [] x y post = refl
set_at_length (z ∷ pre) x y post = ap (◌∷◌ z) (set_at_length pre x y post)

-- The loop fills the index with the first free cores and marks those.
module _ (cores now : ℕ) where
  abbrev Filled : ℕ → ℕ → ℕ → List CoreState → List ℕ → List ℕ → Type 0
  Filled k i j cs pre post =
      allocate_cores_from cores now i j cs (pre ++ post)
      ≡ (on_first_free (allocate_core now) k cs, pre ++ overlay (first_free k i cs) post)

  Filled-taken :
      (k i j : ℕ) (c : CoreState) (cs : List CoreState) (pre : List ℕ) (x : ℕ) (post : List ℕ)
      → c.free ≡ true
      → ltb j cores ≡ true
      → j ≡ length pre
      → Filled k (suc i) (suc j) cs (pre ++ i ∷ []) post
      → Filled (suc k) i j (c ∷ cs) pre (x ∷ post)
  unfolding allocate_cores_from on_first_free first_free overlay
  Filled-taken k i j c cs pre x post free more at rest =
      let write : set (pre ++ x ∷ post) j i ≡ (pre ++ i ∷ []) ++ post =
        rw at (set_at_length pre x i post ∙ sym (append_assoc pre (i ∷ []) post)) in
      let whole : (pre ++ i ∷ []) ++ overlay (first_free k (suc i) cs) post
          ≡ pre ++ i ∷ overlay (first_free k (suc i) cs) post =
        append_assoc pre (i ∷ []) _ in
      rw (more, allocate_cores_from, free, on_first_free, first_free)
        (rw write (
          ap (λ (r : List CoreState × List ℕ). (allocate_core now c ∷ r.0, r.1))
            (rest ∙ ap (λ (l : List ℕ). (on_first_free (allocate_core now) k cs, l)) whole)))

  allocate_cores_from_lem :
      (k i j : ℕ) (cs : List CoreState) (pre post : List ℕ)
      → length post ≡ k
      → j ≡ length pre
      → cores ≡ j + k
      → Filled k i j cs pre post
  unfolding allocate_cores_from on_first_free first_free overlay
  allocate_cores_from_lem zero i j [] pre post h at all = refl
  allocate_cores_from_lem (suc k) i j [] pre post h at all = refl
  allocate_cores_from_lem zero i j (c ∷ cs) pre post h at all =
      let full : ltb j cores ≡ false = ground arith in rw (full, allocate_cores_from)
  allocate_cores_from_lem (suc k) i j (c ∷ cs) pre [] h at all = absurd (omega arith)
  allocate_cores_from_lem (suc k) i j (c ∷ cs) pre (x ∷ post) h at all =
      let more : ltb j cores ≡ true = ground arith in
      elim (Bool-cases c.free) [
        | inl free ↦ Filled-taken k i j c cs pre x post free more at (
            allocate_cores_from_lem k (suc i) (suc j) cs (pre ++ i ∷ []) post (omega arith)
              (omega (arith, length-append pre (i ∷ []))) (omega arith))
        | inr busy ↦
            let rest = allocate_cores_from_lem (suc k) (suc i) j cs pre (x ∷ post) h at all in
            rw (more, allocate_cores_from, busy)
              (ap (λ (r : List CoreState × List ℕ). (c ∷ r.0, r.1)) rest)
      ]

overlay_all : (ps xs : List ℕ) → length ps ≡ length xs → overlay ps xs ≡ ps
unfolding overlay
overlay_all [] [] h = refl
overlay_all [] (x ∷ xs) h = absurd (omega arith)
overlay_all (p ∷ ps) [] h = absurd (omega arith)
overlay_all (p ∷ ps) (x ∷ xs) h = ap (◌∷◌ p) (overlay_all ps xs (omega arith))

length-first_free :
    (k i : ℕ) (cs : List CoreState) → k ≤ free_cores cs → length (first_free k i cs) ≡ k
unfolding first_free free_cores
length-first_free zero i cs h = refl
length-first_free (suc k) i [] h = absurd (omega arith)
length-first_free (suc k) i (c ∷ cs) h = elim (Bool-cases c.free) [
  | inl free ↦ rw (free, first_free) (ap suc (length-first_free k (suc i) cs (ground arith)))
  | inr busy ↦ rw (busy, first_free) (length-first_free (suc k) (suc i) cs (ground arith))
]

length-new_index : (k : ℕ) → length {A = ℕ} (4294967295 ∷ replicate k 0) ≡ suc k
length-new_index k = ap suc (length-replicate k 0)

-- Where enough cores are free, the index lists the first ones and exactly those are taken.
pub allocate_cores_lem :
    (k now : ℕ) (cs : List CoreState)
    → suc k ≤ free_cores cs
    → allocate_cores (suc k) now cs
      ≡ ok (on_first_free (allocate_core now) (suc k) cs, first_free (suc k) 0 cs)
unfolding allocate_cores
allocate_cores_lem k now cs h = ap ok (
    allocate_cores_from_lem (suc k) now (suc k) 0 0 cs [] (4294967295 ∷ replicate k 0)
      (length-new_index k) refl (omega arith)
    ∙ ap (λ (l : List ℕ). (on_first_free (allocate_core now) (suc k) cs, l))
        (overlay_all _ _ (length-first_free (suc k) 0 cs h ∙ sym (length-new_index k))))

get_elem?-append :
    (pre : List CoreState) (c : CoreState) (cs : List CoreState)
    → get_elem? (pre ++ c ∷ cs) (length pre) ≡ some c
get_elem?-append [] c cs = refl
get_elem?-append (x ∷ pre) c cs = get_elem?-append pre c cs

set-append :
    (pre : List CoreState) (c d : CoreState) (cs : List CoreState)
    → set (pre ++ c ∷ cs) (length pre) d ≡ pre ++ d ∷ cs
set-append [] c d cs = refl
set-append (x ∷ pre) c d cs = ap (◌∷◌ x) (set-append pre c d cs)

-- A core after it was lent at `now` and came back at `later`.
abbrev pub lent : ℕ → ℕ → CoreState → CoreState
lent now later c = record {
  free = true;
  start_time = now;
  usage_time = c.usage_time + (later - now);
}

module _ (now later : ℕ) where
  Returned : ℕ → ℕ → List CoreState → List CoreState → Type 0
  Returned k i pre cs =
      deallocate_cores k later (first_free k i cs) (pre ++ on_first_free (allocate_core now) k cs)
      ≡ ok (pre ++ on_first_free (lent now later) k cs)

  -- Both sides hold the core `d` in front of the rest.
  moved :
      (k : ℕ) (index : List ℕ) (pre xs ys : List CoreState) (d : CoreState)
      → deallocate_cores k later index ((pre ++ d ∷ []) ++ xs) ≡ ok ((pre ++ d ∷ []) ++ ys)
      → deallocate_cores k later index (pre ++ d ∷ xs) ≡ ok (pre ++ d ∷ ys)
  moved k index pre xs ys d h = rw (append_assoc pre (d ∷ []) xs, append_assoc pre (d ∷ []) ys) at h

  deallocate_first_free :
      (k i : ℕ) (pre cs : List CoreState) → k ≤ free_cores cs → i ≡ length pre → Returned k i pre cs
  unfolding Returned deallocate_cores on_first_free first_free free_cores
  deallocate_first_free zero i pre cs h place = refl
  deallocate_first_free (suc k) i pre [] h place = absurd (omega arith)
  deallocate_first_free (suc k) i pre (c ∷ cs) h place = elim (Bool-cases c.free) [
    | inl free ↦
        let rest =
          deallocate_first_free k (suc i) (pre ++ lent now later c ∷ []) cs (ground arith)
            (omega (arith, length-append pre (lent now later c ∷ []))) in
        let taken = on_first_free (allocate_core now) k cs in
        rw (free, first_free, on_first_free)
          (rw (place, get_elem?-append pre (allocate_core now c) taken)
            (rw (set-append pre (allocate_core now c) (lent now later c) taken)
              (moved k _ pre taken _ (lent now later c) (rw place at rest))))
    | inr busy ↦
        let rest =
          deallocate_first_free (suc k) (suc i) (pre ++ c ∷ []) cs (ground arith)
            (omega (arith, length-append pre (c ∷ []))) in
        rw (busy, first_free, on_first_free) (moved (suc k) _ pre _ _ c rest)
  ]

pub deallocate_cores_lem :
    (k now later : ℕ) (cs : List CoreState)
    → k ≤ free_cores cs
    → deallocate_cores k later (first_free k 0 cs) (on_first_free (allocate_core now) k cs)
      ≡ ok (on_first_free (lent now later) k cs)
unfolding Returned
deallocate_cores_lem k now later cs h = deallocate_first_free now later k 0 [] cs h refl

-- Cores lent at `now` and given back at `later`: the first free ones, as many as asked for, are free
-- again with the time in between added to their usage, and no other core has changed.
pub cores_loan :
    (k now later : ℕ) (cs : List CoreState)
    → suc k ≤ free_cores cs
    → (allocate_cores (suc k) now cs >>= λ r. deallocate_cores (suc k) later r.1 r.0)
      ≡ ok (on_first_free (lent now later) (suc k) cs)
cores_loan k now later cs h =
    rw (allocate_cores_lem k now cs h) (deallocate_cores_lem (suc k) now later cs h)

pub free_cores-allocate :
    (k now : ℕ) (cs : List CoreState)
    → k ≤ free_cores cs
    → free_cores (on_first_free (allocate_core now) k cs) + k ≡ free_cores cs
unfolding free_cores on_first_free
free_cores-allocate zero now cs h = omega arith
free_cores-allocate (suc k) now [] h = absurd (omega arith)
free_cores-allocate (suc k) now (c ∷ cs) h = elim (Bool-cases c.free) [
  | inl free ↦
      rw (free, on_first_free)
        (let rest = free_cores-allocate k now cs (ground arith) in omega arith)
  | inr busy ↦
      rw (busy, on_first_free) (rw busy (free_cores-allocate (suc k) now cs (ground arith)))
]
