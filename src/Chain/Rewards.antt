-- ===== src/Chain/Rewards.antt =====
-- What the difficulty and the subsidy come to (src/s2f/architecture/p2p/pow/chain/Blockchain.{h,cc}).
use simcan2fog.Prelude.{
  ℕ, suc, ◌+◌, ◌*◌, ◌/◌, ◌%◌, ◌^◌, ◌≡◌, ◌<◌, refl, sym, subst, ap, ◌∙◌, >>=-ok, Bool, true, false,
  Option, none, some, List, get_elem?, ltb, lt→ltb, ◌==◌, Outcome, ok, undefined, or_fault, ◌>>=◌,
  u32_mod, add32, sub32, arith, Ensures, Ensures->>=,
}
use native.Mathlib.Nat.{div-eq_of_lt, div-div-eq-div-mul, pow-suc}
use simcan2fog.Chain.{
  Header, clamp, get_subsidy, shifted, base_subsidy, halving_interval, block_diffupdate,
  genesis_nbits,
}
use simcan2fog.Chain.Difficulty.{
  targetspan, overflows, underflows, shift_down, shift_up, join, then_up, join_all, normalise,
  retarget, last_diff, get_difficulty,
}

-- A loop that has ended.
abbrev pub Ends : Option (ℕ × ℕ) → Type 0
Ends o = (a : ℕ × ℕ) × (o ≡ some a)

-- One round of either loop.
abbrev round : Bool → Option (ℕ × ℕ) → ℕ × ℕ → Option (ℕ × ℕ)
round b rest p = elim b [ true ↦ rest | false ↦ some p ]

round-Ends : (b : Bool) (rest : Option (ℕ × ℕ)) (p : ℕ × ℕ) → Ends rest → Ends (round b rest p)
round-Ends true rest p h = h
round-Ends false rest p h = (p, refl)

stopped-Ends : (b : Bool) (rest : Option (ℕ × ℕ)) (p : ℕ × ℕ) → b ≡ false → Ends (round b rest p)
stopped-Ends b rest p h = (p, ap (λ c. round c rest p) h)

-- Two shifts bring a word below 2^23.
shift_down-Ends : (fuel e c : ℕ) → c < u32_mod → Ends (shift_down (suc (suc (suc fuel))) (e, c))
unfolding shift_down
shift_down-Ends fuel e c h =
    round-Ends (overflows c) _ (e, c)
      (round-Ends (overflows (c / 256)) _ (add32 e 1, c / 256)
        (stopped-Ends (overflows (c / 256 / 256)) _ (add32 (add32 e 1) 1, c / 256 / 256)
          (ground arith)))

-- Four shifts push every bit out of a word.
shift_up-Ends : (fuel e c : ℕ) → Ends (shift_up (suc (suc (suc (suc (suc fuel))))) (e, c))
unfolding shift_up
shift_up-Ends fuel e c =
    let c1 = (c * 256) % u32_mod in
    let c2 = (c1 * 256) % u32_mod in
    let c3 = (c2 * 256) % u32_mod in
    let c4 = (c3 * 256) % u32_mod in
    let pushed_out : c4 ≡ 0 = omega arith in
    round-Ends (underflows c) _ (e, c)
      (round-Ends (underflows c1) _ _ (
        round-Ends (underflows c2) _ _ (
          round-Ends (underflows c3) _ _
            (stopped-Ends (underflows c4) _ _ (ap underflows pushed_out)))))

abbrev Joined : Option ℕ → Type 0
Joined o = (n : ℕ) × (o ≡ some n)

joined : (o : Option (ℕ × ℕ)) → Ends o → Joined (join_all o)
joined o h = (join h.0, ap join_all h.1)

normalise-Joined :
    (fuel e c : ℕ) → c < u32_mod → Joined (normalise (suc (suc (suc (suc (suc fuel))))) (e, c))
unfolding normalise
normalise-Joined fuel e c h =
    let enough = suc (suc (suc (suc (suc fuel)))) in
    let down = shift_down-Ends (suc (suc fuel)) e c h in
    joined (then_up enough (shift_down enough (e, c)))
      (subst Ends (sym (ap (then_up enough) down.1)) (shift_up-Ends fuel down.0.0 down.0.1))

-- The difficulty that a chain has at a height, if it has the blocks for it: a number.
abbrev pub Returns : Outcome (Option ℕ) → Type 0
Returns = Ensures (λ o. (n : ℕ) × (o ≡ some n))

word_mod : (n : ℕ) → n % u32_mod < u32_mod
word_mod n = omega arith

retarget-Joined :
    (fuel n_bits span : ℕ) → Joined (retarget (suc (suc (suc (suc (suc fuel))))) n_bits span)
unfolding retarget
retarget-Joined fuel n_bits span =
    let timespan = clamp span (targetspan / 4) (targetspan * 4) in
    normalise-Joined fuel (n_bits / 16777216)
      (((n_bits % 8388608) * (targetspan / timespan)) % u32_mod)
      (word_mod ((n_bits % 8388608) * (targetspan / timespan)))

-- Whatever the chain and the height, five rounds are enough for the loops of getDifficulty.
pub get_difficulty-Returns :
    (fuel : ℕ) (chain : List Header) (height : Option ℕ)
    → Returns (get_difficulty (suc (suc (suc (suc (suc fuel))))) chain height)
unfolding get_difficulty
get_difficulty-Returns fuel chain none = (genesis_nbits, refl)
get_difficulty-Returns fuel chain (some height) =
    Ensures->>= Found (or_fault (get_elem? chain (last_diff height)) undefined) _
      λ first _. by_interval first ((height + 1) % block_diffupdate == 0)
  where
    enough : ℕ
    enough = suc (suc (suc (suc (suc fuel))))

    Found : Option ℕ → Type 0
    Found o = (n : ℕ) × (o ≡ some n)

    by_interval :
        (first : Header) (b : Bool)
        → Returns (elim b [
          | false ↦ ok (some first.n_bits)
          | true ↦ or_fault (get_elem? chain height) undefined >>= λ last.
              ok (retarget enough first.n_bits (sub32 last.time first.time))
        ])
    by_interval first false = (first.n_bits, refl)
    by_interval first true =
        Ensures->>= Found (or_fault (get_elem? chain height) undefined) _
          λ last _. retarget-Joined fuel first.n_bits (sub32 last.time first.time)

-- The block at `height` ends an interval that began with the header `first`.
pub record EndsInterval (chain : List Header) (height : ℕ) : Type 0 where
  pub first : Header
  pub last : Header
  pub boundary : ((height + 1) % block_diffupdate == 0) ≡ true
  pub began : get_elem? chain (last_diff height) ≡ some first
  pub ended : get_elem? chain height ≡ some last

slow_ratio :
    (span : ℕ) → targetspan < span → targetspan / clamp span (targetspan / 4) (targetspan * 4) ≡ 0
slow_ratio span h = div-eq_of_lt (ground arith)

no_coefficient : (fuel e : ℕ) → normalise (suc fuel) (e, 0) ≡ some (join (e, 0))
unfolding normalise shift_down shift_up
no_coefficient fuel e = refl

retarget_slow :
    (fuel n_bits span : ℕ)
    → targetspan < span
    → retarget (suc fuel) n_bits span ≡ some (join (n_bits / 16777216, 0))
unfolding retarget
retarget_slow fuel n_bits span h =
    ap (λ r. normalise (suc fuel) (n_bits / 16777216, ((n_bits % 8388608) * r) % u32_mod))
      (slow_ratio span h)
    ∙ ap (λ c. normalise (suc fuel) (n_bits / 16777216, c)) (no_product (n_bits % 8388608))
    ∙ no_coefficient fuel (n_bits / 16777216)
  where
    no_product : (m : ℕ) → (m * 0) % u32_mod ≡ 0
    no_product m = omega arith

-- When the blocks of an interval took longer than they should, by any amount, the difficulty is
-- left with the exponent of the old one and a coefficient of 0.
pub get_difficulty_slow :
    (fuel : ℕ) (chain : List Header) (height : ℕ) (s : EndsInterval chain height)
    → targetspan < sub32 s.last.time s.first.time
    → get_difficulty (suc fuel) chain (some height)
      ≡ ok (some (join (s.first.n_bits / 16777216, 0)))
unfolding get_difficulty
get_difficulty_slow fuel chain height s h =
    let read : Outcome (Option ℕ) = or_fault (get_elem? chain height) undefined >>= λ last.
    ok (retarget (suc fuel) s.first.n_bits (sub32 last.time s.first.time)) in
    >>=-ok _ _ s.first (ap (λ o. or_fault o undefined) s.began)
    ∙ ap
        (λ b. elim b as (λ _. Outcome (Option ℕ)) [
          | false ↦ ok (some s.first.n_bits)
          | true ↦ read
        ])
        s.boundary
    ∙ >>=-ok _ _ s.last (ap (λ o. or_fault o undefined) s.ended)
    ∙ ap ok (retarget_slow fuel s.first.n_bits (sub32 s.last.time s.first.time) h)

-- Until the shift reaches the width of the word, the subsidy halves, rounded down, with every interval
-- of 210000 blocks.
pub get_subsidy_halves :
    (height : ℕ)
    → height / halving_interval < 63
    → (s : ℕ) × (get_subsidy height ≡ ok s) × (get_subsidy (height + halving_interval) ≡ ok (s / 2))
unfolding get_subsidy
get_subsidy_halves height h =
    let n = height / halving_interval in
    let next : (height + halving_interval) / halving_interval ≡ suc n = omega arith in
    (
      base_subsidy / 2 ^ n,
      ap (λ b. shifted b n) (lt→ltb n 64 (omega arith)),
      ap (λ m. shifted (ltb m 64) m) next
          ∙ ap (λ b. shifted b (suc n)) (lt→ltb (suc n) 64 (omega arith))
          ∙ ap ok (
              ap (λ d. base_subsidy / d) (pow-suc 2 n)
              ∙ sym (div-div-eq-div-mul base_subsidy (2 ^ n) 2)),
    )
