-- ===== src/Chain/Difficulty.antt =====
-- getDifficulty (src/s2f/architecture/p2p/pow/chain/Blockchain.cc) on 32-bit words. The two loops
-- run on fuel; `none` is a loop that has not ended.
use simcan2fog.Prelude.{
  ℕ, zero, suc, ◌+◌, ◌-◌, ◌*◌, ◌/◌, ◌%◌, Bool, true, false, not, ◌&&◌, Option, none, some, List,
  get_elem?, leb, ◌==◌, Outcome, ok, undefined, or_fault, ◌>>=◌, u32_mod, add32, sub32,
}
use simcan2fog.Chain.{Header, clamp, block_minetime, block_diffupdate, genesis_nbits}
use Prim.Native.Nat.{bit_or}

abbrev pub targetspan : ℕ
targetspan = block_minetime * block_diffupdate

-- `coefficient & ~0x007FFFFF`
abbrev pub overflows : ℕ → Bool
overflows coefficient = leb 8388608 coefficient

-- `coefficient && !(coefficient & 0x00800000)`
abbrev pub underflows : ℕ → Bool
underflows coefficient = not (coefficient == 0) && ((coefficient / 8388608) % 2 == 0)

-- The loops on the pair (exponent, coefficient).
unfoldable pub shift_down : ℕ → ℕ × ℕ → Option (ℕ × ℕ)
shift_down zero p = none
shift_down (suc fuel) (e, c) =
    let rest = shift_down fuel (add32 e 1, c / 256) in
    elim (overflows c) [ true ↦ rest | false ↦ some (e, c) ]

unfoldable pub shift_up : ℕ → ℕ × ℕ → Option (ℕ × ℕ)
shift_up zero p = none
shift_up (suc fuel) (e, c) =
    let rest = shift_up fuel (sub32 e 1, (c * 256) % u32_mod) in
    elim (underflows c) [ true ↦ rest | false ↦ some (e, c) ]

-- `(exponent << 24) | coefficient`
abbrev pub join : ℕ × ℕ → ℕ
join (e, c) = bit_or ((e * 16777216) % u32_mod) c

abbrev pub then_up : ℕ → Option (ℕ × ℕ) → Option (ℕ × ℕ)
then_up fuel none = none
then_up fuel (some p) = shift_up fuel p

abbrev pub join_all : Option (ℕ × ℕ) → Option ℕ
join_all none = none
join_all (some p) = some (join p)

unfoldable pub normalise : ℕ → ℕ × ℕ → Option ℕ
unfolding shift_down shift_up
normalise fuel p = join_all (then_up fuel (shift_down fuel p))

-- The new difficulty of an interval that took `span` seconds.
unfoldable pub retarget : ℕ → ℕ → ℕ → Option ℕ
unfolding normalise
retarget fuel n_bits span =
    let timespan = clamp span (targetspan / 4) (targetspan * 4) in
    normalise fuel (n_bits / 16777216, ((n_bits % 8388608) * (targetspan / timespan)) % u32_mod)

abbrev pub last_diff : ℕ → ℕ
last_diff height = height - height % block_diffupdate

-- `none` is the height -1; an index outside the chain is undefined.
unfoldable pub get_difficulty : ℕ → List Header → Option ℕ → Outcome (Option ℕ)
unfolding retarget
get_difficulty fuel chain none = ok (some genesis_nbits)
get_difficulty fuel chain (some height) = do
  first ← or_fault (get_elem? chain (last_diff height)) undefined
  let renewed = or_fault (get_elem? chain height) undefined >>= λ last.
      ok (retarget fuel first.n_bits (sub32 last.time first.time))
  elim ((height + 1) % block_diffupdate == 0) [ false ↦ ok (some first.n_bits) | true ↦ renewed ]
