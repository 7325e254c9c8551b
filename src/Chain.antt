-- ===== src/Chain.antt =====
-- The difficulty and the subsidy of a block and the set of unspent outputs
-- (src/s2f/architecture/p2p/pow/chain/Blockchain.{h,cc}, UtxoSet.{h,cc}). Digests are texts.
pub mod Difficulty
pub mod Rewards
pub mod Spending
use simcan2fog.Prelude.{
  ℕ, zero, suc, ◌+◌, ◌-◌, ◌*◌, ◌/◌, ◌%◌, ◌^◌, String, Bool, true, false, Option, none, some, List,
  [], ◌∷◌, get_elem?, set, length, ltb, ◌==◌, if◌then◌else◌, Outcome, ok, fault, undefined,
  or_fault, ◌>>=◌, u32_mod, u64_mod, lookup, insert, erase, string_key,
}

abbrev pub satoshis_per_btc : ℕ
satoshis_per_btc = 1000000000

abbrev pub base_subsidy : ℕ
base_subsidy = 50 * satoshis_per_btc

abbrev pub halving_interval : ℕ
halving_interval = 210000

abbrev pub block_minetime : ℕ
block_minetime = 600

abbrev pub block_diffupdate : ℕ
block_diffupdate = 2016

abbrev pub genesis_nbits : ℕ
genesis_nbits = 486604799

-- A shift by 64 or more is undefined.
abbrev pub shifted : Bool → ℕ → Outcome ℕ
shifted true halvings = ok (base_subsidy / 2 ^ halvings)
shifted false halvings = fault undefined

-- getSubsidy at a height that is not negative.
unfoldable pub get_subsidy : ℕ → Outcome ℕ
get_subsidy height = let halvings = height / halving_interval in shifted (ltb halvings 64) halvings

-- The fields of a block header that the difficulty reads; both are 32-bit words.
pub record Header : Type 0 where
  pub n_bits : ℕ
  pub time : ℕ

-- std::clamp
abbrev pub clamp : ℕ → ℕ → ℕ → ℕ
clamp v low high = if ltb v low then low else if ltb high v then high else v

-- utxo; `amount` is a uint64_t.
pub record Utxo : Type 0 where
  pub amount : ℕ
  pub pubkey_script : List ℕ

-- The outputs of each transaction.
abbrev pub UtxoSet : Type 0
UtxoSet = List (String × List Utxo)

unfoldable pub add : String → List Utxo → UtxoSet → UtxoSet
add txid outputs db = insert txid outputs db

-- The check of get and spendCoin lets an index through that is one past the end.
abbrev pub in_reach : List Utxo → Option ℕ → Option ℕ
in_reach outputs none = none
in_reach outputs (some vout) = if ltb (length outputs) vout then none else some vout

abbrev pub found : UtxoSet → String → Option ℕ → Option (List Utxo × ℕ)
found db txid vout = elim (lookup txid db) [
  | none ↦ none
  | some outputs ↦ elim (in_reach outputs vout) [ none ↦ none | some v ↦ some (outputs, v) ]
]

abbrev pub read_output : Option (List Utxo × ℕ) → Outcome (Option Utxo)
read_output none = ok none
read_output (some (outputs, v)) = or_fault (get_elem? outputs v) undefined >>= λ u. ok (some u)

-- UtxoSet::get; `vout` is an int, and `none` a negative one.
unfoldable pub get : UtxoSet → String → Option ℕ → Outcome (Option Utxo)
get db txid vout = read_output (found db txid vout)

-- `amount = -1` on a uint64_t.
abbrev pub spent_amount : ℕ
spent_amount = u64_mod - 1

-- `sum` is an int: the additions keep its low 32 bits.
unfoldable pub sum_from : ℕ → List Utxo → ℕ
sum_from sum [] = sum
sum_from sum (u ∷ us) = sum_from ((sum + u.amount) % u32_mod) us

-- The word of an int as the uint64_t that it is compared as.
abbrev pub sign_extend : ℕ → ℕ
sign_extend w = if ltb w 2147483648 then w else w + (u64_mod - u32_mod)

-- `sum == -outputs.size()`
unfoldable pub is_all_spent : List Utxo → Bool
unfolding sum_from
is_all_spent us = sign_extend (sum_from 0 us) == (u64_mod - length us) % u64_mod

abbrev pub spend : UtxoSet → String → Option (List Utxo × ℕ) → Outcome UtxoSet
spend db txid none = ok db
spend db txid (some (outputs, v)) = or_fault (get_elem? outputs v) undefined >>= λ u.
    let changed = set outputs v (record u { amount = spent_amount }) in
    ok (if is_all_spent changed then erase txid db else insert txid changed db)

-- UtxoSet::spendCoin
unfoldable pub spend_coin : UtxoSet → String → Option ℕ → Outcome UtxoSet
unfolding is_all_spent
spend_coin db txid vout = spend db txid (found db txid vout)
