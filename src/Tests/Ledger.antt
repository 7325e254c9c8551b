-- ===== src/Tests/Ledger.antt =====
-- Difficulties, subsidies and outputs.
use simcan2fog.Prelude.{
  ◌≡◌, refl, String, some, List, [], ◌∷◌, ◌++◌, replicate, ok, arith, string_key,
}
use text.Mathlib.Text.{◌==◌ as str_eq}
use simcan2fog.Chain.{Header, Utxo, UtxoSet}
use simcan2fog.Chain.Difficulty.{get_difficulty, join}
use simcan2fog.Chain.Rewards.{EndsInterval, get_difficulty_slow}
use simcan2fog.Chain.Spending.{HasOutput}

abbrev first : Header
first = record { n_bits = 486604799; time = 0 }

abbrev last : Header
last = record { n_bits = 486604799; time = 1209601 }

-- An interval that took one second more than it should.
abbrev chain : List Header
chain = replicate 2015 first ++ last ∷ []

abbrev slow_interval : EndsInterval chain 2015
slow_interval = record { first = first; last = last; boundary = refl; began = refl; ended = refl }

get_difficulty_slow_example : get_difficulty 1 chain (some 2015) ≡ ok (some (join (29, 0)))
get_difficulty_slow_example = get_difficulty_slow 0 chain 2015 slow_interval (omega arith)

abbrev coin : Utxo
coin = record { amount = 50; pubkey_script = [] }

abbrev odd_coin : Utxo
odd_coin = record { amount = 4294967295; pubkey_script = [] }

abbrev outputs : UtxoSet
outputs = ("tx", coin ∷ odd_coin ∷ []) ∷ ("ty", coin ∷ []) ∷ []

abbrev first_output : HasOutput outputs "ty" 0
first_output = record { outputs = coin ∷ []; output = coin; known = refl; there = refl }

abbrev tx : String
tx = "tx"

abbrev ty : String
ty = "ty"
