-- ===== src/Chain/Spending.antt =====
-- What spending does to the unspent outputs (src/s2f/architecture/p2p/pow/chain/UtxoSet.cc).
use simcan2fog.Prelude.{
  ℕ, suc, ◌+◌, ◌-◌, ◌%◌, ◌≡◌, ◌≤◌, ◌<◌, refl, ap, ◌∙◌, String, true, false, Option, none, some,
  List, [], ◌∷◌, get_elem?, set, length, get_elem?-lt, ltb, ==_iff, if◌then◌else◌, ok, fault,
  undefined, or_fault, ◌>>=◌, u32_mod, u64_mod, lookup, insert, erase, string_key, lookup-erase,
  arith, ◌⊎◌,
}
use simcan2fog.Chain.{
  Utxo, UtxoSet, in_reach, found, read_output, get, spent_amount, sum_from, sign_extend,
  is_all_spent, spend, spend_coin,
}

-- The output `v` of the transaction.
pub record HasOutput (db : UtxoSet) (txid : String) (v : ℕ) : Type 0 where
  pub outputs : List Utxo
  pub output : Utxo
  pub known : lookup txid db ≡ some outputs
  pub there : get_elem? outputs v ≡ some output

not_beyond : (n v : ℕ) → v ≤ n → ltb n v ≡ false
not_beyond n v h = ground arith

in_range : (us : List Utxo) (v : ℕ) (u : Utxo) → get_elem? us v ≡ some u → v ≤ length us
in_range us v u h = omega (arith, get_elem?-lt us v u h)

get_elem?-length : (us : List Utxo) → get_elem? us (length us) ≡ none
get_elem?-length [] = refl
get_elem?-length (u ∷ us) = get_elem?-length us

module _ (db : UtxoSet) (txid : String) where
  found-in_reach :
      (outputs : List Utxo) (v : ℕ)
      → lookup txid db ≡ some outputs
      → v ≤ length outputs
      → found db txid (some v) ≡ some (outputs, v)
  found-in_reach outputs v known h =
      ap
        (λ o. elim o as (λ _. Option (List Utxo × ℕ)) [
          | none ↦ none
          | some us ↦ elim (in_reach us (some v)) as (λ _. Option (List Utxo × ℕ)) [
            | none ↦ none
            | some w ↦ some (us, w)
          ]
        ])
        known
      ∙ ap
          (λ b. elim (if b then none else some v) as (λ _. Option (List Utxo × ℕ)) [
            | none ↦ none
            | some w ↦ some (outputs, w)
          ])
          (not_beyond (length outputs) v h)

module _ (db : UtxoSet) (txid : String) (v : ℕ) (h : HasOutput db txid v) where
  -- The outputs with the one spent.
  abbrev pub after_spending : List Utxo
  after_spending = set h.outputs v (record h.output { amount = spent_amount })

  spend_coin-if :
      spend_coin db txid (some v)
      ≡ ok (if is_all_spent after_spending then erase txid db else insert txid after_spending db)
  unfolding spend_coin
  spend_coin-if =
      ap (spend db txid)
        (found-in_reach db txid h.outputs v h.known (in_range h.outputs v h.output h.there))
      ∙ ap
          (λ o. or_fault o undefined >>= λ u.
            let changed = set h.outputs v (record u { amount = spent_amount }) in
            ok (if is_all_spent changed then erase txid db else insert txid changed db))
          h.there

-- What a transaction is left with: nothing if the test for spent outputs passes, else its outputs.
abbrev pub LeftWith : UtxoSet → String → List Utxo → Type 0
LeftWith u txid outputs =
    ((is_all_spent outputs ≡ true) × (lookup txid u ≡ none))
    ⊎ ((is_all_spent outputs ≡ false) × (lookup txid u ≡ some outputs))

-- Every output is spent.
abbrev pub AllSpent : List Utxo → Type 0
AllSpent [] = Unit {0}
AllSpent (u ∷ us) = (u.amount ≡ spent_amount) × AllSpent us

sum_from-AllSpent :
    (us : List Utxo) (k : ℕ)
    → AllSpent us
    → k + length us < 2147483648
    → sum_from ((u32_mod - k) % u32_mod) us ≡ (u32_mod - (k + length us)) % u32_mod
unfolding sum_from
sum_from-AllSpent [] k h small = omega arith
sum_from-AllSpent (u ∷ us) k h small =
    let next : ((u32_mod - k) % u32_mod + u.amount) % u32_mod ≡ (u32_mod - suc k) % u32_mod =
      omega (arith, h.0) in
    ap (λ s. sum_from s us) next
    ∙ sum_from-AllSpent us (suc k) h.1 (omega arith)
    ∙ ap (λ n. (u32_mod - n) % u32_mod) (omega arith)

sign_extend_negative :
    (n : ℕ) → n < 2147483648 → sign_extend ((u32_mod - n) % u32_mod) ≡ (u64_mod - n) % u64_mod
sign_extend_negative n h = ground arith

-- The test for spent outputs passes when they all are, as long as there are fewer than 2^31.
pub AllSpent-is_all_spent :
    (us : List Utxo) → AllSpent us → length us < 2147483648 → is_all_spent us ≡ true
unfolding is_all_spent
AllSpent-is_all_spent us h small = (==_iff _ _).1 (
    ap sign_extend
      (sum_from-AllSpent us 0 h (omega arith) ∙ ap (λ n. (u32_mod - n) % u32_mod) (omega arith))
    ∙ sign_extend_negative (length us) small)

passes :
    (a b : Utxo)
    → b.amount % u32_mod ≡ u32_mod - 1
    → is_all_spent (record a { amount = spent_amount } ∷ b ∷ []) ≡ true
unfolding is_all_spent sum_from
passes a b low =
    let low_sum : ((0 + spent_amount) % u32_mod + b.amount) % u32_mod ≡ (u32_mod - 2) % u32_mod =
      omega (arith, low) in
    (==_iff _ _).1 (ap sign_extend low_sum)

-- The test also passes with an output that is not spent, if the low word of its amount is 2^32 - 1:
-- spending the other output of its transaction then removes it from the set.
pub spend_coin_loses :
    (db : UtxoSet) (txid : String) (a b : Utxo)
    → lookup txid db ≡ some (a ∷ b ∷ [])
    → b.amount % u32_mod ≡ u32_mod - 1
    → (u : UtxoSet) × (spend_coin db txid (some 0) ≡ ok u) × (lookup txid u ≡ none)
spend_coin_loses db txid a b known low =
    let h : HasOutput db txid 0 = record {
      outputs = a ∷ b ∷ [];
      output = a;
      known = known;
      there = refl;
    } in
    (
      erase txid db,
      spend_coin-if db txid 0 h
          ∙ ap (λ c. ok (if c then erase txid db else insert txid (after_spending db txid 0 h) db))
              (passes a b low),
      lookup-erase txid db,
    )

-- The index one past the outputs passes the check of get and of spendCoin, and is then read.
pub past_the_end :
    (db : UtxoSet) (txid : String) (outputs : List Utxo)
    → lookup txid db ≡ some outputs
    → (get db txid (some (length outputs)) ≡ fault undefined)
      × (spend_coin db txid (some (length outputs)) ≡ fault undefined)
unfolding get spend_coin
past_the_end db txid outputs known =
    let reached = found-in_reach db txid outputs (length outputs) known (omega arith) in
    (
      ap read_output reached
          ∙ ap (λ o. or_fault o undefined >>= λ u. ok (some u)) (get_elem?-length outputs),
      ap (spend db txid) reached
          ∙ ap
              (λ o. or_fault o undefined >>= λ u.
                let changed = set outputs (length outputs) (record u { amount = spent_amount }) in
                ok (if is_all_spent changed then erase txid db else insert txid changed db))
              (get_elem?-length outputs),
    )
