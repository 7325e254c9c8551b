-- ===== src/Dns/Server/Filling.antt =====
-- The loop that writes the records into an array of the response (processRecords of
-- DnsServiceSimplified.cc).
use simcan2fog.Prelude.{
  ℕ, zero, suc, ◌≡◌, ◌≤◌, ◌<◌, ◌+◌, refl, ap, sym, ◌∙◌, String, Name, Bool, true, List, [], ◌∷◌,
  ◌++◌, length, set, length-set, length-append, Outcome, ok, fault, runtime_error, ◌>>=◌, arith,
  ◌⊎◌, inl, inr,
}
use simcan2fog.Dns.Server.{DnsRequest, fill, answer_as, process_records}

module _ {R : Type 0} where
  set_middle : (pre js : List R) (j r : R) → set (pre ++ j ∷ js) (length pre) r ≡ pre ++ r ∷ js
  set_middle [] js j r = refl
  set_middle (p ∷ pre) js j r = ap (◌∷◌ p) (set_middle pre js j r)

  append_snoc : (pre js : List R) (r : R) → (pre ++ r ∷ []) ++ js ≡ pre ++ r ∷ js
  append_snoc [] js r = refl
  append_snoc (p ∷ pre) js r = ap (◌∷◌ p) (append_snoc pre js r)

lt_or_eq : (i n : ℕ) → i ≤ n → (i < n) ⊎ (i ≡ n)
lt_or_eq zero zero h = inr refl
lt_or_eq zero (suc n) h = inl (omega arith)
lt_or_eq (suc i) zero h = absurd (omega arith)
lt_or_eq (suc i) (suc n) h = elim (lt_or_eq i n (omega arith)) [
  | inl l ↦ inl (omega arith)
  | inr e ↦ inr (ap suc e)
]

module _ {R : Type 0} (labels : Name → List String) (matches : Name → Bool)
    (resize : ℕ → List R → List R) (set_at : ℕ → R → List R → Outcome (List R))
    (sized : (n : ℕ) (xs : List R) → length (resize n xs) ≡ n)
    (in_range : (i : ℕ) (r : R) (xs : List R)
      → i < length xs
      → set_at i r xs ≡ ok (set xs i r)) where
  fill_all :
      (pre rs js : List R)
      → length js ≡ length rs
      → fill labels matches resize set_at (length pre) rs (pre ++ js) ≡ ok (pre ++ rs)
  unfolding fill
  fill_all pre [] [] h = refl
  fill_all pre [] (j ∷ js) h = absurd (omega arith)
  fill_all pre (r ∷ rs) [] h = absurd (omega arith)
  fill_all pre (r ∷ rs) (j ∷ js) h =
      let below : length pre < length (pre ++ j ∷ js) = omega (arith, length-append pre (j ∷ js)) in
      ap (λ o. o >>= fill labels matches resize set_at (suc (length pre)) rs)
        (in_range (length pre) r (pre ++ j ∷ js) below)
      ∙ ap (fill labels matches resize set_at (suc (length pre)) rs)
          (set_middle pre js j r ∙ sym (append_snoc pre js r))
      ∙ ap (λ i. fill labels matches resize set_at i rs ((pre ++ r ∷ []) ++ js))
          (omega (arith, length-append pre (r ∷ [])))
      ∙ fill_all (pre ++ r ∷ []) rs js (omega arith)
      ∙ ap ok (append_snoc pre rs r)

  pub process_records_authority :
      (domain : Name) (response : DnsRequest R) (rs : List R)
      → matches domain ≡ true
      → process_records labels matches resize set_at domain response rs
        ≡ ok (record response { is_authoritative = true; authoritative_answer = rs })
  unfolding process_records answer_as
  process_records_authority domain response rs authority =
      ap (λ b. answer_as labels matches resize set_at b response rs) authority
      ∙ ap
          (λ o. o >>= λ answers.
            ok (record response { is_authoritative = true; authoritative_answer = answers }))
          (fill_all [] rs (resize (length rs) response.authoritative_answer) (sized (length rs) _))

  module _
      (out_of_range : (i : ℕ) (r : R) (xs : List R)
        → length xs ≤ i
        → set_at i r xs ≡ fault runtime_error) where
    pub fill_short :
        (i : ℕ) (rs xs : List R)
        → i ≤ length xs
        → length xs < i + length rs
        → fill labels matches resize set_at i rs xs ≡ fault runtime_error
    unfolding fill
    fill_short i [] xs h short = absurd (omega arith)
    fill_short i (r ∷ rs) xs h short = elim (lt_or_eq i (length xs) h) [
      | inl below ↦
          ap (λ o. o >>= fill labels matches resize set_at (suc i) rs) (in_range i r xs below)
          ∙ fill_short (suc i) rs (set xs i r) (omega (arith, length-set xs i r))
              (omega (arith, length-set xs i r))
      | inr e ↦
          ap (λ o. o >>= fill labels matches resize set_at (suc i) rs)
            (out_of_range i r xs (omega arith))
    ]
