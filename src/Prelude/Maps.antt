-- ===== src/Prelude/Maps.antt =====
-- std::map and std::unordered_map as association lists: a key stands in the list at most once when
-- it is only written with `insert`.
use Prim.Native.Nat.{ℕ}
use Prim.Native.String.{String}
use mathlib.Core.Path.{◌≡◌, refl, sym, ap, ◌∙◌}
use mathlib.Core.Logic.{◌↔◌, ◌≢◌, inl, inr}
use mathlib.Core.Bool.{Bool, true, false}
use mathlib.Core.Option.{Option, none, some}
use mathlib.Core.List.{List, [], ◌∷◌}
use text.Mathlib.Text.{◌==◌ as str_eq}
use text.Mathlib.TextEquality.{eq_iff}
use simcan2fog.Prelude.Tests.{◌==◌ as nat_eq, ==_iff, Bool-cases}

pub record Eq {ℓ} (A : Type ℓ) : Type ℓ where
  pub beq : A → A → Bool
  pub beq_iff : (a b : A) → (beq a b ≡ true) ↔ (a ≡ b)

instance abbrev pub nat_key : Eq ℕ
nat_key = record { beq = nat_eq; beq_iff = ==_iff }

instance abbrev pub string_key : Eq String
string_key = record { beq = str_eq; beq_iff = eq_iff }

module _ {ℓ} {K : Type ℓ} ⦃e : Eq K⦄ where
  beq_refl : (k : K) → e.beq k k ≡ true
  beq_refl k = (e.beq_iff k k).1 refl

  beq_ne : (k l : K) → k ≢ l → e.beq k l ≡ false
  beq_ne k l n = elim (Bool-cases (e.beq k l)) [
    | inl t ↦ absurd (n ((e.beq_iff k l).0 t))
    | inr f ↦ f
  ]

abbrev pick {κ} : {V : Type κ} → Bool → V → Option V → Option V
pick b v o = elim b [ true ↦ some v | false ↦ o ]

abbrev drop_if {ℓ κ} : {K : Type ℓ} {V : Type κ} → Bool → K × V → List (K × V) → List (K × V)
drop_if b x m = elim b [ true ↦ m | false ↦ x ∷ m ]

module _ {ℓ κ} {K : Type ℓ} {V : Type κ} ⦃e : Eq K⦄ where
  abbrev pub lookup : K → List (K × V) → Option V
  lookup k [] = none
  lookup k ((l, v) ∷ m) = elim (e.beq k l) [ true ↦ some v | false ↦ lookup k m ]

  abbrev pub erase : K → List (K × V) → List (K × V)
  erase k [] = []
  erase k ((l, v) ∷ m) =
      let rest = erase k m in elim (e.beq k l) [ true ↦ rest | false ↦ (l, v) ∷ rest ]

  abbrev pub insert : K → V → List (K × V) → List (K × V)
  insert k v m = (k, v) ∷ erase k m

  pub lookup-insert : (k : K) (v : V) (m : List (K × V)) → lookup k (insert k v m) ≡ some v
  lookup-insert k v m = ap (λ c. pick c v (lookup k (erase k m))) (beq_refl k)

  pub lookup-erase : (k : K) (m : List (K × V)) → lookup k (erase k m) ≡ none
  lookup-erase k [] = refl
  lookup-erase k ((l, v) ∷ m) = go (e.beq k l) refl (lookup-erase k m)
    where
      go :
          (b : Bool)
          → e.beq k l ≡ b
          → lookup k (erase k m) ≡ none
          → lookup k (drop_if b (l, v) (erase k m)) ≡ none
      go true h rest = rest
      go false h rest = ap (λ c. pick c v (lookup k (erase k m))) h ∙ rest

  pub lookup-erase_ne : (k l : K) (m : List (K × V)) → k ≢ l → lookup k (erase l m) ≡ lookup k m
  lookup-erase_ne k l [] n = refl
  lookup-erase_ne k l ((j, v) ∷ m) n = go (e.beq l j) refl (lookup-erase_ne k l m n)
    where
      same : e.beq l j ≡ true → e.beq k j ≡ false
      same t = beq_ne k j (λ p. n (p ∙ sym ((e.beq_iff l j).0 t)))

      go :
          (b : Bool)
          → e.beq l j ≡ b
          → lookup k (erase l m) ≡ lookup k m
          → lookup k (drop_if b (j, v) (erase l m)) ≡ lookup k ((j, v) ∷ m)
      go true h rest = rest ∙ sym (ap (λ c. pick c v (lookup k m)) (same h))
      go false h rest = ap (pick (e.beq k j) v) rest

  pub lookup-insert_ne :
      (k l : K) (v : V) (m : List (K × V)) → k ≢ l → lookup k (insert l v m) ≡ lookup k m
  lookup-insert_ne k l v m n =
      ap (λ c. pick c v (lookup k (erase l m))) (beq_ne k l n) ∙ lookup-erase_ne k l m n
