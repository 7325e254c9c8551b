-- ===== src/Prelude/Texts.antt =====
-- The texts that the program compares byte by byte: C strings, as lists of their bytes.
use Prim.Native.Nat.{ℕ}
use mathlib.Core.Path.{◌≡◌, refl, sym, subst, ◌∙◌}
use mathlib.Core.Logic.{◌↔◌, inl, inr}
use mathlib.Core.Bool.{Bool, true, false}
use mathlib.Core.List.{List, [], ◌∷◌}
use native.Mathlib.Omega.{arith}
use simcan2fog.Prelude.Maps.{Eq}
use simcan2fog.Prelude.Tests.{ltb, ◌==◌, if◌then◌else◌, Bool-cases}

abbrev pub Name : Type 0
Name = List ℕ

-- strcmp(a, b) < 0
unfoldable pub less : Name → Name → Bool
less [] [] = false
less [] (d ∷ ds) = true
less (c ∷ cs) [] = false
less (c ∷ cs) (d ∷ ds) = if ltb c d then true else if ltb d c then false else less cs ds

pub less_irrefl : (a : Name) → less a a ≡ false
unfolding less
less_irrefl [] = refl
less_irrefl (c ∷ cs) = ground (arith, less_irrefl cs)

pub less_trans : (a b c : Name) → less a b ≡ true → less b c ≡ true → less a c ≡ true
unfolding less
less_trans [] [] [] h k = h
less_trans [] [] (z ∷ zs) h k = refl
less_trans [] (y ∷ ys) [] h k = k
less_trans [] (y ∷ ys) (z ∷ zs) h k = refl
less_trans (x ∷ xs) [] c h k = cc
less_trans (x ∷ xs) (y ∷ ys) [] h k = cc
less_trans (x ∷ xs) (y ∷ ys) (z ∷ zs) h k = ground (arith, less_trans xs ys zs)

-- Of two texts one is less, or they are the same.
pub less_connected : (a b : Name) → less a b ≡ false → less b a ≡ false → a ≡ b
unfolding less
less_connected [] [] h k = refl
less_connected [] (d ∷ ds) h k = cc
less_connected (c ∷ cs) [] h k = cc
less_connected (c ∷ cs) (d ∷ ds) h k = ground (arith, less_connected cs ds)

pub less_asym : (a b : Name) → less a b ≡ true → less b a ≡ false
less_asym a b h = elim (Bool-cases (less b a)) [
  | inl t ↦ let e : true ≡ false = sym (less_trans a b a h t) ∙ less_irrefl a in cc
  | inr f ↦ f
]

unfoldable pub name_beq : Name → Name → Bool
name_beq [] [] = true
name_beq [] (d ∷ ds) = false
name_beq (c ∷ cs) [] = false
name_beq (c ∷ cs) (d ∷ ds) = if c == d then name_beq cs ds else false

name_beq_sound : (a b : Name) → name_beq a b ≡ true → a ≡ b
unfolding name_beq
name_beq_sound [] [] h = refl
name_beq_sound [] (d ∷ ds) h = cc
name_beq_sound (c ∷ cs) [] h = cc
name_beq_sound (c ∷ cs) (d ∷ ds) h = ground (arith, name_beq_sound cs ds)

name_beq_refl : (a : Name) → name_beq a a ≡ true
unfolding name_beq
name_beq_refl [] = refl
name_beq_refl (c ∷ cs) = ground (arith, name_beq_refl cs)

pub name_beq_iff : (a b : Name) → (name_beq a b ≡ true) ↔ (a ≡ b)
name_beq_iff a b = (name_beq_sound a b, λ e. subst (λ c. name_beq a c ≡ true) e (name_beq_refl a))

instance abbrev pub name_key : Eq Name
name_key = record { beq = name_beq; beq_iff = name_beq_iff }
