-- ===== src/Pool/Selection/FirstFit.antt =====
-- FirstFit::selectNode against its description.
use simcan2fog.Prelude.{
  ℕ, zero, suc, ◌<◌, ◌≡◌, refl, subst, sym, inl, inr, true, false, Option, none, some, List, [],
  ◌∷◌, get_elem?, arith, ok, Bool-cases,
}
use simcan2fog.Resources.{VirtualMachine, vm_fits}
use simcan2fog.Pool.{Node}
use simcan2fog.Pool.Selection.{first_fit_from, first_fit}

-- The first node that passes the test, or that none does.
abbrev pub FirstFitting : VirtualMachine → List Node → Option ℕ → Type 0
FirstFitting vm nodes none =
    (j : ℕ) (n : Node) → get_elem? nodes j ≡ some n → vm_fits vm n.available_resources ≡ false
FirstFitting vm nodes (some k) =
    ((n : Node) × (get_elem? nodes k ≡ some n) × (vm_fits vm n.available_resources ≡ true))
    × ((j : ℕ) (n : Node)
        → j < k
        → get_elem? nodes j ≡ some n
        → vm_fits vm n.available_resources ≡ false)

abbrev shifted : Option ℕ → Option ℕ
shifted none = none
shifted (some k) = some (suc k)

first_fit_from-suc :
    (vm : VirtualMachine) (i : ℕ) (nodes : List Node)
    → first_fit_from vm (suc i) nodes ≡ shifted (first_fit_from vm i nodes)
unfolding first_fit_from
first_fit_from-suc vm i [] = refl
first_fit_from-suc vm i (node ∷ nodes) = elim (Bool-cases (vm_fits vm node.available_resources)) [
  | inl e ↦ rw (e, first_fit_from)
  | inr e ↦ rw (e, first_fit_from) (first_fit_from-suc vm (suc i) nodes)
]

first_fit_from-hit :
    (vm : VirtualMachine) (node : Node) (nodes : List Node)
    → vm_fits vm node.available_resources ≡ true
    → first_fit_from vm 0 (node ∷ nodes) ≡ some 0
unfolding first_fit_from
first_fit_from-hit vm node nodes e = rw (e, first_fit_from)

first_fit_from-miss :
    (vm : VirtualMachine) (node : Node) (nodes : List Node)
    → vm_fits vm node.available_resources ≡ false
    → first_fit_from vm 0 (node ∷ nodes) ≡ shifted (first_fit_from vm 0 nodes)
unfolding first_fit_from
first_fit_from-miss vm node nodes e = rw (e, first_fit_from) (first_fit_from-suc vm 0 nodes)

module _ (vm : VirtualMachine) (node : Node) (nodes : List Node)
    (refused : vm_fits vm node.available_resources ≡ false) where
  refused_cons-none : FirstFitting vm nodes none → FirstFitting vm (node ∷ nodes) none
  refused_cons-none h zero n g = ground arith
  refused_cons-none h (suc j) n g = h j n g

  before :
      (k : ℕ)
      → FirstFitting vm nodes (some k)
      → (j : ℕ) (n : Node) → j < suc k
      → get_elem? (node ∷ nodes) j ≡ some n
      → vm_fits vm n.available_resources ≡ false
  before k h zero n l g = ground arith
  before k h (suc j) n l g = h.1 j n (omega arith) g

  refused_cons :
      (r : Option ℕ) → FirstFitting vm nodes r → FirstFitting vm (node ∷ nodes) (shifted r)
  refused_cons none h = refused_cons-none h
  refused_cons (some k) h = (h.0, before k h)

first_fit_from-FirstFitting :
    (vm : VirtualMachine) (nodes : List Node) → FirstFitting vm nodes (first_fit_from vm 0 nodes)
unfolding first_fit_from
first_fit_from-FirstFitting vm [] = λ j n g. cc
first_fit_from-FirstFitting vm (node ∷ nodes) =
    elim (Bool-cases (vm_fits vm node.available_resources)) [
      | inl e ↦
          subst (FirstFitting vm (node ∷ nodes)) (sym (first_fit_from-hit vm node nodes e))
            ((node, refl, e), (λ j n l g. elim l [ ]))
      | inr e ↦
          subst (FirstFitting vm (node ∷ nodes)) (sym (first_fit_from-miss vm node nodes e))
            (refused_cons vm node nodes e _ (first_fit_from-FirstFitting vm nodes))
    ]

-- FirstFit always returns, with the lowest index whose node passes the test, or with false exactly
-- when no node passes it.
pub first_fit-FirstFitting :
    (vm : VirtualMachine) (nodes : List Node)
    → (r : Option ℕ) × (first_fit vm nodes ≡ ok r) × FirstFitting vm nodes r
unfolding first_fit
first_fit-FirstFitting vm nodes =
    (first_fit_from vm 0 nodes, refl, first_fit_from-FirstFitting vm nodes)
