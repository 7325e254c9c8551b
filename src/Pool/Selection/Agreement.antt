-- ===== src/Pool/Selection/Agreement.antt =====
-- How the answers of FirstFit and BestFit relate (src/s2f/management/managers/selection/Strategies.cc).
use simcan2fog.Prelude.{
  ℕ, ◌+◌, ◌≤◌, ◌<◌, ◌≡◌, sym, ◌∙◌, inl, inr, true, false, Option, none, some, List, [], ◌∷◌,
  get_elem?, ltb, Bool-cases, arith, ok,
}
use simcan2fog.Resources.{VirtualMachine, vm_fits, i32_limit}
use simcan2fog.Resources.Order.{Suffices-vm_fits}
use simcan2fog.Pool.{Node}
use simcan2fog.Pool.Selection.{MakeHeap, first_fit, best_fit}
use simcan2fog.Pool.Selection.FirstFit.{FirstFitting, first_fit-FirstFitting}
use simcan2fog.Pool.Selection.BestFit.{AllSmall, BestFitting, best_fit-BestFitting}

module _ (vm : VirtualMachine) (nodes : List Node) (k : ℕ) (n : Node)
    (there : get_elem? nodes k ≡ some n) (fits : vm_fits vm n.available_resources ≡ true) where
  -- FirstFit does not pass over a node that passes the test.
  reaches :
      (r : Option ℕ)
      → FirstFitting vm nodes r
      → first_fit vm nodes ≡ ok r
      → (j : ℕ) × (first_fit vm nodes ≡ ok (some j)) × (j ≤ k)
  reaches none first run = let clash : true ≡ false = sym fits ∙ first k n there in cc
  reaches (some j) first run = (
    j,
    run,
    elim (Bool-cases (ltb k j)) [
      | inl e ↦
          let before : k < j = ground arith in
          let clash : true ≡ false = sym fits ∙ first.1 k n before there in cc
      | inr e ↦ ground arith
    ],
  )

-- Where BestFit finds a node, FirstFit finds one too, at the same place or before it. The amounts of
-- each node and of the template are to add up to less than 2^31.
pub first_fit-best_fit :
    (heap : MakeHeap) (vm : VirtualMachine) (nodes : List Node) (k : ℕ)
    → vm.num_cores + vm.disk_mib + vm.memory_mib < i32_limit
    → AllSmall nodes
    → best_fit heap vm nodes ≡ ok (some k)
    → (j : ℕ) × (first_fit vm nodes ≡ ok (some j)) × (j ≤ k)
unfolding best_fit
first_fit-best_fit heap vm [] k small_vm small run = cc
first_fit-best_fit heap vm (m ∷ nodes) k small_vm small run =
    let (r, best, fitting) = best_fit-BestFitting heap vm (m ∷ nodes) small_vm small (λ e. cc) in
    let (q, first, passes) = first_fit-FirstFitting vm (m ∷ nodes) in
    let same : ok r ≡ ok (some k) = sym best ∙ run in found r fitting same q first passes
  where
    found :
        (r : Option ℕ)
        → BestFitting vm (m ∷ nodes) r
        → ok r ≡ ok (some k)
        → (q : Option ℕ) → first_fit vm (m ∷ nodes) ≡ ok q
        → FirstFitting vm (m ∷ nodes) q
        → (j : ℕ) × (first_fit vm (m ∷ nodes) ≡ ok (some j)) × (j ≤ k)
    found none fitting same q first passes = cc
    found (some i) (n, there, enough, least) same q first passes =
        let i_is_k : i ≡ k = cc in
        reaches vm (m ∷ nodes) k n (rw i_is_k at there)
          (Suffices-vm_fits n.available_resources vm enough) q passes first
