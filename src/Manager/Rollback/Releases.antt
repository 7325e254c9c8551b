-- ===== src/Manager/Rollback/Releases.antt =====
-- What the releases of the NodeVmRecords do to the nodes of the pool (AllocationModel, NodePool), and
-- that they may be moved before an allocation.
use simcan2fog.Prelude.{
  ℕ, zero, suc, ◌<◌, ◌≡◌, refl, ap, ◌∙◌, some, List, [], ◌∷◌, ◌++◌, length, get_elem?, set, arith,
  ok,
}
use simcan2fog.Resources.{VirtualMachine, IsVmWord, IsNodeWord}
use simcan2fog.Pool.{Node, NodePool, allocate_on_node, deallocate_on_node, deallocate_resources}
use simcan2fog.Pool.Accounting.{deallocate-allocate_on_node}
use simcan2fog.Manager.{NodeVmRecord, release_records}

abbrev pub modify : List Node → ℕ → (Node → Node) → List Node
modify [] i f = []
modify (n ∷ ns) zero f = f n ∷ ns
modify (n ∷ ns) (suc i) f = n ∷ modify ns i f

pub set-modify :
    (ns : List Node) (i : ℕ) (n : Node) (f : Node → Node)
    → get_elem? ns i ≡ some n
    → set ns i (f n) ≡ modify ns i f
set-modify [] i n f h = refl
set-modify (m ∷ ns) zero n f h = cc
set-modify (m ∷ ns) (suc i) n f h = ap (◌∷◌ m) (set-modify ns i n f h)

modify_comm :
    (ns : List Node) (i j : ℕ) (f g : Node → Node)
    → ((n : Node) → g (f n) ≡ f (g n))
    → modify (modify ns i f) j g ≡ modify (modify ns j g) i f
modify_comm [] i j f g h = refl
modify_comm (n ∷ ns) zero zero f g h = ap (λ m. m ∷ ns) (h n)
modify_comm (n ∷ ns) zero (suc j) f g h = refl
modify_comm (n ∷ ns) (suc i) zero f g h = refl
modify_comm (n ∷ ns) (suc i) (suc j) f g h = ap (◌∷◌ n) (modify_comm ns i j f g h)

pub length-modify : (ns : List Node) (i : ℕ) (f : Node → Node) → length (modify ns i f) ≡ length ns
length-modify [] i f = refl
length-modify (n ∷ ns) zero f = refl
length-modify (n ∷ ns) (suc i) f = ap suc (length-modify ns i f)

-- Every node holds 32-bit words.
abbrev pub AllWords : List Node → Type 0
AllWords [] = Unit {0}
AllWords (n ∷ ns) = IsNodeWord n.available_resources × AllWords ns

pub modify_undo :
    (ns : List Node) (i : ℕ) (vm : VirtualMachine)
    → IsVmWord vm
    → AllWords ns
    → modify (modify ns i (λ n. allocate_on_node n vm)) i (λ n. deallocate_on_node n vm) ≡ ns
modify_undo [] i vm w a = refl
modify_undo (n ∷ ns) zero vm w a = ap (λ m. m ∷ ns) (deallocate-allocate_on_node n vm a.0 w)
modify_undo (n ∷ ns) (suc i) vm w a = ap (◌∷◌ n) (modify_undo ns i vm w a.1)

deallocate-allocate_comm :
    (u v : VirtualMachine)
    → IsVmWord u
    → (n : Node)
    → deallocate_on_node (allocate_on_node n u) v ≡ allocate_on_node (deallocate_on_node n v) u
unfolding allocate_on_node deallocate_on_node
deallocate-allocate_comm u v w n = ground arith

unfoldable pub release_nodes : List NodeVmRecord → List Node → List Node
release_nodes [] ns = ns
release_nodes (r ∷ rs) ns =
    release_nodes rs (modify ns r.node_index (λ n. deallocate_on_node n r.vm_template))

pub release_nodes-snoc :
    (rs : List NodeVmRecord) (r : NodeVmRecord) (ns : List Node)
    → release_nodes (rs ++ r ∷ []) ns
      ≡ modify (release_nodes rs ns) r.node_index (λ n. deallocate_on_node n r.vm_template)
unfolding release_nodes
release_nodes-snoc [] r ns = refl
release_nodes-snoc (q ∷ rs) r ns = release_nodes-snoc rs r _

-- Allocating first or releasing first makes no difference.
pub release_nodes-allocate :
    (rs : List NodeVmRecord) (ns : List Node) (i : ℕ) (vm : VirtualMachine)
    → IsVmWord vm
    → release_nodes rs (modify ns i (λ n. allocate_on_node n vm))
      ≡ modify (release_nodes rs ns) i (λ n. allocate_on_node n vm)
unfolding release_nodes
release_nodes-allocate [] ns i vm w = refl
release_nodes-allocate (r ∷ rs) ns i vm w =
    ap (release_nodes rs)
      (modify_comm ns i r.node_index _ _ (deallocate-allocate_comm vm r.vm_template w))
    ∙ release_nodes-allocate rs _ i vm w

abbrev pub AllBelow : ℕ → List NodeVmRecord → Type 0
AllBelow k [] = Unit {0}
AllBelow k (r ∷ rs) = (r.node_index < k) × AllBelow k rs

pub AllBelow-snoc :
    (k : ℕ) (rs : List NodeVmRecord) (r : NodeVmRecord)
    → AllBelow k rs
    → r.node_index < k
    → AllBelow k (rs ++ r ∷ [])
AllBelow-snoc k [] r a h = (h, tt)
AllBelow-snoc k (q ∷ rs) r a h = (a.0, AllBelow-snoc k rs r a.1 h)

pub AllBelow-length : {k l : ℕ} (rs : List NodeVmRecord) → AllBelow k rs → l ≡ k → AllBelow l rs
AllBelow-length rs a e = rw e a

pub get_elem?-below :
    (ns : List Node) (i : ℕ) → i < length ns → (n : Node) × (get_elem? ns i ≡ some n)
get_elem?-below [] i h = elim h [ ]
get_elem?-below (n ∷ ns) zero h = (n, refl)
get_elem?-below (n ∷ ns) (suc i) h = get_elem?-below ns i (omega arith)

pub release_records-nodes :
    (rs : List NodeVmRecord) (p : NodePool)
    → AllBelow (length p.nodes) rs
    → release_records rs p ≡ ok (record p { nodes = release_nodes rs p.nodes })
unfolding release_records release_nodes deallocate_resources
release_records-nodes [] p a = refl
release_records-nodes (r ∷ rs) p a =
    let (n, e) = get_elem?-below p.nodes r.node_index a.0 in
    rw (e, set-modify p.nodes r.node_index n (λ m. deallocate_on_node m r.vm_template) e)
      (release_records-nodes rs _ (AllBelow-length rs a.1 (length-modify p.nodes r.node_index _)))
