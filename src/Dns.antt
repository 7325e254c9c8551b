-- ===== src/Dns.antt =====
-- The tree of DNS zones (src/s2f/architecture/dns/db/DnsTree.{h,cc}). A name is the list of its labels
-- from the last one on, as the code takes them off the tokens of the tokenizer. The set of the records
-- of a zone is a parameter `S`, and what std::set does with a record an argument.
pub mod Zones
pub mod Server
pub mod Client
pub mod Names
pub mod Resolver
pub mod Removal
pub mod Registry
use simcan2fog.Prelude.{
  ℕ, zero, suc, String, Bool, true, false, Option, none, some, List, [], ◌∷◌, Outcome, ok, fault,
  undefined,
}
use text.Mathlib.Text.{◌==◌ as str_eq}

mutual
  -- A node: its domain, its level (ROOT is 0), its children and its records.
  pub data DnsTreeNode (S : Type 0) : Type 0 where
    dns_node : String → ℕ → Children S → S → DnsTreeNode S

  -- The map of the children.
  pub data Children (S : Type 0) : Type 0 where
    no_child : Children S
    child : String → DnsTreeNode S → Children S → Children S

module _ {S : Type 0} where
  abbrev pub children : DnsTreeNode S → Children S
  children (dns_node domain level cs rs) = cs

  abbrev pub records : DnsTreeNode S → S
  records (dns_node domain level cs rs) = rs

  -- getChildCount() == 0
  abbrev pub is_leaf : DnsTreeNode S → Bool
  is_leaf (dns_node domain level no_child rs) = true
  is_leaf (dns_node domain level (child l n cs) rs) = false

  abbrev pub find_child : String → Children S → Option (DnsTreeNode S)
  find_child l no_child = none
  find_child l (child k n cs) =
      let rest = find_child l cs in elim (str_eq k l) [ true ↦ some n | false ↦ rest ]

  abbrev pub put_child : String → DnsTreeNode S → Children S → Children S
  put_child l m no_child = child l m no_child
  put_child l m (child k n cs) =
      let rest = put_child l m cs in
      elim (str_eq k l) [ true ↦ child k m cs | false ↦ child k n rest ]

  -- getChild
  abbrev pub get_child : String → DnsTreeNode S → Option (DnsTreeNode S)
  get_child l n = find_child l (children n)

  -- getChildOrCreate: the child, or a new one on the next level.
  abbrev pub or_create : S → String → ℕ → Option (DnsTreeNode S) → DnsTreeNode S
  or_create empty l level none = dns_node l (suc level) no_child empty
  or_create empty l level (some n) = n

  -- DnsTreeNode::clear and DnsTree::clear
  abbrev pub clear : S → DnsTreeNode S → DnsTreeNode S
  clear empty (dns_node domain level cs rs) = dns_node domain level no_child empty

  abbrev pub add_record : (S → S) → DnsTreeNode S → DnsTreeNode S
  add_record insert (dns_node domain level cs rs) = dns_node domain level cs (insert rs)

-- The root, and one level for each of TLD and AUTHORITATIVE: NUM_DNS_LEVELS - 1.
abbrev pub levels_below_root : ℕ
levels_below_root = 2

module _ {S : Type 0} (empty : S) where
  -- insertRecord from a node on that has `levels` below it.
  unfoldable pub insert_below : ℕ → List String → (S → S) → DnsTreeNode S → DnsTreeNode S
  insert_below levels [] insert n = add_record insert n
  insert_below zero (l ∷ labels) insert n = add_record insert n
  insert_below (suc levels) (l ∷ labels) insert (dns_node domain level cs rs) =
      dns_node domain level
        (put_child l (insert_below levels labels insert (or_create empty l level (find_child l cs)))
          cs)
        rs

  -- insertRecord
  unfoldable pub insert_record : List String → (S → S) → DnsTreeNode S → DnsTreeNode S
  unfolding insert_below
  insert_record labels insert root = insert_below levels_below_root labels insert root

module _ {S : Type 0} where
  -- The loop of searchRecordsForUpdate.
  unfoldable pub search_from : List String → Option (DnsTreeNode S) → Option (DnsTreeNode S)
  search_from [] n = n
  search_from (l ∷ labels) none = none
  search_from (l ∷ labels) (some n) =
      let rest = search_from labels (get_child l n) in
      elim (is_leaf n) [ true ↦ some n | false ↦ rest ]

  -- searchRecordsForUpdate
  unfoldable pub search_records : List String → DnsTreeNode S → Option (DnsTreeNode S)
  unfolding search_from
  search_records [] root = some root
  search_records (l ∷ labels) root =
      let found = search_from labels (get_child l root) in
      elim (is_leaf root) [ true ↦ some root | false ↦ found ]

  -- What the node does that searchRecordsForUpdate finds, in its place in the tree.
  unfoldable pub update_found :
      (DnsTreeNode S → DnsTreeNode S) → List String → DnsTreeNode S → DnsTreeNode S
  update_found f [] n = f n
  update_found f (l ∷ labels) (dns_node domain level no_child rs) =
      f (dns_node domain level no_child rs)
  update_found f (l ∷ labels) (dns_node domain level (child k c cs) rs) =
      dns_node domain level
        (elim (find_child l (child k c cs)) [
          | none ↦ child k c cs
          | some m ↦ put_child l (update_found f labels m) (child k c cs)
        ])
        rs

  -- removeRecord, with the tree that it leaves: getRecords() is null for a node without records, and is
  -- not tested.
  module _ (is_empty : S → Bool) (erase : S → S × Bool) (labels : List String)
      (root : DnsTreeNode S) where
    abbrev pub erase_from : Bool → S → Outcome (DnsTreeNode S × Bool)
    erase_from true rs = fault undefined
    erase_from false rs =
        ok (update_found (add_record (λ s. (erase s).0)) labels root, (erase rs).1)

    abbrev pub remove_found : Option (DnsTreeNode S) → Outcome (DnsTreeNode S × Bool)
    remove_found none = ok (root, false)
    remove_found (some n) = erase_from (is_empty (records n)) (records n)

    unfoldable pub remove_record : Outcome (DnsTreeNode S × Bool)
    unfolding search_records update_found
    remove_record = remove_found (search_records labels root)
