-- ===== src/Dns/Zones.antt =====
-- Inserting into the tree of zones and finding again (src/s2f/architecture/dns/db/DnsTree.cc).
use simcan2fog.Prelude.{
  ℕ, ◌≡◌, ◌≤◌, refl, ap, ◌∙◌, String, Bool, true, false, Option, none, some, List, [], ◌∷◌, length,
  arith,
}
use text.Mathlib.Text.{◌==◌ as str_eq}
use text.Mathlib.TextEquality.{eq_iff}
use simcan2fog.Dns.{
  DnsTreeNode, dns_node, Children, no_child, child, records, is_leaf, find_child, put_child,
  get_child, or_create, add_record, insert_below, insert_record, search_from, search_records,
}

module _ {S : Type 0} where
  abbrev choose : Bool → Option (DnsTreeNode S) → Option (DnsTreeNode S) → Option (DnsTreeNode S)
  choose b here rest = elim b [ true ↦ here | false ↦ rest ]

  pub find_child-put_child :
      (l : String) (m : DnsTreeNode S) (cs : Children S) → find_child l (put_child l m cs) ≡ some m
  find_child-put_child l m no_child = ap (λ b. choose b (some m) none) ((eq_iff l l).1 refl)
  find_child-put_child l m (child k n cs) = by_name (str_eq k l) refl (find_child-put_child l m cs)
    where
      by_name :
          (b : Bool)
          → str_eq k l ≡ b
          → find_child l (put_child l m cs) ≡ some m
          → find_child l (elim b as (λ _. Children S) [
            | true ↦ child k m cs
            | false ↦ child k n (put_child l m cs)
          ])
            ≡ some m
      by_name true e rest = ap (λ b. choose b (some m) (find_child l cs)) e
      by_name false e rest = ap (λ b. choose b (some n) (find_child l (put_child l m cs))) e ∙ rest

  pub is_leaf-put_child :
      (domain : String) (level : ℕ) (l : String) (m : DnsTreeNode S) (cs : Children S) (rs : S)
      → is_leaf (dns_node domain level (put_child l m cs) rs) ≡ false
  is_leaf-put_child domain level l m no_child rs = refl
  is_leaf-put_child domain level l m (child k n cs) rs = by_name (str_eq k l)
    where
      by_name :
          (b : Bool)
          → is_leaf (
              dns_node domain level
                (elim b as (λ _. Children S) [
                  | true ↦ child k m cs
                  | false ↦ child k n (put_child l m cs)
                ])
                rs)
            ≡ false
      by_name true = refl
      by_name false = refl

  pub records-add_record :
      (insert : S → S) (n : DnsTreeNode S) → records (add_record insert n) ≡ insert (records n)
  records-add_record insert (dns_node domain level cs rs) = refl

  -- The node of exactly this name.
  abbrev pub node_at : List String → Option (DnsTreeNode S) → Option (DnsTreeNode S)
  node_at [] o = o
  node_at (l ∷ labels) none = none
  node_at (l ∷ labels) (some n) = node_at labels (get_child l n)

  -- The node that a search ends at has these records.
  abbrev pub FoundWith : Option (DnsTreeNode S) → S → Type 0
  FoundWith o rs = (n : DnsTreeNode S) × (o ≡ some n) × (records n ≡ rs)

  -- The search below a root that has just got the child `m`.
  pub search-put_child :
      (l : String) (labels : List String) (domain : String) (level : ℕ) (m : DnsTreeNode S)
      (cs : Children S) (rs : S)
      → search_records (l ∷ labels) (dns_node domain level (put_child l m cs) rs)
        ≡ search_from labels (some m)
  unfolding search_records
  search-put_child l labels domain level m cs rs =
      let root = dns_node domain level (put_child l m cs) rs in
      ap (λ b. choose b (some root) (search_from labels (find_child l (put_child l m cs))))
        (is_leaf-put_child domain level l m cs rs)
      ∙ ap (search_from labels) (find_child-put_child l m cs)

module _ {S : Type 0} (empty : S) where
  -- The records of a zone, none of which is `empty`.
  abbrev pub records_or_empty : Option (DnsTreeNode S) → S
  records_or_empty none = empty
  records_or_empty (some n) = records n

  records-or_create :
      (l : String) (level : ℕ) (o : Option (DnsTreeNode S))
      → records (or_create empty l level o) ≡ records_or_empty o
  records-or_create l level none = refl
  records-or_create l level (some n) = refl

  insert_below-search_from :
      (insert : S → S) (m : String) (n : DnsTreeNode S)
      → FoundWith
          (search_from (m ∷ []) (some (insert_below empty 1 (m ∷ []) insert n)))
          (insert (records_or_empty (get_child m n)))
  unfolding search_from insert_below
  insert_below-search_from insert m (dns_node domain level cs rs) =
      let old = or_create empty m level (find_child m cs) in
      let new = add_record insert old in
      (
        new,
        ap
              (λ b.
                choose b (some (dns_node domain level (put_child m new cs) rs))
                  (find_child m (put_child m new cs)))
              (is_leaf-put_child domain level m new cs rs)
            ∙ find_child-put_child m new cs,
        records-add_record insert old ∙ ap insert (records-or_create m level (find_child m cs)),
      )

  get_child-or_create :
      (l m : String) (level : ℕ) (o : Option (DnsTreeNode S))
      → records_or_empty (get_child m (or_create empty l level o))
        ≡ records_or_empty (node_at (m ∷ []) o)
  get_child-or_create l m level none = refl
  get_child-or_create l m level (some n) = refl

  -- A record that is inserted for a name of at most two labels is found by that name: the search ends
  -- at a node whose records are those that the zone had, if any, with the record added.
  pub insert_record-FoundWith :
      (insert : S → S) (labels : List String) (root : DnsTreeNode S)
      → length labels ≤ 2
      → FoundWith
          (search_records labels (insert_record empty labels insert root))
          (insert (records_or_empty (node_at labels (some root))))
  unfolding search_records search_from insert_record insert_below
  insert_record-FoundWith insert [] root h =
      (add_record insert root, refl, records-add_record insert root)
  insert_record-FoundWith insert (l ∷ []) (dns_node domain level cs rs) h =
      let old = or_create empty l level (find_child l cs) in
      let new = add_record insert old in
      (
        new,
        search-put_child l [] domain level new cs rs,
        records-add_record insert old ∙ ap insert (records-or_create l level (find_child l cs)),
      )
  insert_record-FoundWith insert (l ∷ m ∷ []) (dns_node domain level cs rs) h =
      let old = or_create empty l level (find_child l cs) in
      let r = insert_below-search_from insert m old in
      (
        r.0,
        search-put_child l (m ∷ []) domain level (insert_below empty 1 (m ∷ []) insert old) cs rs
            ∙ r.1,
        r.2 ∙ ap insert (get_child-or_create l m level (find_child l cs)),
      )
  insert_record-FoundWith insert (l ∷ m ∷ k ∷ labels) root h = absurd (omega arith)

  node_at-insert_below :
      (insert : S → S) (m : String) (n : DnsTreeNode S)
      → records_or_empty (get_child m (insert_below empty 1 (m ∷ []) insert n))
        ≡ insert (records_or_empty (get_child m n))
  unfolding insert_below
  node_at-insert_below insert m (dns_node domain level cs rs) =
      let old = or_create empty m level (find_child m cs) in
      ap records_or_empty (find_child-put_child m (add_record insert old) cs)
      ∙ records-add_record insert old
      ∙ ap insert (records-or_create m level (find_child m cs))

  -- The zone of exactly this name has the record too.
  pub node_at-insert_record :
      (insert : S → S) (labels : List String) (root : DnsTreeNode S)
      → length labels ≤ 2
      → records_or_empty (node_at labels (some (insert_record empty labels insert root)))
        ≡ insert (records_or_empty (node_at labels (some root)))
  unfolding insert_record insert_below
  node_at-insert_record insert [] root h = records-add_record insert root
  node_at-insert_record insert (l ∷ []) (dns_node domain level cs rs) h =
      let old = or_create empty l level (find_child l cs) in
      ap records_or_empty (find_child-put_child l (add_record insert old) cs)
      ∙ records-add_record insert old
      ∙ ap insert (records-or_create l level (find_child l cs))
  node_at-insert_record insert (l ∷ m ∷ []) (dns_node domain level cs rs) h =
      let old = or_create empty l level (find_child l cs) in
      ap (λ o. records_or_empty (node_at (m ∷ []) o))
        (find_child-put_child l (insert_below empty 1 (m ∷ []) insert old) cs)
      ∙ node_at-insert_below insert m old
      ∙ ap insert (get_child-or_create l m level (find_child l cs))
  node_at-insert_record insert (l ∷ m ∷ k ∷ labels) root h = absurd (omega arith)

  insert_below-two :
      (insert : S → S) (l m : String) (labels : List String) (n : DnsTreeNode S)
      → insert_below empty 1 (m ∷ labels) insert n ≡ insert_below empty 1 (m ∷ []) insert n
  unfolding insert_below
  insert_below-two insert l m [] n = refl
  insert_below-two insert l m (k ∷ labels) (dns_node domain level cs rs) = refl

  -- Of a longer name only the last two labels count: the record goes into the zone of those.
  pub insert_record_cuts :
      (insert : S → S) (l m : String) (labels : List String) (root : DnsTreeNode S)
      → insert_record empty (l ∷ m ∷ labels) insert root
        ≡ insert_record empty (l ∷ m ∷ []) insert root
  unfolding insert_record insert_below
  insert_record_cuts insert l m labels (dns_node domain level cs rs) =
      ap (λ n. dns_node domain level (put_child l n cs) rs)
        (insert_below-two insert l m labels (or_create empty l level (find_child l cs)))
