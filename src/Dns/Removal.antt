-- ===== src/Dns/Removal.antt =====
-- Removing from the tree of zones (src/s2f/architecture/dns/db/DnsTree.cc).
use simcan2fog.Prelude.{
  ◌≡◌, refl, ap, sym, ◌∙◌, String, Bool, true, false, Option, none, some, List, [], ◌∷◌, ok, fault,
  undefined,
}
use simcan2fog.Dns.{
  DnsTreeNode, dns_node, Children, no_child, child, find_child, put_child, add_record, search_from,
  search_records, update_found, erase_from, remove_found, remove_record,
}
use simcan2fog.Dns.Zones.{search-put_child, records-add_record, FoundWith}

module _ {S : Type 0} where
  search_from-none : (labels : List String) → search_from {S = S} labels none ≡ none
  unfolding search_from
  search_from-none [] = refl
  search_from-none (l ∷ labels) = refl

  abbrev map_found :
      (DnsTreeNode S → DnsTreeNode S) → Option (DnsTreeNode S) → Option (DnsTreeNode S)
  map_found f none = none
  map_found f (some n) = some (f n)

  -- The removal changes the node that the search finds, and the search finds it again.
  pub search_from-update_found :
      (g : S → S) (labels : List String) (n m : DnsTreeNode S)
      → search_from labels (some n) ≡ some m
      → search_from labels (some (update_found (add_record g) labels n)) ≡ some (add_record g m)
  unfolding search_from update_found search_records
  search_from-update_found g [] n m e = ap (map_found (add_record g)) e
  search_from-update_found g (l ∷ labels) (dns_node domain level no_child rs) m e =
      ap (map_found (add_record g)) e
  search_from-update_found g (l ∷ labels) (dns_node domain level (child k c cs) rs) m e =
      by_child (find_child l (child k c cs)) (λ n. search_from-update_found g labels n m) e
    where
      by_child :
          (o : Option (DnsTreeNode S))
          → ((n : DnsTreeNode S)
              → search_from labels (some n) ≡ some m
              → search_from labels (some (update_found (add_record g) labels n))
                ≡ some (add_record g m))
          → search_from labels o ≡ some m
          → search_from (l ∷ labels) (
              some (
                dns_node domain level
                  (elim o as (λ _. Children S) [
                    | none ↦ child k c cs
                    | some n ↦ put_child l (update_found (add_record g) labels n) (child k c cs)
                  ])
                  rs))
            ≡ some (add_record g m)
      by_child none again h = let clash : none ≡ some m = sym (search_from-none labels) ∙ h in cc
      by_child (some n) again h =
          search-put_child l labels domain level (update_found (add_record g) labels n)
            (child k c cs) rs
          ∙ again n h

  search_records-search_from :
      (labels : List String) (root : DnsTreeNode S)
      → search_records labels root ≡ search_from labels (some root)
  unfolding search_records search_from
  search_records-search_from [] root = refl
  search_records-search_from (l ∷ labels) root = refl

  -- A removal from a zone that is found and has records leaves a tree in which the zone is found, with
  -- the record erased.
  pub remove_record-FoundWith :
      (is_empty : S → Bool) (erase : S → S × Bool) (labels : List String) (root : DnsTreeNode S)
      (rs : S)
      → FoundWith (search_records labels root) rs
      → is_empty rs ≡ false
      → (left : DnsTreeNode S) × (remove_record is_empty erase labels root
          ≡ ok (left, (erase rs).1))
        × FoundWith (search_records labels left) (erase rs).0
  unfolding remove_record
  remove_record-FoundWith is_empty erase labels root rs (n, found, has) filled =
      let g = λ (s : S). (erase s).0 in
      (
        update_found (add_record g) labels root,
        ap (remove_found is_empty erase labels root) found
            ∙ ap (λ s. erase_from is_empty erase labels root (is_empty s) s) has
            ∙ ap (λ b. erase_from is_empty erase labels root b rs) filled,
        (
          add_record g n,
          search_records-search_from labels (update_found (add_record g) labels root)
              ∙ search_from-update_found g labels root n
                  (sym (search_records-search_from labels root) ∙ found),
          records-add_record g n ∙ ap g has,
        ),
      )

  -- A removal from a zone that is found without records follows a null pointer.
  pub remove_record-undefined :
      (is_empty : S → Bool) (erase : S → S × Bool) (labels : List String) (root : DnsTreeNode S)
      (rs : S)
      → FoundWith (search_records labels root) rs
      → is_empty rs ≡ true
      → remove_record is_empty erase labels root ≡ fault undefined
  unfolding remove_record
  remove_record-undefined is_empty erase labels root rs (n, found, has) none_left =
      ap (remove_found is_empty erase labels root) found
      ∙ ap (λ s. erase_from is_empty erase labels root (is_empty s) s) has
      ∙ ap (λ b. erase_from is_empty erase labels root b rs) none_left
