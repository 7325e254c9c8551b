-- ===== src/Dns/Registry/Answers.antt =====
-- The registry and the server on the same database
-- (src/s2f/architecture/dns/registry/DnsRegistryService.cc, db/DnsDb.cc and
-- server/DnsServiceSimplified.cc).
use simcan2fog.Prelude.{
  ℕ, ◌≡◌, ◌≢◌, ◌≤◌, ◌<◌, refl, ap, sym, subst, ◌∙◌, String, Name, Bool, true, List, [], ◌∷◌, length,
  set, Outcome, ok, ◌>>=◌,
}
use simcan2fog.Dns.{DnsTreeNode, search_records}
use simcan2fog.Dns.Zones.{FoundWith}
use simcan2fog.Dns.Server.{
  DnsQuestion, DnsRequest, noerror, set_return_code, answer_records, answer_node, answer_questions,
  handle_query,
}
use simcan2fog.Dns.Server.Filling.{process_records_authority}
use simcan2fog.Dns.Registry.{
  DnsRegistrationRequest, put, data_arrived, responds, insert_all, response_to, handle_message,
}
use simcan2fog.Dns.Registry.Published.{
  inserted, zone_set, insert_all-FoundWith, process_request-put, serve_requests-step,
}

module _ {R : Type 0} (labels : Name → List String) (insert : R → List R → List R)
    (is_empty : List R → Bool) (erase : R → List R → List R × Bool) where
  inserted-filled :
      (filled : (r : R) (s : List R) → insert r s ≢ []) (rs s : List R)
      → s ≢ []
      → inserted insert rs s ≢ []
  inserted-filled filled [] s h = h
  inserted-filled filled (r ∷ rs) s h = inserted-filled filled rs (insert r s) (filled r s)

  module _ (matches : Name → Bool) (resize : ℕ → List R → List R)
      (set_at : ℕ → R → List R → Outcome (List R))
      (sized : (n : ℕ) (xs : List R) → length (resize n xs) ≡ n)
      (in_range : (i : ℕ) (r : R) (xs : List R)
        → i < length xs
        → set_at i r xs ≡ ok (set xs i r)) where
    abbrev answered : DnsRequest R → List R → DnsRequest R
    answered asks rs = record asks {
      return_code = 0;
      is_authoritative = true;
      authoritative_answer = rs;
    }

    answer_records-answered :
        (domain : Name) (asks : DnsRequest R) (rs : List R)
        → matches domain ≡ true
        → rs ≢ []
        → answer_records labels matches resize set_at domain asks rs ≡ ok (answered asks rs)
    answer_records-answered domain asks [] authority h = absurd (h refl)
    answer_records-answered domain asks (r ∷ rs) authority h =
        ap (λ o. o >>= λ done. ok (set_return_code noerror done))
          (process_records_authority labels matches resize set_at sized in_range domain asks
            (r ∷ rs) authority)

    handle_query-FoundWith :
        (root : DnsTreeNode (List R)) (asks : DnsRequest R) (q : DnsQuestion) (rs : List R)
        → asks.question ≡ q ∷ []
        → matches q.domain ≡ true
        → rs ≢ []
        → FoundWith (search_records (labels q.domain) root) rs
        → handle_query labels matches resize set_at root asks ≡ ok (answered asks rs)
    unfolding handle_query
    handle_query-FoundWith root asks q rs one authority h (n, found, has) =
        ap (answer_questions labels matches resize set_at root asks) one
        ∙ ap (answer_node labels matches resize set_at q.domain asks) found
        ∙ ap (answer_records labels matches resize set_at q.domain asks) has
        ∙ answer_records-answered q.domain asks rs authority h

    -- A request that registers records in a zone of at most two labels is answered with the code of
    -- success. A query for the name of the zone is answered from then on, with all records that the
    -- zone had and the new ones, put into the set in order, where the server has authority over the
    -- name. A set that a record has been put into is not empty; the accessors of an array set its size
    -- and write below it.
    pub registered_is_answered :
        ((r : R) (s : List R) → insert r s ≢ [])
        → (connection : ℕ) (request : DnsRegistrationRequest R) (r : R) (rs : List R)
          (root : DnsTreeNode (List R))
        → request.verb ≡ put
        → request.registered ≡ r ∷ rs
        → length (labels request.zone) ≤ 2
        → (asks : DnsRequest R) (q : DnsQuestion) → asks.question ≡ q ∷ []
        → labels q.domain ≡ labels request.zone
        → matches q.domain ≡ true
        → (left : DnsTreeNode (List R)) × (handle_message labels [] insert is_empty erase
              (data_arrived connection (request ∷ []))
              root
            ≡ ok (left, responds (response_to connection request true) ∷ []))
          × (handle_query labels matches resize set_at left asks
              ≡ ok (record asks {
                return_code = 0;
                is_authoritative = true;
                authoritative_answer =
                    inserted insert (r ∷ rs) (zone_set labels [] request.zone root);
              }))
    unfolding handle_message
    registered_is_answered filled connection request r rs root is_put some_records short asks q one
          same authority =
        let left = insert_all labels [] insert is_empty erase request.zone (r ∷ rs) root in
        let old = zone_set labels [] request.zone root in
        (
          left,
          serve_requests-step labels [] insert is_empty erase connection request [] root left true (
              process_request-put labels [] insert is_empty erase request root is_put
              ∙ ap
                  (λ rs. ok (insert_all labels [] insert is_empty erase request.zone rs root, true))
                  some_records),
          handle_query-FoundWith left asks q (inserted insert (r ∷ rs) old) one authority
              (inserted-filled filled rs (insert r old) (filled r old))
              (subst (λ ls. FoundWith (search_records ls left) (inserted insert (r ∷ rs) old))
                (sym same)
                (insert_all-FoundWith labels [] insert is_empty erase request.zone r rs root
                  short)),
        )
