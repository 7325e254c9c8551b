-- ===== src/Dns/Registry/Published.antt =====
-- What a registration leaves in the zones, and the server then answers
-- (src/s2f/architecture/dns/registry/DnsRegistryService.cc).
use simcan2fog.Prelude.{
  ℕ, ◌≡◌, ◌≤◌, refl, ap, ◌∙◌, String, Name, Bool, true, false, some, List, [], ◌∷◌, length, Outcome,
  ok, fault, undefined, ◌>>=◌, ◌==◌,
}
use simcan2fog.Dns.{DnsTreeNode, search_records, insert_record, remove_record}
use simcan2fog.Dns.Zones.{
  node_at, records_or_empty, FoundWith, insert_record-FoundWith, node_at-insert_record,
}
use simcan2fog.Dns.Removal.{remove_record-FoundWith, remove_record-undefined}
use simcan2fog.Dns.Registry.{
  DnsRegistrationRequest, put, delete, RestfulResponse, data_arrived, RegistryAction, responds,
  insert_all, remove_all, process_verb, process_request, response_to, send_back, serve_requests,
  handle_message,
}

-- A set after the records have been put into it.
module _ {R S : Type 0} (insert : R → S → S) where
  abbrev pub inserted : List R → S → S
  inserted [] s = s
  inserted (r ∷ rs) s = inserted rs (insert r s)

-- The same request with the verb DELETE.
module _ {R : Type 0} (request : DnsRegistrationRequest R) where
  abbrev pub withdrawal : DnsRegistrationRequest R
  withdrawal = record request { verb = delete }

-- The records of exactly this zone.
module _ {S : Type 0} (labels : Name → List String) (empty : S) where
  abbrev pub zone_set : Name → DnsTreeNode S → S
  zone_set zone root = records_or_empty empty (node_at (labels zone) (some root))

module _ {R S : Type 0} (labels : Name → List String) (empty : S) (insert : R → S → S)
    (is_empty : S → Bool) (erase : R → S → S × Bool) where
  pub insert_all-FoundWith :
      (zone : Name) (r : R) (rs : List R) (root : DnsTreeNode S)
      → length (labels zone) ≤ 2
      → FoundWith
          (search_records
            (labels zone)
            (insert_all labels empty insert is_empty erase zone (r ∷ rs) root))
          (inserted insert (r ∷ rs) (zone_set labels empty zone root))
  unfolding insert_all
  insert_all-FoundWith zone r [] root h =
      insert_record-FoundWith empty (insert r) (labels zone) root h
  insert_all-FoundWith zone r (s ∷ rs) root h =
      let (n, found, has) =
        insert_all-FoundWith zone s rs (insert_record empty (labels zone) (insert r) root) h in
      (
        n,
        found,
        has
            ∙ ap (inserted insert (s ∷ rs))
                (node_at-insert_record empty (insert r) (labels zone) root h),
      )

  pub process_request-put :
      (request : DnsRegistrationRequest R) (root : DnsTreeNode S)
      → request.verb ≡ put
      → process_request labels empty insert is_empty erase request root
        ≡ ok (
          insert_all labels empty insert is_empty erase request.zone request.registered root,
          true,
        )
  unfolding process_request
  process_request-put request root is_put =
      ap
        (λ v. process_verb labels empty insert is_empty erase (v == put) (v == delete) request root)
        is_put

  -- The result of a request that leaves a tree.
  abbrev succeeded : DnsTreeNode S → Outcome (DnsTreeNode S × Bool)
  succeeded left = ok (left, true)

  process_request-delete :
      (request : DnsRegistrationRequest R) (root : DnsTreeNode S)
      → request.verb ≡ delete
      → process_request labels empty insert is_empty erase request root ≡ (
          remove_all labels empty insert is_empty erase request.zone request.registered root
          >>= succeeded)
  unfolding process_request
  process_request-delete request root is_delete =
      ap
        (λ v. process_verb labels empty insert is_empty erase (v == put) (v == delete) request root)
        is_delete

  -- A response before those to the rest of a packet.
  abbrev pub before_rest :
      RestfulResponse
      → Outcome (DnsTreeNode S × List RegistryAction)
      → Outcome (DnsTreeNode S × List RegistryAction)
  before_rest response o = o >>= λ served. ok (served.0, responds response ∷ served.1)

  -- One round of the loop over the requests.
  pub serve_requests-step :
      (connection : ℕ) (request : DnsRegistrationRequest R)
      (requests : List (DnsRegistrationRequest R)) (root left : DnsTreeNode S) (done : Bool)
      → process_request labels empty insert is_empty erase request root ≡ ok (left, done)
      → serve_requests labels empty insert is_empty erase connection (request ∷ requests) root
        ≡ before_rest
            (response_to connection request done)
            (serve_requests labels empty insert is_empty erase connection requests left)
  unfolding serve_requests
  serve_requests-step connection request requests root left done e =
      ap
        (λ o. o >>= λ processed.
          send_back (some (response_to connection request processed.1)) >>= λ sent.
          serve_requests labels empty insert is_empty erase connection requests processed.0
          >>= (λ served. ok (served.0, sent ∷ served.1)))
        e

  serve_requests-fault :
      (connection : ℕ) (request : DnsRegistrationRequest R)
      (requests : List (DnsRegistrationRequest R)) (root : DnsTreeNode S)
      → process_request labels empty insert is_empty erase request root ≡ fault undefined
      → serve_requests labels empty insert is_empty erase connection (request ∷ requests) root
        ≡ fault undefined
  unfolding serve_requests
  serve_requests-fault connection request requests root e =
      ap
        (λ o. o >>= λ processed.
          send_back (some (response_to connection request processed.1)) >>= λ sent.
          serve_requests labels empty insert is_empty erase connection requests processed.0
          >>= (λ served. ok (served.0, sent ∷ served.1)))
        e

  module _ (request : DnsRegistrationRequest R) (r : R) (one : request.registered ≡ r ∷ []) where
    process_request-withdrawal :
        (root : DnsTreeNode S) (o : Outcome (DnsTreeNode S × Bool))
        → remove_record is_empty (erase r) (labels request.zone) root ≡ o
        → process_request labels empty insert is_empty erase (withdrawal request) root
          ≡ (o >>= λ removed. succeeded removed.0)
    unfolding remove_all
    process_request-withdrawal root o e =
        process_request-delete (withdrawal request) root refl
        ∙ ap
            (λ records.
              remove_all labels empty insert is_empty erase request.zone records root >>= succeeded)
            one
        ∙ ap (λ o. (o >>= λ removed. ok removed.0) >>= (λ n. ok n) >>= succeeded) e
        ∙ joined o
      where
        joined :
            (o : Outcome (DnsTreeNode S × Bool))
            → ((o >>= λ removed. ok removed.0) >>= (λ n. ok n) >>= succeeded)
              ≡ (o >>= λ removed. succeeded removed.0)
        joined (ok removed) = refl
        joined (fault f) = refl

    -- Deleting one record of a zone that is found with records.
    withdrawn :
        (root : DnsTreeNode S) (rs : S)
        → FoundWith (search_records (labels request.zone) root) rs
        → is_empty rs ≡ false
        → (left : DnsTreeNode S) × (process_request labels empty insert is_empty erase
              (withdrawal request)
              root
            ≡ ok (left, true))
          × FoundWith (search_records (labels request.zone) left) (erase r rs).0
    withdrawn root rs found filled =
        let (left, e, kept) =
          remove_record-FoundWith is_empty (erase r) (labels request.zone) root rs found filled in
        (left, process_request-withdrawal root (ok (left, (erase r rs).1)) e, kept)

    module _ (root : DnsTreeNode S) (is_put : request.verb ≡ put)
        (short : length (labels request.zone) ≤ 2)
        (filled : is_empty (insert r (zone_set labels empty request.zone root)) ≡ false) where
      abbrev published : DnsTreeNode S
      published = insert_all labels empty insert is_empty erase request.zone (r ∷ []) root

      published-FoundWith :
          FoundWith
            (search_records (labels request.zone) published)
            (insert r (zone_set labels empty request.zone root))
      published-FoundWith = insert_all-FoundWith request.zone r [] root short

      put_one :
          process_request labels empty insert is_empty erase request root ≡ ok (published, true)
      put_one =
          process_request-put request root is_put
          ∙ ap
              (λ records.
                ok (insert_all labels empty insert is_empty erase request.zone records root, true))
              one

      module _ (connection : ℕ)
          (new : erase r (insert r (zone_set labels empty request.zone root))
            ≡ (zone_set labels empty request.zone root, true)) where
        -- A request that registers one record in a zone of at most two labels, and the same request with
        -- the verb DELETE, are both answered with the code of success, and afterwards the zone has the
        -- records that it had. The set with the record is not empty, and erasing the record from it gives
        -- the set without.
        pub register-delete :
            (left : DnsTreeNode S) × (handle_message labels empty insert is_empty erase
                (data_arrived connection (request ∷ (withdrawal request) ∷ []))
                root
              ≡ ok (
                left,
                responds (response_to connection request true)
                    ∷ responds (response_to connection (withdrawal request) true)
                    ∷ [],
              ))
            × FoundWith
                (search_records (labels request.zone) left)
                (zone_set labels empty request.zone root)
        unfolding handle_message serve_requests
        register-delete =
            let (left, e, (n, found, has)) =
              withdrawn published (insert r (zone_set labels empty request.zone root))
                published-FoundWith filled in
            (
              left,
              serve_requests-step connection request ((withdrawal request) ∷ []) root published true
                    put_one
                  ∙ ap (before_rest (response_to connection request true)) (
                      serve_requests-step connection (withdrawal request) [] published left true e),
              (n, found, has ∙ ap (λ p. p.0) new),
            )

        -- A record is registered in a zone of at most two labels that had no record, and deleted twice:
        -- that ends in a fault, since the service follows the null pointer that stands for no records.
        -- The set with the record is not empty, and erasing the record from it gives the set without.
        pub deleted_twice :
            is_empty (zone_set labels empty request.zone root) ≡ true
            → handle_message labels empty insert is_empty erase
                (data_arrived connection
                  (request ∷ (withdrawal request) ∷ (withdrawal request) ∷ []))
                root
              ≡ fault undefined
        unfolding handle_message
        deleted_twice none_left =
            let (left, e, (n, found, has)) =
              withdrawn published (insert r (zone_set labels empty request.zone root))
                published-FoundWith filled in
            let again = process_request-withdrawal left (fault undefined) (
              remove_record-undefined is_empty (erase r) (labels request.zone) left
                (zone_set labels empty request.zone root) (n, found, has ∙ ap (λ p. p.0) new)
                none_left) in
            serve_requests-step connection request
              ((withdrawal request) ∷ (withdrawal request) ∷ []) root published true put_one
            ∙ ap (before_rest (response_to connection request true)) (
                serve_requests-step connection (withdrawal request) ((withdrawal request) ∷ [])
                  published left true e
                ∙ ap (before_rest (response_to connection (withdrawal request) true))
                    (serve_requests-fault connection (withdrawal request) [] left again))
