-- ===== src/Dns/Resolver/Lost.antt =====
-- What becomes of the second question of a resolution (handleResponse and registerQuestion of
-- DnsResolverService.cc).
use simcan2fog.Prelude.{
  ℕ, ◌≡◌, sym, subst, ap, String, Bool, true, false, Option, some, List, [], ◌∷◌, ◌++◌, Name,
  nat_key, name_key, lookup, insert, erase, Outcome, ok, fault, runtime_error, Ensures, Ensures->>=,
  Ensures-ok, or_fault, ◌>>=◌, ◌==◌, if◌then◌else◌,
}
use simcan2fog.Dns.{DnsTreeNode, search_records}
use simcan2fog.Dns.Server.{DnsQuestion, DnsRequest, noerror}
use simcan2fog.Dns.Names.{ResourceRecord}
use simcan2fog.Dns.Resolver.{Resolution, has_finished, Sent, DnsResolver}
use simcan2fog.Dns.Resolver.Single.{OnlyKey, erase-only, Single, Kept, process-Kept}
use simcan2fog.Dns.Resolver.Processing.{is_found, erase_finished, process}
use simcan2fog.Dns.Resolver.Handlers.{
  or_default, accept_response, release, by_code, by_result, insert_all, handle_response, reprocess,
}
use simcan2fog.Dns.Client.{DnsClientResult, ok_result}

module _ (labels : Name → List String) (ends_with : Name → Name → Bool)
    (get_question : ℕ → List DnsQuestion → Outcome DnsQuestion)
    (insert_set : ResourceRecord → List ResourceRecord → List ResourceRecord) (fuel k : ℕ)
    (d : DnsResolver) (r : Resolution) (same : r.id ≡ k) (there : lookup k d.resolutions ≡ some r)
    (single : Single k d) where
  erased-Single :
      (b : Bool) (e : DnsResolver × Resolution × List Sent)
      → Single k e.0
      → Ensures
          (λ (f : DnsResolver × Resolution × List Sent). Single k f.0)
          (erase_finished labels ends_with b e)
  erased-Single false e s = s
  erased-Single true e s =
      one_of (has_finished e.1.state) (record { requests = s.requests; questions = s.questions }) s
    where
      one_of :
          (b : Bool) {x y : DnsResolver} → Single k x → Single k y → Single k (if b then x else y)
      one_of true p q = p
      one_of false p q = q

  reprocess-Single :
      (root : DnsTreeNode (List ResourceRecord))
      → Ensures
          (λ (e : DnsResolver × List Sent). Single k e.0)
          (reprocess labels ends_with get_question insert_set fuel
            (k ∷ [])
            (record d { database = root }))
  unfolding reprocess
  reprocess-Single root =
      subst
        (λ o.
          Ensures HasSingle
            (process labels ends_with fuel (record d { database = root }) (waiting o) >>= after o))
        (sym there)
        (Ensures->>= HasSingle (process labels ends_with fuel (record d { database = root }) r)
          (after (some r))
          (λ x run. Ensures->>= HasSingle (erased x) finish (λ y erased_run.
            Ensures-ok StillSingle (erased x)
              (erased-Single (found (some r))
                (record (x.0) { resolutions = insert k x.1 x.0.resolutions }, x.1, x.2)
                (let s : Single k x.0 =
                    (Ensures-ok (Kept labels ends_with k)
                      (process labels ends_with fuel (record d { database = root }) r)
                      (process-Kept labels ends_with k fuel (record d { database = root }) r
                        (record { requests = single.requests; questions = single.questions }) same)
                      run).0 in
                  record { requests = s.requests; questions = s.questions }))
              erased_run)))
    where
      HasSingle : DnsResolver × List Sent → Type 0
      HasSingle e = Single k e.0

      StillSingle : DnsResolver × Resolution × List Sent → Type 0
      StillSingle e = Single k e.0

      waiting : Option Resolution → Resolution
      waiting = or_default labels ends_with get_question insert_set fuel

      found : Option Resolution → Bool
      found o =
          is_found labels ends_with
            (search_records (labels (waiting o).current_question.domain) root)

      finish : DnsResolver × Resolution × List Sent → Outcome (DnsResolver × List Sent)
      finish y = ok (y.0, y.2 ++ [])

      erased : DnsResolver × Resolution × List Sent → Outcome (DnsResolver × Resolution × List Sent)
      erased x =
          erase_finished labels ends_with (found (some r))
            (record (x.0) { resolutions = insert k x.1 x.0.resolutions }, x.1, x.2)

      after :
          Option Resolution
          → DnsResolver × Resolution × List Sent
          → Outcome (DnsResolver × List Sent)
      after o x =
          erase_finished labels ends_with (found o)
            (record (x.0) { resolutions = insert k x.1 x.0.resolutions }, x.1, x.2)
          >>= finish

  abbrev NoRequest : DnsResolver × List Sent → Type 0
  NoRequest e = e.0.request_map ≡ []

  abbrev accept : DnsRequest ResourceRecord → DnsResolver → Outcome (DnsResolver × List Sent)
  accept response = accept_response labels ends_with get_question insert_set fuel response (k ∷ [])

  abbrev let_go :
      DnsRequest ResourceRecord → DnsResolver × List Sent → Outcome (DnsResolver × List Sent)
  let_go = release labels ends_with get_question insert_set fuel k

  accepted-NoRequest :
      (response : DnsRequest ResourceRecord)
      → lookup k d.request_map ≡ some (k ∷ [])
      → (response.return_code == noerror) ≡ true
      → Ensures NoRequest (
          handle_response labels ends_with get_question insert_set fuel k ok_result
            (some response)
            d)
  unfolding handle_response
  accepted-NoRequest response registered success =
      subst
        (λ o. Ensures NoRequest (
          or_fault o runtime_error >>= λ ids.
          by_result labels ends_with get_question insert_set fuel ok_result k (some response) ids
            d))
        (sym registered)
        (subst
          (λ b. Ensures NoRequest (
            by_code labels ends_with get_question insert_set fuel b response (k ∷ []) d
            >>= let_go response))
          (sym success)
          (Ensures->>= NoRequest (accept response d) (let_go response) (λ x run.
            Ensures->>= NoRequest (get_question 0 response.question)
              (λ q. ok (
                record (x.0) {
                  request_map = erase k x.0.request_map;
                  question_map = erase q.domain x.0.question_map;
                },
                x.1,
              ))
              (λ q asked. erase-only k x.0.request_map (stays x run)))))
    where
      stays : (x : DnsResolver × List Sent) → accept response d ≡ ok x → OnlyKey k x.0.request_map
      stays x run =
          (Ensures-ok (λ (e : DnsResolver × List Sent). Single k e.0) (accept response d)
            (Ensures->>= (λ (e : DnsResolver × List Sent). Single k e.0)
              (get_question 0 response.question)
              (λ q. reprocess labels ends_with get_question insert_set fuel (k ∷ []) (record d {
                database =
                    insert_all labels ends_with get_question insert_set fuel q.domain
                      response.authoritative_answer
                      (insert_all labels ends_with get_question insert_set fuel q.domain
                        response.non_authoritative_answer d.database);
              }))
              (λ q asked. reprocess-Single _))
            run).requests

  -- A resolver waits for nothing but the answer to a question of its resolution `k`, and gets it. Once
  -- that is handled without a fault, whatever the client reports is an error, be it on a second question
  -- that the answer has led to.
  pub second_answer_is_lost :
      (response : DnsRequest ResourceRecord) (e : DnsResolver) (sent : List Sent)
      → lookup k d.request_map ≡ some (k ∷ [])
      → (response.return_code == noerror) ≡ true
      → handle_response labels ends_with get_question insert_set fuel k ok_result (some response) d
        ≡ ok (e, sent)
      → (key : ℕ) (result : DnsClientResult) (payload : Option (DnsRequest ResourceRecord))
      → handle_response labels ends_with get_question insert_set fuel key result payload e
        ≡ fault runtime_error
  unfolding handle_response
  second_answer_is_lost response e sent registered success run key result payload =
      let none_left : e.request_map ≡ [] =
        Ensures-ok NoRequest
          (handle_response labels ends_with get_question insert_set fuel k ok_result (some response)
            d)
          (accepted-NoRequest response registered success) run in
      ap
        (λ m. or_fault (lookup key m) runtime_error >>= λ ids.
          by_result labels ends_with get_question insert_set fuel result key payload ids e)
        none_left
