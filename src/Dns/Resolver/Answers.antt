-- ===== src/Dns/Resolver/Answers.antt =====
-- What the resolver answers from its own records (DnsResolverService.cc).
use mathlib.Core.List.{append-nil, append_assoc}
use simcan2fog.Prelude.{
  ℕ, suc, ◌≡◌, refl, ap, ◌∙◌, inl, inr, String, Bool, true, false, some, List, [], ◌∷◌, ◌++◌, Name,
  nat_key, erase, Outcome, ok, ◌>>=◌, ◌==◌, ◌&&◌, if◌then◌else◌, Bool-cases,
}
use simcan2fog.Dns.{DnsTreeNode, records, search_records}
use simcan2fog.Dns.Server.{DnsQuestion, DnsRequest, noerror}
use simcan2fog.Dns.Names.{
  ResourceRecord, cname, root_level, authoritative_level, match_with_wildcard,
}
use simcan2fog.Dns.Resolver.{
  tld_resolution, ns_resolution, resolved, Resolution, Sent, reply, DnsResolver, next_id, level_of,
  make_transition,
}
use simcan2fog.Dns.Resolver.Processing.{
  is_found, erase_finished, then_register, with_records, at_node, scan, scanned, has_answers,
  process, process_resolution,
}
use simcan2fog.Dns.Resolver.Handlers.{new_resolution, by_questions, store, handle_request}

module _ (labels : Name → List String) (ends_with : Name → Name → Bool) where
  -- The records for a name, in order.
  abbrev pub matching : Name → List ResourceRecord → List ResourceRecord
  matching domain [] = []
  matching domain (a ∷ rs) =
      let rest = matching domain rs in
      if match_with_wildcard ends_with a.domain domain then a ∷ rest else rest

  -- None of them gives another name.
  abbrev pub NoAlias : Name → List ResourceRecord → Type 0
  NoAlias domain [] = Unit {0}
  NoAlias domain (a ∷ rs) =
      ((match_with_wildcard ends_with a.domain domain && (a.record_type == cname)) ≡ false)
      × NoAlias domain rs

  abbrev with_answers : DnsRequest ResourceRecord → List ResourceRecord → DnsRequest ResourceRecord
  with_answers response rs = record response {
    non_authoritative_answer = response.non_authoritative_answer ++ rs;
  }

  scan-matching :
      (rs : List ResourceRecord) (r : Resolution) (response : DnsRequest ResourceRecord)
      → NoAlias r.current_question.domain rs
      → scan labels ends_with rs (record r { response = some response; is_sent = false })
        ≡ ok (
          record r {
            response = some (with_answers response (matching r.current_question.domain rs));
            is_sent = false;
          },
          false,
        )
  unfolding scan
  scan-matching [] r response a = rw (append-nil response.non_authoritative_answer) refl
  scan-matching (a ∷ rs) r response (no_alias, others) =
      elim (Bool-cases (match_with_wildcard ends_with a.domain r.current_question.domain)) [
        | inl e ↦
            let plain : (a.record_type == cname) ≡ false = rw e at no_alias in
            rw (e, plain)
              (scan-matching rs r (with_answers response (a ∷ [])) others
                ∙ rw
                    (append_assoc response.non_authoritative_answer (a ∷ [])
                      (matching r.current_question.domain rs))
                    refl)
        | inr e ↦ rw e (scan-matching rs r response others)
      ]

  pub has_answers-append :
      (xs : List ResourceRecord) (m : ResourceRecord) (ms : List ResourceRecord)
      → has_answers labels ends_with (xs ++ m ∷ ms) ≡ true
  has_answers-append [] m ms = refl
  has_answers-append (x ∷ xs) m ms = refl

  abbrev pub told : DnsRequest ResourceRecord → List ResourceRecord → DnsRequest ResourceRecord
  told response rs = record (with_answers response rs) {
    return_code = noerror;
    is_authoritative = false;
  }

  module _ (r : Resolution) (response : DnsRequest ResourceRecord)
      (node : DnsTreeNode (List ResourceRecord)) (a : ResourceRecord) (rs : List ResourceRecord)
      (m : ResourceRecord) (ms : List ResourceRecord)
      (level : (level_of node == authoritative_level) ≡ true) (zone : records node ≡ a ∷ rs)
      (no_alias : NoAlias r.current_question.domain (a ∷ rs))
      (some_match : matching r.current_question.domain (a ∷ rs) ≡ m ∷ ms) where
    abbrev pub before : Resolution
    before = record r { response = some response; is_sent = false }

    abbrev pub after : Resolution
    after = record r { state = resolved; response = some (told response (m ∷ ms)); is_sent = true }

    abbrev pub answer : List Sent
    answer = reply r.remote_address r.remote_port (told response (m ∷ ms)) ∷ []

    pub at_node_answers :
        (next : Resolution → Outcome (DnsResolver × Resolution × List Sent)) (d : DnsResolver)
        → at_node labels ends_with next d before (some node) ≡ ok (d, after, answer)
    unfolding make_transition
    at_node_answers next d =
        ap (with_records labels ends_with next node d before) zone
        ∙ ap
            (λ b.
              if b
              then (scan labels ends_with (a ∷ rs) before >>= scanned labels ends_with next node d)
              else (make_transition
                    (if level_of node == root_level then tld_resolution else ns_resolution) before
                  >>= then_register labels ends_with node d))
            level
        ∙ ap (λ o. o >>= scanned labels ends_with next node d)
            (scan-matching (a ∷ rs) r response no_alias)
        ∙ rw (some_match, has_answers-append response.non_authoritative_answer m ms) refl

    process_answers :
        (n : ℕ) (d : DnsResolver)
        → search_records (labels r.current_question.domain) d.database ≡ some node
        → process_resolution labels ends_with (suc n) d before
          ≡ ok (record d { resolutions = erase r.id d.resolutions }, after, answer)
    unfolding process_resolution process
    process_answers n d found =
        ap
          (λ f.
            at_node labels ends_with (process labels ends_with n d) d before f
            >>= erase_finished labels ends_with (is_found labels ends_with f))
          found
        ∙ ap (λ o. o >>= erase_finished labels ends_with (is_found labels ends_with (some node)))
            (at_node_answers (process labels ends_with n d) d)
        ∙ ap
            (λ rs.
              erase_finished labels ends_with (has_answers labels ends_with rs) (d, after, answer))
            zone

  module _ (get_question : ℕ → List DnsQuestion → Outcome DnsQuestion)
      (insert_set : ResourceRecord → List ResourceRecord → List ResourceRecord) (n : ℕ) where
    -- A single question for a name with records in a zone of the last level, none of which gives another
    -- name, is answered at once: with all records for the name, in order, as an answer without
    -- authority. Nothing is asked, and no resolution is kept.
    pub answers_from_database :
        (address port : ℕ) (request : DnsRequest ResourceRecord) (d : DnsResolver) (q : DnsQuestion)
        (node : DnsTreeNode (List ResourceRecord)) (a : ResourceRecord) (rs : List ResourceRecord)
        (m : ResourceRecord) (ms : List ResourceRecord)
        → request.question ≡ q ∷ []
        → get_question 0 request.question ≡ ok q
        → search_records (labels q.domain) d.database ≡ some node
        → (level_of node == authoritative_level) ≡ true
        → records node ≡ a ∷ rs
        → NoAlias q.domain (a ∷ rs)
        → matching q.domain (a ∷ rs) ≡ m ∷ ms
        → handle_request labels ends_with get_question insert_set (suc n) address port request d
          ≡ ok (
            record d { last_id = next_id d.last_id; resolutions = erase d.last_id d.resolutions },
            reply address port (record request {
              return_code = noerror;
              is_authoritative = false;
              non_authoritative_answer = request.non_authoritative_answer ++ m ∷ ms;
            })
                ∷ [],
          )
    unfolding handle_request
    answers_from_database address port request d q node a rs m ms single first found level zone
          no_alias some_match =
        let r =
          new_resolution labels ends_with get_question insert_set (suc n) address port request d
            q in
        let next : DnsResolver = record d { last_id = next_id d.last_id } in
        ap
          (λ o. o >>= λ question.
            by_questions labels ends_with get_question insert_set (suc n) request.question
              (new_resolution labels ends_with get_question insert_set (suc n) address port request
                d question)
              next)
          first
        ∙ ap (λ qs. by_questions labels ends_with get_question insert_set (suc n) qs r next) single
        ∙ ap (λ o. o >>= store labels ends_with get_question insert_set (suc n))
            (process_answers r request node a rs m ms level zone no_alias some_match n next found)
