-- ===== src/Dns/Resolver/Handlers.antt =====
-- The handlers of the resolver (DnsResolverService.cc).
use simcan2fog.Prelude.{
  ℕ, String, Bool, true, false, Option, none, some, List, [], ◌∷◌, ◌++◌, ◌==◌, if◌then◌else◌, Name,
  name_key, nat_key, lookup, insert, erase, Outcome, ok, runtime_error, failed_assert, undefined,
  or_fault, ◌>>=◌,
}
use simcan2fog.Dns.{DnsTreeNode, search_records, insert_record}
use simcan2fog.Dns.Server.{DnsQuestion, DnsRequest, noerror, formerr, set_return_code}
use simcan2fog.Dns.Names.{ResourceRecord}
use simcan2fog.Dns.Resolver.{
  init, resolved, not_found, Resolution, default_resolution, response_for_update, has_finished,
  Sent, DnsResolver, next_id, send_response, make_transition,
}
use simcan2fog.Dns.Resolver.Processing.{is_found, erase_finished, process, process_resolution}
use simcan2fog.Dns.Client.{DnsClientResult, ok_result, error_result}

abbrev pub servfail : ℕ
servfail = 2

module _ (labels : Name → List String) (ends_with : Name → Name → Bool)
    (get_question : ℕ → List DnsQuestion → Outcome DnsQuestion)
    (insert_set : ResourceRecord → List ResourceRecord → List ResourceRecord) (fuel : ℕ) where
  abbrev pub new_resolution :
      ℕ → ℕ → DnsRequest ResourceRecord → DnsResolver → DnsQuestion → Resolution
  new_resolution address port request d question = record {
    id = d.last_id;
    remote_address = address;
    remote_port = port;
    current_question = question;
    state = init;
    response = some request;
    is_sent = false;
  }

  -- The answer to a request that has not exactly one question: makeTransition sends it, and
  -- sendResponse is to send it again, and first changes its code.
  unfoldable pub refuse : Resolution → DnsResolver → Outcome (DnsResolver × List Sent)
  unfolding make_transition send_response
  refuse r d = response_for_update r >>= λ response.
      make_transition resolved (record r { response = some (set_return_code formerr response) })
      >>= (λ (q, sent). send_response q >>= (λ (p, again). ok (d, sent ++ again)))

  abbrev pub store : DnsResolver × Resolution × List Sent → Outcome (DnsResolver × List Sent)
  store (d, r, sent) = ok (
    (if has_finished r.state then d else record d { resolutions = insert r.id r d.resolutions }),
    sent,
  )

  abbrev pub by_questions :
      List DnsQuestion → Resolution → DnsResolver → Outcome (DnsResolver × List Sent)
  by_questions [] r d = refuse r d
  by_questions (q ∷ []) r d = process_resolution labels ends_with fuel d r >>= store
  by_questions (q ∷ p ∷ qs) r d = refuse r d

  -- handleRequest
  unfoldable pub handle_request :
      ℕ → ℕ → DnsRequest ResourceRecord → DnsResolver → Outcome (DnsResolver × List Sent)
  unfolding process_resolution refuse
  handle_request address port request d = get_question 0 request.question >>= λ question.
      by_questions request.question (new_resolution address port request d question)
        (record d { last_id = next_id d.last_id })

  -- markFailedResolutions: the return code is set, and then the transition answers.
  abbrev pub fail_one : ℕ → ℕ → DnsResolver → Resolution → Outcome (DnsResolver × List Sent)
  fail_one code id d r = response_for_update r >>= λ response.
      make_transition not_found (record r { response = some (set_return_code code response) })
      >>= (λ (q, sent). ok (record d { resolutions = erase id d.resolutions }, sent))

  unfoldable pub mark_failed_resolutions :
      ℕ → List ℕ → DnsResolver → Outcome (DnsResolver × List Sent)
  unfolding make_transition
  mark_failed_resolutions code [] d = ok (d, [])
  mark_failed_resolutions code (id ∷ ids) d = or_fault (lookup id d.resolutions) undefined >>= λ r.
      fail_one code id d r
      >>= (λ (e, sent). mark_failed_resolutions code ids e >>= (λ (f, rest). ok (f, sent ++ rest)))

  -- The records of a response, all into the zone of its question.
  unfoldable pub insert_all :
      Name
      → List ResourceRecord
      → DnsTreeNode (List ResourceRecord)
      → DnsTreeNode (List ResourceRecord)
  unfolding insert_record
  insert_all zone [] root = root
  insert_all zone (r ∷ rs) root =
      insert_all zone rs (insert_record [] (labels zone) (insert_set r) root)

  -- A resolution of the map that is processed again: what it has become is kept, unless it has been
  -- erased.
  abbrev pub or_default : Option Resolution → Resolution
  or_default none = default_resolution
  or_default (some r) = r

  unfoldable pub reprocess : List ℕ → DnsResolver → Outcome (DnsResolver × List Sent)
  unfolding process
  reprocess [] d = ok (d, [])
  reprocess (id ∷ ids) d =
      let r = or_default (lookup id d.resolutions) in
      process labels ends_with fuel d r >>= (λ (e, q, sent).
        erase_finished labels ends_with
          (is_found labels ends_with (search_records (labels r.current_question.domain) d.database))
          (record e { resolutions = insert id q e.resolutions }, q, sent)
        >>= (λ (f, p, told). reprocess ids f >>= (λ (g, rest). ok (g, told ++ rest))))

  -- The end of handleResponse.
  abbrev pub release :
      ℕ → DnsRequest ResourceRecord → DnsResolver × List Sent → Outcome (DnsResolver × List Sent)
  release key response (d, sent) = get_question 0 response.question >>= λ q. ok (
    record d {
      request_map = erase key d.request_map;
      question_map = erase q.domain d.question_map;
    },
    sent,
  )

  abbrev pub accept_response :
      DnsRequest ResourceRecord → List ℕ → DnsResolver → Outcome (DnsResolver × List Sent)
  accept_response response ids d = get_question 0 response.question >>= λ q.
      reprocess ids (record d {
        database =
            insert_all q.domain response.authoritative_answer
              (insert_all q.domain response.non_authoritative_answer d.database);
      })

  abbrev pub by_code :
      Bool → DnsRequest ResourceRecord → List ℕ → DnsResolver → Outcome (DnsResolver × List Sent)
  by_code true response ids d = accept_response response ids d
  by_code false response ids d = mark_failed_resolutions response.return_code ids d

  abbrev pub by_result :
      DnsClientResult
      → ℕ
      → Option (DnsRequest ResourceRecord)
      → List ℕ
      → DnsResolver
      → Outcome (DnsResolver × List Sent)
  by_result error_result key payload ids d = mark_failed_resolutions servfail ids d
  by_result ok_result key payload ids d = or_fault payload failed_assert >>= λ response.
      by_code (response.return_code == noerror) response ids d >>= release key response

  -- handleResponse, of an indication of the client.
  unfoldable pub handle_response :
      ℕ
      → DnsClientResult
      → Option (DnsRequest ResourceRecord)
      → DnsResolver
      → Outcome (DnsResolver × List Sent)
  unfolding reprocess insert_all mark_failed_resolutions
  handle_response key result payload d =
      or_fault (lookup key d.request_map) runtime_error >>= λ ids.
      by_result result key payload ids d
