-- ===== src/Dns/Resolver/Processing.antt =====
-- The processing of a resolution (DnsResolverService.cc).
use simcan2fog.Prelude.{
  ℕ, zero, suc, String, Bool, true, false, Option, none, some, List, [], ◌∷◌, ◌++◌, ◌==◌,
  if◌then◌else◌, Name, name_key, nat_key, erase, Outcome, ok, fault, undefined, or_fault, ◌>>=◌,
}
use simcan2fog.Dns.{DnsTreeNode, records, search_records}
use simcan2fog.Dns.Names.{
  ResourceRecord, cname, root_level, authoritative_level, match_with_wildcard,
}
use simcan2fog.Dns.Resolver.{
  ResolutionState, init, tld_resolution, ns_resolution, auth_resolution, resolved, not_found,
  Resolution, response_for_update, has_finished, Sent, DnsResolver, make_transition, level_of,
  register_question,
}

module _ (labels : Name → List String) (ends_with : Name → Name → Bool) where
  abbrev pub append_answer : ResourceRecord → Resolution → Outcome Resolution
  append_answer answer r = response_for_update r >>= λ response. ok (record r {
    response = some (record response {
      non_authoritative_answer = response.non_authoritative_answer ++ answer ∷ [];
    });
  })

  -- The loop of processAuthResolution: the resolution, and whether a canonical name has changed its
  -- question.
  unfoldable pub scan : List ResourceRecord → Resolution → Outcome (Resolution × Bool)
  unfolding match_with_wildcard
  scan [] r = ok (r, false)
  scan (answer ∷ rs) r =
      let rest = scan rs r in
      let added = append_answer answer r >>= scan rs in
      if match_with_wildcard ends_with answer.domain r.current_question.domain
      then (if answer.record_type == cname
          then ok (
            record r {
              current_question = record (r.current_question) { domain = answer.contents };
            },
            true,
          )
          else added)
      else rest

  abbrev pub has_answers : List ResourceRecord → Bool
  has_answers [] = false
  has_answers (a ∷ rs) = true

  abbrev pub then_register :
      DnsTreeNode (List ResourceRecord)
      → DnsResolver
      → Resolution × List Sent
      → Outcome (DnsResolver × Resolution × List Sent)
  then_register node d (r, sent) =
      register_question labels r.current_question node r.id d >>= λ (e, asked).
      ok (e, r, sent ++ asked)

  abbrev pub moved :
      DnsResolver → Resolution × List Sent → Outcome (DnsResolver × Resolution × List Sent)
  moved d (r, sent) = ok (d, r, sent)

  -- The end of processAuthResolution.
  abbrev pub without_answers :
      DnsTreeNode (List ResourceRecord)
      → DnsResolver
      → Resolution
      → ResolutionState
      → Outcome (DnsResolver × Resolution × List Sent)
  without_answers node d r init = make_transition auth_resolution r >>= then_register node d
  without_answers node d r _ = make_transition not_found r >>= moved d

  abbrev pub conclude :
      Bool
      → DnsTreeNode (List ResourceRecord)
      → DnsResolver
      → Resolution
      → Outcome (DnsResolver × Resolution × List Sent)
  conclude true node d r = make_transition resolved r >>= moved d
  conclude false node d r = without_answers node d r r.state

  -- processAuthResolution; `next` processes the resolution with its new question.
  abbrev pub scanned :
      (Resolution → Outcome (DnsResolver × Resolution × List Sent))
      → DnsTreeNode (List ResourceRecord)
      → DnsResolver
      → Resolution × Bool
      → Outcome (DnsResolver × Resolution × List Sent)
  scanned next node d (r, true) = next r
  scanned next node d (r, false) = or_fault r.response undefined >>= λ response.
      conclude (has_answers response.non_authoritative_answer) node d r

  -- processResolution, for the node and its records.
  abbrev pub with_records :
      (Resolution → Outcome (DnsResolver × Resolution × List Sent))
      → DnsTreeNode (List ResourceRecord)
      → DnsResolver
      → Resolution
      → List ResourceRecord
      → Outcome (DnsResolver × Resolution × List Sent)
  with_records next node d r [] = make_transition not_found r >>= moved d
  with_records next node d r (a ∷ rs) =
      if level_of node == authoritative_level
      then (scan (a ∷ rs) r >>= scanned next node d)
      else (make_transition (if level_of node == root_level then tld_resolution else ns_resolution)
            r
          >>= then_register node d)

  abbrev pub at_node :
      (Resolution → Outcome (DnsResolver × Resolution × List Sent))
      → DnsResolver
      → Resolution
      → Option (DnsTreeNode (List ResourceRecord))
      → Outcome (DnsResolver × Resolution × List Sent)
  at_node next d r none = make_transition not_found r >>= moved d
  at_node next d r (some node) = with_records next node d r (records node)

  -- processResolution without the erasing at its end. The fuel counts the changes of the question; a
  -- chain of canonical names that does not end overflows the stack.
  unfoldable pub process :
      ℕ → DnsResolver → Resolution → Outcome (DnsResolver × Resolution × List Sent)
  unfolding register_question make_transition scan
  process zero d r = fault undefined
  process (suc n) d r =
      at_node (process n d) d r (search_records (labels r.current_question.domain) d.database)

  -- processResolution at the top: a resolution that has finished leaves the map, except at its first
  -- branch, which returns before.
  abbrev pub is_found : Option (DnsTreeNode (List ResourceRecord)) → Bool
  is_found none = false
  is_found (some node) = has_answers (records node)

  abbrev pub erase_finished :
      Bool → DnsResolver × Resolution × List Sent → Outcome (DnsResolver × Resolution × List Sent)
  erase_finished false done = ok done
  erase_finished true (d, r, sent) = ok (
    (if has_finished r.state then record d { resolutions = erase r.id d.resolutions } else d),
    r,
    sent,
  )

  unfoldable pub process_resolution :
      ℕ → DnsResolver → Resolution → Outcome (DnsResolver × Resolution × List Sent)
  unfolding process
  process_resolution fuel d r =
      process fuel d r
      >>= erase_finished (is_found (search_records (labels r.current_question.domain) d.database))
