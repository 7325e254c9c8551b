-- ===== src/Dns/Resolver/Aliases.antt =====
-- Chains of canonical names (processResolution and processAuthResolution of DnsResolverService.cc).
use simcan2fog.Prelude.{
  ℕ, zero, suc, ◌≡◌, ◌<◌, refl, subst, sym, ap, ◌∙◌, String, Bool, true, false, some, List, [], ◌∷◌,
  ◌++◌, Name, nat_key, erase, Outcome, ok, ◌>>=◌, ◌==◌, if◌then◌else◌, arith,
}
use simcan2fog.Dns.{DnsTreeNode, records, search_records}
use simcan2fog.Dns.Server.{DnsQuestion, DnsRequest}
use simcan2fog.Dns.Names.{ResourceRecord, authoritative_level, root_level, match_with_wildcard}
use simcan2fog.Dns.Resolver.{
  tld_resolution, ns_resolution, resolved, Resolution, Sent, reply, DnsResolver, next_id, level_of,
  make_transition,
}
use simcan2fog.Dns.Resolver.Processing.{
  is_found, has_answers, erase_finished, then_register, with_records, at_node, scan, scanned,
  process, process_resolution,
}
use simcan2fog.Dns.Resolver.Handlers.{new_resolution, by_questions, store, handle_request}
use simcan2fog.Dns.Resolver.Answers.{matching, NoAlias, told, at_node_answers, has_answers-append}

module _ (labels : Name → List String) (ends_with : Name → Name → Bool) where
  abbrev pub NoneMatches : Name → List ResourceRecord → Type 0
  NoneMatches domain [] = Unit {0}
  NoneMatches domain (a ∷ rs) =
      (match_with_wildcard ends_with a.domain domain ≡ false) × NoneMatches domain rs

  -- A zone of the last level in which the first record for the name is a canonical name, type 2 of
  -- ResourceRecord.msg.
  pub record IsAlias (root : DnsTreeNode (List ResourceRecord)) (domain target : Name)
      : Type 0 where
    pub node : DnsTreeNode (List ResourceRecord)
    pub front : List ResourceRecord
    pub canonical : ResourceRecord
    pub back : List ResourceRecord
    pub there : search_records (labels domain) root ≡ some node
    pub level : (level_of node == authoritative_level) ≡ true
    pub zone : records node ≡ front ++ canonical ∷ back
    pub others : NoneMatches domain front
    pub its_name : match_with_wildcard ends_with canonical.domain domain ≡ true
    pub its_type : canonical.record_type ≡ 2
    pub its_target : canonical.contents ≡ target

  -- A chain of `n` aliases.
  abbrev pub Leads : DnsTreeNode (List ResourceRecord) → ℕ → Name → Name → Type 0
  Leads root zero domain last = domain ≡ last
  Leads root (suc n) domain last =
      (target : Name) × IsAlias root domain target × Leads root n target last

  -- A zone of the last level with the records `m ∷ ms` for the name, and no canonical name for it.
  pub record HasAnswers (root : DnsTreeNode (List ResourceRecord)) (domain : Name)
      (m : ResourceRecord) (ms : List ResourceRecord) : Type 0 where
    pub node : DnsTreeNode (List ResourceRecord)
    pub first : ResourceRecord
    pub rest : List ResourceRecord
    pub there : search_records (labels domain) root ≡ some node
    pub level : (level_of node == authoritative_level) ≡ true
    pub zone : records node ≡ first ∷ rest
    pub no_alias : NoAlias labels ends_with domain (first ∷ rest)
    pub some_match : matching labels ends_with domain (first ∷ rest) ≡ m ∷ ms

  abbrev at : Resolution → Name → Resolution
  at r domain = record r { current_question = record (r.current_question) { domain = domain } }

  scan-alias :
      (front : List ResourceRecord) (a : ResourceRecord) (back : List ResourceRecord)
      (r : Resolution)
      → NoneMatches r.current_question.domain front
      → match_with_wildcard ends_with a.domain r.current_question.domain ≡ true
      → a.record_type ≡ 2
      → scan labels ends_with (front ++ a ∷ back) r ≡ ok (at r a.contents, true)
  unfolding scan
  scan-alias [] a back r none its_name its_type = rw (its_name, its_type) refl
  scan-alias (f ∷ front) a back r (skip, none) its_name its_type =
      rw skip (scan-alias front a back r none its_name its_type)

  module _ (next : Resolution → Outcome (DnsResolver × Resolution × List Sent)) (d : DnsResolver)
      (r : Resolution) (target : Name)
      (alias : IsAlias d.database r.current_question.domain target) where
    abbrev at_level : List ResourceRecord → Bool → Outcome (DnsResolver × Resolution × List Sent)
    at_level rs b =
        if b
        then (scan labels ends_with rs r >>= scanned labels ends_with next alias.node d)
        else (make_transition
              (if level_of alias.node == root_level then tld_resolution else ns_resolution) r
            >>= then_register labels ends_with alias.node d)

    with_some :
        (front : List ResourceRecord)
        → with_records labels ends_with next alias.node d r (front ++ alias.canonical ∷ alias.back)
          ≡ at_level
              (front ++ alias.canonical ∷ alias.back)
              (level_of alias.node == authoritative_level)
    with_some [] = refl
    with_some (f ∷ front) = refl

    at_node_follows :
        at_node labels ends_with next d r
          (search_records (labels r.current_question.domain) d.database)
        ≡ next (at r target)
    at_node_follows =
        ap (at_node labels ends_with next d r) alias.there
        ∙ ap (with_records labels ends_with next alias.node d r) alias.zone
        ∙ with_some alias.front
        ∙ ap (at_level (alias.front ++ alias.canonical ∷ alias.back)) alias.level
        ∙ ap (λ o. o >>= scanned labels ends_with next alias.node d)
            (scan-alias alias.front alias.canonical alias.back r alias.others alias.its_name
              alias.its_type)
        ∙ ap (λ name. next (at r name)) alias.its_target

  found-Leads :
      (n : ℕ) (root : DnsTreeNode (List ResourceRecord)) (domain last : Name) (m : ResourceRecord)
      (ms : List ResourceRecord)
      → Leads root n domain last
      → HasAnswers root last m ms
      → is_found labels ends_with (search_records (labels domain) root) ≡ true
  found-Leads zero root domain last m ms e h =
      subst (λ name. is_found labels ends_with (search_records (labels name) root) ≡ true) (sym e)
        (ap (is_found labels ends_with) h.there ∙ ap (has_answers labels ends_with) h.zone)
  found-Leads (suc n) root domain last m ms (target, alias, e) h =
      ap (is_found labels ends_with) alias.there
      ∙ ap (has_answers labels ends_with) alias.zone
      ∙ has_answers-append labels ends_with alias.front alias.canonical alias.back

  module _ (d : DnsResolver) (last : Name) (m : ResourceRecord) (ms : List ResourceRecord)
      (h : HasAnswers d.database last m ms) (r : Resolution)
      (response : DnsRequest ResourceRecord) where
    abbrev open_at : Name → Resolution
    open_at domain = record (at r domain) { response = some response; is_sent = false }

    abbrev resolved_at : Name → Resolution
    resolved_at domain = record (at r domain) {
      state = resolved;
      response = some (told labels ends_with response (m ∷ ms));
      is_sent = true;
    }

    abbrev answer_sent : List Sent
    answer_sent =
        reply r.remote_address r.remote_port (told labels ends_with response (m ∷ ms)) ∷ []

    process_follows :
        (n fuel : ℕ) (domain : Name)
        → n < fuel
        → Leads d.database n domain last
        → process labels ends_with fuel d (open_at domain) ≡ ok (d, resolved_at last, answer_sent)
    unfolding process
    process_follows n zero domain enough leads = absurd (omega arith)
    process_follows zero (suc fuel) domain enough e =
        ap
          (λ name.
            at_node labels ends_with (process labels ends_with fuel d) d (open_at name)
              (search_records (labels name) d.database))
          e
        ∙ ap (at_node labels ends_with (process labels ends_with fuel d) d (open_at last)) h.there
        ∙ at_node_answers labels ends_with (at r last) response h.node h.first h.rest m ms h.level
            h.zone h.no_alias h.some_match (process labels ends_with fuel d) d
    process_follows (suc n) (suc fuel) domain enough (target, alias, leads) =
        at_node_follows (process labels ends_with fuel d) d (open_at domain) target alias
        ∙ process_follows n fuel target (omega arith) leads

  module _ (get_question : ℕ → List DnsQuestion → Outcome DnsQuestion)
      (insert_set : ResourceRecord → List ResourceRecord → List ResourceRecord) where
    -- A single question for a name that a chain of canonical names leads to another name, for which a zone
    -- of the last level has records and no canonical name, is answered at once, with all records for
    -- that name, in order. The canonical name of a zone is the first of its records that matches. Any
    -- fuel above the length of the chain is enough. Nothing is asked, and no resolution is kept.
    pub aliases_are_followed :
        (n fuel address port : ℕ) (request : DnsRequest ResourceRecord) (d : DnsResolver)
        (q : DnsQuestion) (last : Name) (m : ResourceRecord) (ms : List ResourceRecord)
        → n < fuel
        → request.question ≡ q ∷ []
        → get_question 0 request.question ≡ ok q
        → Leads d.database n q.domain last
        → HasAnswers d.database last m ms
        → handle_request labels ends_with get_question insert_set fuel address port request d
          ≡ ok (
            record d { last_id = next_id d.last_id; resolutions = erase d.last_id d.resolutions },
            reply address port (record request {
              return_code = 0;
              is_authoritative = false;
              non_authoritative_answer = request.non_authoritative_answer ++ m ∷ ms;
            })
                ∷ [],
          )
    unfolding handle_request process_resolution
    aliases_are_followed n fuel address port request d q last m ms enough single one leads h =
        let r =
          new_resolution labels ends_with get_question insert_set fuel address port request d q in
        let next : DnsResolver = record d { last_id = next_id d.last_id } in
        ap
          (λ o. o >>= λ question.
            by_questions labels ends_with get_question insert_set fuel request.question
              (new_resolution labels ends_with get_question insert_set fuel address port request d
                question)
              next)
          one
        ∙ ap (λ qs. by_questions labels ends_with get_question insert_set fuel qs r next) single
        ∙ ap
            (λ o.
              o
              >>= erase_finished labels ends_with
                  (is_found labels ends_with (search_records (labels q.domain) d.database))
              >>= store labels ends_with get_question insert_set fuel)
            (process_follows next last m ms h r request n fuel q.domain enough leads)
        ∙ ap
            (λ b.
              erase_finished labels ends_with b (
                next,
                resolved_at next last m ms h r request last,
                answer_sent next last m ms h r request,
              )
              >>= store labels ends_with get_question insert_set fuel)
            (found-Leads n d.database q.domain last m ms leads h)
