-- ===== src/Dns/Server/Answers.antt =====
-- What the server of the zones answers (DnsServiceSimplified.cc).
use simcan2fog.Prelude.{
  ℕ, suc, ◌≡◌, ◌≢◌, ◌≤◌, ◌<◌, refl, ap, sym, ◌∙◌, String, Name, Bool, true, false, Option, none,
  some, List, [], ◌∷◌, length, set, Outcome, ok, fault, runtime_error, ◌>>=◌, ◌==◌, ==_iff, arith,
}
use simcan2fog.Dns.{DnsTreeNode, records, search_records}
use simcan2fog.Dns.Server.{
  DnsQuestion, DnsRequest, query, noerror, set_return_code, answer_as, process_records,
  answer_records, answer_node, answer_questions, handle_query, serve, socket_data_arrived,
}
use simcan2fog.Dns.Server.Filling.{process_records_authority, fill_short}

module _ {R : Type 0} where
  -- The records that the search ends at, if it finds a node.
  abbrev pub found_records : Option (DnsTreeNode (List R)) → List R
  found_records none = []
  found_records (some n) = records n

module _ {R : Type 0} (labels : Name → List String) (root : DnsTreeNode (List R)) where
  abbrev pub zone_records : Name → List R
  zone_records domain = found_records (search_records (labels domain) root)

  -- What the response to a request is to be, by the numbers of RFC 1035.
  pub data IsReply : DnsRequest R → DnsRequest R → Type 0 where
    not_implemented : (q : DnsRequest R) → q.operation_code ≢ 0 → IsReply q (set_return_code 4 q)
    malformed :
        (q : DnsRequest R)
        → q.operation_code ≡ 0
        → length q.question ≢ 1
        → IsReply q (set_return_code 1 q)
    unknown :
        (q : DnsRequest R) (d : DnsQuestion)
        → q.operation_code ≡ 0
        → q.question ≡ d ∷ []
        → zone_records d.domain ≡ []
        → IsReply q (set_return_code 3 q)
    known :
        (q : DnsRequest R) (d : DnsQuestion) (r : R) (rs : List R)
        → q.operation_code ≡ 0
        → q.question ≡ d ∷ []
        → zone_records d.domain ≡ r ∷ rs
        → IsReply q
            (record q { return_code = 0; is_authoritative = true; authoritative_answer = r ∷ rs })

  abbrev pub AllReplies : List (DnsRequest R) → List (DnsRequest R) → Type 0
  AllReplies [] [] = Unit {0}
  AllReplies [] (r ∷ rs) = ⊥
  AllReplies (q ∷ qs) [] = ⊥
  AllReplies (q ∷ qs) (r ∷ rs) = IsReply q r × AllReplies qs rs

module _ {R : Type 0} (labels : Name → List String) (matches : Name → Bool)
    (resize : ℕ → List R → List R) (set_at : ℕ → R → List R → Outcome (List R))
    (sized : (n : ℕ) (xs : List R) → length (resize n xs) ≡ n)
    (in_range : (i : ℕ) (r : R) (xs : List R)
      → i < length xs
      → set_at i r xs ≡ ok (set xs i r)) where
  module _
      (out_of_range : (i : ℕ) (r : R) (xs : List R)
        → length xs ≤ i
        → set_at i r xs ≡ fault runtime_error) where
    -- A query for a name that the server has records of but no authority for ends in a runtime error,
    -- if it brings fewer authoritative answers than there are records.
    pub handle_query-refused :
        (root : DnsTreeNode (List R)) (request : DnsRequest R) (q : DnsQuestion)
        (n : DnsTreeNode (List R))
        → request.question ≡ q ∷ []
        → search_records (labels q.domain) root ≡ some n
        → length request.authoritative_answer < length (records n)
        → matches q.domain ≡ false
        → handle_query labels matches resize set_at root request ≡ fault runtime_error
    unfolding handle_query process_records answer_as
    handle_query-refused root request q n one found short other =
        ap (answer_questions labels matches resize set_at root request) one
        ∙ ap (answer_node labels matches resize set_at q.domain request) found
        ∙ by_records (records n) short
      where
        by_records :
            (rs : List R)
            → length request.authoritative_answer < length rs
            → answer_records labels matches resize set_at q.domain request rs ≡ fault runtime_error
        by_records [] h = absurd (omega arith)
        by_records (r ∷ rs) h =
            ap
              (λ b. answer_as labels matches resize set_at b request (r ∷ rs) >>= λ done.
                ok (set_return_code noerror done))
              other
            ∙ ap
                (λ o.
                  (o >>= λ answers. ok (record request {
                    is_authoritative = false;
                    non_authoritative_answer =
                        resize (length (r ∷ rs)) request.non_authoritative_answer;
                    authoritative_answer = answers;
                  }))
                  >>= λ done. ok (set_return_code noerror done))
                (fill_short labels matches resize set_at sized in_range out_of_range 0 (r ∷ rs)
                  request.authoritative_answer (omega arith) (omega (arith, h)))

  module _ (root : DnsTreeNode (List R))
      (authority : (domain : Name) (r : R) (rs : List R)
        → zone_records labels root domain ≡ r ∷ rs
        → matches domain ≡ true) where
    abbrev Replied : DnsRequest R → Outcome (DnsRequest R) → Type 0
    Replied q o = (r : DnsRequest R) × (o ≡ ok r) × IsReply labels root q r

    answer_records-Replied :
        (q : DnsRequest R) (d : DnsQuestion) (rs : List R)
        → q.operation_code ≡ 0
        → q.question ≡ d ∷ []
        → zone_records labels root d.domain ≡ rs
        → Replied q (answer_records labels matches resize set_at d.domain q rs)
    answer_records-Replied q d [] is_query one e = (_, refl, unknown q d is_query one e)
    answer_records-Replied q d (r ∷ rs) is_query one e = (
      _,
      ap (λ o. o >>= λ done. ok (set_return_code noerror done))
          (process_records_authority labels matches resize set_at sized in_range d.domain q (r ∷ rs)
            (authority d.domain r rs e)),
      known q d r rs is_query one e,
    )

    answer_node-Replied :
        (q : DnsRequest R) (d : DnsQuestion) (o : Option (DnsTreeNode (List R)))
        → search_records (labels d.domain) root ≡ o
        → q.operation_code ≡ 0
        → q.question ≡ d ∷ []
        → Replied q (answer_node labels matches resize set_at d.domain q o)
    answer_node-Replied q d none e is_query one =
        (_, refl, unknown q d is_query one (ap found_records e))
    answer_node-Replied q d (some n) e is_query one =
        answer_records-Replied q d (records n) is_query one (ap found_records e)

    answer_questions-Replied :
        (q : DnsRequest R) (ds : List DnsQuestion)
        → q.operation_code ≡ 0
        → q.question ≡ ds
        → Replied q (answer_questions labels matches resize set_at root q ds)
    answer_questions-Replied q [] is_query e = (
      _,
      refl,
      malformed q is_query (λ one. let n : 0 ≡ 1 = sym (ap length e) ∙ one in omega arith),
    )
    answer_questions-Replied q (d ∷ []) is_query e = answer_node-Replied q d _ refl is_query e
    answer_questions-Replied q (d ∷ c ∷ ds) is_query e = (
      _,
      refl,
      malformed q is_query
          (λ one. let n : suc (suc (length ds)) ≡ 1 = sym (ap length e) ∙ one in omega arith),
    )

    serve-Replied :
        (q : DnsRequest R) (b : Bool)
        → (q.operation_code == query) ≡ b
        → Replied q (serve labels matches resize set_at root b q)
    unfolding handle_query
    serve-Replied q true e =
        answer_questions-Replied q q.question ((==_iff q.operation_code query).0 e) refl
    serve-Replied q false e = (
      _,
      refl,
      not_implemented q (λ is_query.
          let n : true ≡ false = sym ((==_iff q.operation_code query).1 is_query) ∙ e in cc),
    )

    -- Where the server has authority for every name that it has records of, it handles every packet
    -- without a fault and sends one response for each request, in order: an error code for what is no
    -- query, for a query without exactly one question and for an unknown name, and else all records of
    -- the zone as an authoritative answer. The accessors of an array set its size and write below it.
    pub socket_data_arrived-AllReplies :
        (requests : List (DnsRequest R))
        → (responses : List (DnsRequest R)) × (socket_data_arrived labels matches resize set_at root
              requests
            ≡ ok responses)
          × AllReplies labels root requests responses
    unfolding socket_data_arrived
    socket_data_arrived-AllReplies [] = ([], refl, tt)
    socket_data_arrived-AllReplies (q ∷ qs) =
        let (r, e, reply) = serve-Replied q (q.operation_code == query) refl in
        let (rs, es, replies) = socket_data_arrived-AllReplies qs in
        (
          r ∷ rs,
          ap
                (λ o. o >>= λ response.
                  socket_data_arrived labels matches resize set_at root qs >>= λ responses.
                  ok (response ∷ responses))
                e
              ∙ ap (λ o. o >>= λ responses. ok (r ∷ responses)) es,
          (reply, replies),
        )
