-- ===== src/Dns/Server.antt =====
-- The server of the zones (src/s2f/architecture/dns/server/DnsServiceSimplified.cc and the messages of
-- DnsRequest.msg). Parameters: the tokens of a name, the pattern of the authority, and the accessors
-- that opp_msgc generates for an array of a message. A set of records is the list of its elements in
-- the order of the set. A response is sent to the address that the packet came from, so a run of the
-- server is the list of the responses.
pub mod Filling
pub mod Answers
use simcan2fog.Prelude.{
  ℕ, zero, suc, String, Name, Bool, true, false, Option, none, some, List, [], ◌∷◌, length, Outcome,
  ok, ◌>>=◌, ◌==◌,
}
use simcan2fog.Dns.{DnsTreeNode, records, search_records}

pub record DnsQuestion : Type 0 where
  pub domain : Name
  pub question_type : ℕ

pub record DnsRequest (R : Type 0) : Type 0 where
  pub request_id : ℕ
  pub operation_code : ℕ
  pub return_code : ℕ
  pub is_authoritative : Bool
  pub question : List DnsQuestion
  pub non_authoritative_answer : List R
  pub authoritative_answer : List R

abbrev pub query : ℕ
query = 0

abbrev pub noerror : ℕ
noerror = 0

abbrev pub formerr : ℕ
formerr = 1

abbrev pub nxdomain : ℕ
nxdomain = 3

abbrev pub notimp : ℕ
notimp = 4

module _ {R : Type 0} where
  abbrev pub set_return_code : ℕ → DnsRequest R → DnsRequest R
  set_return_code code r = record r { return_code = code }

module _ {R : Type 0} (labels : Name → List String) (matches : Name → Bool)
    (resize : ℕ → List R → List R) (set_at : ℕ → R → List R → Outcome (List R)) where
  -- The loop over the records, from the index `i` on.
  unfoldable pub fill : ℕ → List R → List R → Outcome (List R)
  fill i [] answers = ok answers
  fill i (r ∷ rs) answers = set_at i r answers >>= fill (suc i) rs

  -- The branches of processRecords: both write to the authoritative answers.
  unfoldable pub answer_as : Bool → DnsRequest R → List R → Outcome (DnsRequest R)
  unfolding fill
  answer_as true response rs =
      fill 0 rs (resize (length rs) response.authoritative_answer) >>= (λ answers.
        ok (record response { is_authoritative = true; authoritative_answer = answers }))
  answer_as false response rs = fill 0 rs response.authoritative_answer >>= (λ answers.
      ok (record response {
        is_authoritative = false;
        non_authoritative_answer = resize (length rs) response.non_authoritative_answer;
        authoritative_answer = answers;
      }))

  -- processRecords
  unfoldable pub process_records : Name → DnsRequest R → List R → Outcome (DnsRequest R)
  unfolding answer_as
  process_records domain response rs = answer_as (matches domain) response rs

  -- What handleQuery does with the records of the node that it has found: getRecords is null for none.
  abbrev pub answer_records : Name → DnsRequest R → List R → Outcome (DnsRequest R)
  answer_records domain response [] = ok (set_return_code nxdomain response)
  answer_records domain response (r ∷ rs) =
      process_records domain response (r ∷ rs) >>= λ done. ok (set_return_code noerror done)

  abbrev pub answer_node :
      Name → DnsRequest R → Option (DnsTreeNode (List R)) → Outcome (DnsRequest R)
  answer_node domain response none = ok (set_return_code nxdomain response)
  answer_node domain response (some n) = answer_records domain response (records n)

  module _ (root : DnsTreeNode (List R)) where
    -- The test of the number of questions, and what follows it.
    abbrev pub answer_questions : DnsRequest R → List DnsQuestion → Outcome (DnsRequest R)
    answer_questions response [] = ok (set_return_code formerr response)
    answer_questions response (q ∷ []) =
        answer_node q.domain response (search_records (labels q.domain) root)
    answer_questions response (q ∷ p ∷ qs) = ok (set_return_code formerr response)

    -- handleQuery
    unfoldable pub handle_query : DnsRequest R → Outcome (DnsRequest R)
    unfolding process_records
    handle_query request = answer_questions request request.question

    -- handleNotImplemented
    abbrev pub handle_not_implemented : DnsRequest R → DnsRequest R
    handle_not_implemented request = set_return_code notimp request

    -- One round of the loop of socketDataArrived, given whether the operation is a query.
    abbrev pub serve : Bool → DnsRequest R → Outcome (DnsRequest R)
    serve true request = handle_query request
    serve false request = ok (handle_not_implemented request)

    -- socketDataArrived, for the requests in the packet.
    unfoldable pub socket_data_arrived : List (DnsRequest R) → Outcome (List (DnsRequest R))
    unfolding handle_query
    socket_data_arrived [] = ok []
    socket_data_arrived (request ∷ requests) =
        serve (request.operation_code == query) request >>= λ response.
        socket_data_arrived requests >>= (λ responses. ok (response ∷ responses))
