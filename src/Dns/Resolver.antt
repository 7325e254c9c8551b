-- ===== src/Dns/Resolver.antt =====
-- The state of the resolver, and its questions (src/s2f/architecture/dns/resolver/{DnsResolverService.cc,Resolution.h}). Its maps are
-- association lists, and the records of a zone a list in the order of the set. Parameters: the labels of
-- a name, the comparison of the end of a text, the insertion into a set of records, and the generated
-- accessor of the questions of a message.
pub mod Processing
pub mod Handlers
pub mod Failures
pub mod Single
pub mod Lost
pub mod Answers
pub mod Aliases
use simcan2fog.Prelude.{
  ℕ, zero, suc, ◌+◌, ◌%◌, String, Bool, true, false, Option, none, some, List, [], ◌∷◌, ◌++◌, map,
  ltb, ◌==◌, if◌then◌else◌, ◌&&◌, ◌||◌, Name, name_key, nat_key, lookup, insert, erase, Outcome, ok,
  fault, runtime_error, failed_assert, undefined, or_fault, ◌>>=◌,
}
use simcan2fog.Dns.{DnsTreeNode, dns_node, records, get_child, search_records, insert_record}
use simcan2fog.Dns.Server.{
  DnsQuestion, DnsRequest, query, noerror, formerr, nxdomain, set_return_code,
}
use simcan2fog.Dns.Names.{
  ResourceRecord, ns, cname, root_level, authoritative_level, get_question_for_level,
  matches_authority_domain, match_with_wildcard,
}

pub data ResolutionState : Type 0 where
  init tld_resolution ns_resolution auth_resolution resolved not_found server_error :
      ResolutionState

-- Resolution. A default one has no response. `is_sent` says that the response is in a packet: INET makes
-- a chunk of a packet immutable.
pub record Resolution : Type 0 where
  pub id : ℕ
  pub remote_address : ℕ
  pub remote_port : ℕ
  pub current_question : DnsQuestion
  pub state : ResolutionState
  pub response : Option (DnsRequest ResourceRecord)
  pub is_sent : Bool

abbrev pub default_resolution : Resolution
default_resolution = record {
  id = 0;
  remote_address = 0;
  remote_port = 0;
  current_question = record { domain = []; question_type = 0 };
  state = init;
  response = none;
  is_sent = false;
}

-- hasFinished
abbrev pub has_finished : ResolutionState → Bool
has_finished resolved = true
has_finished not_found = true
has_finished _ = false

-- What leaves the resolver: the response to a client, and a command with its id, its question and the
-- servers to ask.
pub data Sent : Type 0 where
  reply : ℕ → ℕ → DnsRequest ResourceRecord → Sent
  command : ℕ → DnsQuestion → List ℕ → Sent

pub record DnsResolver : Type 0 where
  pub database : DnsTreeNode (List ResourceRecord)
  pub resolutions : List (ℕ × Resolution)
  pub question_map : List (Name × ℕ)
  pub request_map : List (ℕ × List ℕ)
  pub last_id : ℕ
  pub last_question_id : ℕ

-- ++ on uint16_t
abbrev pub next_id : ℕ → ℕ
next_id n = (n + 1) % 65536

-- The return code that sendResponse sets, whatever was there.
abbrev pub code_of : ResolutionState → ℕ
code_of resolved = noerror
code_of not_found = nxdomain
code_of _ = 2

abbrev pub answered : Resolution → DnsRequest ResourceRecord → Resolution × List Sent
answered r response =
    let told : DnsRequest ResourceRecord = record response {
      return_code = code_of r.state;
      is_authoritative = false;
    } in
    (
      record r { response = some told; is_sent = true },
      reply r.remote_address r.remote_port told ∷ [],
    )

-- The response, where it may be changed: a change of an immutable chunk is an error.
abbrev pub unless_sent : Bool → DnsRequest ResourceRecord → Outcome (DnsRequest ResourceRecord)
unless_sent true response = fault runtime_error
unless_sent false response = ok response

abbrev pub response_for_update : Resolution → Outcome (DnsRequest ResourceRecord)
response_for_update r = or_fault r.response undefined >>= unless_sent r.is_sent

-- sendResponse
unfoldable pub send_response : Resolution → Outcome (Resolution × List Sent)
send_response r =
    if has_finished r.state
    then (response_for_update r >>= λ response. ok (answered r response))
    else fault runtime_error

-- makeTransition
unfoldable pub make_transition : ResolutionState → Resolution → Outcome (Resolution × List Sent)
unfolding send_response
make_transition state r =
    let next : Resolution = record r { state = state } in
    elim (has_finished state) [ true ↦ send_response next | false ↦ ok (next, []) ]

-- A set of ids, in ascending order.
abbrev pub set_insert : ℕ → List ℕ → List ℕ
set_insert i [] = i ∷ []
set_insert i (j ∷ js) =
    let rest = set_insert i js in
    if ltb i j then i ∷ j ∷ js else if i == j then j ∷ js else j ∷ rest

-- requestMap[key].insert(id)
abbrev pub waits_for : ℕ → ℕ → DnsResolver → DnsResolver
waits_for key id d = record d {
  request_map =
      insert key (set_insert id (elim (lookup key d.request_map) [ none ↦ [] | some ids ↦ ids ]))
        d.request_map;
}

abbrev pub level_of : DnsTreeNode (List ResourceRecord) → ℕ
level_of (dns_node domain level cs rs) = level

-- The addresses of the name servers among the records of a node on another level.
unfoldable pub name_servers : List ResourceRecord → List ℕ
name_servers [] = []
name_servers (r ∷ rs) =
    let rest = name_servers rs in if r.record_type == ns then r.ip ∷ rest else rest

-- Those that have the authority over the domain.
abbrev pub when_matches : ResourceRecord → Bool → List ℕ → List ℕ
when_matches r false rest = rest
when_matches r true rest = r.ip ∷ rest

unfoldable pub authorities : Name → List ResourceRecord → Outcome (List ℕ)
unfolding matches_authority_domain
authorities domain [] = ok []
authorities domain (r ∷ rs) =
    let rest = authorities domain rs in
    if r.record_type == ns
    then (matches_authority_domain r domain >>= λ b. rest >>= (λ ips. ok (when_matches r b ips)))
    else rest

module _ (labels : Name → List String) where
  -- The records of the parent of a node that has been found for the domain: getRecords is null for none.
  abbrev pub parent_records :
      List String → DnsTreeNode (List ResourceRecord) → Outcome (List ResourceRecord)
  parent_records [] root = fault undefined
  parent_records (l ∷ ls) root = or_fault (get_child l root) undefined >>= λ n. elim (records n) [
    | [] ↦ fault undefined
    | r ∷ rs ↦ ok (r ∷ rs)
  ]

  unfoldable pub servers_for :
      DnsQuestion → DnsTreeNode (List ResourceRecord) → DnsResolver → Outcome (List ℕ)
  unfolding authorities name_servers
  servers_for question node d =
      if level_of node == authoritative_level
      then (parent_records (labels question.domain) d.database >>= authorities question.domain)
      else ok (name_servers (records node))

  -- The rest of registerQuestion, for a question that has not been asked yet.
  abbrev pub ask : Name → DnsQuestion → ℕ → DnsResolver → List ℕ → Outcome (DnsResolver × List Sent)
  ask q question id d [] = fault failed_assert
  ask q question id d (ip ∷ ips) = ok (
    waits_for id id (record d {
      question_map = insert q id d.question_map;
      last_question_id = next_id d.last_question_id;
    }),
    command d.last_question_id question (ip ∷ ips) ∷ [],
  )

  abbrev pub ask_or_wait :
      Name
      → DnsQuestion
      → DnsTreeNode (List ResourceRecord)
      → ℕ
      → DnsResolver
      → Option ℕ
      → Outcome (DnsResolver × List Sent)
  ask_or_wait q question node id d (some key) = ok (waits_for key id d, [])
  ask_or_wait q question node id d none = servers_for question node d >>= ask q question id d

  -- registerQuestion
  unfoldable pub register_question :
      DnsQuestion
      → DnsTreeNode (List ResourceRecord)
      → ℕ
      → DnsResolver
      → Outcome (DnsResolver × List Sent)
  unfolding get_question_for_level servers_for
  register_question question node id d =
      get_question_for_level question.domain (level_of node) >>= λ q.
      ask_or_wait q question node id d (lookup q d.question_map)
