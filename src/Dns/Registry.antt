-- ===== src/Dns/Registry.antt =====
-- The database of the zones and the service that registers records in it
-- (src/s2f/architecture/dns/db/DnsDb.cc and registry/DnsRegistryService.cc, with the messages of
-- DnsRegistrationRequest.msg). The tokens of a name and the set of records are parameters. A packet is
-- the list of the requests that the queue takes from it.
pub mod Published
pub mod Answers
use simcan2fog.Prelude.{
  ℕ, String, Name, Bool, true, false, Option, none, some, List, [], ◌∷◌, Outcome, ok, fault,
  undefined, ◌>>=◌, ◌==◌,
}
use simcan2fog.Dns.{DnsTreeNode, insert_record, remove_record}

pub record DnsRegistrationRequest (R : Type 0) : Type 0 where
  pub verb : ℕ
  pub host : Name
  pub path : Name
  pub zone : Name
  pub registered : List R

abbrev pub put : ℕ
put = 2

abbrev pub delete : ℕ
delete = 3

-- RestfulResponse, in a packet for the connection that the request came on.
pub record RestfulResponse : Type 0 where
  pub connection : ℕ
  pub response_code : ℕ
  pub response_host : Name
  pub response_path : Name

abbrev pub response_ok : ℕ
response_ok = 200

abbrev pub internal_error : ℕ
internal_error = 503

-- The kinds of messages that handleMessage tells apart.
pub data RegistryMessage (R : Type 0) : Type 0 where
  peer_closed : ℕ → RegistryMessage R
  data_arrived : ℕ → List (DnsRegistrationRequest R) → RegistryMessage R
  available : RegistryMessage R
  other_indication : ℕ → RegistryMessage R

-- What the service does to the outside.
pub data RegistryAction : Type 0 where
  responds : RestfulResponse → RegistryAction
  accepts : RegistryAction

-- sendBack, for what dynamic_cast makes of the message: it is used without a test.
abbrev pub send_back : Option RestfulResponse → Outcome RegistryAction
send_back none = fault undefined
send_back (some response) = ok (responds response)

abbrev pub code_for : Bool → ℕ
code_for true = response_ok
code_for false = internal_error

module _ {R : Type 0} where
  abbrev pub response_to : ℕ → DnsRegistrationRequest R → Bool → RestfulResponse
  response_to connection request done = record {
    connection = connection;
    response_code = code_for done;
    response_host = request.host;
    response_path = request.path;
  }

module _ {R S : Type 0} (labels : Name → List String) (empty : S) (insert : R → S → S)
    (is_empty : S → Bool) (erase : R → S → S × Bool) where
  -- DnsDb::insertRecord
  abbrev pub db_insert_record : Name → R → DnsTreeNode S → DnsTreeNode S
  db_insert_record zone r root = insert_record empty (labels zone) (insert r) root

  -- DnsDb::removeRecord drops the result of the tree.
  abbrev pub db_remove_record : Name → R → DnsTreeNode S → Outcome (DnsTreeNode S)
  db_remove_record zone r root =
      remove_record is_empty (erase r) (labels zone) root >>= λ removed. ok removed.0

  -- The two loops of processRequest.
  unfoldable pub insert_all : Name → List R → DnsTreeNode S → DnsTreeNode S
  unfolding insert_record
  insert_all zone [] root = root
  insert_all zone (r ∷ rs) root = insert_all zone rs (db_insert_record zone r root)

  unfoldable pub remove_all : Name → List R → DnsTreeNode S → Outcome (DnsTreeNode S)
  unfolding remove_record
  remove_all zone [] root = ok root
  remove_all zone (r ∷ rs) root = db_remove_record zone r root >>= remove_all zone rs

  -- processRequest, given whether the verb is PUT and whether it is DELETE.
  abbrev pub process_verb :
      Bool → Bool → DnsRegistrationRequest R → DnsTreeNode S → Outcome (DnsTreeNode S × Bool)
  process_verb true is_delete request root =
      ok (insert_all request.zone request.registered root, true)
  process_verb false true request root =
      remove_all request.zone request.registered root >>= λ left. ok (left, true)
  process_verb false false request root = ok (root, false)

  unfoldable pub process_request :
      DnsRegistrationRequest R → DnsTreeNode S → Outcome (DnsTreeNode S × Bool)
  unfolding insert_all remove_all
  process_request request root =
      process_verb (request.verb == put) (request.verb == delete) request root

  -- The loop over the requests of a packet.
  unfoldable pub serve_requests :
      ℕ
      → List (DnsRegistrationRequest R)
      → DnsTreeNode S
      → Outcome (DnsTreeNode S × List RegistryAction)
  unfolding process_request
  serve_requests connection [] root = ok (root, [])
  serve_requests connection (request ∷ requests) root =
      process_request request root >>= λ processed.
      send_back (some (response_to connection request processed.1)) >>= λ sent.
      serve_requests connection requests processed.0 >>= (λ served. ok (served.0, sent ∷ served.1))

  -- handleMessage: to close the connection a request is sent, which is no packet.
  unfoldable pub handle_message :
      RegistryMessage R → DnsTreeNode S → Outcome (DnsTreeNode S × List RegistryAction)
  unfolding serve_requests
  handle_message (peer_closed connection) root = send_back none >>= λ sent. ok (root, sent ∷ [])
  handle_message (data_arrived connection requests) root = serve_requests connection requests root
  handle_message available root = ok (root, accepts ∷ [])
  handle_message (other_indication kind) root = ok (root, [])
