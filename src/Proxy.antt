-- ===== src/Proxy.antt =====
-- The proxy between the applications of a node and its transport layer
-- (src/s2f/architecture/net/stack/proxy/{ServiceTable,Session,AppProxy}.{h,cc}). The drawing of an
-- endpoint and the removal of the domain from a host name are parameters; gates are numbers. An ip or
-- a port is an int and a 32-bit word by turns, so it is one below 2^31.
pub mod Handlers
pub mod Services
pub mod Sessions
use simcan2fog.Prelude.{
  ℕ, suc, ◌%◌, String, Bool, true, false, Option, none, some, List, [], ◌∷◌, ◌++◌, map, length,
  get_elem?, set, ltb, ◌==◌, if◌then◌else◌, ◌&&◌, Name, name_key, nat_key, lookup, insert, erase,
  u32_mod, Outcome, ok, fault, runtime_error, undefined, or_fault, ◌>>=◌,
}

-- ServiceEntry, of two 32-bit words; two entries have the same id when both words are the same.
pub record ServiceEntry : Type 0 where
  pub ip : ℕ
  pub port : ℕ

abbrev pub service_entry : ℕ → ℕ → ServiceEntry
service_entry ip port = record { ip = ip % u32_mod; port = port % u32_mod }

abbrev pub same_id : ServiceEntry → ServiceEntry → Bool
same_id a b = a.ip == b.ip && a.port == b.port

-- `subscribers` are the numbers of those that want to be told.
pub record ServiceTable : Type 0 where
  pub service_map : List (Name × List ServiceEntry)
  pub subscribers : List ℕ
  pub domain : Name

pub data Notice : Type 0 where
  service_registered service_unregistered : ℕ → Name → Notice

-- serviceMap[name]
abbrev pub entries_of : Name → ServiceTable → List ServiceEntry
entries_of name t = elim (lookup name t.service_map) [ none ↦ [] | some entries ↦ entries ]

abbrev pub with_entries : Name → List ServiceEntry → ServiceTable → ServiceTable
with_entries name entries t = record t { service_map = insert name entries t.service_map }

abbrev pub notices_if : Bool → (ℕ → Notice) → List ℕ → List Notice
notices_if false notice subscribers = []
notices_if true notice subscribers = map notice subscribers

-- registerService
unfoldable pub register_service : Name → ℕ → ℕ → ServiceTable → ServiceTable × List Notice
register_service name ip port t =
    let entries = entries_of name t ++ service_entry ip port ∷ [] in
    (
      with_entries name entries t,
      notices_if (length entries == 1) (λ s. service_registered s name) t.subscribers,
    )

-- std::find_if, as an index that is the length where there is none.
unfoldable pub find_entry : ServiceEntry → List ServiceEntry → ℕ
find_entry key [] = 0
find_entry key (e ∷ es) = let rest = find_entry key es in if same_id e key then 0 else suc rest

-- back()
abbrev pub back : List ServiceEntry → Option ServiceEntry
back [] = none
back (e ∷ []) = some e
back (e ∷ f ∷ es) = back (f ∷ es)

-- pop_back()
abbrev pub pop_back : List ServiceEntry → List ServiceEntry
pop_back [] = []
pop_back (e ∷ []) = []
pop_back (e ∷ f ∷ es) = e ∷ pop_back (f ∷ es)

-- std::swap(*iter, entries.back()) and pop_back: the end iterator must not be read.
unfoldable pub remove_entry : ServiceEntry → List ServiceEntry → Outcome (List ServiceEntry)
unfolding find_entry
remove_entry key entries =
    or_fault (get_elem? entries (find_entry key entries)) undefined >>= λ found.
    or_fault (back entries) undefined
    >>= (λ last. ok (pop_back (set entries (find_entry key entries) last)))

abbrev pub is_empty : List ServiceEntry → Bool
is_empty [] = true
is_empty (e ∷ es) = false

-- unregisterService
unfoldable pub unregister_service :
    Name → ℕ → ℕ → ServiceTable → Outcome (ServiceTable × List Notice)
unfolding remove_entry
unregister_service name ip port t =
    remove_entry (service_entry ip port) (entries_of name t) >>= λ entries. ok (
      with_entries name entries t,
      notices_if (is_empty entries) (λ s. service_unregistered s name) t.subscribers,
    )

pub data ConnectionType : Type 0 where
  passthrough edge : ConnectionType

pub record Connection : Type 0 where
  pub socket_id : ℕ
  pub gate_index : ℕ
  pub ip : ℕ
  pub port : ℕ
  pub type_of : ConnectionType

pub data SessionState : Type 0 where
  init pending established : SessionState

-- A packet; `host` is that of its REST request, if it has one.
pub record Packet : Type 0 where
  pub id : ℕ
  pub socket_id : ℕ
  pub host : Option Name

pub data IndicationKind : Type 0 where
  available : ℕ → IndicationKind
  established_kind : IndicationKind
  other_kind : ℕ → IndicationKind

pub record Indication : Type 0 where
  pub id : ℕ
  pub socket_id : ℕ
  pub kind : IndicationKind

-- Session; a null queue is an empty one, which delivers nothing either.
pub record Session : Type 0 where
  pub socket_id : ℕ
  pub gate_index : Option ℕ
  pub state : SessionState
  pub socket_ind : Option Indication
  pub pending_queue : List Packet

abbrev pub new_session : ℕ → Indication → Session
new_session socket_id ind = record {
  socket_id = socket_id;
  gate_index = none;
  state = init;
  socket_ind = some ind;
  pending_queue = [];
}

unfoldable pub push_to_pending_queue : Packet → Session → Session
push_to_pending_queue packet s = record s { pending_queue = s.pending_queue ++ packet ∷ [] }

unfoldable pub set_session_pending : ℕ → Session → Session × Option Indication
set_session_pending gate s =
    (record s { state = pending; socket_ind = none; gate_index = some gate }, s.socket_ind)

unfoldable pub set_session_established : Session → Session × List Packet
set_session_established s = (record s { state = established; pending_queue = [] }, s.pending_queue)

-- What leaves the proxy; `to_app` names the index of the gate of the application.
pub data Sent : Type 0 where
  packet_to_transport : Packet → Sent
  command_to_transport : ℕ → Sent
  accept_socket : ℕ → Sent
  service_unavailable : ℕ → Name → Sent
  packet_to_app : ℕ → Packet → Sent
  indication_to_app : ℕ → Indication → Sent
  notice : Notice → Sent

pub record AppProxy : Type 0 where
  pub connections : List (ℕ × Connection)
  pub sessions : List (ℕ × Session)
  pub server_socket : ℕ
  pub services : ServiceTable

-- findConnection: the first that matches, in the order of the sockets.
abbrev pub earlier : Connection → Option Connection → Option Connection
earlier c none = some c
earlier c (some d) = if ltb d.socket_id c.socket_id then some d else some c

unfoldable pub find_connection : ℕ → ℕ → List (ℕ × Connection) → Option Connection
find_connection ip port [] = none
find_connection ip port ((k, c) ∷ m) =
    let rest = find_connection ip port m in
    if c.ip == ip && c.port == port then earlier c rest else rest

-- findSocketGateIndex; the gate of a session that has none is -1.
abbrev pub session_gate : Option Session → Outcome ℕ
session_gate none = fault runtime_error
session_gate (some s) = or_fault s.gate_index undefined

abbrev pub gate_of : ℕ → AppProxy → Option Connection → Outcome ℕ
gate_of socket_id p (some c) = ok c.gate_index
gate_of socket_id p none = session_gate (lookup socket_id p.sessions)

unfoldable pub find_socket_gate_index : ℕ → AppProxy → Outcome ℕ
find_socket_gate_index socket_id p = gate_of socket_id p (lookup socket_id p.connections)
