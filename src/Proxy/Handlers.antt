-- ===== src/Proxy/Handlers.antt =====
-- The handlers of the proxy (AppProxy.cc).
use simcan2fog.Prelude.{
  ℕ, Bool, true, false, Option, none, some, List, [], ◌∷◌, map, length, get_elem?, ◌==◌,
  if◌then◌else◌, Name, name_key, nat_key, lookup, insert, erase, Outcome, ok, fault, runtime_error,
  undefined, or_fault, ◌>>=◌,
}
use simcan2fog.Proxy.{
  ServiceEntry, register_service, unregister_service, ConnectionType, passthrough, edge, Connection,
  SessionState, init, pending, established, Packet, IndicationKind, available, established_kind,
  other_kind, Indication, Session, new_session, push_to_pending_queue, set_session_pending,
  set_session_established, Sent, packet_to_transport, command_to_transport, accept_socket,
  service_unavailable, packet_to_app, indication_to_app, notice, AppProxy, find_connection,
  find_socket_gate_index,
}

-- The operation of a ProxyServiceRequest.
pub data ProxyOperation : Type 0 where
  register unregister : ProxyOperation

pub data CommandKind : Type 0 where
  open_active open_passive accept close : CommandKind
  other_command : ℕ → CommandKind

-- handleServiceRequest
unfoldable pub handle_service_request :
    ProxyOperation → Name → ℕ → ℕ → ℕ → AppProxy → Outcome (AppProxy × List Sent)
handle_service_request register name ip port socket_id p =
    let told = register_service name ip port p.services in
    or_fault (lookup socket_id p.connections) runtime_error >>= λ c. ok (
      record p {
        services = told.0;
        connections = insert socket_id (record c { ip = ip; port = port }) p.connections;
      },
      map notice told.1,
    )
handle_service_request unregister name ip port socket_id p =
    unregister_service name ip port p.services >>= λ told.
    ok (record p { services = told.0 }, map notice told.1)

-- The opening of a socket, of the connection that it may already have.
abbrev pub open_socket :
    Bool → ℕ → ℕ → AppProxy → Option Connection → Outcome (AppProxy × List Sent)
open_socket active socket_id gate p (some c) = fault runtime_error
open_socket active socket_id gate p none =
    let c : Connection = record {
      socket_id = socket_id;
      gate_index = gate;
      ip = 0;
      port = 0;
      type_of = if active then passthrough else edge;
    } in
    ok (
      record p { connections = insert socket_id c p.connections },
      if active then command_to_transport socket_id ∷ [] else [],
    )

-- The packets that waited, to the gate of the session: one without a gate is -1.
abbrev pub flush : List Packet → Option ℕ → Outcome (List Sent)
flush [] gate = ok []
flush (packet ∷ packets) none = fault undefined
flush (packet ∷ packets) (some gate) = ok (map (packet_to_app gate) (packet ∷ packets))

abbrev pub accept_session : ℕ → AppProxy → Session → Outcome (AppProxy × List Sent)
accept_session socket_id p s =
    let done = set_session_established s in
    flush done.1 s.gate_index >>= λ sent.
    ok (record p { sessions = insert socket_id done.0 p.sessions }, sent)

abbrev pub sent_on_close : ConnectionType → ℕ → List Sent
sent_on_close edge socket_id = command_to_transport socket_id ∷ []
sent_on_close passthrough socket_id = []

abbrev pub close_session : ℕ → AppProxy → Option Session → Outcome (AppProxy × List Sent)
close_session socket_id p none = fault runtime_error
close_session socket_id p (some s) =
    ok (record p { sessions = erase socket_id p.sessions }, command_to_transport socket_id ∷ [])

abbrev pub close_socket :
    ℕ → AppProxy → Option Connection → Option Session → Outcome (AppProxy × List Sent)
close_socket socket_id p (some c) s =
    ok (record p { connections = erase socket_id p.connections }, sent_on_close c.type_of socket_id)
close_socket socket_id p none s = close_session socket_id p s

-- handleAppCommand, of a command at an index of the application gates. Another kind of TCP command is
-- dropped.
abbrev pub handle_kind : CommandKind → ℕ → ℕ → AppProxy → Outcome (AppProxy × List Sent)
handle_kind open_active socket_id gate p =
    open_socket true socket_id gate p (lookup socket_id p.connections)
handle_kind open_passive socket_id gate p =
    open_socket false socket_id gate p (lookup socket_id p.connections)
handle_kind accept socket_id gate p =
    or_fault (lookup socket_id p.sessions) runtime_error >>= accept_session socket_id p
handle_kind close socket_id gate p =
    close_socket socket_id p (lookup socket_id p.connections) (lookup socket_id p.sessions)
handle_kind (other_command n) socket_id gate p = ok (p, [])

unfoldable pub handle_app_command :
    Bool → CommandKind → ℕ → ℕ → AppProxy → Outcome (AppProxy × List Sent)
unfolding set_session_established
handle_app_command is_tcp kind socket_id gate p =
    if is_tcp then handle_kind kind socket_id gate p else fault runtime_error

-- handleAppPacket
abbrev pub handle_app_packet : Packet → AppProxy → AppProxy × List Sent
handle_app_packet packet p = (p, packet_to_transport packet ∷ [])

module _ (draw : ℕ → ℕ) (remove_end : Name → Name → Name) where
  -- The test of the last character of the service name: back() of an empty text is undefined.
  abbrev pub strip_dot : Name → Outcome Name
  strip_dot [] = fault undefined
  strip_dot (c ∷ []) = ok (if c == b'.' then [] else c ∷ [])
  strip_dot (c ∷ d ∷ cs) = strip_dot (d ∷ cs) >>= λ rest. ok (c ∷ rest)

  -- getServiceName
  abbrev pub service_name : Name → Option Name → Outcome Name
  service_name domain none = ok []
  service_name domain (some host) = strip_dot (remove_end host domain)

  -- handleSessionInitialize, with selectIp: `draw` gives an index for the number of entries.
  unfoldable pub handle_session_initialize :
      Session → List ServiceEntry → Packet → AppProxy → Outcome (AppProxy × List Sent)
  unfolding set_session_pending push_to_pending_queue find_connection
  handle_session_initialize s entries packet p =
      or_fault (get_elem? entries (draw (length entries))) undefined >>= λ e.
      or_fault (find_connection e.ip e.port p.connections) runtime_error >>= (λ c.
        let bound = set_session_pending c.gate_index s in
        or_fault bound.1 undefined >>= (λ ind. ok (
          record p {
            sessions = insert packet.socket_id (push_to_pending_queue packet bound.0) p.sessions;
          },
          indication_to_app c.gate_index (record ind { socket_id = c.socket_id }) ∷ [],
        )))

  -- sendServiceUnavailable needs the REST request of the packet.
  abbrev pub send_service_unavailable : Session → Packet → AppProxy → Outcome (AppProxy × List Sent)
  send_service_unavailable s packet p = or_fault packet.host runtime_error >>= λ host.
      ok (p, service_unavailable s.socket_id host ∷ [])

  abbrev pub on_service :
      Session → Packet → AppProxy → Option (List ServiceEntry) → Outcome (AppProxy × List Sent)
  on_service s packet p none = send_service_unavailable s packet p
  on_service s packet p (some entries) = handle_session_initialize s entries packet p

  abbrev pub forward_packet : Packet → AppProxy → Outcome (AppProxy × List Sent)
  forward_packet packet p =
      find_socket_gate_index packet.socket_id p >>= λ gate. ok (p, packet_to_app gate packet ∷ [])

  abbrev pub in_state : SessionState → Session → Packet → AppProxy → Outcome (AppProxy × List Sent)
  in_state established s packet p = forward_packet packet p
  in_state init s packet p = service_name p.services.domain packet.host >>= λ name.
      on_service s packet p (lookup name p.services.service_map)
  in_state pending s packet p = ok (
    record p { sessions = insert packet.socket_id (push_to_pending_queue packet s) p.sessions },
    [],
  )

  abbrev pub in_session : Option Session → Packet → AppProxy → Outcome (AppProxy × List Sent)
  in_session none packet p = forward_packet packet p
  in_session (some s) packet p = in_state s.state s packet p

  -- handleTransportPacket
  unfoldable pub handle_transport_packet : Packet → AppProxy → Outcome (AppProxy × List Sent)
  unfolding handle_session_initialize find_socket_gate_index push_to_pending_queue
  handle_transport_packet packet p = in_session (lookup packet.socket_id p.sessions) packet p

-- The branches of handleTransportIndication: the server socket, a connection, a session.
abbrev pub emplace : ℕ → Session → List (ℕ × Session) → Option Session → List (ℕ × Session)
emplace k s m (some old) = m
emplace k s m none = insert k s m

abbrev pub on_server_socket :
    Indication → AppProxy → IndicationKind → Outcome (AppProxy × List Sent)
on_server_socket ind p (available new_socket) = ok (
  record p {
    sessions =
        emplace new_socket (new_session new_socket ind) p.sessions (lookup new_socket p.sessions);
  },
  accept_socket new_socket ∷ [],
)
on_server_socket ind p established_kind = fault runtime_error
on_server_socket ind p (other_kind n) = fault runtime_error

-- A session that is not established yet takes only the indication that it is.
abbrev pub unless_established : IndicationKind → AppProxy → Outcome (AppProxy × List Sent)
unless_established established_kind p = ok (p, [])
unless_established (available n) p = fault runtime_error
unless_established (other_kind n) p = fault runtime_error

abbrev pub indication_in_state :
    SessionState → Session → Indication → AppProxy → Outcome (AppProxy × List Sent)
indication_in_state established s ind p =
    or_fault s.gate_index undefined >>= λ gate. ok (p, indication_to_app gate ind ∷ [])
indication_in_state init s ind p = unless_established ind.kind p
indication_in_state pending s ind p = unless_established ind.kind p

abbrev pub on_session_socket :
    Option Session → Indication → AppProxy → Outcome (AppProxy × List Sent)
on_session_socket none ind p = fault runtime_error
on_session_socket (some s) ind p = indication_in_state s.state s ind p

abbrev pub on_socket : Option Connection → Indication → AppProxy → Outcome (AppProxy × List Sent)
on_socket (some c) ind p = ok (p, indication_to_app c.gate_index ind ∷ [])
on_socket none ind p = on_session_socket (lookup ind.socket_id p.sessions) ind p

unfoldable pub handle_transport_indication : Indication → AppProxy → Outcome (AppProxy × List Sent)
handle_transport_indication ind p =
    if ind.socket_id == p.server_socket
    then on_server_socket ind p ind.kind
    else on_socket (lookup ind.socket_id p.connections) ind p
