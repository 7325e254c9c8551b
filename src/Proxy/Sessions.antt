-- ===== src/Proxy/Sessions.antt =====
-- The sessions of the proxy, from the first packet to the established connection (AppProxy.cc,
-- Session.cc).
use mathlib.Core.List.{append-nil, append_assoc}
use simcan2fog.Prelude.{
  ℕ, ◌≡◌, refl, sym, subst, ap, ◌∙◌, true, Option, none, some, List, [], ◌∷◌, ◌++◌, map, length,
  get_elem?, Name, name_key, nat_key, lookup, insert, lookup-insert, Outcome, ok, runtime_error,
  or_fault, ◌>>=◌,
}
use simcan2fog.Proxy.{
  ServiceEntry, Connection, init, pending, established, Packet, Indication, Session, Sent,
  packet_to_app, indication_to_app, AppProxy, find_connection, find_socket_gate_index, session_gate,
  gate_of,
}
use simcan2fog.Proxy.Handlers.{
  accept, accept_session, handle_app_command, service_name, in_session, handle_transport_packet,
}

module _ (draw : ℕ → ℕ) (remove_end : Name → Name → Name) where
  -- The packets of a list, one after the other.
  abbrev pub receive_all : List Packet → AppProxy → Outcome (AppProxy × List Sent)
  receive_all [] p = ok (p, [])
  receive_all (packet ∷ packets) p = handle_transport_packet draw remove_end packet p >>= λ r.
      receive_all packets r.0 >>= (λ rest. ok (rest.0, r.1 ++ rest.1))

  abbrev pub AllOn : ℕ → List Packet → Type 0
  AllOn k [] = Unit {0}
  AllOn k (packet ∷ packets) = (packet.socket_id ≡ k) × AllOn k packets

  module _ (k socket gate : ℕ) where
    -- A session that is bound to the endpoint at the gate, and the packets that wait for it.
    abbrev bound : List Packet → Session
    bound waiting = record {
      socket_id = socket;
      gate_index = some gate;
      state = pending;
      socket_ind = none;
      pending_queue = waiting;
    }

    record IsBound (p : AppProxy) (waiting : List Packet) : Type 0 where
      session : lookup k p.sessions ≡ some (bound waiting)
      no_connection : lookup k p.connections ≡ none

    receive_waiting :
        (packets : List Packet) (p : AppProxy) (waiting : List Packet)
        → AllOn k packets
        → IsBound p waiting
        → (q : AppProxy) × (receive_all packets p ≡ ok (q, [])) × IsBound q (waiting ++ packets)
    unfolding handle_transport_packet
    receive_waiting [] p waiting a b = (p, refl, subst (IsBound p) (sym (append-nil waiting)) b)
    receive_waiting (packet ∷ packets) p waiting (on, rest) b =
        let next : AppProxy = record p {
          sessions = insert packet.socket_id (bound (waiting ++ packet ∷ [])) p.sessions;
        } in
        let step : handle_transport_packet draw remove_end packet p ≡ ok (next, []) =
          ap (λ o. in_session draw remove_end o packet p)
            (ap (λ j. lookup j p.sessions) on ∙ b.session) in
        let (q, run, kept) = receive_waiting packets next (waiting ++ packet ∷ []) rest (record {
          session =
              ap (λ j. lookup j next.sessions) (sym on)
              ∙ lookup-insert packet.socket_id (bound (waiting ++ packet ∷ [])) p.sessions;
          no_connection = b.no_connection;
        }) in
        (
          q,
          rw (step, run) refl,
          subst (IsBound q) (append_assoc waiting (packet ∷ []) packets) kept,
        )

    -- A packet for an established session goes straight to its endpoint.
    abbrev open_session : Session
    open_session = record (bound []) { state = established }

    established_forwards :
        (packet : Packet) (p : AppProxy)
        → packet.socket_id ≡ k
        → lookup k p.sessions ≡ some open_session
        → lookup k p.connections ≡ none
        → handle_transport_packet draw remove_end packet p ≡ ok (p, packet_to_app gate packet ∷ [])
    unfolding handle_transport_packet
    established_forwards packet p on session no_connection =
        ap (λ o. in_session draw remove_end o packet p) (ap (λ j. lookup j p.sessions) on ∙ session)
        ∙ ap (λ o. o >>= λ gate. ok (p, packet_to_app gate packet ∷ [])) gate_found
      where
        gate_found : find_socket_gate_index packet.socket_id p ≡ ok gate
        gate_found =
            ap (λ j. find_socket_gate_index j p) on
            ∙ ap (gate_of k p) no_connection
            ∙ ap session_gate session

    accepting :
        (app : ℕ) (p : AppProxy) (waiting : List Packet)
        → IsBound p waiting
        → (q : AppProxy) × (handle_app_command true accept k app p
            ≡ ok (q, map (packet_to_app gate) waiting))
          × (lookup k q.sessions ≡ some open_session)
          × (lookup k q.connections ≡ none)
    unfolding handle_app_command
    accepting app p waiting b = (
      record p { sessions = insert k open_session p.sessions },
      ap (λ o. or_fault o runtime_error >>= accept_session k p) b.session ∙ flushed waiting,
      lookup-insert k open_session p.sessions,
      b.no_connection,
    )
      where
        flushed :
            (w : List Packet)
            → accept_session k p (bound w)
              ≡ ok (
                record p { sessions = insert k open_session p.sessions },
                map (packet_to_app gate) w,
              )
        flushed [] = refl
        flushed (packet ∷ packets) = refl

  -- A session that has been accepted from the transport layer and not bound, whose first packet asks
  -- for a service with an endpoint at a connection.
  pub record IsOpening (p : AppProxy) (first : Packet) : Type 0 where
    pub ind : Indication
    pub gate_index : Option ℕ
    pub name : Name
    pub entries : List ServiceEntry
    pub entry : ServiceEntry
    pub endpoint : Connection
    pub session :
        lookup first.socket_id p.sessions
        ≡ some (record {
          socket_id = first.socket_id;
          gate_index = gate_index;
          state = init;
          socket_ind = some ind;
          pending_queue = [];
        })
    pub no_connection : lookup first.socket_id p.connections ≡ none
    pub asked : service_name draw remove_end p.services.domain first.host ≡ ok name
    pub offered : lookup name p.services.service_map ≡ some entries
    pub drawn : get_elem? entries (draw (length entries)) ≡ some entry
    pub connected : find_connection entry.ip entry.port p.connections ≡ some endpoint

  abbrev first_bound : (first : Packet) (p : AppProxy) → IsOpening p first → AppProxy
  first_bound first p o = record p {
    sessions =
        insert first.socket_id
          (bound first.socket_id first.socket_id o.endpoint.gate_index (first ∷ [])) p.sessions;
  }

  binding :
      (first : Packet) (p : AppProxy) (o : IsOpening p first)
      → handle_transport_packet draw remove_end first p
        ≡ ok (
          first_bound first p o,
          indication_to_app o.endpoint.gate_index
                (record (o.ind) { socket_id = o.endpoint.socket_id })
              ∷ [],
        )
  unfolding handle_transport_packet
  binding first p o =
      ap (λ s. in_session draw remove_end s first p) o.session
      ∙ rw (o.asked, o.offered, o.drawn, o.connected) refl

  -- The first packet of a session asks its endpoint to open, and it and all that follow wait. When the
  -- endpoint accepts, they go to it, all of them and in the order of their arrival, and every later
  -- packet goes to it at once.
  pub session_delivers :
      (first : Packet) (packets : List Packet) (later : Packet) (app : ℕ) (p : AppProxy)
      (o : IsOpening p first)
      → AllOn first.socket_id packets
      → later.socket_id ≡ first.socket_id
      → (q r : AppProxy) × (receive_all (first ∷ packets) p
          ≡ ok (
            q,
            indication_to_app o.endpoint.gate_index
                  (record (o.ind) { socket_id = o.endpoint.socket_id })
                ∷ [],
          ))
        × (handle_app_command true accept first.socket_id app q
            ≡ ok (r, map (packet_to_app o.endpoint.gate_index) (first ∷ packets)))
        × (handle_transport_packet draw remove_end later r
            ≡ ok (r, packet_to_app o.endpoint.gate_index later ∷ []))
  session_delivers first packets later app p o on later_on =
      let gate = o.endpoint.gate_index in
      let k = first.socket_id in
      let b : IsBound k k gate (first_bound first p o) (first ∷ []) = record {
        session = lookup-insert k (bound k k gate (first ∷ [])) p.sessions;
        no_connection = o.no_connection;
      } in
      let (q, run, waits) =
        receive_waiting k k gate packets (first_bound first p o) (first ∷ []) on b in
      let (r, accepted, is_open, alone) = accepting k k gate app q (first ∷ packets) waits in
      (
        q,
        r,
        rw (binding first p o, run) refl,
        accepted,
        established_forwards k k gate later r later_on is_open alone,
      )
