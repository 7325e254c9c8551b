-- ===== src/Tests/Proxies.antt =====
-- A session at the proxy, and services that come and go.
use simcan2fog.Prelude.{
  ℕ, ◌≡◌, refl, true, none, some, [], ◌∷◌, map, Name, name_key, name_beq, lookup, ok, fault,
  undefined,
}
use simcan2fog.Proxy.{
  service_entry, ServiceTable, service_registered, service_unregistered, entries_of,
  register_service, unregister_service, remove_entry, find_entry, edge, Connection, Packet,
  available, Indication, new_session, packet_to_app, indication_to_app, AppProxy, find_connection,
}
use simcan2fog.Proxy.Handlers.{accept, handle_app_command, handle_transport_packet}
use simcan2fog.Proxy.Services.{unregister-register_service, stale_service}
use simcan2fog.Proxy.Sessions.{receive_all, IsOpening, session_delivers}

abbrev web : Name
web = b'w' ∷ []

abbrev offered : ServiceTable
offered = record {
  service_map = (web, service_entry 10 80 ∷ []) ∷ [];
  subscribers = 1 ∷ 2 ∷ [];
  domain = [];
}

abbrev nothing_offered : ServiceTable
nothing_offered = record offered { service_map = [] }

unregister-register_service_example :
    (u : ServiceTable) × (unregister_service web 10 80
        (register_service web 10 80 nothing_offered).0
      ≡ ok (u, service_unregistered 1 web ∷ service_unregistered 2 web ∷ []))
    × (lookup web u.service_map ≡ some [])
    × ((register_service web 10 80 nothing_offered).1
        ≡ service_registered 1 web ∷ service_registered 2 web ∷ [])
unregister-register_service_example = unregister-register_service web 10 80 nothing_offered tt

-- The first of the entries, and no domain to take off.
abbrev first_entry : ℕ → ℕ
first_entry n = 0

abbrev whole_host : Name → Name → Name
whole_host host domain = host

abbrev ind : Indication
ind = record { id = 9; socket_id = 1; kind = available 5 }

abbrev endpoint : Connection
endpoint = record { socket_id = 3; gate_index = 7; ip = 10; port = 80; type_of = edge }

abbrev proxy : AppProxy
proxy = record {
  connections = (3, endpoint) ∷ [];
  sessions = (5, new_session 5 ind) ∷ [];
  server_socket = 1;
  services = offered;
}

abbrev packet : ℕ → Packet
packet id = record { id = id; socket_id = 5; host = some web }

connected : find_connection 10 80 proxy.connections ≡ some endpoint
unfolding find_connection
connected = refl

web_offered : lookup web proxy.services.service_map ≡ some (service_entry 10 80 ∷ [])
unfolding name_beq
web_offered = refl

abbrev opening : IsOpening first_entry whole_host proxy (packet 1)
opening = record {
  ind = ind;
  gate_index = none;
  name = web;
  entries = service_entry 10 80 ∷ [];
  entry = service_entry 10 80;
  endpoint = endpoint;
  session = refl;
  no_connection = refl;
  asked = refl;
  offered = web_offered;
  drawn = refl;
  connected = connected;
}

session_delivers_example :
    (q r : AppProxy) × (receive_all first_entry whole_host (packet 1 ∷ packet 2 ∷ []) proxy
      ≡ ok (q, indication_to_app 7 (record ind { socket_id = 3 }) ∷ []))
    × (handle_app_command true accept 5 7 q
        ≡ ok (r, map (packet_to_app 7) (packet 1 ∷ packet 2 ∷ [])))
    × (handle_transport_packet first_entry whole_host (packet 3) r
        ≡ ok (r, packet_to_app 7 (packet 3) ∷ []))
session_delivers_example =
    session_delivers first_entry whole_host (packet 1) (packet 2 ∷ []) (packet 3) 7 proxy opening
      (refl, tt) refl

-- The only endpoint has gone.
abbrev gone : ServiceTable
gone = record offered { service_map = (web, []) ∷ [] }

has_gone :
    unregister_service web 10 80 offered
    ≡ ok (gone, service_unregistered 1 web ∷ service_unregistered 2 web ∷ [])
unfolding unregister_service remove_entry find_entry name_beq
has_gone = refl

web_entries : entries_of web offered ≡ service_entry 10 80 ∷ []
unfolding name_beq
web_entries = refl

stale_service_example :
    handle_transport_packet first_entry whole_host (packet 1) (record proxy { services = gone })
    ≡ fault undefined
stale_service_example =
    stale_service first_entry whole_host (record proxy { services = gone }) (packet 1)
      (new_session 5 ind) web 10 80 offered gone
      (service_unregistered 1 web ∷ service_unregistered 2 web ∷ []) web_entries has_gone refl refl
      refl refl
