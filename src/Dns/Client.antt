-- ===== src/Dns/Client.antt =====
-- The client that sends a query to its servers, one after the other
-- (src/s2f/architecture/dns/client/DnsClientService.{h,cc}). Addresses and packets are numbers. A map of
-- requests is the list of its entries in the order of their ids.
pub mod Retries
pub mod Servers
use simcan2fog.Prelude.{
  ℕ, zero, suc, ◌+◌, Bool, true, false, Option, none, some, List, [], ◌∷◌, ◌++◌, length, get_elem?,
  ltb, leb, ◌==◌, if◌then◌else◌, ◌&&◌, nat_key, lookup, erase, Outcome, ok, fault, failed_assert,
  undefined, or_fault, ◌>>=◌,
}

-- RequestContext
pub record RequestContext : Type 0 where
  pub servers : List ℕ
  pub tick : ℕ
  pub tries : ℕ
  pub selected_address : ℕ
  pub packet : ℕ

-- DnsClientCommand
pub record DnsClientCommand : Type 0 where
  pub request_id : ℕ
  pub ip_pool : List ℕ
  pub payload : ℕ

pub data DnsClientResult : Type 0 where
  ok_result error_result : DnsClientResult

-- What the client sends: a packet to a server, and the indication of an answer.
pub data Sent : Type 0 where
  send_to : ℕ → ℕ → Sent
  indicate : ℕ → ℕ → Sent

pub record DnsClient : Type 0 where
  pub requests : List (ℕ × RequestContext)
  pub failed_servers : List ℕ
  pub is_ticking : Bool
  pub ticks_for_time_out : ℕ
  pub max_attempts : ℕ

abbrev pub new_context : DnsClientCommand → RequestContext
new_context request = record {
  servers = request.ip_pool;
  tick = 0;
  tries = 0;
  selected_address = 0;
  packet = request.payload;
}

-- updateWithFailedAttempt
abbrev pub next_server : RequestContext → RequestContext × Bool
next_server ctx =
    let next : RequestContext = record ctx { selected_address = suc ctx.selected_address } in
    if leb (length ctx.servers) next.selected_address
    then (next, false)
    else (record next { tries = 0 }, true)

unfoldable pub update_with_failed_attempt : ℕ → RequestContext → RequestContext × Bool
update_with_failed_attempt max_attempts ctx =
    if leb max_attempts ctx.tries then next_server ctx else (ctx, true)

abbrev pub is_in : ℕ → List ℕ → Bool
is_in a [] = false
is_in a (b ∷ bs) = if a == b then true else is_in a bs

abbrev pub drop : ℕ → List ℕ → List ℕ
drop zero xs = xs
drop (suc n) [] = []
drop (suc n) (x ∷ xs) = drop n xs

-- The loop of sendRequest over the servers from the selected one on. Its test reads the server before
-- it asks whether to continue.
unfoldable pub skip_failed :
    List ℕ → List ℕ → Bool → RequestContext → Outcome (RequestContext × Bool)
unfolding update_with_failed_attempt
skip_failed failed [] continues ctx = fault undefined
skip_failed failed (s ∷ rest) continues ctx =
    let next = update_with_failed_attempt 0 ctx in
    let after = skip_failed failed rest next.1 next.0 in
    if is_in s failed && continues then after else ok (ctx, continues)

-- sendRequest
abbrev pub transmit : RequestContext × Bool → Outcome (RequestContext × Bool × List Sent)
transmit (ctx, false) = ok (ctx, false, [])
transmit (ctx, true) = or_fault (get_elem? ctx.servers ctx.selected_address) undefined >>= λ s.
    ok (record ctx { tries = suc ctx.tries }, true, send_to ctx.packet s ∷ [])

unfoldable pub send_request : List ℕ → RequestContext → Outcome (RequestContext × Bool × List Sent)
unfolding skip_failed
send_request failed ctx =
    skip_failed failed (drop ctx.selected_address ctx.servers) true ctx >>= transmit

-- sendResponse asserts that the result is OK, with a payload.
abbrev pub send_response : ℕ → DnsClientResult → Option ℕ → Outcome (List Sent)
send_response id ok_result (some packet) = ok (indicate id packet ∷ [])
send_response id ok_result none = fault failed_assert
send_response id error_result payload = fault failed_assert

-- requestMap.emplace: the map, and whether the entry is new.
abbrev pub emplace : ℕ → RequestContext → List (ℕ × RequestContext) → List (ℕ × RequestContext)
emplace id ctx [] = (id, ctx) ∷ []
emplace id ctx ((j, other) ∷ m) =
    let rest = emplace id ctx m in
    if ltb id j
    then (id, ctx) ∷ (j, other) ∷ m
    else if id == j
    then (j, other) ∷ m
    else (j, other) ∷ rest

-- handleRequest: what sendRequest answers is not read.
abbrev pub enter :
    DnsClientCommand → DnsClient → Option RequestContext → Outcome (DnsClient × List Sent)
enter request c (some old) = ok (record c { is_ticking = true }, [])
enter request c none =
    send_request c.failed_servers (new_context request) >>= λ (ctx, continues, sent).
    ok (record c { is_ticking = true; requests = emplace request.request_id ctx c.requests }, sent)

unfoldable pub handle_request : DnsClientCommand → DnsClient → Outcome (DnsClient × List Sent)
unfolding send_request
handle_request request c = enter request c (lookup request.request_id c.requests)

-- A request of processRequests that has timed out: it goes on, or ends with an error.
abbrev pub attempted :
    ℕ → RequestContext × Bool × List Sent → Outcome (Option RequestContext × List Sent)
attempted id (ctx, true, sent) = ok (some ctx, sent)
attempted id (ctx, false, sent) =
    send_response id error_result none >>= λ told. ok (none, sent ++ told)

abbrev pub attempt :
    ℕ → List ℕ → RequestContext × Bool → Outcome (Option RequestContext × List Sent)
attempt id failed (ctx, true) = send_request failed ctx >>= attempted id
attempt id failed (ctx, false) = attempted id (ctx, false, [])

abbrev pub after_tick :
    Bool → ℕ → RequestContext → DnsClient → Outcome (Option RequestContext × List Sent)
after_tick false id ctx c = ok (some ctx, [])
after_tick true id ctx c =
    attempt id c.failed_servers
      (update_with_failed_attempt c.max_attempts (record ctx { tick = 0 }))

abbrev pub on_tick : ℕ → RequestContext → DnsClient → Outcome (Option RequestContext × List Sent)
on_tick id ctx c =
    after_tick (suc ctx.tick == c.ticks_for_time_out) id (record ctx { tick = suc ctx.tick }) c

abbrev pub keep : ℕ → Option RequestContext → List (ℕ × RequestContext) → List (ℕ × RequestContext)
keep id none m = m
keep id (some ctx) m = (id, ctx) ∷ m

-- The loop of processRequests over the map.
unfoldable pub process_all :
    DnsClient → List (ℕ × RequestContext) → Outcome (List (ℕ × RequestContext) × List Sent)
unfolding send_request update_with_failed_attempt
process_all c [] = ok ([], [])
process_all c ((id, ctx) ∷ m) = on_tick id ctx c >>= λ (kept, sent).
    process_all c m >>= (λ rest. ok (keep id kept rest.0, sent ++ rest.1))

-- processRequests
unfoldable pub process_requests : DnsClient → Outcome (DnsClient × List Sent)
unfolding process_all
process_requests c = process_all c c.requests >>= λ done.
    ok (record c { requests = done.0; failed_servers = [] }, done.1)

-- handleMessageWhenUp, for the timer, which is set again first.
abbrev pub handle_tick : DnsClient → Outcome (DnsClient × List Sent)
handle_tick c = process_requests (record c { is_ticking = true })

abbrev pub is_empty : List (ℕ × RequestContext) → Bool
is_empty [] = true
is_empty (e ∷ m) = false

-- socketDataArrived, with the id of the request in the packet, if it has one.
abbrev pub answer_with : ℕ → ℕ → DnsClient → Option RequestContext → Outcome (DnsClient × List Sent)
answer_with id packet c none = ok (c, [])
answer_with id packet c (some ctx) = send_response id ok_result (some packet) >>= λ told.
    let left = erase id c.requests in
    ok (
      record c { requests = left; is_ticking = if is_empty left then false else c.is_ticking },
      told,
    )

unfoldable pub socket_data_arrived : Option ℕ → ℕ → DnsClient → Outcome (DnsClient × List Sent)
socket_data_arrived none packet c = ok (c, [])
socket_data_arrived (some id) packet c = answer_with id packet c (lookup id c.requests)

-- socketErrorArrived
unfoldable pub socket_error_arrived : ℕ → DnsClient → DnsClient
socket_error_arrived address c = record c {
  failed_servers =
      if is_in address c.failed_servers then c.failed_servers else address ∷ c.failed_servers;
}
