-- ===== src/Dns/Client/Servers.antt =====
-- What ends a request: its answer, or servers that cannot be reached (DnsClientService.cc).
use simcan2fog.Prelude.{
  ℕ, suc, ◌+◌, ◌≡◌, refl, ap, ◌∙◌, true, false, none, some, List, [], ◌∷◌, length, leb,
  if◌then◌else◌, nat_key, lookup, lookup-erase, erase, ok, fault, undefined, arith,
}
use simcan2fog.Dns.Client.{
  RequestContext, DnsClientCommand, indicate, DnsClient, is_in, skip_failed, new_context, enter,
  handle_request, is_empty, answer_with, socket_data_arrived,
}

-- All servers of a list have been reported as failed.
abbrev pub AllFailed : List ℕ → List ℕ → Type 0
AllFailed failed [] = Unit {0}
AllFailed failed (s ∷ servers) = (is_in s failed ≡ true) × AllFailed failed servers

skips_all :
    (failed servers : List ℕ) (ctx : RequestContext)
    → AllFailed failed servers
    → ctx.selected_address + length servers ≡ length ctx.servers
    → skip_failed failed servers true ctx ≡ fault undefined
unfolding skip_failed
skips_all failed [] ctx a h = refl
skips_all failed (s ∷ []) ctx a h = rw a.0 refl
skips_all failed (s ∷ r ∷ servers) ctx a h =
    let spent : leb 0 ctx.tries ≡ true = ground arith in
    let another : leb (length ctx.servers) (suc ctx.selected_address) ≡ false = ground arith in
    rw (a.0, spent, another)
      (skips_all failed (r ∷ servers)
        (record ctx { selected_address = suc ctx.selected_address; tries = 0 }) a.1 (omega arith))

-- A request is not refused when all of its servers have been reported as failed, or it has none: the
-- client reads a server behind the last one.
pub all_failed :
    (request : DnsClientCommand) (c : DnsClient)
    → lookup request.request_id c.requests ≡ none
    → AllFailed c.failed_servers request.ip_pool
    → handle_request request c ≡ fault undefined
unfolding handle_request
all_failed request c new a =
    ap (enter request c) new
    ∙ rw (skips_all c.failed_servers request.ip_pool (new_context request) a (omega arith)) refl

-- The answer to a pending request is passed on once: the request is then gone, and a second answer is
-- dropped.
pub answered_once :
    (id first second : ℕ) (c : DnsClient) (ctx : RequestContext)
    → lookup id c.requests ≡ some ctx
    → (d : DnsClient) × (socket_data_arrived (some id) first c ≡ ok (d, indicate id first ∷ []))
      × (lookup id d.requests ≡ none)
      × (socket_data_arrived (some id) second d ≡ ok (d, []))
unfolding socket_data_arrived
answered_once id first second c ctx pending = (
  record c {
    requests = erase id c.requests;
    is_ticking = if is_empty (erase id c.requests) then false else c.is_ticking;
  },
  ap (answer_with id first c) pending,
  lookup-erase id c.requests,
  ap (answer_with id second _) (lookup-erase id c.requests),
)
