-- ===== src/Dns/Resolver/Failures.antt =====
-- What clients are told when something fails (DnsResolverService.cc).
use simcan2fog.Prelude.{
  ℕ, ◌≡◌, refl, String, Bool, false, some, List, [], ◌∷◌, Name, nat_key, lookup, erase, Outcome, ok,
}
use simcan2fog.Dns.Server.{DnsQuestion, DnsRequest, nxdomain}
use simcan2fog.Dns.Names.{ResourceRecord}
use simcan2fog.Dns.Resolver.{Resolution, Sent, reply, DnsResolver}
use simcan2fog.Dns.Resolver.Handlers.{mark_failed_resolutions}

module _ (labels : Name → List String) (ends_with : Name → Name → Bool)
    (get_question : ℕ → List DnsQuestion → Outcome DnsQuestion)
    (insert_set : ResourceRecord → List ResourceRecord → List ResourceRecord) (fuel : ℕ) where
  -- The resolutions are open, each with a response that has not been sent.
  abbrev pub AllOpen : List ℕ → List (ℕ × Resolution) → Type 0
  AllOpen [] m = Unit {0}
  AllOpen (id ∷ ids) m =
      (r : Resolution) × (response : DnsRequest ResourceRecord) × (lookup id m ≡ some r)
      × (r.response ≡ some response)
      × (r.is_sent ≡ false)
      × AllOpen ids (erase id m)

  -- One reply for each resolution, in order: to its client, with its response and the code 3 of RFC 1035.
  abbrev pub AllUnknown : List ℕ → List (ℕ × Resolution) → List Sent → Type 0
  AllUnknown [] m [] = Unit {0}
  AllUnknown [] m (s ∷ sent) = ⊥
  AllUnknown (id ∷ ids) m [] = ⊥
  AllUnknown (id ∷ ids) m (s ∷ sent) =
      (r : Resolution) × (response : DnsRequest ResourceRecord) × (lookup id m ≡ some r)
      × (r.response ≡ some response)
      × (s
          ≡ reply r.remote_address r.remote_port
              (record response { return_code = 3; is_authoritative = false }))
      × AllUnknown ids (erase id m) sent

  abbrev pub without : List ℕ → List (ℕ × Resolution) → List (ℕ × Resolution)
  without [] m = m
  without (id ∷ ids) m = without ids (erase id m)

  -- However the servers have failed, each client of the resolutions that waited for them, which are open
  -- and not answered yet, gets one reply, in order: its own response, with the code of a name that does
  -- not exist. Then these resolutions are gone, and nothing else has changed.
  pub failures_are_unknown_names :
      (code : ℕ) (ids : List ℕ) (d : DnsResolver)
      → AllOpen ids d.resolutions
      → (sent : List Sent) × (mark_failed_resolutions labels ends_with get_question insert_set fuel
            code ids d
          ≡ ok (record d { resolutions = without ids d.resolutions }, sent))
        × AllUnknown ids d.resolutions sent
  unfolding mark_failed_resolutions
  failures_are_unknown_names code [] d open_ones = ([], refl, tt)
  failures_are_unknown_names code (id ∷ ids) d (r, response, there, waits, unsent, open_ones) =
      let (sent, run, all) =
        failures_are_unknown_names code ids (record d { resolutions = erase id d.resolutions })
          open_ones in
      (
        reply r.remote_address r.remote_port
              (record response { return_code = nxdomain; is_authoritative = false })
            ∷ sent,
        rw (there, waits, unsent, run) refl,
        (r, response, there, waits, refl, all),
      )
