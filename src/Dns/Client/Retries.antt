-- ===== src/Dns/Client/Retries.antt =====
-- How often, and in which order, a request is sent (DnsClientService.cc).
use simcan2fog.Prelude.{
  ℕ, zero, suc, ◌+◌, ◌≡◌, ◌<◌, refl, ap, ◌∙◌, Bool, true, false, Option, some, List, [], ◌∷◌, ◌++◌,
  map, length, get_elem?, replicate, length-append, Outcome, ok, fault, failed_assert, ◌>>=◌, ◌==◌,
  leb, arith,
}
use mathlib.Core.List.{append_assoc}
use simcan2fog.Dns.Client.{
  RequestContext, Sent, send_to, DnsClient, update_with_failed_attempt, drop, skip_failed,
  send_request, handle_request, keep, attempted, after_tick, process_all, process_requests,
  handle_tick,
}

-- Every server, as often as it is tried, in order.
abbrev pub attempts : ℕ → List ℕ → List ℕ
attempts max_attempts [] = []
attempts max_attempts (s ∷ servers) = replicate max_attempts s ++ attempts max_attempts servers

-- The timer expires, again and again.
abbrev pub ticks : ℕ → DnsClient → Outcome (DnsClient × List Sent)
ticks zero c = ok (c, [])
ticks (suc n) c = handle_tick c >>= λ r. ticks n r.0 >>= (λ rest. ok (rest.0, r.1 ++ rest.1))

-- So many times the number of ticks for a time out.
abbrev pub rounds : ℕ → DnsClient → Outcome (DnsClient × List Sent)
rounds zero c = ok (c, [])
rounds (suc n) c =
    ticks c.ticks_for_time_out c >>= λ r. rounds n r.0 >>= (λ rest. ok (rest.0, r.1 ++ rest.1))

bind_ok : (m : Outcome (DnsClient × List Sent)) → (m >>= λ r. ok (r.0, r.1)) ≡ m
bind_ok (ok r) = refl
bind_ok (fault e) = refl

module _ (t m id packet : ℕ) where
  abbrev pub client : List (ℕ × RequestContext) → DnsClient
  client requests = record {
    requests = requests;
    failed_servers = [];
    is_ticking = true;
    ticks_for_time_out = suc t;
    max_attempts = suc m;
  }

  -- The context at a server, with those before it and after it.
  abbrev context : List ℕ → ℕ → List ℕ → ℕ → ℕ → RequestContext
  context gone s rest tries tick = record {
    servers = gone ++ s ∷ rest;
    tick = tick;
    tries = tries;
    selected_address = length gone;
    packet = packet;
  }

  abbrev waiting : List ℕ → ℕ → List ℕ → ℕ → ℕ → DnsClient
  waiting gone s rest tries tick = client ((id, context gone s rest tries tick) ∷ [])

  -- What a tick makes of the result for its only request.
  abbrev kept : Option RequestContext × List Sent → Outcome (List (ℕ × RequestContext) × List Sent)
  kept r = ok (keep id r.0 [], r.1 ++ [])

  abbrev over : List (ℕ × RequestContext) × List Sent → Outcome (DnsClient × List Sent)
  over r = ok (client r.0, r.1)

  abbrev told : Option RequestContext × List Sent → Outcome (DnsClient × List Sent)
  told r = ok (client (keep id r.0 []), r.1 ++ [])

  joined :
      (o : Outcome (Option RequestContext × List Sent)) → ((o >>= kept) >>= over) ≡ (o >>= told)
  joined (ok r) = refl
  joined (fault e) = refl

  drop-length :
      (gone : List ℕ) (s : ℕ) (rest : List ℕ) → drop (length gone) (gone ++ s ∷ rest) ≡ s ∷ rest
  drop-length [] s rest = refl
  drop-length (g ∷ gone) s rest = drop-length gone s rest

  get_elem?-length :
      (gone : List ℕ) (s : ℕ) (rest : List ℕ) → get_elem? (gone ++ s ∷ rest) (length gone) ≡ some s
  get_elem?-length [] s rest = refl
  get_elem?-length (g ∷ gone) s rest = get_elem?-length gone s rest

  sends :
      (gone : List ℕ) (s : ℕ) (rest : List ℕ) (tries : ℕ)
      → send_request [] (context gone s rest tries 0)
        ≡ ok (context gone s rest (suc tries) 0, true, send_to packet s ∷ [])
  unfolding send_request skip_failed
  sends gone s rest tries = rw (drop-length gone s rest, get_elem?-length gone s rest) refl

  module _ (gone : List ℕ) (s : ℕ) (rest : List ℕ) (tries : ℕ) where
    from_tick :
        (tick : ℕ) (b : Bool)
        → (suc tick == suc t) ≡ b
        → handle_tick (waiting gone s rest tries tick) ≡ (
            after_tick b id (context gone s rest tries (suc tick)) (waiting gone s rest tries tick)
            >>= told)
    unfolding process_requests process_all
    from_tick tick b e =
        ap
          (λ b.
            (after_tick b id (context gone s rest tries (suc tick)) (waiting gone s rest tries tick)
              >>= kept)
            >>= over)
          e
        ∙ joined (
            after_tick b id (context gone s rest tries (suc tick)) (waiting gone s rest tries tick))

    quiet :
        (k : ℕ)
        → k < t
        → handle_tick (waiting gone s rest tries k) ≡ ok (waiting gone s rest tries (suc k), [])
    quiet k h = from_tick k false (ground arith)

    -- The ticks up to the time out do nothing.
    until_time_out :
        (d k : ℕ)
        → k + d ≡ t
        → ticks (suc d) (waiting gone s rest tries k)
          ≡ (handle_tick (waiting gone s rest tries t) >>= λ r. ok (r.0, r.1 ++ []))
    until_time_out zero k h =
        ap (λ j. handle_tick (waiting gone s rest tries j) >>= λ r. ok (r.0, r.1 ++ []))
          (let same : k ≡ t = omega arith in same)
    until_time_out (suc d) k h =
        ap (λ o. o >>= λ r. ticks (suc d) r.0 >>= (λ rest. ok (rest.0, r.1 ++ rest.1)))
          (quiet k (omega arith))
        ∙ bind_ok (ticks (suc d) (waiting gone s rest tries (suc k)))
        ∙ until_time_out d (suc k) (omega arith)

    -- At the time out: the same server again while it has tries left.
    again :
        tries < suc m
        → handle_tick (waiting gone s rest tries t)
          ≡ ok (waiting gone s rest (suc tries) 0, send_to packet s ∷ [])
    unfolding update_with_failed_attempt
    again h =
        let left : leb (suc m) tries ≡ false = ground arith in
        from_tick t true (ground arith) ∙ rw (left, sends gone s rest tries) refl

  -- Then the next one, and after the last a failed assertion.
  out_of_tries : leb (suc m) (suc m) ≡ true
  out_of_tries = ground arith

  moves_on :
      (gone : List ℕ) (s r : ℕ) (rest : List ℕ)
      → handle_tick (waiting gone s (r ∷ rest) (suc m) t)
        ≡ ok (waiting (gone ++ s ∷ []) r rest 1 0, send_to packet r ∷ [])
  unfolding update_with_failed_attempt
  moves_on gone s r rest =
      let there : leb (length (gone ++ s ∷ r ∷ rest)) (suc (length gone)) ≡ false =
        ground (arith, length-append gone (s ∷ r ∷ rest)) in
      from_tick gone s (r ∷ rest) (suc m) t true (ground arith)
      ∙ rw (out_of_tries, there)
          (ap (λ c. send_request [] c >>= attempted id >>= told) next
            ∙ rw (sends (gone ++ s ∷ []) r rest 0) refl)
    where
      next :
          Path RequestContext
            (record {
              servers = gone ++ s ∷ r ∷ rest;
              tick = 0;
              tries = 0;
              selected_address = suc (length gone);
              packet = packet;
            })
            (context (gone ++ s ∷ []) r rest 0 0)
      next =
          let place : suc (length gone) ≡ length (gone ++ s ∷ []) =
            omega (arith, length-append gone (s ∷ [])) in
          rw (append_assoc gone (s ∷ []) (r ∷ rest), place) refl

  gives_up :
      (gone : List ℕ) (s : ℕ) → handle_tick (waiting gone s [] (suc m) t) ≡ fault failed_assert
  unfolding update_with_failed_attempt
  gives_up gone s =
      let none_left : leb (length (gone ++ s ∷ [])) (suc (length gone)) ≡ true =
        ground (arith, length-append gone (s ∷ [])) in
      from_tick gone s [] (suc m) t true (ground arith) ∙ rw (out_of_tries, none_left) refl

  -- What is still sent: the tries that are left at a server, and all of them at each after it.
  abbrev plan : ℕ → ℕ → List ℕ → List ℕ
  plan zero s [] = []
  plan zero s (r ∷ rest) = r ∷ plan m r rest
  plan (suc left) s rest = s ∷ plan left s rest

  plan-attempts :
      (left s : ℕ) (rest : List ℕ) → plan left s rest ≡ replicate left s ++ attempts (suc m) rest
  plan-attempts zero s [] = refl
  plan-attempts zero s (r ∷ rest) = ap (◌∷◌ r) (plan-attempts m r rest)
  plan-attempts (suc left) s rest = ap (◌∷◌ s) (plan-attempts left s rest)

  one_round :
      (gone : List ℕ) (s : ℕ) (rest : List ℕ) (tries : ℕ) (c : DnsClient) (sent : Sent)
      → handle_tick (waiting gone s rest tries t) ≡ ok (c, sent ∷ [])
      → ticks (suc t) (waiting gone s rest tries 0) ≡ ok (c, sent ∷ [])
  one_round gone s rest tries c sent h =
      until_time_out gone s rest tries t 0 (omega arith)
      ∙ ap (λ o. o >>= λ r. ok (r.0, r.1 ++ [])) h

  -- The rounds that follow the plan, and the one after them.
  abbrev Follows : DnsClient → List ℕ → Type 0
  Follows c todo =
      (last : DnsClient) × (rounds (length todo) c ≡ ok (last, map (send_to packet) todo))
      × (ticks (suc t) last ≡ fault failed_assert)

  extend-Follows :
      (requests : List (ℕ × RequestContext)) (d : DnsClient) (s : ℕ) (todo : List ℕ)
      → ticks (suc t) (client requests) ≡ ok (d, send_to packet s ∷ [])
      → Follows d todo
      → Follows (client requests) (s ∷ todo)
  extend-Follows requests d s todo h (last, run, end) = (last, rw (h, run) refl, end)

  all_rounds :
      (left : ℕ) (gone : List ℕ) (s : ℕ) (rest : List ℕ) (tries : ℕ)
      → tries + left ≡ suc m
      → Follows (waiting gone s rest tries 0) (plan left s rest)
  all_rounds zero gone s [] tries h =
      let full : tries ≡ suc m = omega arith in
      (
        waiting gone s [] tries 0,
        refl,
        until_time_out gone s [] tries t 0 (omega arith)
            ∙ ap (λ o. o >>= λ r. ok (r.0, r.1 ++ []))
                (ap (λ n. handle_tick (waiting gone s [] n t)) full ∙ gives_up gone s),
      )
  all_rounds zero gone s (r ∷ rest) tries h =
      extend-Follows ((id, context gone s (r ∷ rest) tries 0) ∷ [])
        (waiting (gone ++ s ∷ []) r rest 1 0) r (plan m r rest)
        (one_round gone s (r ∷ rest) tries (waiting (gone ++ s ∷ []) r rest 1 0) (send_to packet r)
          (let full : tries ≡ suc m = omega arith in
            ap (λ n. handle_tick (waiting gone s (r ∷ rest) n t)) full ∙ moves_on gone s r rest))
        (all_rounds m (gone ++ s ∷ []) r rest 1 (omega arith))
  all_rounds (suc left) gone s rest tries h =
      extend-Follows ((id, context gone s rest tries 0) ∷ []) (waiting gone s rest (suc tries) 0) s
        (plan left s rest)
        (one_round gone s rest tries (waiting gone s rest (suc tries) 0) (send_to packet s)
          (again gone s rest tries (omega arith)))
        (all_rounds left gone s rest (suc tries) (omega arith))

  -- A client without requests that gets one.
  first_sent :
      (s : ℕ) (rest : List ℕ)
      → handle_request
          (record { request_id = id; ip_pool = s ∷ rest; payload = packet })
          (client [])
        ≡ ok (waiting [] s rest 1 0, send_to packet s ∷ [])
  unfolding handle_request
  first_sent s rest = refl

  -- As long as no answer comes and no server is reported as failed, a request goes to each of its
  -- servers in order, to each as often as there are attempts, once for each time out. Then, at one more
  -- time out, the client tells that the request has failed, and that is a failed assertion.
  pub retries :
      (s : ℕ) (rest : List ℕ)
      → (first last : DnsClient) × (more : List ℕ) × (s ∷ more ≡ attempts (suc m) (s ∷ rest))
        × (handle_request
              (record { request_id = id; ip_pool = s ∷ rest; payload = packet })
              (client [])
            ≡ ok (first, send_to packet s ∷ []))
        × (rounds (length more) first ≡ ok (last, map (send_to packet) more))
        × (ticks (suc t) last ≡ fault failed_assert)
  retries s rest =
      let (last, run, end) = all_rounds m [] s rest 1 (omega arith) in
      (
        waiting [] s rest 1 0,
        last,
        plan m s rest,
        ap (◌∷◌ s) (plan-attempts m s rest),
        first_sent s rest,
        run,
        end,
      )
