-- ===== src/Proxy/Services.antt =====
-- Registering and unregistering the endpoints of a service (ServiceTable.cc), and what a session meets
-- when the last one is gone (AppProxy.cc).
use simcan2fog.Prelude.{
  ℕ, suc, ◌≡◌, refl, sym, ap, ◌∙◌, Bool, true, false, some, List, [], ◌∷◌, ◌++◌, length, get_elem?,
  set, ◌==◌, Name, name_key, nat_key, lookup, lookup-insert, Outcome, ok, fault, undefined, arith,
  length-append,
}
use simcan2fog.Proxy.{
  ServiceEntry, service_entry, same_id, ServiceTable, Notice, service_registered,
  service_unregistered, entries_of, with_entries, notices_if, register_service, find_entry, back,
  pop_back, remove_entry, is_empty, unregister_service, Packet, Session, init, AppProxy,
}
use simcan2fog.Proxy.Handlers.{service_name, in_session, handle_transport_packet}

-- No endpoint of a list has the address.
abbrev pub Lacks : ServiceEntry → List ServiceEntry → Type 0
Lacks key [] = Unit {0}
Lacks key (e ∷ es) = (same_id e key ≡ false) × Lacks key es

same_id_refl : (e : ServiceEntry) → same_id e e ≡ true
same_id_refl e = ground arith

find_entry_last :
    (key : ServiceEntry) (es : List ServiceEntry)
    → Lacks key es
    → find_entry key (es ++ key ∷ []) ≡ length es
unfolding find_entry
find_entry_last key [] l = rw (same_id_refl key) refl
find_entry_last key (e ∷ es) l = rw l.0 (ap suc (find_entry_last key es l.1))

get_elem?-last {ℓ} :
    {A : Type ℓ} (xs : List A) (x : A) → get_elem? (xs ++ x ∷ []) (length xs) ≡ some x
get_elem?-last [] x = refl
get_elem?-last (y ∷ ys) x = get_elem?-last ys x

set-last {ℓ} : {A : Type ℓ} (xs : List A) (x : A) → set (xs ++ x ∷ []) (length xs) x ≡ xs ++ x ∷ []
set-last [] x = refl
set-last (y ∷ ys) x = ap (◌∷◌ y) (set-last ys x)

back-append : (es : List ServiceEntry) (e : ServiceEntry) → back (es ++ e ∷ []) ≡ some e
back-append [] e = refl
back-append (d ∷ []) e = refl
back-append (d ∷ f ∷ es) e = back-append (f ∷ es) e

pop_back-append : (es : List ServiceEntry) (e : ServiceEntry) → pop_back (es ++ e ∷ []) ≡ es
pop_back-append [] e = refl
pop_back-append (d ∷ []) e = refl
pop_back-append (d ∷ f ∷ es) e = ap (◌∷◌ d) (pop_back-append (f ∷ es) e)

remove_last :
    (key : ServiceEntry) (es : List ServiceEntry)
    → Lacks key es
    → remove_entry key (es ++ key ∷ []) ≡ ok es
unfolding remove_entry
remove_last key es l =
    rw
      (
        find_entry_last key es l,
        get_elem?-last es key,
        back-append es key,
        set-last es key,
        pop_back-append es key,
      )
      refl

-- Whether nobody offered the service yet.
abbrev pub was_unoffered : List ServiceEntry → Bool
was_unoffered entries = length entries == 0

abbrev gone_notices : Name → List ServiceEntry → ServiceTable → List Notice
gone_notices name es t =
    notices_if (was_unoffered es) (λ s. service_unregistered s name) t.subscribers

finish_removal :
    (name : Name) (t : ServiceTable) (es : List ServiceEntry)
    → Path
        (Outcome (ServiceTable × List Notice))
        (ok (
          with_entries name es t,
          notices_if (is_empty es) (λ s. service_unregistered s name) t.subscribers,
        ))
        (ok (with_entries name es t, gone_notices name es t))
finish_removal name t [] = refl
finish_removal name t (e ∷ es) =
    let offered : was_unoffered (e ∷ es) ≡ false = ground arith in
    ap
      (λ b. ok (
        with_entries name (e ∷ es) t,
        notices_if b (λ s. service_unregistered s name) t.subscribers,
      ))
      (sym offered)

unregister_last :
    (name : Name) (ip port : ℕ) (t : ServiceTable) (es : List ServiceEntry)
    → Lacks (service_entry ip port) es
    → entries_of name t ≡ es ++ service_entry ip port ∷ []
    → unregister_service name ip port t ≡ ok (with_entries name es t, gone_notices name es t)
unfolding unregister_service
unregister_last name ip port t es l at_end =
    rw (at_end, remove_last (service_entry ip port) es l) (finish_removal name t es)

one_more :
    (es : List ServiceEntry) (e : ServiceEntry) → (length (es ++ e ∷ []) == 1) ≡ was_unoffered es
one_more [] e = refl
one_more (d ∷ es) e = ground (arith, length-append es (e ∷ []))

-- A new endpoint that is registered and unregistered leaves the endpoints of its service as they were.
-- The subscribers are told that the service came, and that it went, exactly if nobody else offers it.
pub unregister-register_service :
    (name : Name) (ip port : ℕ) (t : ServiceTable)
    → Lacks (service_entry ip port) (entries_of name t)
    → (u : ServiceTable) × (unregister_service name ip port (register_service name ip port t).0
        ≡ ok (
          u,
          notices_if
              (was_unoffered (entries_of name t))
              (λ s. service_unregistered s name)
              t.subscribers,
        ))
      × (lookup name u.service_map ≡ some (entries_of name t))
      × ((register_service name ip port t).1
          ≡ notices_if
              (was_unoffered (entries_of name t))
              (λ s. service_registered s name)
              t.subscribers)
unfolding register_service
unregister-register_service name ip port t l =
    let es = entries_of name t in
    let key = service_entry ip port in
    let after = with_entries name (es ++ key ∷ []) t in
    let at_end : entries_of name after ≡ es ++ key ∷ [] =
      rw (entries_of, lookup-insert name (es ++ key ∷ []) t.service_map) refl in
    (
      with_entries name es after,
      unregister_last name ip port after es l at_end,
      lookup-insert name es after.service_map,
      ap (λ b. notices_if b (λ s. service_registered s name) t.subscribers) (one_more es key),
    )

-- When the last endpoint of a service has been unregistered, a session that asks for the service is
-- not told that it is unavailable: the proxy reads an entry of an empty vector, whatever is drawn.
pub stale_service :
    (draw : ℕ → ℕ) (remove_end : Name → Name → Name) (p : AppProxy) (packet : Packet) (s : Session)
    (name : Name) (ip port : ℕ) (before t : ServiceTable) (told : List Notice)
    → entries_of name before ≡ service_entry ip port ∷ []
    → unregister_service name ip port before ≡ ok (t, told)
    → p.services ≡ t
    → lookup packet.socket_id p.sessions ≡ some s
    → s.state ≡ init
    → service_name draw remove_end p.services.domain packet.host ≡ ok name
    → handle_transport_packet draw remove_end packet p ≡ fault undefined
unfolding handle_transport_packet
stale_service draw remove_end p packet s name ip port before t told one gone same session at_init
      asked =
    ap (λ o. in_session draw remove_end o packet p) session
    ∙ rw (at_init, asked, same, no_entries) refl
  where
    no_entries : lookup name t.service_map ≡ some []
    no_entries =
        let same_table : t ≡ with_entries name [] before =
          cc (gone, unregister_last name ip port before [] tt one) in
        ap (λ u. lookup name u.service_map) same_table ∙ lookup-insert name [] before.service_map
