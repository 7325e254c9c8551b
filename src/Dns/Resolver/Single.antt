-- ===== src/Dns/Resolver/Single.antt =====
-- Processing the only resolution of a resolver (processResolution and registerQuestion of
-- DnsResolverService.cc).
use simcan2fog.Prelude.{
  ℕ, suc, ◌≡◌, refl, sym, subst, ap, ◌∙◌, inl, inr, String, Bool, true, false, Option, none, some,
  List, [], ◌∷◌, ◌++◌, Name, nat_key, name_key, lookup, insert, erase, Outcome, ok, undefined,
  Ensures, Ensures->>=, Ensures-ok, or_fault, ◌>>=◌, arith, ◌==◌, Bool-cases, if◌then◌else◌,
}
use simcan2fog.Dns.{DnsTreeNode, records, search_records}
use simcan2fog.Dns.Server.{DnsQuestion, DnsRequest}
use simcan2fog.Dns.Names.{
  ResourceRecord, cname, authoritative_level, root_level, match_with_wildcard,
}
use simcan2fog.Dns.Resolver.{
  Resolution, ResolutionState, init, tld_resolution, ns_resolution, auth_resolution, server_error,
  resolved, not_found, answered, unless_sent, next_id, level_of, ask, ask_or_wait, Sent,
  DnsResolver, make_transition, waits_for, register_question, servers_for,
}
use simcan2fog.Dns.Names.{get_question_for_level}
use simcan2fog.Dns.Resolver.Processing.{
  process, scan, moved, then_register, conclude, without_answers, scanned, has_answers,
  with_records, at_node,
}

-- All keys of a map are `k`, and all values.
abbrev pub OnlyKey {ℓ} : {V : Type ℓ} → ℕ → List (ℕ × V) → Type 0
OnlyKey k [] = Unit {0}
OnlyKey k ((j, v) ∷ m) = (j ≡ k) × OnlyKey k m

abbrev pub OnlyValue : ℕ → List (Name × ℕ) → Type 0
OnlyValue k [] = Unit {0}
OnlyValue k ((q, v) ∷ m) = (v ≡ k) × OnlyValue k m

erase-OnlyKey {ℓ} : {V : Type ℓ} (k j : ℕ) (m : List (ℕ × V)) → OnlyKey k m → OnlyKey k (erase j m)
erase-OnlyKey k j [] o = tt
erase-OnlyKey k j ((i, v) ∷ m) o = elim (Bool-cases (j == i)) [
  | inl e ↦ rw (erase, e) (erase-OnlyKey k j m o.1)
  | inr e ↦ rw (erase, e) (o.0, erase-OnlyKey k j m o.1)
]

pub erase-only {ℓ} : {V : Type ℓ} (k : ℕ) (m : List (ℕ × V)) → OnlyKey k m → erase k m ≡ []
erase-only k [] o = refl
erase-only k ((i, v) ∷ m) o =
    let same : (k == i) ≡ true = ground (arith, o.0) in rw (erase, same) (erase-only k m o.1)

erase-OnlyValue : (k : ℕ) (q : Name) (m : List (Name × ℕ)) → OnlyValue k m → OnlyValue k (erase q m)
erase-OnlyValue k q [] o = tt
erase-OnlyValue k q ((p, v) ∷ m) o = elim (Bool-cases (name_key.beq q p)) [
  | inl e ↦ rw (erase, e) (erase-OnlyValue k q m o.1)
  | inr e ↦ rw (erase, e) (o.0, erase-OnlyValue k q m o.1)
]

lookup-OnlyValue :
    (k : ℕ) (q : Name) (m : List (Name × ℕ)) (j : ℕ) → OnlyValue k m → lookup q m ≡ some j → j ≡ k
lookup-OnlyValue k q [] j o h = cc
lookup-OnlyValue k q ((p, v) ∷ m) j o h = elim (Bool-cases (name_key.beq q p)) [
  | inl e ↦
      let g : some v ≡ some j =
        sym (ap (λ b. elim b [ true ↦ some v | false ↦ lookup q m ]) e) ∙ h in
      let same : v ≡ k = o.0 in cc
  | inr e ↦
      lookup-OnlyValue k q m j o.1
        (sym (ap (λ b. elim b [ true ↦ some v | false ↦ lookup q m ]) e) ∙ h)
]

-- The resolver waits for nothing but the resolution `k`.
pub record Single (k : ℕ) (d : DnsResolver) : Type 0 where
  pub requests : OnlyKey k d.request_map
  pub questions : OnlyValue k d.question_map

answer_keeps :
    (r : Resolution) (b : Bool) (o : Option (DnsRequest ResourceRecord))
    → Ensures
        (λ (q : Resolution × List Sent). q.0.id ≡ r.id)
        (or_fault o undefined >>= unless_sent b >>= λ response. ok (answered r response))
answer_keeps r b none = tt
answer_keeps r true (some response) = tt
answer_keeps r false (some response) = refl

transition_keeps :
    (s : ResolutionState) (r : Resolution)
    → Ensures (λ (q : Resolution × List Sent). q.0.id ≡ r.id) (make_transition s r)
unfolding make_transition
transition_keeps init r = refl
transition_keeps tld_resolution r = refl
transition_keeps ns_resolution r = refl
transition_keeps auth_resolution r = refl
transition_keeps server_error r = refl
transition_keeps resolved r = answer_keeps (record r { state = resolved }) r.is_sent r.response
transition_keeps not_found r = answer_keeps (record r { state = not_found }) r.is_sent r.response

waits_for-Single : (k : ℕ) (d : DnsResolver) → Single k d → Single k (waits_for k k d)
waits_for-Single k d s = record {
  requests = (refl, erase-OnlyKey k k d.request_map s.requests);
  questions = s.questions;
}

Ensures-if {ℓ} :
    {A : Type ℓ} (P : A → Type 0) (b : Bool) (x y : Outcome A)
    → Ensures P x
    → Ensures P y
    → Ensures P (if b then x else y)
Ensures-if P true x y p q = p
Ensures-if P false x y p q = q

module _ (labels : Name → List String) (ends_with : Name → Name → Bool) (k : ℕ) where
  register_question-Single :
      (question : DnsQuestion) (node : DnsTreeNode (List ResourceRecord)) (d : DnsResolver)
      → Single k d
      → Ensures
          (λ (e : DnsResolver × List Sent). Single k e.0)
          (register_question labels question node k d)
  unfolding register_question
  register_question-Single question node d s =
      Ensures->>= (λ (e : DnsResolver × List Sent). Single k e.0)
        (get_question_for_level question.domain (level_of node))
        (λ q. ask_or_wait labels q question node k d (lookup q d.question_map))
        (λ q named. asked q (lookup q d.question_map) refl)
    where
      asked_new :
          (q : Name) (ips : List ℕ)
          → Ensures (λ (e : DnsResolver × List Sent). Single k e.0) (ask labels q question k d ips)
      asked_new q [] = tt
      asked_new q (ip ∷ ips) =
          waits_for-Single k
            (record d {
              question_map = insert q k d.question_map;
              last_question_id = next_id d.last_question_id;
            })
            (record {
              requests = s.requests;
              questions = (refl, erase-OnlyValue k q d.question_map s.questions);
            })

      asked :
          (q : Name) (o : Option ℕ)
          → lookup q d.question_map ≡ o
          → Ensures
              (λ (e : DnsResolver × List Sent). Single k e.0)
              (ask_or_wait labels q question node k d o)
      asked q (some j) h =
          subst (λ i. Single k (waits_for i k d))
            (sym (lookup-OnlyValue k q d.question_map j s.questions h)) (waits_for-Single k d s)
      asked q none h =
          Ensures->>= (λ (e : DnsResolver × List Sent). Single k e.0)
            (servers_for labels question node d) (ask labels q question k d)
            (λ ips found. asked_new q ips)

  scan_keeps :
      (rs : List ResourceRecord) (r : Resolution)
      → Ensures (λ (q : Resolution × Bool). q.0.id ≡ r.id) (scan labels ends_with rs r)
  unfolding scan
  scan_keeps [] r = refl
  scan_keeps (a ∷ rs) r =
      Ensures-if HasId (match_with_wildcard ends_with a.domain r.current_question.domain) _ _
        (Ensures-if HasId (a.record_type == cname) _ _ refl
          (added r.is_sent r.response (λ q. scan_keeps rs q)))
        (scan_keeps rs r)
    where
      HasId : Resolution × Bool → Type 0
      HasId q = q.0.id ≡ r.id

      added :
          (b : Bool) (o : Option (DnsRequest ResourceRecord))
          → ((q : Resolution)
              → Ensures (λ (e : Resolution × Bool). e.0.id ≡ q.id) (scan labels ends_with rs q))
          → Ensures HasId (
              (or_fault o undefined >>= unless_sent b >>= λ response. ok (record r {
                response = some (record response {
                  non_authoritative_answer = response.non_authoritative_answer ++ a ∷ [];
                });
              }))
              >>= scan labels ends_with rs)
      added b none rest = tt
      added true (some response) rest = tt
      added false (some response) rest = rest _

  -- The resolution is still `k`.
  abbrev pub Kept : DnsResolver × Resolution × List Sent → Type 0
  Kept e = Single k e.0 × (e.1.id ≡ k)

  moved-Kept :
      (s : ResolutionState) (d : DnsResolver) (r : Resolution)
      → Single k d
      → r.id ≡ k
      → Ensures Kept (make_transition s r >>= moved labels ends_with d)
  moved-Kept s d r single same =
      Ensures->>= Kept (make_transition s r) (moved labels ends_with d) (λ q run. (
        single,
        Ensures-ok (λ (q : Resolution × List Sent). q.0.id ≡ r.id) (make_transition s r)
              (transition_keeps s r) run
            ∙ same,
      ))

  then_register-Kept :
      (s : ResolutionState) (node : DnsTreeNode (List ResourceRecord)) (d : DnsResolver)
      (r : Resolution)
      → Single k d
      → r.id ≡ k
      → Ensures Kept (make_transition s r >>= then_register labels ends_with node d)
  then_register-Kept s node d r single same =
      Ensures->>= Kept (make_transition s r) (then_register labels ends_with node d) (λ q run.
        let p : q.0.id ≡ k =
          Ensures-ok (λ (q : Resolution × List Sent). q.0.id ≡ r.id) (make_transition s r)
            (transition_keeps s r) run
          ∙ same in
        subst
          (λ i. Ensures Kept (
            register_question labels q.0.current_question node i d >>= λ x.
            ok (x.0, q.0, q.1 ++ x.1)))
          (sym p)
          (Ensures->>= Kept (register_question labels q.0.current_question node k d)
            (λ x. ok (x.0, q.0, q.1 ++ x.1))
            (λ x registered. (
              Ensures-ok (λ (e : DnsResolver × List Sent). Single k e.0)
                  (register_question labels q.0.current_question node k d)
                  (register_question-Single q.0.current_question node d single) registered,
              p,
            ))))

  module _ (next : Resolution → Outcome (DnsResolver × Resolution × List Sent)) (d : DnsResolver)
      (single : Single k d) (goes_on : (r : Resolution) → r.id ≡ k → Ensures Kept (next r)) where
    conclude-Kept :
        (b : Bool) (node : DnsTreeNode (List ResourceRecord)) (r : Resolution)
        → r.id ≡ k
        → Ensures Kept (conclude labels ends_with b node d r)
    conclude-Kept true node r same = moved-Kept resolved d r single same
    conclude-Kept false node r same = unanswered r.state
      where
        unanswered :
            (s : ResolutionState) → Ensures Kept (without_answers labels ends_with node d r s)
        unanswered init = then_register-Kept auth_resolution node d r single same
        unanswered tld_resolution = moved-Kept not_found d r single same
        unanswered ns_resolution = moved-Kept not_found d r single same
        unanswered auth_resolution = moved-Kept not_found d r single same
        unanswered server_error = moved-Kept not_found d r single same
        unanswered resolved = moved-Kept not_found d r single same
        unanswered not_found = moved-Kept not_found d r single same

    scanned-Kept :
        (node : DnsTreeNode (List ResourceRecord)) (q : Resolution × Bool)
        → q.0.id ≡ k
        → Ensures Kept (scanned labels ends_with next node d q)
    scanned-Kept node (r, true) same = goes_on r same
    scanned-Kept node (r, false) same = answers r.response
      where
        answers :
            (o : Option (DnsRequest ResourceRecord))
            → Ensures Kept (
                or_fault o undefined >>= λ response.
                conclude labels ends_with
                  (has_answers labels ends_with response.non_authoritative_answer)
                  node
                  d
                  r)
        answers none = tt
        answers (some response) =
            conclude-Kept (has_answers labels ends_with response.non_authoritative_answer) node r
              same

    with_records-Kept :
        (node : DnsTreeNode (List ResourceRecord)) (r : Resolution) (rs : List ResourceRecord)
        → r.id ≡ k
        → Ensures Kept (with_records labels ends_with next node d r rs)
    with_records-Kept node r [] same = moved-Kept not_found d r single same
    with_records-Kept node r (a ∷ rs) same =
        Ensures-if Kept (level_of node == authoritative_level) _ _
          (Ensures->>= Kept (scan labels ends_with (a ∷ rs) r)
            (scanned labels ends_with next node d)
            (λ q run. scanned-Kept node q (
              Ensures-ok (λ (q : Resolution × Bool). q.0.id ≡ r.id)
                (scan labels ends_with (a ∷ rs) r) (scan_keeps (a ∷ rs) r) run
              ∙ same)))
          (then_register-Kept
            (if level_of node == root_level then tld_resolution else ns_resolution) node d r single
            same)

    at_node-Kept :
        (r : Resolution) (found : Option (DnsTreeNode (List ResourceRecord)))
        → r.id ≡ k
        → Ensures Kept (at_node labels ends_with next d r found)
    at_node-Kept r none same = moved-Kept not_found d r single same
    at_node-Kept r (some node) same = with_records-Kept node r (records node) same

  pub process-Kept :
      (n : ℕ) (d : DnsResolver) (r : Resolution)
      → Single k d
      → r.id ≡ k
      → Ensures Kept (process labels ends_with n d r)
  unfolding process
  process-Kept ℕ.zero d r single same = tt
  process-Kept (suc n) d r single same =
      at_node-Kept (process labels ends_with n d) d single (λ q. process-Kept n d q single) r
        (search_records (labels r.current_question.domain) d.database) same
