-- ===== src/Tests/Servers.antt =====
-- A server of one zone, and a registry for it.
use simcan2fog.Prelude.{
  ℕ, zero, suc, ◌≢◌, Bool, ◌==◌, undefined, ◌≡◌, ◌≤◌, ◌<◌, refl, ap, String, Name, true, false,
  List, [], ◌∷◌, length, set, Outcome, ok, fault, runtime_error, ◌>>=◌, arith,
}
use simcan2fog.Dns.{DnsTreeNode, search_records, dns_node, no_child, child}
use simcan2fog.Dns.Server.{DnsQuestion, DnsRequest, socket_data_arrived, handle_query}
use simcan2fog.Dns.Zones.{FoundWith}
use simcan2fog.Dns.Registry.{
  DnsRegistrationRequest, data_arrived, responds, response_to, handle_message,
}
use simcan2fog.Dns.Registry.Published.{withdrawal, register-delete, deleted_twice}
use simcan2fog.Dns.Registry.Answers.{registered_is_answered}
use simcan2fog.Dns.Server.Answers.{AllReplies, socket_data_arrived-AllReplies}

resize : ℕ → List ℕ → List ℕ
resize zero xs = []
resize (suc n) [] = 0 ∷ resize n []
resize (suc n) (x ∷ xs) = x ∷ resize n xs

length-resize : (n : ℕ) (xs : List ℕ) → length (resize n xs) ≡ n
unfolding resize
length-resize zero xs = refl
length-resize (suc n) [] = ap suc (length-resize n [])
length-resize (suc n) (x ∷ xs) = ap suc (length-resize n xs)

set_at : ℕ → ℕ → List ℕ → Outcome (List ℕ)
set_at i r [] = fault runtime_error
set_at zero r (x ∷ xs) = ok (r ∷ xs)
set_at (suc i) r (x ∷ xs) = set_at i r xs >>= λ ys. ok (x ∷ ys)

set_at_in_range : (i r : ℕ) (xs : List ℕ) → i < length xs → set_at i r xs ≡ ok (set xs i r)
unfolding set_at
set_at_in_range i r [] h = absurd (omega arith)
set_at_in_range zero r (x ∷ xs) h = refl
set_at_in_range (suc i) r (x ∷ xs) h =
    ap (λ o. o >>= λ ys. ok (x ∷ ys)) (set_at_in_range i r xs (omega arith))

set_at_out_of_range : (i r : ℕ) (xs : List ℕ) → length xs ≤ i → set_at i r xs ≡ fault runtime_error
unfolding set_at
set_at_out_of_range i r [] h = refl
set_at_out_of_range zero r (x ∷ xs) h = absurd (omega arith)
set_at_out_of_range (suc i) r (x ∷ xs) h =
    ap (λ o. o >>= λ ys. ok (x ∷ ys)) (set_at_out_of_range i r xs (omega arith))

-- The zone `org`, with two records; every name is taken as that one.
abbrev root : DnsTreeNode (List ℕ)
root = dns_node "." 0 (child "org" (dns_node "org" 1 no_child (7 ∷ 8 ∷ [])) no_child) []

abbrev labels : Name → List String
labels domain = "org" ∷ []

abbrev asks : ℕ → List DnsQuestion → DnsRequest ℕ
asks code questions = record {
  request_id = 5;
  operation_code = code;
  return_code = 0;
  is_authoritative = false;
  question = questions;
  non_authoritative_answer = [];
  authoritative_answer = [];
}

abbrev about_org : DnsQuestion
about_org = record { domain = b'o' ∷ b'r' ∷ b'g' ∷ []; question_type = 1 }

abbrev packet : List (DnsRequest ℕ)
packet = asks 0 (about_org ∷ []) ∷ asks 2 [] ∷ asks 0 [] ∷ []

socket_data_arrived-AllReplies_example :
    (responses : List (DnsRequest ℕ)) × (socket_data_arrived labels
        (λ domain. true)
        resize
        set_at
        root
        packet
      ≡ ok responses)
    × AllReplies labels root packet responses
socket_data_arrived-AllReplies_example =
    socket_data_arrived-AllReplies labels (λ domain. true) resize set_at length-resize
      set_at_in_range root (λ domain r rs found. refl) packet

-- A registry for the same tree, on lists with the newest record in front.
abbrev insert : ℕ → List ℕ → List ℕ
insert r s = r ∷ s

abbrev is_empty : List ℕ → Bool
is_empty [] = true
is_empty (r ∷ s) = false

abbrev drop_newest : ℕ → List ℕ → List ℕ × Bool
drop_newest r [] = ([], false)
drop_newest r (q ∷ s) = elim (r == q) [ true ↦ (s, true) | false ↦ (q ∷ s, false) ]

abbrev registration : List ℕ → DnsRegistrationRequest ℕ
registration rs = record {
  verb = 2;
  host = [];
  path = [];
  zone = about_org.domain;
  registered = rs;
}

-- The two labels of a zone that is not there yet.
abbrev new_labels : Name → List String
new_labels domain = "org" ∷ "fog" ∷ []

filled : (r : ℕ) (s : List ℕ) → insert r s ≢ []
filled r s e = let n : suc (length s) ≡ 0 = ap length e in omega arith

registered_is_answered_example :
    (left : DnsTreeNode (List ℕ)) × (handle_message labels [] insert is_empty drop_newest
        (data_arrived 4 (registration (9 ∷ 6 ∷ []) ∷ []))
        root
      ≡ ok (left, responds (response_to 4 (registration (9 ∷ 6 ∷ [])) true) ∷ []))
    × (handle_query labels (λ domain. true) resize set_at left (asks 0 (about_org ∷ []))
        ≡ ok (record (asks 0 (about_org ∷ [])) {
          return_code = 0;
          is_authoritative = true;
          authoritative_answer = 6 ∷ 9 ∷ 7 ∷ 8 ∷ [];
        }))
registered_is_answered_example =
    registered_is_answered labels insert is_empty drop_newest (λ domain. true) resize set_at
      length-resize set_at_in_range filled 4 (registration (9 ∷ 6 ∷ [])) 9 (6 ∷ []) root refl refl
      (omega arith) (asks 0 (about_org ∷ [])) about_org refl refl refl

register-delete_example :
    (left : DnsTreeNode (List ℕ)) × (handle_message new_labels [] insert is_empty drop_newest
        (data_arrived 4 (registration (9 ∷ []) ∷ withdrawal (registration (9 ∷ [])) ∷ []))
        root
      ≡ ok (
        left,
        responds (response_to 4 (registration (9 ∷ [])) true)
            ∷ responds (response_to 4 (withdrawal (registration (9 ∷ []))) true)
            ∷ [],
      ))
    × FoundWith (search_records ("org" ∷ "fog" ∷ []) left) []
register-delete_example =
    register-delete new_labels [] insert is_empty drop_newest (registration (9 ∷ [])) 9 refl root
      refl (omega arith) refl 4 refl

deleted_twice_example :
    handle_message new_labels [] insert is_empty drop_newest
      (data_arrived 4 (
        registration (9 ∷ [])
        ∷ withdrawal (registration (9 ∷ []))
        ∷ withdrawal (registration (9 ∷ []))
        ∷ []))
      root
    ≡ fault undefined
deleted_twice_example =
    deleted_twice new_labels [] insert is_empty drop_newest (registration (9 ∷ [])) 9 refl root refl
      (omega arith) refl 4 refl refl
