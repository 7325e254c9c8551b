-- ===== src/Tests/Resolvers.antt =====
-- A DNS client with two servers, and a resolver.
use simcan2fog.Prelude.{
  ℕ, ◌≡◌, refl, String, Bool, false, some, List, [], ◌∷◌, map, length, Name, name_beq, name_key,
  nat_key, Outcome, ok, fault, runtime_error, failed_assert, undefined, arith,
}
use simcan2fog.Dns.{
  DnsTreeNode, dns_node, no_child, child, search_records, search_from, insert_record, insert_below,
}
use simcan2fog.Dns.Server.{DnsQuestion, DnsRequest}
use simcan2fog.Dns.Client.{DnsClient, send_to, handle_request as client_request, ok_result}
use simcan2fog.Dns.Client.Retries.{attempts, ticks, rounds, client, retries}
use simcan2fog.Dns.Client.Servers.{all_failed}
use simcan2fog.Dns.Names.{ResourceRecord, dots, get_question_for_level, match_with_wildcard}
use simcan2fog.Dns.Resolver.{
  Resolution, init, ns_resolution, Sent, reply, command, DnsResolver, make_transition, name_servers,
  servers_for, register_question,
}
use simcan2fog.Dns.Resolver.Processing.{process}
use simcan2fog.Dns.Resolver.Handlers.{
  handle_request, handle_response, reprocess, insert_all, mark_failed_resolutions,
}
use simcan2fog.Dns.Resolver.Failures.{failures_are_unknown_names, AllUnknown, without}
use simcan2fog.Dns.Resolver.Lost.{second_answer_is_lost}
use simcan2fog.Dns.Resolver.Aliases.{IsAlias, HasAnswers, aliases_are_followed}
use simcan2fog.Dns.Resolver.Answers.{NoAlias, matching, answers_from_database}

-- Three ticks for a time out, and two attempts for each server.
retries_example :
    (first last : DnsClient) × (more : List ℕ) × (20 ∷ more ≡ attempts 2 (20 ∷ 30 ∷ []))
    × (client_request
          (record { request_id = 5; ip_pool = 20 ∷ 30 ∷ []; payload = 9 })
          (client 2 1 5 9 [])
        ≡ ok (first, send_to 9 20 ∷ []))
    × (rounds (length more) first ≡ ok (last, map (send_to 9) more))
    × (ticks 3 last ≡ fault failed_assert)
retries_example = retries 2 1 5 9 20 (30 ∷ [])

abbrev shut : DnsClient
shut = record (client 2 1 5 9 []) { failed_servers = 20 ∷ 30 ∷ [] }

all_failed_example :
    client_request (record { request_id = 5; ip_pool = 30 ∷ 20 ∷ []; payload = 9 }) shut
    ≡ fault undefined
all_failed_example =
    all_failed (record { request_id = 5; ip_pool = 30 ∷ 20 ∷ []; payload = 9 }) shut refl
      (refl, (refl, tt))

abbrev web : Name
web = b'x' ∷ b'.' ∷ b'w' ∷ b'.' ∷ b'o' ∷ []

abbrev about_web : DnsQuestion
about_web = record { domain = web; question_type = 0 }

abbrev asks : List DnsQuestion → DnsRequest ResourceRecord
asks questions = record {
  request_id = 5;
  operation_code = 0;
  return_code = 0;
  is_authoritative = false;
  question = questions;
  non_authoritative_answer = [];
  authoritative_answer = [];
}

abbrev address_of_web : ResourceRecord
address_of_web = record { domain = web; contents = []; ip = 77; record_type = 0 }

-- A name server of the root.
abbrev server_of_root : ResourceRecord
server_of_root = record { domain = []; contents = []; ip = 88; record_type = 1 }

abbrev zone : List ResourceRecord → DnsTreeNode (List ResourceRecord)
zone rs = dns_node "w" 2 no_child rs

abbrev tree : List ResourceRecord → DnsTreeNode (List ResourceRecord)
tree rs = dns_node "." 0 (child "o" (dns_node "o" 1 (child "w" (zone rs) no_child) []) no_child) []

-- A name of one letter is the last label, and every other one has those of the one that is asked for.
abbrev labels : Name → List String
labels [] = []
labels (c ∷ []) = "o" ∷ []
labels (c ∷ d ∷ cs) = "o" ∷ "w" ∷ []

abbrev ends_with : Name → Name → Bool
ends_with a b = false

abbrev get_question : ℕ → List DnsQuestion → Outcome DnsQuestion
get_question i [] = fault runtime_error
get_question i (q ∷ qs) = ok q

abbrev insert_set : ResourceRecord → List ResourceRecord → List ResourceRecord
insert_set r rs = r ∷ rs

abbrev resolver : DnsTreeNode (List ResourceRecord) → DnsResolver
resolver root = record {
  database = root;
  resolutions = [];
  question_map = [];
  request_map = [];
  last_id = 3;
  last_question_id = 8;
}

abbrev open_resolution : Resolution
open_resolution = record {
  id = 3;
  remote_address = 6;
  remote_port = 7;
  current_question = about_web;
  state = init;
  response = some (asks (about_web ∷ []));
  is_sent = false;
}

abbrev busy : DnsTreeNode (List ResourceRecord) → DnsResolver
busy root = record (resolver root) {
  resolutions = (3, open_resolution) ∷ [];
  question_map = (b'o' ∷ [], 3) ∷ [];
  request_map = (3, 3 ∷ []) ∷ [];
}

failures_are_unknown_names_example :
    (sent : List Sent) × (mark_failed_resolutions labels ends_with get_question insert_set 1 2
        (3 ∷ [])
        (busy (tree []))
      ≡ ok (
        record (busy (tree [])) {
          resolutions =
              without labels ends_with get_question insert_set 1
                (3 ∷ [])
                ((3, open_resolution) ∷ []);
        },
        sent,
      ))
    × AllUnknown labels ends_with get_question insert_set 1
        (3 ∷ [])
        ((3, open_resolution) ∷ [])
        sent
failures_are_unknown_names_example =
    failures_are_unknown_names labels ends_with get_question insert_set 1 2 (3 ∷ [])
      (busy (tree [])) (open_resolution, asks (about_web ∷ []), refl, refl, refl, tt)

found : search_records (labels web) (tree (address_of_web ∷ [])) ≡ some (zone (address_of_web ∷ []))
unfolding search_records search_from
found = refl

no_alias : NoAlias labels ends_with web (address_of_web ∷ [])
unfolding match_with_wildcard name_beq
no_alias = (refl, tt)

matches : matching labels ends_with web (address_of_web ∷ []) ≡ address_of_web ∷ []
unfolding match_with_wildcard name_beq
matches = refl

answers_from_database_example :
    handle_request labels ends_with get_question insert_set 1 6 7
      (asks (about_web ∷ []))
      (resolver (tree (address_of_web ∷ [])))
    ≡ ok (
      record (resolver (tree (address_of_web ∷ []))) { last_id = 4 },
      reply 6 7 (record (asks (about_web ∷ [])) { non_authoritative_answer = address_of_web ∷ [] })
          ∷ [],
    )
answers_from_database_example =
    answers_from_database labels ends_with get_question insert_set 0 6 7 (asks (about_web ∷ []))
      (resolver (tree (address_of_web ∷ []))) about_web (zone (address_of_web ∷ [])) address_of_web
      [] address_of_web [] refl refl found refl refl no_alias matches

-- The servers of the root have been asked, and name a server of `o`: the resolver asks that one.
abbrev only_root : List ResourceRecord → DnsTreeNode (List ResourceRecord)
only_root rs =
    dns_node "." 0 (child "o" (dns_node "o" 1 no_child rs) no_child) (server_of_root ∷ [])

abbrev server_of_o : ResourceRecord
server_of_o = record server_of_root { ip = 99 }

abbrev referral : DnsRequest ResourceRecord
referral = record (asks (record { domain = b'o' ∷ []; question_type = 0 } ∷ [])) {
  authoritative_answer = server_of_o ∷ [];
}

abbrev asked_again : DnsResolver
asked_again = record (busy (only_root (server_of_o ∷ []))) {
  resolutions = (3, record open_resolution { state = ns_resolution }) ∷ [];
  question_map = (b'w' ∷ b'.' ∷ b'o' ∷ [], 3) ∷ [];
  request_map = [];
  last_question_id = 9;
}

asks_again :
    handle_response labels ends_with get_question insert_set 1 3 ok_result
      (some referral)
      (busy (only_root []))
    ≡ ok (asked_again, command 8 about_web (99 ∷ []) ∷ [])
unfolding handle_response reprocess insert_all insert_record insert_below process search_records
    search_from register_question make_transition get_question_for_level dots servers_for
    name_servers name_beq
asks_again = refl

second_answer_is_lost_example :
    handle_response labels ends_with get_question insert_set 1 8 ok_result
      (some referral)
      asked_again
    ≡ fault runtime_error
second_answer_is_lost_example =
    second_answer_is_lost labels ends_with get_question insert_set 1 3 (busy (only_root []))
      open_resolution refl refl (record { requests = (refl, tt); questions = (refl, tt) }) referral
      asked_again (command 8 about_web (99 ∷ []) ∷ []) refl refl asks_again 8 ok_result
      (some referral)

-- `x.w.o` is an alias of `y.w.o`, which has an address.
abbrev other : Name
other = b'y' ∷ b'.' ∷ b'w' ∷ b'.' ∷ b'o' ∷ []

abbrev alias_of_web : ResourceRecord
alias_of_web = record { domain = web; contents = other; ip = 0; record_type = 2 }

abbrev address_of_other : ResourceRecord
address_of_other = record address_of_web { domain = other }

abbrev both : List ResourceRecord
both = alias_of_web ∷ address_of_other ∷ []

found_there : search_records ("o" ∷ "w" ∷ []) (tree both) ≡ some (zone both)
unfolding search_records search_from
found_there = refl

web-IsAlias : IsAlias labels ends_with (tree both) web other
unfolding match_with_wildcard name_beq
web-IsAlias = record {
  node = zone both;
  front = [];
  canonical = alias_of_web;
  back = address_of_other ∷ [];
  there = found_there;
  level = refl;
  zone = refl;
  others = tt;
  its_name = refl;
  its_type = refl;
  its_target = refl;
}

other-HasAnswers : HasAnswers labels ends_with (tree both) other address_of_other []
unfolding match_with_wildcard name_beq
other-HasAnswers = record {
  node = zone both;
  first = alias_of_web;
  rest = address_of_other ∷ [];
  there = found_there;
  level = refl;
  zone = refl;
  no_alias = (refl, (refl, tt));
  some_match = refl;
}

aliases_are_followed_example :
    handle_request labels ends_with get_question insert_set 4 6 7
      (asks (about_web ∷ []))
      (resolver (tree both))
    ≡ ok (
      record (resolver (tree both)) { last_id = 4 },
      reply 6 7
            (record (asks (about_web ∷ [])) { non_authoritative_answer = address_of_other ∷ [] })
          ∷ [],
    )
aliases_are_followed_example =
    aliases_are_followed labels ends_with get_question insert_set 1 4 6 7 (asks (about_web ∷ []))
      (resolver (tree both)) about_web other address_of_other [] (omega arith) refl refl
      (other, web-IsAlias, refl) other-HasAnswers
