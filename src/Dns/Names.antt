-- ===== src/Dns/Names.antt =====
-- Names and records (src/s2f/architecture/dns/DnsCommon.{h,cc}). A `const char *` is the text from there
-- on, or none for a null pointer. A level is a number, and so is the type of a record. What OMNeT++ does
-- to compare the end of a text is a parameter.
use simcan2fog.Prelude.{
  ℕ, Bool, Option, none, some, [], ◌∷◌, ◌==◌, if◌then◌else◌, Name, name_beq, Outcome, ok, fault,
  runtime_error, undefined,
}

pub record ResourceRecord : Type 0 where
  pub domain : Name
  pub contents : Name
  pub ip : ℕ
  pub record_type : ℕ

abbrev pub ns : ℕ
ns = 1

abbrev pub cname : ℕ
cname = 2

abbrev pub root_level : ℕ
root_level = 0

abbrev pub tld_level : ℕ
tld_level = 1

abbrev pub authoritative_level : ℕ
authoritative_level = 2

-- The loop over the dots: the text from the last but one, and from the last one.
unfoldable pub dots : Name → Option Name → Option Name → Option Name × Option Name
dots [] tld root = (tld, root)
dots (c ∷ cs) tld root =
    dots cs (if c == b'.' then root else tld) (if c == b'.' then some (c ∷ cs) else root)

-- p + 1
abbrev pub after_first : Option Name → Outcome Name
after_first none = fault undefined
after_first (some []) = fault undefined
after_first (some (c ∷ cs)) = ok cs

-- getQuestionForLevel
abbrev pub at_level : Name → ℕ → Option Name × Option Name → Outcome Name
at_level domain level (tld, none) = fault runtime_error
at_level domain level (tld, some root) =
    if level == tld_level
    then after_first tld
    else if level == root_level
    then after_first (some root)
    else ok domain

unfoldable pub get_question_for_level : Name → ℕ → Outcome Name
unfolding dots
get_question_for_level domain level = at_level domain level (dots domain (some domain) none)

-- matchesAuthorityDomain: opp_strcmp takes a null pointer as an empty text.
abbrev pub or_empty : Option Name → Name
or_empty none = []
or_empty (some cs) = cs

abbrev pub matches_tld : ResourceRecord → Option Name × Option Name → Outcome Bool
matches_tld r (tld, none) = fault runtime_error
matches_tld r (tld, some root) = ok (name_beq r.domain (or_empty tld))

unfoldable pub matches_authority_domain : ResourceRecord → Name → Outcome Bool
unfolding dots
matches_authority_domain r domain = matches_tld r (dots domain (some domain) none)

-- matchWithWildcard
module _ (ends_with : Name → Name → Bool) where
  unfoldable pub match_with_wildcard : Name → Name → Bool
  match_with_wildcard [] domain = name_beq [] domain
  match_with_wildcard (c ∷ []) domain = name_beq (c ∷ []) domain
  match_with_wildcard (c ∷ d ∷ cs) domain =
      if c == b'*' then ends_with domain (d ∷ cs) else name_beq (c ∷ d ∷ cs) domain
