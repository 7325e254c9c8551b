-- ===== src/DataCenter/Urls.antt =====
-- The URLs of hypervisors (DcManager.cc) and the addresses of hosts (SimpleNetDb.cc).
use simcan2fog.Prelude.{
  ℕ, ◌≡◌, ◌≢◌, sym, ap, ◌∙◌, List, [], ◌∷◌, Name, name_key, nat_key, lookup-insert,
  lookup-insert_ne, ok, out_of_range, or_fault,
}
use simcan2fog.DataCenter.{
  SimpleNetDb, register_host, get_host_name, generate_hypervisor_url, resolve_tokens,
  resolve_hypervisor_url,
}

-- What the tokens of a text joined by "::" are: a name that is not empty and has no colon is one.
abbrev pub SplitsAt : (Name → List Name) → Name → Name → Type 0
SplitsAt tokens node_name host =
    tokens (generate_hypervisor_url node_name host) ≡ node_name ∷ host ∷ []

-- A host that is registered has the address that its URL leads to, whichever data center the URL
-- names, and other hosts keep theirs.
pub url_of_registered :
    (tokens : Name → List Name) (db : SimpleNetDb) (node_name host other : Name) (address : ℕ)
    → SplitsAt tokens node_name host
    → SplitsAt tokens node_name other
    → other ≢ host
    → (get_host_name address (register_host host address db) ≡ ok host)
      × (resolve_hypervisor_url tokens
            (generate_hypervisor_url node_name host)
            (register_host host address db)
          ≡ ok address)
      × (resolve_hypervisor_url tokens
            (generate_hypervisor_url node_name other)
            (register_host host address db)
          ≡ resolve_hypervisor_url tokens (generate_hypervisor_url node_name other) db)
unfolding get_host_name register_host resolve_hypervisor_url
url_of_registered tokens db node_name host other address splits splits_other differ = (
  ap (λ o. or_fault o out_of_range) (lookup-insert address host db.address_to_hostname),
  ap (λ ts. resolve_tokens ts (register_host host address db)) splits
      ∙ ap (λ o. or_fault o out_of_range) (lookup-insert host address db.hostname_to_address),
  ap (λ ts. resolve_tokens ts (register_host host address db)) splits_other
      ∙ ap (λ o. or_fault o out_of_range)
          (lookup-insert_ne other host address db.hostname_to_address differ)
      ∙ sym (ap (λ ts. resolve_tokens ts db) splits_other),
)
