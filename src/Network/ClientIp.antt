-- ===== src/Network/ClientIp.antt =====
-- app/core/network/client_ip.py. The module `ipaddress` is a record; an address or a network that it
-- does not parse is `none`.
pub mod Trust
use acoj_worker.Common.{
  ℕ, Bool, true, false, not, ◌&&◌, ◌||◌, Option, none, some, List, [], ◌∷◌, any, Text, codes, strip,
  is_empty, nat_eq, list_eq, ◌==◌, if◌then◌else◌,
}

-- `ip_address(text)`, and `remote in ip_network(item, strict=False)`
pub record IpAddress (Address : Type 0) : Type 0 where
  pub ip_address : Text → Option Address
  pub in_network : Address → Text → Option Bool

-- The client of a request and its two headers.
pub record Request : Type 0 where
  pub client_host : Option Text
  pub x_real_ip : Option Text
  pub x_forwarded_for : Option Text

-- `value.split(",", 1)[0]`
unfoldable pub before_comma : Text → Text
before_comma [] = []
before_comma (c ∷ s) = let rest = before_comma s in if c == 44 then [] else c ∷ rest

-- `candidate or None`
unfoldable pub or_none : Text → Option Text
or_none text = if is_empty text then none else some text

-- `_first_header_ip`
unfoldable pub first_header_ip : Option Text → Option Text
first_header_ip none = none
first_header_ip (some value) = if is_empty value then none else or_none (strip (before_comma value))

module _ {Address : Type 0} (ips : IpAddress Address) where
  -- The loop of `_is_trusted_proxy`, for an address that parses.
  unfoldable pub is_in_any : Address → (remote_ip : Text) → List Text → Bool
  is_in_any remote remote_ip [] = false
  is_in_any remote remote_ip (item ∷ items) =
      let rest = is_in_any remote remote_ip items in
      elim (ips.in_network remote item) [
        | some inside ↦ if inside then true else rest
        | none ↦ if item == remote_ip then true else rest
      ]

  -- `_is_trusted_proxy`; with no trusted proxies it is false in each branch.
  unfoldable pub is_trusted_proxy : (trusted : List Text) → (remote_ip : Text) → Bool
  is_trusted_proxy trusted remote_ip =
      if any (λ item. item == codes "*") trusted then true else elim (ips.ip_address remote_ip) [
        | none ↦ any (λ item. item == remote_ip) trusted
        | some remote ↦ is_in_any remote remote_ip trusted
      ]

  -- What the headers say, where the peer is a trusted proxy.
  unfoldable pub forwarded_ip : (direct_ip : Text) → Request → Text
  forwarded_ip direct_ip request = elim (first_header_ip request.x_real_ip) [
    | some real_ip ↦ real_ip
    | none ↦ elim (first_header_ip request.x_forwarded_for) [ none ↦ direct_ip | some ip ↦ ip ]
  ]

  -- `get_client_ip`
  unfoldable pub get_client_ip : (trusted : List Text) → Request → Option Text
  get_client_ip trusted request = elim (request.client_host) [
    | none ↦ none
    | some direct_ip ↦
        if is_empty direct_ip || not (is_trusted_proxy trusted direct_ip)
        then some direct_ip
        else some (forwarded_ip direct_ip request)
  ]
