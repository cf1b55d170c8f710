-- ===== src/Network/ClientIp/Trust.antt =====
-- What the address of a client depends on.
use acoj_worker.Common.{
  true, false, Option, none, some, List, Text, is_empty, nat_eq, list_eq, ◌≡◌, arith,
}
use acoj_worker.Network.ClientIp.{
  IpAddress, Request, or_none, first_header_ip, is_trusted_proxy, forwarded_ip, get_client_ip,
}

first_header_ip-filled :
    (value : Option Text) (ip : Text) → first_header_ip value ≡ some ip → is_empty ip ≡ false
unfolding first_header_ip or_none
first_header_ip-filled none ip h = cc
first_header_ip-filled (some value) ip h = ground arith

module _ {Address : Type 0} (ips : IpAddress Address) (trusted : List Text) where
  -- The headers are no way to an empty address: when the address is empty, the peer's is.
  pub get_client_ip-filled :
      (request : Request) (ip : Text)
      → get_client_ip ips trusted request ≡ some ip
      → is_empty ip ≡ true
      → request.client_host ≡ some ip
  unfolding get_client_ip forwarded_ip
  get_client_ip-filled request ip h e =
      let real = first_header_ip-filled request.x_real_ip ip in
      let forwarded = first_header_ip-filled request.x_forwarded_for ip in ground arith

  -- A peer that is no trusted proxy cannot choose its address: two requests that differ in their
  -- headers only have the same client address.
  pub get_client_ip-untrusted :
      (request other : Request) (direct_ip : Text)
      → request.client_host ≡ some direct_ip
      → other.client_host ≡ some direct_ip
      → is_trusted_proxy ips trusted direct_ip ≡ false
      → get_client_ip ips trusted request ≡ get_client_ip ips trusted other
  unfolding get_client_ip
  get_client_ip-untrusted request other direct_ip h k untrusted = ground arith
