-- ===== src/Tests/Network.antt =====
-- Runs of client_ip.py.
use acoj_worker.Common.{
  Option, none, some, [], ◌∷◌, Text, codes, strip, nat_eq, list_eq, ◌==◌, ◌≡◌, refl,
}
use acoj_worker.Network.ClientIp.{
  IpAddress, Request, before_comma, or_none, first_header_ip, is_in_any, is_trusted_proxy,
  forwarded_ip, get_client_ip,
}
use acoj_worker.Network.ClientIp.Trust.{get_client_ip-untrusted}

-- Each address is a text, and a network is one address.
abbrev single : IpAddress Text
single = record { ip_address = λ t. some t; in_network = λ a item. some (a == item) }

abbrev request_of : (host : Text) → (forwarded : Option Text) → Request
request_of host forwarded = record {
  client_host = some host;
  x_real_ip = none;
  x_forwarded_for = forwarded;
}

-- The first address of the header, from a trusted proxy.
get_client_ip_sample :
    get_client_ip single
      (codes "10.0.0.1" ∷ [])
      (request_of (codes "10.0.0.1") (some (codes " 1.2.3.4, 5.6.7.8")))
    ≡ some (codes "1.2.3.4")
unfolding before_comma or_none first_header_ip is_in_any is_trusted_proxy forwarded_ip get_client_ip
    strip
get_client_ip_sample = refl

get_client_ip-untrusted_example :
    get_client_ip single
      (codes "10.0.0.1" ∷ [])
      (request_of (codes "9.9.9.9") (some (codes "1.2.3.4")))
    ≡ get_client_ip single (codes "10.0.0.1" ∷ []) (request_of (codes "9.9.9.9") none)
unfolding is_trusted_proxy is_in_any
get_client_ip-untrusted_example =
    get_client_ip-untrusted single (codes "10.0.0.1" ∷ [])
      (request_of (codes "9.9.9.9") (some (codes "1.2.3.4"))) (request_of (codes "9.9.9.9") none)
      (codes "9.9.9.9") refl refl refl
