-- ===== src/Tools/Hash.antt =====
-- Which internet addresses hash_ipaddr of tools.cc tells apart.
use vwifi.Prelude.{◌+◌, ◌≡◌, ◌↔◌, false, arith}
use vwifi.Platform.{SockaddrIn}
use vwifi.Tools.{octet, hash_ipaddr}

-- Without the port, two addresses have one CID exactly if their first octets are equal and the
-- sums of the others are.
pub hash_ipaddr_iff :
    (a b : SockaddrIn)
    → (hash_ipaddr false a ≡ hash_ipaddr false b) ↔ (
        (octet a.s_addr 0 ≡ octet b.s_addr 0)
        × (octet a.s_addr 1 + octet a.s_addr 2 + octet a.s_addr 3
            ≡ octet b.s_addr 1 + octet b.s_addr 2 + octet b.s_addr 3))
unfolding hash_ipaddr
hash_ipaddr_iff a b = (λ h. (omega arith, omega arith), λ (h, k). omega arith)
