-- ===== src/Net/Address/HostPort.antt =====
-- netAddress.cpp: what `toHostPort` prints of the host and the port.
use tcp_net_library.Base.{
  ℕ, ◌+◌, ◌^◌, ◌≤◌, ◌<◌, ◌≡◌, ap, ◌∙◌, List, ◌∷◌, ◌++◌, Option, arith, length, take, lt→ltb,
  decimal, take_all, take-append, length-append,
}
use tcp_net_library.Net.Address.{NetAddress, address_of, to_host_port, swap16, short_as_unsigned}

-- Both swaps together are the identity on ports.
swap16-swap16 : (p : ℕ) → p < 2 ^ 16 → swap16 (swap16 p) ≡ p
swap16-swap16 p h = omega arith

-- A port below 2^15, with a host, a colon and digits of at most 15 characters together, is printed
-- as the host, a colon and the port.
to_host_port_ok :
    (host : List ℕ) (parsed : Option ℕ) (port : ℕ)
    → port < 2 ^ 15
    → length host + 1 + length (decimal port) ≤ 15
    → to_host_port host (address_of parsed port) ≡ host ++ 58 ∷ decimal port
unfolding to_host_port
to_host_port_ok host parsed port h l =
    let back : swap16 (swap16 port) ≡ port = swap16-swap16 port (omega arith) in
    let same : short_as_unsigned (swap16 (swap16 port)) ≡ port =
      ap short_as_unsigned back ∙ rw (lt→ltb port (2 ^ 15) h) in
    ap (λ t. take 15 (host ++ 58 ∷ decimal t)) same
    ∙ take_all 15 (host ++ 58 ∷ decimal port)
        (omega (arith, length-append host (58 ∷ decimal port)))

-- After a host of 15 characters, the longest, neither the colon nor the port is printed.
to_host_port_cut : (host : List ℕ) (a : NetAddress) → length host ≡ 15 → to_host_port host a ≡ host
unfolding to_host_port
to_host_port_cut host a h = take-append host _ 15 (omega arith)
