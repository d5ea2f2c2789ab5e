-- ===== src/Net/Address.antt =====
-- netAddress.h and netAddress.cpp. An address is a `sockaddr_in`, its port in network order. What
-- `inet_pton` and `inet_ntop` answer is an argument.
pub mod HostPort
use tcp_net_library.Base.{
  ℕ, ◌+◌, ◌-◌, ◌*◌, ◌/◌, ◌%◌, ◌^◌, List, ◌∷◌, ◌++◌, Option, none, some, ltb, if◌then◌else◌, decimal,
  snprintf,
}

pub record NetAddress : Type 0 where
  pub sin_family : ℕ
  pub s_addr : ℕ
  pub sin_port : ℕ

abbrev pub af_inet : ℕ
af_inet = 2

-- `htons` and `ntohs`, which swap the two bytes.
abbrev pub swap16 : ℕ → ℕ
swap16 p = (p % 256) * 256 + p / 256

-- `NetAddress(port)`, with `INADDR_ANY`
abbrev pub any_address : ℕ → NetAddress
any_address port = record { sin_family = af_inet; s_addr = 0; sin_port = swap16 port }

-- A text that `inet_pton` refuses leaves the zeros, after an error in the log.
abbrev pub or_zero : Option ℕ → ℕ
or_zero none = 0
or_zero (some a) = a

-- `NetAddress(ip, port)`
abbrev pub address_of : Option ℕ → ℕ → NetAddress
address_of parsed port = record {
  sin_family = af_inet;
  s_addr = or_zero parsed;
  sin_port = swap16 port;
}

abbrev pub get_sock_addr : NetAddress → NetAddress
get_sock_addr a = a

abbrev pub set_sock_addr : NetAddress → NetAddress → NetAddress
set_sock_addr a addr = addr

-- A `short` that is passed for `%u`: the sign is extended to 32 bits.
abbrev pub short_as_unsigned : ℕ → ℕ
short_as_unsigned p = if ltb p (2 ^ 15) then p else p + (2 ^ 32 - 2 ^ 16)

-- `toHostPort`; `host` is the text of `inet_ntop`. The size that `snprintf` is given is that of the
-- array of the host, `INET_ADDRSTRLEN`.
abbrev pub inet_addrstrlen : ℕ
inet_addrstrlen = 16

unfoldable pub to_host_port : List ℕ → NetAddress → List ℕ
to_host_port host a =
    snprintf inet_addrstrlen (host ++ 58 ∷ decimal (short_as_unsigned (swap16 a.sin_port)))
