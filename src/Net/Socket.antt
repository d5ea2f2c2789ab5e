-- ===== src/Net/Socket.antt =====
-- socket.h and socket.cpp. A socket is its descriptor; what the system calls answer is an argument.
use tcp_net_library.Base.{
  ℕ, Bool, true, false, ◌&&◌, ◌||◌, Option, none, some, ◌==◌, if◌then◌else◌, ℤ, pos, negsuc, Result,
  ok, fault, fatal,
}
use tcp_net_library.Net.Address.{NetAddress, set_sock_addr}

-- A call that ends the process where it fails: `bindAddress` and `listen`.
abbrev pub or_fatal : Bool → Result (Unit {0})
or_fatal true = ok tt
or_fatal false = fault fatal

-- `createNoBlockSock`
abbrev pub create_no_block_sock : Option ℕ → Result ℕ
create_no_block_sock none = fault fatal
create_no_block_sock (some fd) = ok fd

abbrev pub eperm : ℕ
eperm = 1

abbrev pub eintr : ℕ
eintr = 4

abbrev pub eagain : ℕ
eagain = 11

abbrev pub emfile : ℕ
emfile = 24

abbrev pub eproto : ℕ
eproto = 71

-- The errors of `accept4` after which the process goes on.
abbrev pub is_transient : ℕ → Bool
is_transient e = e == eagain || (e == eintr || (e == eproto || (e == eperm || e == emfile)))

pub data AcceptAnswer : Type 0 where
  accepted : ℕ → NetAddress → AcceptAnswer
  accept_failed : ℕ → AcceptAnswer

-- `accept`: the descriptor and the peer's address. The errors that are called unexpected and the
-- unknown ones both end the process.
unfoldable pub accept : AcceptAnswer → NetAddress → Result (ℤ × NetAddress)
accept (accepted fd addr) peer_addr = ok (pos fd, set_sock_addr peer_addr addr)
accept (accept_failed e) peer_addr =
    if is_transient e then ok (negsuc 0, peer_addr) else fault fatal

-- `getSocketError`: `getsockopt` answers with the error, or fails with `errno`.
abbrev pub get_socket_error : Option ℕ → ℕ → ℕ
get_socket_error none errno = errno
get_socket_error (some opt_val) errno = opt_val

-- `getLocalAddr` and `getPeerAddr`: where the call fails, the zeros stay, after an error in the log.
abbrev pub zero_address : NetAddress
zero_address = record { sin_family = 0; s_addr = 0; sin_port = 0 }

abbrev pub get_local_addr : Option NetAddress → NetAddress
get_local_addr none = zero_address
get_local_addr (some addr) = addr

abbrev pub get_peer_addr : Option NetAddress → NetAddress
get_peer_addr none = zero_address
get_peer_addr (some peeraddr) = peeraddr

-- `isSelfConnect`, with the answers of `getsockname` and `getpeername`.
abbrev pub is_self_connect : Option NetAddress → Option NetAddress → Bool
is_self_connect local_answer peer_answer =
    let localaddr = get_local_addr local_answer in
    let peeraddr = get_peer_addr peer_answer in
    localaddr.s_addr == peeraddr.s_addr && localaddr.sin_port == peeraddr.sin_port

-- What a socket asks of the kernel; the numbers are those of Linux.
pub data SystemCall : Type 0 where
  setsockopt : ℕ → ℕ → ℕ → ℕ → SystemCall
  shuts_write closes_fd : ℕ → SystemCall

pub record Socket : Type 0 where
  pub fd : ℕ

abbrev pub sol_socket : ℕ
sol_socket = 1

abbrev pub so_reuseaddr : ℕ
so_reuseaddr = 2

abbrev pub ipproto_tcp : ℕ
ipproto_tcp = 6

abbrev pub tcp_nodelay : ℕ
tcp_nodelay = 1

abbrev pub set_reuse_addr : Socket → Bool → SystemCall
set_reuse_addr s flag = setsockopt s.fd sol_socket so_reuseaddr (if flag then 1 else 0)

abbrev pub shutdown_write : Socket → SystemCall
shutdown_write s = shuts_write s.fd

abbrev pub set_tcp_no_delay : Socket → Bool → SystemCall
set_tcp_no_delay s flag = setsockopt s.fd ipproto_tcp tcp_nodelay (if flag then 1 else 0)

-- The destructor.
abbrev pub destroy_socket : Socket → SystemCall
destroy_socket s = closes_fd s.fd
