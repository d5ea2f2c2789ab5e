-- ===== src/Net/Connection/Stays.antt =====
-- tcpConnection.cpp: the handlers that leave a connection up, and the closes that they ask for.
use tcp_net_library.Base.{ℕ, ◌≡◌, List, [], ◌∷◌, arith, ok}
use tcp_net_library.Buffer.{ReadResult, read_failed, got}
use tcp_net_library.Net.Connection.{
  TcpConnection, Effect, WriteResult, write_failed, wrote, handle_close, handle_error, handle_read,
  shutdown_inloop, written_out, after_write, on_write_answer, handle_write, keep_rest, send_inloop,
  send, shutdown,
}
use tcp_net_library.Net.Connection.Lifecycle.{
  Call, establish, destroy, close, shut, shut_inloop, read, write, send_message,
  send_message_inloop, perform, has_been_up, is_over,
}

-- The connection is neither established nor destroyed.
pub record Stays (c d : TcpConnection) : Type 0 where
  pub up : has_been_up d.state ≡ has_been_up c.state
  pub over : is_over d.state ≡ is_over c.state
  pub thread : d.thread ≡ c.thread

close-Stays :
    (caller : ℕ) (c d : TcpConnection) (es : List Effect)
    → handle_close caller c ≡ ok (d, es)
    → Stays c d
unfolding handle_close
close-Stays caller c d es h = ground arith

shut_inloop-Stays :
    (caller : ℕ) (c d : TcpConnection) (es : List Effect)
    → shutdown_inloop caller c ≡ ok (d, es)
    → Stays c d
unfolding shutdown_inloop
shut_inloop-Stays caller c d es h = ground arith

shut-Stays :
    (caller : ℕ) (c d : TcpConnection) (es : List Effect)
    → shutdown caller c ≡ ok (d, es)
    → Stays c d
unfolding shutdown shutdown_inloop
shut-Stays caller c d es h = ground arith

read-Stays :
    (caller : ℕ) (c d : TcpConnection) (es : List Effect) (r : ReadResult)
    → handle_read caller c r ≡ ok (d, es)
    → Stays c d
unfolding handle_read handle_close handle_error
read-Stays caller c d es (read_failed e) h = ground arith
read-Stays caller c d es (got []) h = ground arith
read-Stays caller c d es (got (x ∷ xs)) h = ground arith

keep_rest-Stays :
    (c d : TcpConnection) (es : List Effect) (rest : List ℕ)
    → keep_rest c rest ≡ ok (d, es)
    → Stays c d
unfolding keep_rest
keep_rest-Stays c d es rest h = ground arith

written_out-Stays :
    (caller : ℕ) (c d : TcpConnection) (es : List Effect)
    → written_out caller c ≡ ok (d, es)
    → Stays c d
unfolding written_out shutdown_inloop
written_out-Stays caller c d es h = ground arith

after_write-Stays :
    (caller : ℕ) (c d : TcpConnection) (pending : List ℕ) (n : ℕ) (es : List Effect)
    → after_write caller c pending n ≡ ok (d, es)
    → Stays c d
unfolding after_write written_out shutdown_inloop
after_write-Stays caller c d pending n es h = ground arith

write-Stays :
    (caller : ℕ) (c d : TcpConnection) (es : List Effect) (answer : WriteResult)
    → handle_write caller c answer ≡ ok (d, es)
    → Stays c d
unfolding handle_write on_write_answer after_write written_out shutdown_inloop
write-Stays caller c d es write_failed h = ground arith
write-Stays caller c d es (wrote n) h = ground arith

send_inloop-Stays :
    (caller : ℕ) (c d : TcpConnection) (es : List Effect) (message : List ℕ) (answer : WriteResult)
    → send_inloop caller c message answer ≡ ok (d, es)
    → Stays c d
unfolding send_inloop keep_rest
send_inloop-Stays caller c d es message answer h = ground arith

send-Stays :
    (caller : ℕ) (c d : TcpConnection) (es : List Effect) (message : List ℕ) (answer : WriteResult)
    → send caller c message answer ≡ ok (d, es)
    → Stays c d
unfolding send
send-Stays caller c d es message answer h =
    ground (arith, send_inloop-Stays caller c d es message answer)

-- Every call but the first and the last.
abbrev pub IsUse : Call → Type 0
IsUse establish = ⊥
IsUse destroy = ⊥
IsUse close = Unit {0}
IsUse shut = Unit {0}
IsUse shut_inloop = Unit {0}
IsUse (read r) = Unit {0}
IsUse (write a) = Unit {0}
IsUse (send_message xs a) = Unit {0}
IsUse (send_message_inloop xs a) = Unit {0}

pub perform-Stays :
    (caller : ℕ) (c d : TcpConnection) (es : List Effect) (call : Call)
    → IsUse call
    → perform caller c call ≡ ok (d, es)
    → Stays c d
unfolding perform
perform-Stays caller c d es establish u h = elim u [ ]
perform-Stays caller c d es destroy u h = elim u [ ]
perform-Stays caller c d es close u h = close-Stays caller c d es h
perform-Stays caller c d es shut u h = shut-Stays caller c d es h
perform-Stays caller c d es shut_inloop u h = shut_inloop-Stays caller c d es h
perform-Stays caller c d es (read r) u h = read-Stays caller c d es r h
perform-Stays caller c d es (write a) u h = write-Stays caller c d es a h
perform-Stays caller c d es (send_message xs a) u h = send-Stays caller c d es xs a h
perform-Stays caller c d es (send_message_inloop xs a) u h = send_inloop-Stays caller c d es xs a h
