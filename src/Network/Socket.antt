-- ===== src/Network/Socket.antt =====
-- sysmodule/source/network/socket.hpp and socket.cpp: `Socket::send`, `Socket::wait_ready` and
-- `Socket::send_all`. What the operating system or the TLS library answers to a call is an argument.
pub mod Sending
pub mod Connecting
mod Tests
use ryu_ldn_nx.Prelude.{
  ℕ, zero, suc, ◌+◌, Bool, true, false, not, ◌&&◌, ◌||◌, Option, none, some, List, [], ◌∷◌, ◌++◌,
  ◌==◌, if◌then◌else◌, length, take, drop,
}

pub data SocketResult : Type 0 where
  success : SocketResult
  would_block : SocketResult
  timeout : SocketResult
  connection_refused : SocketResult
  connection_reset : SocketResult
  host_unreachable : SocketResult
  network_down : SocketResult
  not_connected : SocketResult
  already_connected : SocketResult
  invalid_address : SocketResult
  socket_error : SocketResult
  not_initialized : SocketResult
  closed : SocketResult

-- The values of `errno` that `errno_to_result` tells apart.
pub data Errno : Type 0 where
  again : Errno  -- EAGAIN or EWOULDBLOCK
  refused : Errno
  reset : Errno  -- ECONNRESET, EPIPE or ECONNABORTED
  host_unreach : Errno
  net_unreach : Errno
  net_down : Errno
  not_conn : Errno
  is_conn : Errno
  timed_out : Errno
  other : Errno

abbrev pub errno_to_result : Errno → SocketResult
errno_to_result again = would_block
errno_to_result refused = connection_refused
errno_to_result reset = connection_reset
errno_to_result host_unreach = host_unreachable
errno_to_result net_unreach = host_unreachable
errno_to_result net_down = network_down
errno_to_result not_conn = not_connected
errno_to_result is_conn = already_connected
errno_to_result timed_out = timeout
errno_to_result other = socket_error

pub record Socket : Type 0 where
  pub connected : Bool
  pub use_tls : Bool  -- with a TLS context

-- The answer of `::send` or of `mbedtls_ssl_write`, which take no more than they are given.
pub data Answer : Type 0 where
  wrote : ℕ → Answer
  errored : Errno → Answer
  tls_wants : Answer
  tls_errored : Answer

abbrev disconnected : Socket → Socket
disconnected s = record s { connected = false }

-- A call that took no byte: an error for a plain socket only.
abbrev wrote_none : Socket → SocketResult × (Socket × List ℕ)
wrote_none s = if s.use_tls then (success, (s, [])) else (closed, (disconnected s, []))

abbrev send_error : Socket → Errno → SocketResult × (Socket × List ℕ)
send_error s again = (would_block, (s, []))
send_error s e = (errno_to_result e, (disconnected s, []))

abbrev pub answered : Socket → List ℕ → Answer → SocketResult × (Socket × List ℕ)
answered s bytes (wrote zero) = wrote_none s
answered s bytes (wrote (suc n)) = (success, (s, take (suc n) bytes))
answered s bytes (errored e) = send_error s e
answered s bytes tls_wants = (would_block, (s, []))
answered s bytes tls_errored = (socket_error, (disconnected s, []))

-- The result, the socket and the bytes that were taken.
unfoldable pub send : Socket → List ℕ → Answer → SocketResult × (Socket × List ℕ)
send s bytes a = if not s.connected then (not_connected, (s, [])) else answered s bytes a

-- The answer of `poll`.
pub data Polled : Type 0 where
  ready : Polled
  expired : Polled
  hung_up : Polled
  poll_errored : Errno → Polled

unfoldable pub wait_ready : Socket → Polled → SocketResult × Socket
wait_ready s ready = (success, s)
wait_ready s expired = (timeout, s)
wait_ready s hung_up = (connection_reset, disconnected s)
wait_ready s (poll_errored e) = (errno_to_result e, s)

pub record Round : Type 0 where
  pub answer : Answer
  pub polled : Polled

abbrev pub All : Type 0
All = Option (SocketResult × (Socket × List ℕ))

abbrev pub prepend : List ℕ → All → All
prepend sent none = none
prepend sent (some (r, (s, more))) = some (r, (s, sent ++ more))

-- A round of `send_all` returns, or goes on behind the bytes that were taken.
pub data Next : Type 0 where
  returns : SocketResult → Socket → Next
  continues : Socket → List ℕ → Next

abbrev pub next_polled : SocketResult × Socket → Next
next_polled (success, s) = continues s []
next_polled (r, s) = returns r s

-- The round's result once the answers are in: `timeout_ms`, whether some bytes were sent before, the
-- answer of `poll` and what `send` gave.
unfoldable pub next_sent : ℕ → Bool → Polled → SocketResult × (Socket × List ℕ) → Next
unfolding wait_ready
next_sent timeout_ms some_sent p (success, (s, sent)) = continues s sent
next_sent timeout_ms some_sent p (would_block, (s, sent)) =
    if (timeout_ms == 0) && not some_sent
    then returns would_block s
    else next_polled (wait_ready s p)
next_sent timeout_ms some_sent p (r, (s, sent)) = returns r s

unfoldable pub next : Socket → List ℕ → ℕ → Bool → Round → Next
unfolding send next_sent
next s bytes timeout_ms some_sent round =
    next_sent timeout_ms some_sent round.polled (send s bytes round.answer)

abbrev pub resume : List ℕ → Bool → (Socket → List ℕ → Bool → All) → Next → All
resume bytes some_sent later (returns r s) = some (r, (s, []))
resume bytes some_sent later (continues s sent) =
    prepend sent (later s (drop (length sent) bytes) (some_sent || not (length sent == 0)))

-- The loop of `send_all`, on what is left of the data: whether some of it was sent, and `timeout_ms`. It
-- has no result when the answers are used up while it waits for another.
unfoldable pub send_rest : List Round → ℕ → Socket → List ℕ → Bool → All
unfolding next
send_rest rounds timeout_ms s [] some_sent = some (success, (s, []))
send_rest [] timeout_ms s (x ∷ xs) some_sent = none
send_rest (round ∷ rounds) timeout_ms s (x ∷ xs) some_sent =
    resume (x ∷ xs) some_sent (send_rest rounds timeout_ms)
      (next s (x ∷ xs) timeout_ms some_sent round)

unfoldable pub send_all : Socket → List ℕ → ℕ → List Round → All
unfolding send_rest
send_all s bytes timeout_ms rounds = send_rest rounds timeout_ms s bytes false
