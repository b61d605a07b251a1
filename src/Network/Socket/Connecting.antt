-- ===== src/Network/Socket/Connecting.antt =====
-- sysmodule/source/network/socket.cpp: `Socket::connect`, `Socket::recv` and `Socket::close`. What the
-- operating system, the resolver and the TLS library answer is an argument. The descriptor and the
-- socket's options have no part in the results.
use ryu_ldn_nx.Prelude.{ℕ, Bool, true, false, not, List, [], if◌then◌else◌, length, ◌==◌, ltb}
use ryu_ldn_nx.Network.Socket.{
  SocketResult, success, would_block, not_connected, already_connected, invalid_address,
  socket_error, not_initialized, closed, Errno, again, errno_to_result, Socket, Polled, wait_ready,
}

unfoldable pub close : Socket → Socket
close s = record { connected = false; use_tls = false }

-- How a try to connect goes: the socket cannot be created, the host has no address, the socket cannot
-- be made non-blocking, the call fails at once, what `poll` answers where the call is under way, its
-- error in the end, the TLS library fails, or the connection is there.
pub data Dial : Type 0 where
  not_created : Errno → Dial
  unresolved : Dial
  not_unblocked : Errno → Dial
  rejected : Errno → Dial
  waited : Polled → Dial
  ended : Errno → Dial
  tls_failed : Dial
  up : Dial

abbrev polled_result : Socket → Bool → SocketResult × Socket → SocketResult × Socket
polled_result s tls (success, s') = (success, record { connected = true; use_tls = tls })
polled_result s tls (r, s') = (r, close s')

-- `connect` from the creation of the socket on.
unfoldable pub dialed : Socket → Bool → Dial → SocketResult × Socket
unfolding close wait_ready
dialed s tls (not_created e) = (errno_to_result e, close s)
dialed s tls unresolved = (invalid_address, close s)
dialed s tls (not_unblocked e) = (errno_to_result e, close s)
dialed s tls (rejected e) = (errno_to_result e, close s)
dialed s tls (waited p) = polled_result s tls (wait_ready s p)
dialed s tls (ended e) = (errno_to_result e, close s)
dialed s tls tls_failed = (socket_error, close s)
dialed s tls up = (success, record { connected = true; use_tls = tls })

-- Whether the socket subsystem is initialized, the socket, the host and the answers.
unfoldable pub connect : Bool → Socket → List ℕ → Bool → Dial → SocketResult × Socket
unfolding dialed
connect subsystem s host tls d =
    if not subsystem
    then (not_initialized, s)
    else if length host == 0
    then (invalid_address, s)
    else if s.connected
    then (already_connected, s)
    else dialed s tls d

-- The answer of `::recv` or of `mbedtls_ssl_read`; no bytes stand for the end of the stream.
pub data Arrived : Type 0 where
  bytes : List ℕ → Arrived
  errored : Errno → Arrived
  tls_wants : Arrived
  tls_errored : Arrived

abbrev read_error : Socket → Errno → SocketResult × Socket × List ℕ
read_error s again = (would_block, s, [])
read_error s e = (errno_to_result e, record s { connected = false }, [])

unfoldable pub read : Socket → Arrived → SocketResult × Socket × List ℕ
read s (bytes chunk) =
    if length chunk == 0 then (closed, record s { connected = false }, []) else (success, s, chunk)
read s (errored e) = read_error s e
read s tls_wants = (would_block, s, [])
read s tls_errored = (socket_error, record s { connected = false }, [])

abbrev read_polled : Arrived → SocketResult × Socket → SocketResult × Socket × List ℕ
read_polled a (success, s) = read s a
read_polled a (r, s) = (r, s, [])

-- The timeout, the answer of `poll` and the bytes; the result has the socket and what was received.
unfoldable pub recv : Socket → ℕ → Polled → Arrived → SocketResult × Socket × List ℕ
unfolding read wait_ready
recv s timeout_ms p a =
    if not s.connected
    then (not_connected, s, [])
    else if ltb 0 timeout_ms
    then read_polled a (wait_ready s p)
    else read s a
