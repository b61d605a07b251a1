-- ===== src/Network/Socket/Tests.antt =====
-- Examples of the theorems on the socket.
use ryu_ldn_nx.Prelude.{◌≡◌, refl, true, false, some, List, [], ◌∷◌}
use ryu_ldn_nx.Network.Socket.{
  success, timeout, Socket, Answer, wrote, errored, again, Polled, ready, expired, Round, send,
  wait_ready, next_sent, next, send_rest, send_all,
}
use ryu_ldn_nx.Network.Socket.Sending.{progress, Outcome, send_all_lem}

abbrev open_socket : Socket
open_socket = record { connected = true; use_tls = false }

abbrev round_of : Answer → Polled → Round
round_of answer polled = record { answer = answer; polled = polled }

abbrev two_calls : List Round
two_calls =
    round_of (wrote 2) ready ∷ round_of (errored again) ready ∷ round_of (wrote 9) ready ∷ []

send_all-two_calls :
    send_all open_socket (1 ∷ 2 ∷ 3 ∷ []) 5000 two_calls
    ≡ some (success, (open_socket, 1 ∷ 2 ∷ 3 ∷ []))
unfolding send_all send_rest next next_sent send wait_ready
send_all-two_calls = refl

-- After a wait in vain the first two bytes have gone out.
send_all-cut :
    send_all open_socket
      (1 ∷ 2 ∷ 3 ∷ [])
      5000
      (round_of (wrote 2) ready ∷ round_of (errored again) expired ∷ [])
    ≡ some (timeout, (open_socket, 1 ∷ 2 ∷ []))
unfolding send_all send_rest next next_sent send wait_ready
send_all-cut = refl

send_all_lem_example :
    Outcome
      (1 ∷ 2 ∷ 3 ∷ [])
      (progress two_calls)
      (send_all open_socket (1 ∷ 2 ∷ 3 ∷ []) 5000 two_calls)
send_all_lem_example = send_all_lem open_socket (1 ∷ 2 ∷ 3 ∷ []) 5000 two_calls
