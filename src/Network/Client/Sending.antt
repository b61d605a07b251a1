-- ===== src/Network/Client/Sending.antt =====
-- sysmodule/source/network/client.cpp: the functions that send a packet.
use ryu_ldn_nx.Prelude.{ℕ, ◌+◌, ◌%◌, Bool, none, List, if◌then◌else◌}
use ryu_ldn_nx.Network.ConnectionState.{ConnectionEvent}
use ryu_ldn_nx.Network.TcpInterface.{ClientResult, Message, ITcpClient}
use ryu_ldn_nx.Network.Client.{
  ClientOpResult, success, not_ready, send_failed, Client, is_sent, is_lost, is_lost_or_down, lose,
  is_ready,
}

module _ {T : Type 0} (I : ITcpClient T) where
  -- What all of them do; `lost` says which answers count as a lost connection.
  unfoldable pub send_with : (ClientResult → Bool) → Client T → Message → ClientOpResult × Client T
  unfolding lose is_ready
  send_with lost c message =
      let (result, tcp) = I.send c.tcp message in
      let c' = record c { tcp = tcp } in
      if is_ready c
      then if is_sent result
        then (success, c')
        else (send_failed, if lost result then lose c' ConnectionEvent.connection_lost else c')
      else (not_ready, c)

  unfoldable pub send_scan : Client T → List ℕ → ClientOpResult × Client T
  unfolding send_with
  send_scan c filter = send_with is_lost c (Message.scan filter)

  unfoldable pub send_create_access_point : Client T → List ℕ → List ℕ → ClientOpResult × Client T
  unfolding send_with
  send_create_access_point c request advertise_data =
      send_with is_lost c (Message.create_access_point request advertise_data)

  unfoldable pub send_connect : Client T → List ℕ → ClientOpResult × Client T
  unfolding send_with
  send_connect c request = send_with is_lost c (Message.connect request)

  unfoldable pub send_create_access_point_private : Client T → List ℕ → ClientOpResult × Client T
  unfolding send_with
  send_create_access_point_private c request =
      send_with is_lost c (Message.create_access_point_private request none)

  unfoldable pub send_connect_private : Client T → List ℕ → ClientOpResult × Client T
  unfolding send_with
  send_connect_private c request = send_with is_lost c (Message.connect_private request)

  unfoldable pub send_proxy_data : Client T → List ℕ → List ℕ → ClientOpResult × Client T
  unfolding send_with
  send_proxy_data c header bytes = send_with is_lost_or_down c (Message.proxy_data header bytes)

  -- `m_ping_id++` comes before the packet goes out.
  unfoldable pub send_ping : Client T → ClientOpResult × Client T
  unfolding send_with is_ready
  send_ping c =
      if is_ready c
      then send_with is_lost (record c { ping_id = (c.ping_id + 1) % 256 })
          (Message.ping 1 c.ping_id)
      else (not_ready, c)

  unfoldable pub send_ping_response : Client T → ℕ → ClientOpResult × Client T
  unfolding send_with
  send_ping_response c ping_id = send_with is_lost c (Message.ping 0 ping_id)

  unfoldable pub send_disconnect_network : Client T → ClientOpResult × Client T
  unfolding send_with
  send_disconnect_network c = send_with is_lost c (Message.disconnect 0)

  unfoldable pub send_set_accept_policy : Client T → ℕ → ClientOpResult × Client T
  unfolding send_with
  send_set_accept_policy c policy = send_with is_lost c (Message.set_accept_policy policy)

  unfoldable pub send_set_advertise_data : Client T → List ℕ → ClientOpResult × Client T
  unfolding send_with
  send_set_advertise_data c bytes = send_with is_lost c (Message.set_advertise_data bytes)

  unfoldable pub send_reject : Client T → ℕ → ℕ → ClientOpResult × Client T
  unfolding send_with
  send_reject c node_id reason = send_with is_lost c (Message.reject node_id reason)

  unfoldable pub send_raw_packet : Client T → List ℕ → ClientOpResult × Client T
  unfolding send_with
  send_raw_packet c bytes = send_with is_lost c (Message.raw bytes)
