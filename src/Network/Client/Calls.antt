-- ===== src/Network/Client/Calls.antt =====
-- sysmodule/source/network/client.hpp: the calls of a `RyuLdnClient`, and runs of them.
use ryu_ldn_nx.Prelude.{ℕ, Bool, Option, some, List, [], ◌∷◌}
use ryu_ldn_nx.Network.TcpInterface.{ITcpClient}
use ryu_ldn_nx.Network.Client.{ClientConfig, Client, ◌>>=◌}
use ryu_ldn_nx.Network.Client as Configuring
use ryu_ldn_nx.Network.Client.Connecting as Connecting
use ryu_ldn_nx.Network.Client.Sending as Sending
use ryu_ldn_nx.Network.Client.Updating as Updating

pub data Call : Type 0 where
  set_config : ClientConfig → Call
  set_state_callback set_packet_callback : Bool → Call
  connect disconnect : Call
  connect_to : Option (List ℕ) → ℕ → Call
  update : ℕ → ℕ → Call  -- fuel for the packets, and the time
  send_scan send_connect send_create_access_point_private send_connect_private : List ℕ → Call
  send_create_access_point send_proxy_data : List ℕ → List ℕ → Call
  send_ping send_disconnect_network : Call
  send_ping_response send_set_accept_policy : ℕ → Call
  send_set_advertise_data send_raw_packet : List ℕ → Call
  send_reject : ℕ → ℕ → Call

module _ {T : Type 0} (I : ITcpClient T) (rand : ℕ → ℕ) where
  unfoldable pub call : Client T → Call → Option (Client T)
  call c (Call.set_config config) = Configuring.set_config c config
  call c (Call.set_state_callback b) = some (Configuring.set_state_callback c b)
  call c (Call.set_packet_callback b) = some (Configuring.set_packet_callback c b)
  call c Call.connect = Connecting.connect I c >>= λ r. some r.1
  call c Call.disconnect = Connecting.disconnect I c
  call c (Call.connect_to host port) = Connecting.connect_to I c host port >>= λ r. some r.1
  call c (Call.update fuel now) = Updating.update I rand fuel c now
  call c (Call.send_scan filter) = some (Sending.send_scan I c filter).1
  call c (Call.send_connect request) = some (Sending.send_connect I c request).1
  call c (Call.send_create_access_point_private request) =
      some (Sending.send_create_access_point_private I c request).1
  call c (Call.send_connect_private request) = some (Sending.send_connect_private I c request).1
  call c (Call.send_create_access_point request advertise_data) =
      some (Sending.send_create_access_point I c request advertise_data).1
  call c (Call.send_proxy_data header bytes) = some (Sending.send_proxy_data I c header bytes).1
  call c Call.send_ping = some (Sending.send_ping I c).1
  call c Call.send_disconnect_network = some (Sending.send_disconnect_network I c).1
  call c (Call.send_ping_response ping_id) = some (Sending.send_ping_response I c ping_id).1
  call c (Call.send_set_accept_policy policy) = some (Sending.send_set_accept_policy I c policy).1
  call c (Call.send_set_advertise_data bytes) = some (Sending.send_set_advertise_data I c bytes).1
  call c (Call.send_raw_packet bytes) = some (Sending.send_raw_packet I c bytes).1
  call c (Call.send_reject node_id reason) = some (Sending.send_reject I c node_id reason).1

  unfoldable pub call_all : Client T → List Call → Option (Client T)
  unfolding call
  call_all c [] = some c
  call_all c (e ∷ es) = call c e >>= λ c'. call_all c' es
