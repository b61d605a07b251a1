-- ===== src/Network/TcpClient.antt =====
-- sysmodule/source/network/tcp_client.hpp and tcp_client.cpp: `TcpClient`, its connection, the functions
-- that send, and receiving. What the socket makes of a try to connect and of `send_all`, and the time,
-- are parameters, and what it receives is a list of answers, first come first. The thread is there or it
-- could not be started; a proxy packet goes into its queue.
pub mod Receiving
pub mod Filling
pub mod Stream
pub mod Interface
pub mod Wire
pub mod Joining
mod Tests
use ryu_ldn_nx.Prelude.{
  ℕ, ◌+◌, ◌-◌, Bool, true, false, not, ◌&&◌, ◌||◌, Option, none, some, List, [], ◌∷◌, ◌++◌, ltb,
  ◌==◌, if◌then◌else◌, length, take, drop, replicate,
}
use ryu_ldn_nx.Prelude.Bytes.{write_at, u32_bytes}
use ryu_ldn_nx.Protocol.Header.{PacketId, LdnHeader, header_size, read_header}
use ryu_ldn_nx.Protocol.Codec.{
  EncodeResult, DecodeResult, Encoded, encode, encode_with_data, decode_header, undefined_header,
}
use ryu_ldn_nx.Protocol.PacketBuffer.{
  BufferResult, PacketBuffer, append, peek_packet_info, has_complete_packet, consume, reset,
}
use ryu_ldn_nx.Protocol.PacketBuffer as PacketBuffer
use ryu_ldn_nx.Network.SendQueue.{SendQueue, enqueue, send_buffer_size}
use ryu_ldn_nx.Network.SendQueue as SendQueue
use ryu_ldn_nx.Network.Socket.{SocketResult, Socket, Polled}
use ryu_ldn_nx.Network.Socket.Connecting.{Dial, Arrived, close, connect, recv}
use ryu_ldn_nx.Network.TcpInterface.{
  is_sent, ClientResult, success, not_connected, already_connected, connection_failed,
  connection_lost, timeout, invalid_packet, buffer_too_small, encoding_error, not_initialized,
  internal_error, Message, Endpoint, Received,
}

-- The size of `m_recv_buffer`, and of `temp_buffer`.
abbrev pub recv_buffer_size : ℕ
recv_buffer_size = 8192

abbrev pub temp_buffer_size : ℕ
temp_buffer_size = 4096

-- The answers to one call of `Socket::recv`.
pub record Arrival : Type 0 where
  pub polled : Polled
  pub arrived : Arrived

-- The members, and the answers that are still to come. `initialized` is that of the socket subsystem.
pub record TcpClient : Type 0 where
  pub initialized : Bool
  pub socket : Socket
  pub recv_buffer : PacketBuffer
  pub send_buffer : List ℕ
  pub send_queue : SendQueue
  pub send_thread_running : Bool
  pub send_thread_was_started : Bool
  pub arrivals : List Arrival

-- The static function `socket_to_client_result`.
abbrev pub client_result : SocketResult → ClientResult
client_result SocketResult.success = success
client_result SocketResult.would_block = success
client_result SocketResult.timeout = timeout
client_result SocketResult.not_connected = not_connected
client_result SocketResult.already_connected = already_connected
client_result SocketResult.not_initialized = not_initialized
client_result SocketResult.closed = connection_lost
client_result SocketResult.connection_reset = connection_lost
client_result SocketResult.connection_refused = connection_failed
client_result SocketResult.host_unreachable = connection_failed
client_result SocketResult.network_down = connection_failed
client_result SocketResult.invalid_address = connection_failed
client_result SocketResult.socket_error = internal_error

-- `disconnect`: the thread is stopped and its queue emptied, the socket closed, the buffer reset.
unfoldable pub disconnect : TcpClient → TcpClient
unfolding SendQueue.new close reset
disconnect t =
    let stops = t.send_thread_running || t.send_thread_was_started in
    record t {
      send_queue = if stops then SendQueue.new else t.send_queue;
      send_thread_running = false;
      send_thread_was_started = false;
      socket = if t.socket.connected then close t.socket else t.socket;
      recv_buffer = reset t.recv_buffer;
    }

-- `connect` once the socket has answered: the result, and whether the thread could be started.
unfoldable pub connect_answered :
    TcpClient → SocketResult × Socket → Bool → ClientResult × TcpClient
unfolding SendQueue.new close reset
connect_answered t (SocketResult.success, s) thread_started =
    let t' = record t { recv_buffer = reset t.recv_buffer; send_queue = SendQueue.new } in
    if thread_started
    then (
      success,
      record t' { socket = s; send_thread_running = true; send_thread_was_started = true },
    )
    else (
      connection_lost,
      record t' { socket = close s; send_thread_running = false; send_thread_was_started = false },
    )
connect_answered t (r, s) thread_started = (client_result r, record t { socket = s })

-- `connect`, at the answers to the try and to the start of the thread.
unfoldable pub connect_with : Dial → Bool → TcpClient → Endpoint → ClientResult × TcpClient
unfolding disconnect connect connect_answered
connect_with dial thread_started t e =
    let t' = disconnect t in
    if t.socket.connected
    then (already_connected, t)
    else connect_answered t' (connect t.initialized t'.socket e.host e.use_tls dial) thread_started

-- What a function that sends puts into the buffer, or why it does not.
abbrev pub encoding : Encoded → ClientResult × List ℕ × ℕ
encoding (EncodeResult.success, buffer, size) = (success, buffer, size)
encoding (r, buffer, size) = (encoding_error, buffer, size)

abbrev pub room_or_not : Encoded → ClientResult × List ℕ × ℕ
room_or_not (EncodeResult.success, buffer, size) = (success, buffer, size)
room_or_not (r, buffer, size) = (buffer_too_small, buffer, size)

-- The bytes that go out: the buffer's first `size`.
abbrev pub outgoing : ClientResult × List ℕ × ℕ → ClientResult × List ℕ × List ℕ
outgoing (r, buffer, size) = (r, buffer, take size buffer)

-- Each message in the send buffer: the result, the buffer and the bytes that go out. `send_raw` takes its
-- bytes as they are. Proxy data goes into the queue; `encode_proxy_data` takes the addresses of its header,
-- the first 16 bytes, and sets the length itself.
unfoldable pub encoded : List ℕ → Message → ClientResult × List ℕ × List ℕ
encoded b (Message.passphrase text) = outgoing (
    encoding (
      encode b send_buffer_size PacketId.passphrase (write_at (replicate 128 0) 0 (take 127 text))))
encoded b (Message.initialize id mac) =
    outgoing (encoding (encode b send_buffer_size PacketId.initialize (id ++ mac)))
encoded b (Message.ping requester id) =
    outgoing (encoding (encode b send_buffer_size PacketId.ping (requester ∷ id ∷ [])))
encoded b (Message.disconnect ip) =
    outgoing (encoding (encode b send_buffer_size PacketId.disconnect (u32_bytes ip)))
encoded b (Message.scan filter) =
    outgoing (encoding (encode b send_buffer_size PacketId.scan filter))
encoded b (Message.connect request) =
    outgoing (encoding (encode b send_buffer_size PacketId.connect request))
encoded b (Message.connect_private request) =
    outgoing (encoding (encode b send_buffer_size PacketId.connect_private request))
encoded b (Message.create_access_point request advertise_data) = outgoing (
    room_or_not (
      encode_with_data b send_buffer_size PacketId.create_access_point request (some advertise_data)
        (length advertise_data)))
encoded b (Message.create_access_point_private request none) = outgoing (
    room_or_not
      (encode_with_data b send_buffer_size PacketId.create_access_point_private request none 0))
encoded b (Message.create_access_point_private request (some advertise_data)) = outgoing (
    room_or_not (
      encode_with_data b send_buffer_size PacketId.create_access_point_private request
        (some advertise_data) (length advertise_data)))
encoded b (Message.set_accept_policy policy) =
    outgoing (encoding (encode b send_buffer_size PacketId.set_accept_policy (policy ∷ [])))
encoded b (Message.set_advertise_data bytes) =
    outgoing (encoding (encode b send_buffer_size PacketId.set_advertise_data (take 384 bytes)))
encoded b (Message.reject node_id reason) =
    outgoing
      (encoding (encode b send_buffer_size PacketId.reject (u32_bytes node_id ++ u32_bytes reason)))
encoded b (Message.raw bytes) =
    if length bytes == 0 then (encoding_error, b, []) else (success, b, bytes)
encoded b (Message.proxy_data header bytes) = outgoing (
    encoding (
      encode_with_data b send_buffer_size PacketId.proxy_data
        (take 16 header ++ u32_bytes (length bytes)) (some bytes) (length bytes)))

-- Whether a message goes into the queue.
abbrev pub is_queued : Message → Bool
is_queued (Message.proxy_data header bytes) = true
is_queued _ = false

module _ (send_all : Socket → List ℕ → SocketResult × Socket) (now_ms : ℕ) where
  -- A function that sends.
  unfoldable pub send : TcpClient → Message → ClientResult × TcpClient
  unfolding encoded
  send t m =
      let (result, buffer, bytes) = encoded t.send_buffer m in
      let t' = record t { send_buffer = buffer } in
      let (sent, socket) = send_all t.socket bytes in
      if not t.socket.connected
      then (not_connected, t)
      else if not (is_sent result)
      then (result, t')
      else if is_queued m
      then (success, record t' { send_queue = enqueue t.send_queue now_ms bytes })
      else (client_result sent, record t' { socket = socket })
