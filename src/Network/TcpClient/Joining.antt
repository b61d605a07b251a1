-- ===== src/Network/TcpClient/Joining.antt =====
-- The network client over `TcpClient`: from the socket's bytes to a client that is ready.
use ryu_ldn_nx.Prelude.{
  ℕ, ◌+◌, ◌≤◌, ◌<◌, ◌≡◌, refl, sym, ap, ◌∙◌, subst, true, false, List, [], ◌∷◌, ◌++◌, arith, concat,
  length, take, drop, replicate, le→leb, length-append, length-take, length-drop, length-replicate,
  if◌then◌else◌, ◌||◌,
}
use ryu_ldn_nx.Protocol.Header.{header_size, initialize}
use ryu_ldn_nx.Protocol.Codec.RoundTrip.{packet}
use ryu_ldn_nx.Protocol.PacketBuffer.Contents.{IsValid}
use ryu_ldn_nx.Network.ConnectionState.{ConnectionState}
use ryu_ldn_nx.Network.SendQueue.{send_buffer_size}
use ryu_ldn_nx.Network.Socket.{SocketResult, Socket}
use ryu_ldn_nx.Network.Socket.Connecting.{Dial}
use ryu_ldn_nx.Network.TcpInterface.{ClientResult, success, Message, Endpoint, ITcpClient}
use ryu_ldn_nx.Network.TcpClient.{
  recv_buffer_size, TcpClient, client_result, connect_with, is_queued, send,
}
use ryu_ldn_nx.Network.TcpClient.Filling.{chunks, AreChunks, Streams}
use ryu_ldn_nx.Network.TcpClient.Stream.{Ahead, receive_packet-first}
use ryu_ldn_nx.Network.TcpClient.Wire.{fits, on_wire, send_lem}
use ryu_ldn_nx.Network.TcpClient.Interface.{tcp_client}
use ryu_ldn_nx.Network.Client.{Client, elapsed}
use ryu_ldn_nx.Network.Client.Connecting.{endpoint, with_address}
use ryu_ldn_nx.Network.Client.Calls.{Call, call_all}
use ryu_ldn_nx.Network.Client.Retrying.{Returns, Returns-map}
use ryu_ldn_nx.Network.Client.Joining.{dialing, started}
use ryu_ldn_nx.Network.Client.Joining.Handshake.{call_all-ready}

-- A client that is ready with the session id and the MAC address of a packet, and has a stream ahead.
abbrev pub Greeted : List ℕ → List ℕ → Client TcpClient → Type 0
Greeted payload stream c =
    (c.machine.state ≡ ConnectionState.ready)
    × (c.session_id ≡ take 16 payload)
    × (c.mac_address ≡ take 6 (drop 16 payload))
    × Ahead c.tcp stream

-- A `send_all` that always succeeds, and leaves the socket as it is.
abbrev pub Sends : (Socket → List ℕ → SocketResult × Socket) → Type 0
Sends send_all = (s : Socket) (bytes : List ℕ) → send_all s bytes ≡ (SocketResult.success, s)

connect_with-up :
    (t : TcpClient) (e : Endpoint)
    → t.initialized ≡ true
    → t.socket.connected ≡ false
    → 0 < length e.host
    → let (r, t') = connect_with Dial.up true t e in
      (r ≡ success)
      × (t'.socket.connected ≡ true)
      × (t'.arrivals ≡ t.arrivals)
      × (t'.recv_buffer.buffer ≡ t.recv_buffer.buffer)
      × (t'.recv_buffer.write_pos ≡ 0)
unfolding connect_with
connect_with-up t e init down host = ground (arith, init, down)

-- A connection that is made leaves an empty buffer, and the whole stream still to come.
connect_with-Ahead :
    (t : TcpClient) (e : Endpoint) (cs : List (List ℕ))
    → t.initialized ≡ true
    → t.socket.connected ≡ false
    → 0 < length e.host
    → IsValid recv_buffer_size t.recv_buffer
    → t.arrivals ≡ chunks cs
    → AreChunks cs
    → let (r, t') = connect_with Dial.up true t e in (r ≡ success) × Ahead t' (concat cs)
connect_with-Ahead t e cs init down host v come are =
    let t' = (connect_with Dial.up true t e).1 in
    let (made, up, arrivals, block, empty) = connect_with-up t e init down host in
    let valid : IsValid recv_buffer_size t'.recv_buffer = record {
      block = ap length block ∙ v.block;
      in_block = omega (arith, empty);
    } in
    (
      made,
      record {
        ahead = cs;
        come = arrivals ∙ come;
        streams = record {
          up = up;
          valid = valid;
          are_chunks = are;
          whole = ap (λ n. take n t'.recv_buffer.buffer ++ concat cs) empty;
        };
      },
    )

send-Ahead :
    (send_all : Socket → List ℕ → SocketResult × Socket) (now_ms : ℕ) (t : TcpClient) (m : Message)
    (stream : List ℕ)
    → Sends send_all
    → fits m ≡ true
    → is_queued m ≡ false
    → Ahead t stream
    → let (r, t') = send send_all now_ms t m in (r ≡ success) × Ahead t' stream
send-Ahead send_all now_ms t m stream sends room direct a =
    let (_, _, _, works) = send_lem send_all now_ms t m in
    let (result, same) = works a.streams.up room direct in
    let answer = sends t.socket (on_wire m) in
    (
      result ∙ ap (λ (r : SocketResult × Socket). client_result r.0) answer,
      subst (λ t'. Ahead t' stream) (sym same)
          (record {
            ahead = a.ahead;
            come = a.come;
            streams = record {
              up = ap (λ (r : SocketResult × Socket). r.1.connected) answer ∙ a.streams.up;
              valid = a.streams.valid;
              are_chunks = a.streams.are_chunks;
              whole = a.streams.whole;
            };
          }),
    )

fits-passphrase : (text : List ℕ) → fits (Message.passphrase text) ≡ true
fits-passphrase text =
    let shown = take 127 text in
    let left = drop (length shown) (replicate 128 0) in
    le→leb (header_size + length (shown ++ left)) send_buffer_size (
      omega (
        arith,
        length-append shown left,
        length-take 127 text,
        length-drop {A = ℕ} (length shown) (replicate 128 0),
        length-replicate {A = ℕ} 128 0,
      ))

fits-initialize :
    (id mac : List ℕ) → length (id ++ mac) ≡ 22 → fits (Message.initialize id mac) ≡ true
fits-initialize id mac h =
    le→leb (header_size + length (id ++ mac)) send_buffer_size (omega (arith, h))

module _ (dial : Endpoint → Dial) (send_all : Socket → List ℕ → SocketResult × Socket) (now_ms : ℕ)
    (sends : Sends send_all) where
  abbrev implementation : ITcpClient TcpClient
  implementation = tcp_client true dial true send_all now_ms

  -- The first connection of a client over `TcpClient`.
  first-Ahead :
      (c : Client TcpClient) (cs : List (List ℕ))
      → dial (endpoint (dialing c)) ≡ Dial.up
      → c.initialized ≡ false
      → c.tcp.socket.connected ≡ false
      → 0 < length c.config.host
      → IsValid recv_buffer_size c.tcp.recv_buffer
      → c.tcp.arrivals ≡ chunks cs
      → AreChunks cs
      → let (r, t) = implementation.connect (started implementation c) (endpoint (dialing c)) in
        (r ≡ success) × Ahead t (concat cs)
  unfolding endpoint with_address
  first-Ahead c cs up fresh down host v come are =
      let e = endpoint (dialing c) in
      let t = record c.tcp { initialized = true } in
      let Makes = λ (r : ClientResult × TcpClient). (r.0 ≡ success) × Ahead r.1 (concat cs) in
      let first : started implementation c ≡ t = ap (λ b. if b then c.tcp else t) fresh in
      subst (λ t'. Makes (connect_with (dial e) true t' e)) (sym first)
        (subst (λ d. Makes (connect_with d true t e)) (sym up)
          (connect_with-Ahead t e cs refl down (omega (arith, length-take 128 c.config.host)) v come
            are))

  -- The network client over `TcpClient`, from the bytes on: a disconnected client without a
  -- connection, whose sockets were never initialized, is told to connect and is then updated twice.
  -- It gets ready when the socket subsystem works, the try to connect and the start of the thread
  -- succeed, `send_all` succeeds, and the server's stream begins with an `Initialize` packet of 22
  -- to 2048 bytes, however it is cut into chunks, none empty or longer than `temp_buffer`. The
  -- host's name is not empty, the receive buffer has its size, the session id and the MAC address
  -- are 22 bytes, the multiplier of the delay is above 0, and the second update comes within the
  -- handshake's timeout. The client then has the session id and the MAC address of the packet, and
  -- the rest of the stream is still to come.
  pub tcp_client-ready :
      (rand : ℕ → ℕ) (c : Client TcpClient) (cs : List (List ℕ)) (payload rest : List ℕ)
      (fuel now fuel' now' : ℕ)
      → dial (endpoint (dialing c)) ≡ Dial.up
      → c.machine.state ≡ ConnectionState.disconnected
      → 0 < c.reconnect_manager.config.multiplier_percent
      → c.initialized ≡ false
      → c.tcp.socket.connected ≡ false
      → 0 < length c.config.host
      → length (c.session_id ++ c.mac_address) ≡ 22
      → IsValid recv_buffer_size c.tcp.recv_buffer
      → c.tcp.arrivals ≡ chunks cs
      → AreChunks cs
      → concat cs ≡ packet initialize payload ++ rest
      → 22 ≤ length payload
      → length payload ≤ 2048
      → elapsed now' now < c.handshake_timeout_ms
      → Returns (Greeted payload rest) (
          call_all implementation rand c
            (Call.connect ∷ Call.update fuel now ∷ Call.update fuel' now' ∷ []))
  tcp_client-ready rand c cs payload rest fuel now fuel' now' up s h fresh down host ids v come are
        whole long short soon =
      let I = implementation in
      let (made, a) = first-Ahead c cs up fresh down host v come are in
      let t = (I.connect (started I c) (endpoint (dialing c))).1 in
      let passphrase = Message.passphrase c.config.passphrase in
      let greeting = Message.initialize c.session_id c.mac_address in
      let (sent, a') =
        send-Ahead send_all now_ms t passphrase (concat cs) sends
          (fits-passphrase c.config.passphrase) refl a in
      let t' = (I.send t passphrase).1 in
      let (sent', a'') =
        send-Ahead send_all now_ms t' greeting (concat cs) sends
          (fits-initialize c.session_id c.mac_address ids) refl a' in
      let t'' = (I.send t' greeting).1 in
      let (got, left) =
        receive_packet-first initialize payload rest (omega arith) a''.ahead t'' 2048
          c.config.recv_timeout_ms (omega arith) short a''.come
          (subst (Streams t'' a''.ahead) whole a''.streams) in
      let tcp = (I.receive_packet t'' 2048 c.config.recv_timeout_ms).1 in
      Returns-map {Q = Greeted payload rest} _
        (call_all-ready I rand c t t' t'' tcp payload fuel now fuel' now' s h
          (ap (λ b. b || true) fresh) (ap (λ r. (r, t)) made) (ap (λ r. (r, t')) sent)
          (ap (λ r. (r, t'')) sent') (ap (λ r. (r, tcp)) got) long soon)
        (λ c' j.
          (j.is_there, j.has_session, j.has_mac, subst (λ x. Ahead x rest) (sym j.has_tcp) left))
