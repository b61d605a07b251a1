-- ===== src/Lib.antt =====
-- A model of the ryu_ldn_nx sysmodule, which gives Nintendo Switch games local wireless play over
-- the Internet, and the theorems about it.
--
-- The program. Games talk to the services of sysmodule/source/ldn. A session is a state machine
-- (ldn_state_machine.cpp). The packets of the RyuLdn protocol (sysmodule/source/protocol) go over a
-- TCP connection to a server, whose life is a state machine of its own
-- (sysmodule/source/network/connection_state.cpp) with a delay policy for reconnecting
-- (reconnect.cpp), or straight to the host of the session (sysmodule/source/p2p). The data that a
-- game sends through BSD sockets goes into the same packets: sysmodule/source/bsd gives the game proxy
-- sockets (proxy_socket.cpp) with ports from a pool (ephemeral_port_pool.cpp), and a manager
-- (proxy_socket_manager.cpp) that brings the packets which arrive to the sockets they are for. On their
-- way out the packets wait in the queue of the TCP client (sysmodule/source/network/tcp_client.cpp).
--
-- The files. Prelude and its children hold what all share: Boolean tests, lists, subsequences, bytes
-- and memory writes, rings of slots.
--   Network.ConnectionState: `ConnectionStateMachine` of connection_state.hpp and .cpp, with its
--     transition table, retry counter and callback; Lifecycle and Retries prove.
--   Network.Reconnect: `ReconnectManager` of reconnect.hpp and .cpp; Delay, Jitter and Retries prove.
--   Network.SendQueue: the send queue of `TcpClient`, `send_proxy_data` and `SendThreadLoop`, of
--     tcp_client.hpp and .cpp; Bounds, Sending, Sent, Rounds, Wire, HeadDrop and
--     Interleaving prove.
--   Network.Socket: `send`, `wait_ready` and `send_all` of socket.hpp and .cpp; Sending proves. In
--     Socket.Connecting `connect`, `recv` and `close`.
--   Network.TcpInterface: `ITcpClient` of itcp_client.hpp, what the network client asks of a TCP client.
--   Network.TcpClient: `TcpClient` of tcp_client.hpp and .cpp, its connection and the functions that send,
--     and in TcpClient.Receiving `receive_packet`; Filling, Stream and Wire prove, Interface shows that
--     it is an `ITcpClient`, and Joining puts it under the network client.
--   Network.Client: `RyuLdnClient` of client.hpp and .cpp over any `ITcpClient`; its operations are in
--     Client.Connecting, Receiving, Sending and Updating, and Calls lists them. States, Moves, Readiness,
--     Retrying, Stuck, Branches, Draining and Joining prove.
--   Ldn.StateMachine: `LdnStateMachine`; Transitions and Sessions prove.
--   Ldn.ProxyBuffer: `LdnProxyBuffer` of ldn_proxy_buffer.hpp and .cpp; Layout, Writes, Reads and Wrap
--     prove.
--   Ldn.NodeMapper: `LdnNodeMapper` of ldn_node_mapper.hpp and .cpp; Update and Routing prove.
--   Ldn.SessionHandler: `LdnSessionHandler` of ldn_session_handler.hpp and .cpp; States proves.
--   Ldn.ProxyHandler: `LdnProxyHandler` of ldn_proxy_handler.hpp and .cpp; Table proves.
--   Protocol.Header and Protocol.Codec: types.hpp and ryu_protocol.hpp, the packet header in memory,
--     the encoders and the decoders; RoundTrip, ExtraData and Bounds prove.
--   Protocol.PacketBuffer: `PacketBuffer` of packet_buffer.hpp, which finds packets in a byte stream;
--     Contents, Extraction and Resync prove.
--   P2p.ReceiveLoop: `P2pProxyClient::ReceiveLoop` of p2p_proxy_client.cpp on top of these; Passes,
--     Stream and Overflow prove.
--   Bsd.EphemeralPortPool: `EphemeralPortPool`; Bits, Allocation and Specific prove.
--   Bsd.Types: the socket types, addresses and errors of bsd_types.hpp.
--   Bsd.ProxySocket: `ProxySocket` of proxy_socket.hpp and .cpp, its state, connections and options, and
--     in ProxySocket.Transfer its data; Queue, Mailbox, Lifecycle, Connecting and Accepting prove.
--   Bsd.PendingRing: the ring of the packets that wait for a socket, of proxy_socket_manager.hpp; Sweeps
--     and Stores prove.
--   Bsd.ProxySocketManager: `ProxySocketManager` of proxy_socket_manager.hpp and .cpp, and in
--     ProxySocketManager.Routing what it does with packets that arrive; Registry, Targets, Delivery,
--     Purging and Locking prove.
-- Each part has a module Tests with runs at concrete values.
--
-- How code became definitions. A method that changes its object takes the object and returns the
-- changed one, with the method's result beside it; an output parameter is returned as well. A method
-- that holds a mutex from its first line to its last is one step. A callback is seen through the list
-- of calls made to it. Memory is a list of bytes, a copy is `write_at`, structures are packed and
-- little-endian. An unsigned number of w bits is a natural number with its wrap-around written out
-- where the code can reach it; the `int32_t data_size` is its bit pattern. What C++
-- leaves undefined is a fault: the division by zero in `calculate_delay`, and a write outside the array
-- in `UpdateFromNetworkInfo`. The manager's mutex is not recursive: an operation that locks it while it
-- holds it has the result `none`. A map from file descriptors to sockets is a list in the map's order of
-- iteration, a pointer to a socket is its descriptor, and a mask is a quotient and a remainder. What other
-- threads do while a call waits is an argument of the call: the packets that arrive, or the answer to a
-- connection. The send thread is cut into the steps between which another thread can run, and what
-- the socket answers and the time are arguments of a step.
--
-- Fuel. `discard_until_valid` runs on as much fuel as there are bytes, since each round takes one
-- away. The packet loop of `ReceiveLoop` runs on one more than there are bytes, since a packet has
-- twelve at least. The search of `AllocatePort` has its 16384 rounds, as in the code. The
-- loop of `send_all` runs on the list of the answers to its calls, and has no result when they are used up.
-- The loop of `TcpClient::receive_packet` runs on the list of what the socket is still to answer, and ends
-- with a timeout behind it. The loop of `RyuLdnClient::process_packets` has fuel, and no result without:
-- Client.Draining says how much is enough, and TcpClient.Interface how many packets a TCP client has.
--
-- What stands for code that is elsewhere. What `recv` returns is the list of chunks given to the
-- receive loop, and what other threads do to its running flag is the function `keeps_running`. The network
-- client takes the TCP client as an argument, and the values of `std::rand` as a function. How a try to
-- connect goes is a value of `Dial`, by what the operating system, the resolver or the TLS library answers.
--
-- Not modelled. The packet dispatcher and the P2P server, which stand on the parts above. `WaitForData`,
-- which waits on an event only, and `FindSocketByDestination` and `TcpClient::send_packet`, which no code
-- calls. Options of sockets, and a wait without a limit. The round-trip time of the network client, which is
-- only copied. Threads, name lookup, IPC and logging, whose meaning is that of the operating system; the
-- game's buffers of `ICommunicationService`; the master server's packets beyond their framing, but for those
-- of the handshake; configuration files; the overlay and the test programs. The strings that name states
-- are for the log only.
pub mod Prelude
pub mod Network
pub mod Ldn
pub mod Protocol
pub mod P2p
pub mod Bsd
