-- ===== src/Bsd/Types.antt =====
-- sysmodule/source/bsd/bsd_types.hpp: the addresses, socket types and error numbers of BSD sockets.
use ryu_ldn_nx.Prelude.{ℕ, ◌+◌, ◌*◌, ◌/◌, ◌%◌, ◌^◌, ◌<◌, ◌≡◌, arith, Bool, true, false, ◌==◌, List}
use ryu_ldn_nx.Bsd.EphemeralPortPool.{ProtocolType, unspecified, icmp, tcp, udp}

pub data SocketType : Type 0 where
  stream dgram raw seqpacket : SocketType

pub data ShutdownHow : Type 0 where
  read write both : ShutdownHow
  other : ℕ → ShutdownHow  -- a value cast from the request that names none of the three

-- `sockaddr_in`; its padding, which no code reads, is left out.
pub record SockAddrIn : Type 0 where
  pub sin_len : ℕ  -- uint8_t
  pub sin_family : ℕ  -- uint8_t
  pub sin_port : ℕ  -- uint16_t, network byte order
  pub sin_addr : ℕ  -- uint32_t, network byte order

-- `AddressFamily::Inet`.
abbrev pub inet : ℕ
inet = 2

abbrev pub sock_addr_in_size : ℕ
sock_addr_in_size = 16

-- `__builtin_bswap16` and `__builtin_bswap32`: the bytes in the other order.
unfoldable pub bswap16 : ℕ → ℕ
bswap16 n = n % 256 * 256 + n / 256 % 256

unfoldable pub bswap32 : ℕ → ℕ
bswap32 n = n % 256 * 16777216 + n / 256 % 256 * 65536 + n / 65536 % 256 * 256 + n / 16777216 % 256

unfoldable pub get_port : SockAddrIn → ℕ
get_port a = bswap16 a.sin_port

unfoldable pub get_addr : SockAddrIn → ℕ
get_addr a = bswap32 a.sin_addr

pub bswap16-bswap16 : (n : ℕ) → n < 2 ^ 16 → bswap16 (bswap16 n) ≡ n
unfolding bswap16
bswap16-bswap16 n h = omega arith

pub bswap32-bswap32 : (n : ℕ) → n < 2 ^ 32 → bswap32 (bswap32 n) ≡ n
unfolding bswap32
bswap32-bswap32 n h = omega arith

-- The numbers of `ProtocolType`.
abbrev pub protocol_number : ProtocolType → ℕ
protocol_number unspecified = 0
protocol_number icmp = 1
protocol_number tcp = 6
protocol_number udp = 17

abbrev pub is_protocol : ProtocolType → ProtocolType → Bool
is_protocol p q = protocol_number p == protocol_number q

abbrev pub is_stream : SocketType → Bool
is_stream stream = true
is_stream _ = false

-- What a socket hands to the callbacks of its manager: the source, the destination, the protocol and
-- for data the payload.
pub data ProxyMessage : Type 0 where
  proxy_data : ℕ → ℕ → ℕ → ℕ → ProtocolType → List ℕ → ProxyMessage
  proxy_connect : ℕ → ℕ → ℕ → ℕ → ProtocolType → ProxyMessage
  proxy_connect_reply : ℕ → ℕ → ℕ → ℕ → ProtocolType → ProxyMessage
  proxy_disconnect : ℕ → ℕ → ℕ → ℕ → ProtocolType → ProxyMessage

-- `BsdErrno`.
pub data BsdErrno : Type 0 where
  success bad_f again fault inval dest_addr_req msg_size no_proto_opt op_not_supp af_no_support :
      BsdErrno
  net_unreach not_conn timed_out conn_refused in_progress : BsdErrno

-- What a call that returns an `s32` gives back: a length, or an error number with its sign changed.
pub data Returned : Type 0 where
  sent : ℕ → Returned
  failed : BsdErrno → Returned
