-- ===== src/Ldn/ProxyHandler.antt =====
-- sysmodule/source/ldn/ldn_proxy_handler.hpp and ldn_proxy_handler.cpp: the table of the connections
-- that the server proxies. A callback is a flag, whether one is registered; the calls made to them are
-- the last part of a result. The packet header that every handler ignores is left out.
pub mod Table
mod Tests
use ryu_ldn_nx.Prelude.{
  ℕ, ◌+◌, Bool, true, false, ◌&&◌, Option, List, [], ◌∷◌, ◌++◌, ◌==◌, if◌then◌else◌, length,
}

-- The two structures have the same fields; a protocol is its number.
pub record ProxyInfo : Type 0 where
  pub source_ipv4 : ℕ  -- uint32_t
  pub source_port : ℕ  -- uint16_t
  pub dest_ipv4 : ℕ  -- uint32_t
  pub dest_port : ℕ  -- uint16_t
  pub protocol : ℕ  -- ProtocolType

pub record ProxyConnection : Type 0 where
  pub source_ipv4 : ℕ  -- uint32_t
  pub source_port : ℕ  -- uint16_t
  pub dest_ipv4 : ℕ  -- uint32_t
  pub dest_port : ℕ  -- uint16_t
  pub protocol : ℕ  -- ProtocolType

unfoldable pub matches : ProxyConnection → ℕ → ℕ → ℕ → ℕ → ℕ → Bool
matches c src_ip src_port dst_ip dst_port proto =
    (c.source_ipv4 == src_ip)
    && (c.source_port == src_port)
    && (c.dest_ipv4 == dst_ip)
    && (c.dest_port == dst_port)
    && (c.protocol == proto)

unfoldable pub matches_info : ProxyConnection → ProxyInfo → Bool
unfolding matches
matches_info c i = matches c i.source_ipv4 i.source_port i.dest_ipv4 i.dest_port i.protocol

pub record LdnProxyHandler : Type 0 where
  pub configured : Bool
  pub proxy_ip : ℕ  -- uint32_t
  pub proxy_subnet_mask : ℕ  -- uint32_t
  pub connections : List ProxyConnection
  pub config_callback : Bool
  pub connect_callback : Bool
  pub connect_reply_callback : Bool
  pub data_callback : Bool
  pub disconnect_callback : Bool

unfoldable pub new : LdnProxyHandler
new = record {
  configured = false;
  proxy_ip = 0;
  proxy_subnet_mask = 0;
  connections = [];
  config_callback = false;
  connect_callback = false;
  connect_reply_callback = false;
  data_callback = false;
  disconnect_callback = false;
}

-- A packet that the server sends, with what its handler takes.
pub data ProxyPacket : Type 0 where
  proxy_config : ℕ → ℕ → ProxyPacket
  proxy_connect : ProxyInfo → ProxyPacket
  proxy_connect_reply : ProxyInfo → ProxyPacket
  proxy_data : ProxyInfo → Option (List ℕ) → ℕ → ProxyPacket
  proxy_disconnect : ProxyInfo → ℕ → ProxyPacket

-- A call of one of the callbacks has the packet's content.
abbrev call_if : Bool → ProxyPacket → List ProxyPacket
call_if on p = if on then p ∷ [] else []

abbrev pub Handled : Type 0
Handled = LdnProxyHandler × List ProxyPacket

unfoldable pub handle_proxy_config : LdnProxyHandler → ℕ → ℕ → Handled
handle_proxy_config m ip mask = (
  record m { proxy_ip = ip; proxy_subnet_mask = mask; configured = true },
  call_if m.config_callback (proxy_config ip mask),
)

unfoldable pub add_connection : LdnProxyHandler → ProxyInfo → LdnProxyHandler
add_connection m i =
    let c : ProxyConnection = record {
      source_ipv4 = i.source_ipv4;
      source_port = i.source_port;
      dest_ipv4 = i.dest_ipv4;
      dest_port = i.dest_port;
      protocol = i.protocol;
    } in
    record m { connections = m.connections ++ (c ∷ []) }

-- `remove_if` and `erase`.
unfoldable pub remove_matching : ProxyInfo → List ProxyConnection → List ProxyConnection
unfolding matches_info
remove_matching i [] = []
remove_matching i (c ∷ cs) =
    let rest = remove_matching i cs in if matches_info c i then rest else c ∷ rest

unfoldable pub remove_connection : LdnProxyHandler → ProxyInfo → LdnProxyHandler
unfolding remove_matching
remove_connection m i = record m { connections = remove_matching i m.connections }

unfoldable pub handle_proxy_connect : LdnProxyHandler → ProxyInfo → Handled
unfolding add_connection
handle_proxy_connect m i = (add_connection m i, call_if m.connect_callback (proxy_connect i))

unfoldable pub handle_proxy_connect_reply : LdnProxyHandler → ProxyInfo → Handled
handle_proxy_connect_reply m i = (m, call_if m.connect_reply_callback (proxy_connect_reply i))

unfoldable pub handle_proxy_data : LdnProxyHandler → ProxyInfo → Option (List ℕ) → ℕ → Handled
handle_proxy_data m i payload payload_length =
    (m, call_if m.data_callback (proxy_data i payload payload_length))

unfoldable pub handle_proxy_disconnect : LdnProxyHandler → ProxyInfo → ℕ → Handled
unfolding remove_connection
handle_proxy_disconnect m i reason =
    (remove_connection m i, call_if m.disconnect_callback (proxy_disconnect i reason))

-- The loop of `has_connection`.
unfoldable pub has_matching : List ProxyConnection → ℕ → ℕ → ℕ → ℕ → ℕ → Bool
unfolding matches
has_matching [] src_ip src_port dest_ip dest_port proto = false
has_matching (c ∷ cs) src_ip src_port dest_ip dest_port proto =
    let rest = has_matching cs src_ip src_port dest_ip dest_port proto in
    if matches c src_ip src_port dest_ip dest_port proto then true else rest

unfoldable pub has_connection : LdnProxyHandler → ℕ → ℕ → ℕ → ℕ → ℕ → Bool
unfolding has_matching
has_connection m src_ip src_port dest_ip dest_port proto =
    has_matching m.connections src_ip src_port dest_ip dest_port proto

unfoldable pub get_connection_count : LdnProxyHandler → ℕ
get_connection_count m = length m.connections

unfoldable pub reset : LdnProxyHandler → LdnProxyHandler
reset m = record m { configured = false; proxy_ip = 0; proxy_subnet_mask = 0; connections = [] }

-- A packet goes to its handler.
unfoldable pub handle : LdnProxyHandler → ProxyPacket → Handled
unfolding handle_proxy_config handle_proxy_connect handle_proxy_connect_reply handle_proxy_data
    handle_proxy_disconnect
handle m (proxy_config ip mask) = handle_proxy_config m ip mask
handle m (proxy_connect i) = handle_proxy_connect m i
handle m (proxy_connect_reply i) = handle_proxy_connect_reply m i
handle m (proxy_data i payload n) = handle_proxy_data m i payload n
handle m (proxy_disconnect i reason) = handle_proxy_disconnect m i reason

unfoldable pub run : LdnProxyHandler → List ProxyPacket → Handled
run m [] = (m, [])
run m (p ∷ ps) =
    let (m', calls) = handle m p in let (m'', later) = run m' ps in (m'', calls ++ later)
