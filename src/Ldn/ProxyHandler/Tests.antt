-- ===== src/Ldn/ProxyHandler/Tests.antt =====
-- Runs of the proxy handler.
use ryu_ldn_nx.Prelude.{◌≡◌, true, false, none, List, [], ◌∷◌}
use ryu_ldn_nx.Ldn.ProxyHandler.{
  ProxyInfo, LdnProxyHandler, ProxyPacket, proxy_config, proxy_connect, proxy_data,
  proxy_disconnect, new, run,
}
use ryu_ldn_nx.Ldn.ProxyHandler.Table.{knows, is_open, has_connection-run}

abbrev peer : ProxyInfo
peer = record {
  source_ipv4 = 10;
  source_port = 5000;
  dest_ipv4 = 20;
  dest_port = 6000;
  protocol = 17;
}

abbrev watched : LdnProxyHandler
watched = record {
  configured = false;
  proxy_ip = 0;
  proxy_subnet_mask = 0;
  connections = [];
  config_callback = true;
  connect_callback = true;
  connect_reply_callback = true;
  data_callback = true;
  disconnect_callback = true;
}

-- A connection is opened twice and closed once.
abbrev script : List ProxyPacket
script =
    proxy_config 1 2
    ∷ proxy_connect peer
    ∷ proxy_connect peer
    ∷ proxy_data peer none 0
    ∷ proxy_disconnect peer 0
    ∷ []

has_connection-run_example : knows (run new script).0 peer ≡ is_open peer (knows new peer) script
has_connection-run_example = has_connection-run new peer script
