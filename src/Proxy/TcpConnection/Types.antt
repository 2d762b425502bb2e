-- ===== src/Proxy/TcpConnection/Types.antt =====
-- proxy_server/tcp/TcpConnection.hpp: a connection and the tables that all connections share.
use micro_business_server.Base.{ℕ, List}
use micro_business_server.Base.Int.{ℤ}
use micro_business_server.Base.Map.{Map, text_key, int_key}
use micro_business_server.Base.Text.{Bytes}
use micro_business_server.Proxy.InetAddress.{InetAddress}

pub data HttpCode : Type 0 where
  bad_request get_request : HttpCode

pub data ConnectionType : Type 0 where
  client server : ConnectionType

-- The members that never change: `_sock` and `_sockIO`, `_type`, `_localAddr`, `_peerAddr`.
pub record Endpoint : Type 0 where
  pub sock_fd : ℤ
  pub type : ConnectionType
  pub local_addr : InetAddress
  pub peer_addr : InetAddress

pub record TcpConnection : Type 0 where
  pub fixed : Endpoint
  pub open fixed use *
  pub read_buf : Bytes
  pub path : Bytes
  pub business_code : Bytes

-- The four maps of the event loop that every connection refers to.
pub record Tables : Type 0 where
  pub forwarding : Map Bytes (List ℤ)
  pub client_table : Map Bytes ℤ
  pub server_conns : Map ℤ Endpoint
  pub client_conns : Map ℤ Endpoint

-- `Json::Value` as the proxy fills it, and the two library functions that it calls.
pub data JsonMember : Type 0 where
  number : ℕ → JsonMember
  text : Bytes → JsonMember

abbrev pub JsonValue : Type 0
JsonValue = Map Bytes JsonMember

pub record Platform : Type 0 where
  pub inet_ntoa : ℕ → Bytes
  pub write_json : JsonValue → Bytes
