-- ===== src/Proxy/Config/Types.antt =====
-- proxy_server/config.h: the state of the parser and what it reads.
use micro_business_server.Base.{Bool, false, List, []}
use micro_business_server.Base.Int.{ℤ}
use micro_business_server.Base.Map.{Map, text_key}
use micro_business_server.Base.Text.{Bytes}

pub data ConfigCode : Type 0 where
  begain in_server in_upstream in_location : ConfigCode

pub data LineStatus : Type 0 where
  line_ok line_bad : LineStatus

pub record Location : Type 0 where
  pub id : Bytes
  pub proxy_pass : Bytes

pub record Server : Type 0 where
  pub listen : ℤ
  pub server_name : Bytes
  pub locations : Map Bytes Location

pub record Upstream : Type 0 where
  pub name : Bytes
  pub servers : List (Bytes × Bytes)

pub record Parser : Type 0 where
  pub cur_location : Bytes
  pub cur_upstream : Bytes
  pub check_state : ConfigCode
  pub line_state : LineStatus
  pub server_left_bracket : Bool
  pub location_left_bracket : Bool
  pub upstream_left_bracket : Bool
  pub server : Server
  pub upstreams : Map Bytes Upstream
  pub thread_num : ℤ
  pub que_size : ℤ

-- A new parser; three numbers are whatever the memory held.
abbrev pub new_parser : ℤ → ℤ → ℤ → Parser
new_parser listen thread_num que_size = record {
  cur_location = [];
  cur_upstream = [];
  check_state = begain;
  line_state = line_ok;
  server_left_bracket = false;
  location_left_bracket = false;
  upstream_left_bracket = false;
  server = record { listen = listen; server_name = []; locations = [] };
  upstreams = [];
  thread_num = thread_num;
  que_size = que_size;
}
