-- ===== src/Config.antt =====
-- config.py: the settings that the modelled code reads, of those of `Config`, and the TLS extension
-- of typing.py that a connection carries.
use anycorn.Prelude.{ℕ, Bool, List, Option}
use anycorn.Bytes.{Text, Headers}

pub record Config : Type 0 where
  pub root_path : Text
  pub server_names : List Text
  pub websocket_max_message_size : ℕ
  pub websocket_permessage_deflate : Bool
  pub websocket_ping_interval : Option ℕ
  pub keep_alive_max_requests : ℕ
  pub h11_pass_raw_headers : Bool
  -- what `response_headers` returns for a protocol
  pub response_headers : Text → Headers

-- `TLSExtension`
pub record TlsExtension : Type 0 where
  pub server_cert : Option Text
  pub client_cert_chain : List Text
  pub client_cert_name : Option Text
  pub client_cert_error : Option Text
  pub tls_version : Option ℕ
  pub cipher_suite : Option ℕ
