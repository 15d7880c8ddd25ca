-- ===== src/Proxy/Types.antt =====
-- v3/proxy/types.go: requests, responses, call errors and targets. A message is kept as the
-- format that builds it, with the values that the format prints.
use rpc.Base.{ℕ, Text, Bytes, Option}
use rpc.Base.Int.{ℤ}
use rpc.Base.Map.{Map}
use rpc.Errors.{GoError}

-- The Code* constants.
pub data Code : Type 0 where
  bad_request route_error allowlist_denied backend_error : Code
  transport_error payload_too_large backend_not_json : Code

pub data Message : Type 0 where
  method_format : Text → Message
  error_text : GoError → Message
  server_text : Text → Message
  request_exceeds response_exceeds : ℕ → ℕ → Message
  concurrency_limit client_init : GoError → Message
  target_closed call_timeout call_canceled : GoError → Message

-- Target; an absent one is the empty text.
pub record CallError : Type 0 where
  pub code : Code
  pub message : Message
  pub target : Text

pub record GenericRequest : Type 0 where
  pub method : Text
  pub payload : Bytes
  pub metadata : Map Text

pub record GenericResponse : Type 0 where
  pub payload : Bytes
  pub error : Option CallError

pub record Target : Type 0 where
  pub addr : Text
  pub port : ℤ
  pub secret : Bytes
  pub transport : Text
