-- ===== src/Proxy/CallErrors.antt =====
-- mapCallError of v3/proxy/errors.go.
pub mod Laws
use rpc.Base.{Text, Bool, ◌||◌, none, some, if◌then◌else◌}
use rpc.Errors.{
  GoError, eof, unexpected_eof, closed_pipe, deadline_exceeded, canceled, is_error, as_server_error,
}
use rpc.Proxy.Types.{
  CallError, backend_error, transport_error, backend_not_json, error_text, server_text,
  target_closed, call_timeout, call_canceled,
}

unfoldable pub map_call_error : GoError → Text → CallError
map_call_error e target = elim (as_server_error e) [
  | some text ↦ record { code = backend_error; message = server_text text; target = target }
  | none ↦
      if is_error e eof || is_error e unexpected_eof || is_error e closed_pipe
      then record { code = backend_not_json; message = target_closed e; target = target }
      else if is_error e deadline_exceeded
      then record { code = transport_error; message = call_timeout e; target = target }
      else if is_error e canceled
      then record { code = transport_error; message = call_canceled e; target = target }
      else record { code = transport_error; message = error_text e; target = target }
]
