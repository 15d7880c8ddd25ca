-- ===== src/Errors.antt =====
-- Go error values as the program inspects them with `errors.Is` and `errors.As`: isConnError of
-- v3/client.go and mapCallError of v3/proxy/errors.go. An error that `fmt.Errorf` builds without
-- `%w` is a `Failure`: the format, and the values that it prints.
use rpc.Base.{
  ℕ, Text, Bool, true, false, Option, none, some, ◌==◌, ==_iff, if◌then◌else◌, ◌≡◌, refl, sym, ap,
  ◌∙◌,
}
use rpc.Base.Int.{ℤ}

-- The error values that the program or the standard library compares by identity.
pub data Sentinel : Type 0 where
  eof unexpected_eof closed_pipe net_closed : Sentinel
  deadline_exceeded canceled : Sentinel
  shutdown : Sentinel
  body_too_large invalid_magic invalid_prefix : Sentinel

pub data Failure : Type 0 where
  nil_response not_configured : Failure
  malformed_entry dotted_entry : Text → Failure
  unknown_policy : ℤ → Failure
  method_not_allowed : Text → Failure
  empty_service_name : Failure
  empty_addr : Text → Failure
  invalid_port : Text → ℤ → Failure
  invalid_transport : Text → Text → Failure
  no_route : Text → Failure
  without_service_name : Failure
  missing_target : Text → Failure
  empty_target : Failure
  invalid_target bad_port_text : Text → Failure
  port_out_of_range : ℤ → Text → Failure
  short_ciphertext : Failure
  authentication_failed : Failure
  invalid_hex : Text → Failure

-- `op_error` is a `*net.OpError`: it implements `net.Error` and unwraps to its cause.
pub data GoError : Type 0 where
  sentinel : Sentinel → GoError
  server_error : Text → GoError
  failure : Failure → GoError
  opaque_error : Text → GoError
  op_error : Text → GoError → GoError
  wrap : Text → GoError → GoError

abbrev pub rank : Sentinel → ℕ
rank eof = 0
rank unexpected_eof = 1
rank closed_pipe = 2
rank net_closed = 3
rank deadline_exceeded = 4
rank canceled = 5
rank shutdown = 6
rank body_too_large = 7
rank invalid_magic = 8
rank invalid_prefix = 9

unrank : ℕ → Sentinel
unrank n =
    if n == 0
    then eof
    else if n == 1
    then unexpected_eof
    else if n == 2
    then closed_pipe
    else if n == 3
    then net_closed
    else if n == 4
    then deadline_exceeded
    else if n == 5
    then canceled
    else if n == 6
    then shutdown
    else if n == 7
    then body_too_large
    else if n == 8
    then invalid_magic
    else invalid_prefix

unrank-rank : (s : Sentinel) → unrank (rank s) ≡ s
unfolding unrank
unrank-rank eof = refl
unrank-rank _ = refl

pub rank_injective : (s t : Sentinel) → (rank s == rank t) ≡ true → s ≡ t
rank_injective s t h =
    sym (unrank-rank s) ∙ ap unrank ((==_iff (rank s) (rank t)).0 h) ∙ unrank-rank t

-- errors.Is(err, target) for a sentinel
unfoldable pub is_error : GoError → Sentinel → Bool
is_error (sentinel s) t = rank s == rank t
is_error (op_error m e) t = is_error e t
is_error (wrap m e) t = is_error e t
is_error _ t = false

-- errors.As(err, &se) with `var se rpc.ServerError`
unfoldable pub as_server_error : GoError → Option Text
as_server_error (server_error m) = some m
as_server_error (op_error m e) = as_server_error e
as_server_error (wrap m e) = as_server_error e
as_server_error _ = none

-- errors.As(err, &ne) with `var ne net.Error`: besides the operations' errors, the standard
-- library's `context.DeadlineExceeded` and `net.ErrClosed` implement the interface.
unfoldable pub is_net_error : GoError → Bool
is_net_error (sentinel deadline_exceeded) = true
is_net_error (sentinel net_closed) = true
is_net_error (op_error m e) = true
is_net_error (wrap m e) = is_net_error e
is_net_error _ = false

pub is_error_self : (s : Sentinel) → is_error (sentinel s) s ≡ true
unfolding is_error
is_error_self s = (==_iff (rank s) (rank s)).1 refl
