-- ===== src/Tests/Together.antt =====
-- Concurrent callers of one v3 client, and the v3 client beside the v2 client.
use rpc.Base.{ℕ, ◌≡◌, refl, none, some, List, [], ◌∷◌, map, ap, true, ◌≤◌}
use rpc.Errors.{sentinel, eof, is_error, as_server_error, is_net_error}
use rpc.Client.Defs.{
  transport_json, transport_legacy, Connection, Client, new_rpc_client, opened, closed, sent,
  get_client, invalidate, effective_transport, is_conn_error, is_auto, is_json,
}
use rpc.Client.V2.Agreement.{
  legacy_view, event_view, session, legacy_session, session-legacy_session,
}
use rpc.Client.Callers.{starting, finished, System, advance, step_callers, run_schedule}
use rpc.Client.Callers.Shared.{Scheduled, run_schedule-Scheduled}
use rpc.Client.Callers.Requests.{requests, run_schedule-requests}
use rpc.Client.Sends.{sent_kinds}
use rpc.Client.V2
use rpc.Client.V1.{returns, call_v1}
use rpc.Tests.Calling.{client, gob_only, healthy}

abbrev pinned : Client
pinned = record client { transport = transport_legacy }

session-legacy_session_example :
    ((session pinned (healthy ∷ gob_only ∷ healthy ∷ []) none).0
      ≡ (legacy_session (legacy_view pinned) (healthy ∷ gob_only ∷ healthy ∷ []) none).0)
    × (map event_view (session pinned (healthy ∷ gob_only ∷ healthy ∷ []) none).1
        ≡ (legacy_session (legacy_view pinned) (healthy ∷ gob_only ∷ healthy ∷ []) none).1)
session-legacy_session_example =
    session-legacy_session pinned (healthy ∷ gob_only ∷ healthy ∷ []) none refl

-- Two callers whose first calls fail on one JSON connection. The second hangs up on the
-- connection that the first has dialled since.
abbrev two : System
two = record { client = client; callers = starting gob_only ∷ starting gob_only ∷ [] }

abbrev interleaved : List ℕ
interleaved = 0 ∷ 0 ∷ 1 ∷ 1 ∷ 0 ∷ 1 ∷ 0 ∷ 0 ∷ 0 ∷ 1 ∷ 1 ∷ 0 ∷ 0 ∷ []

abbrev json_connection : Connection
json_connection = record { id = 0; kind = transport_json }

abbrev legacy_connection : Connection
legacy_connection = record { id = 1; kind = transport_legacy }

hung_up :
    (run_schedule interleaved two).1
    ≡ opened json_connection
      ∷ sent json_connection
      ∷ sent json_connection
      ∷ closed json_connection
      ∷ opened legacy_connection
      ∷ closed legacy_connection
      ∷ sent legacy_connection
      ∷ []
unfolding run_schedule step_callers advance new_rpc_client get_client invalidate effective_transport
    is_conn_error as_server_error is_net_error is_error is_auto is_json
hung_up = refl

-- The first caller has the answer of its retry; the second does not try again.
not_retried :
    (run_schedule interleaved two).0.callers ≡ finished none ∷ finished (some (sentinel eof)) ∷ []
unfolding run_schedule step_callers advance new_rpc_client get_client invalidate effective_transport
    is_conn_error as_server_error is_net_error is_error is_auto is_json
not_retried = refl

run_schedule-Scheduled_example : Scheduled two (run_schedule interleaved two)
run_schedule-Scheduled_example = run_schedule-Scheduled interleaved two

run_schedule-requests_example :
    (requests (run_schedule interleaved two).1 ≤ 3)
    × (client.json_fallback ≡ true → requests (run_schedule interleaved two).1 ≤ 2)
run_schedule-requests_example = run_schedule-requests interleaved client (gob_only ∷ gob_only ∷ [])

-- The bound is reached: two Calls sent three requests.
three_requests : requests (run_schedule interleaved two).1 ≡ 3
unfolding sent_kinds
three_requests = ap requests hung_up

-- v1 returns the error of the remote call, but dials for each call.
one_each :
    call_v1 gob_only.first
    ≡ (returns (some (sentinel eof)), V2.dialled 0 ∷ V2.sent 0 ∷ V2.closed 0 ∷ V2.closed 0 ∷ [])
unfolding call_v1
one_each = refl
