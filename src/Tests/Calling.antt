-- ===== src/Tests/Calling.antt =====
-- Calls of the v3 client, after v3/integration_test.go.
use rpc.Base.{◌≤◌, ◌+◌, ◌≡◌, refl, none, some, true, [], ◌∷◌, ◌++◌, All, length}
use rpc.Errors.{sentinel, eof, is_error, as_server_error, is_net_error}
use rpc.Client.Defs.{
  transport_auto, transport_json, transport_legacy, is_json, is_auto, effective_transport,
  is_conn_error, Client, new_rpc_client, Attempt, Environment, get_client, invalidate, retry_call,
  after_error, call, close,
}
use rpc.Client.Connections.{Run, call-Run, run, run-close-Run}
use rpc.Client.Fallback.{IsConsistent, unconnected}
use rpc.Client.Sends.{Sends, sent_kinds, call-Sends, count_of, length-run, run_sticky}

abbrev pub client : Client
client = new_rpc_client []

-- A server that speaks gob only: EOF on JSON, an answer on the legacy transport.
abbrev pub good : Attempt
good = record { dial = none; codec = none; reply = none; done = none }

abbrev pub gob_only : Environment
gob_only = record {
  started = none;
  first = record good { reply = some (sentinel eof) };
  retry = good;
}

abbrev pub healthy : Environment
healthy = record { started = none; first = good; retry = good }

fell_back :
    sent_kinds (run client (gob_only ∷ healthy ∷ [])).1
    ≡ transport_json ∷ transport_legacy ∷ transport_legacy ∷ []
unfolding new_rpc_client run call get_client after_error retry_call invalidate sent_kinds
    is_conn_error effective_transport is_json is_auto is_error as_server_error is_net_error
fell_back = refl

unconnected_client : client.cl ≡ none
unfolding new_rpc_client
unconnected_client = refl

consistent : IsConsistent client
consistent = unconnected client unconnected_client

call-Run_example : Run client.cl (call client gob_only).2 (call client gob_only).1.cl
call-Run_example = call-Run client gob_only

run-close-Run_example :
    Run client.cl
      ((run client (gob_only ∷ healthy ∷ [])).1
        ++ (close (run client (gob_only ∷ healthy ∷ [])).0 none).2)
      none
run-close-Run_example = run-close-Run client (gob_only ∷ healthy ∷ []) none

call-Sends_example : Sends client (call client gob_only).1 (sent_kinds (call client gob_only).2)
call-Sends_example = call-Sends client gob_only consistent

length-run_example :
    length (sent_kinds (run client (gob_only ∷ gob_only ∷ [])).1) + count_of client.json_fallback
    ≤ 2 + count_of (run client (gob_only ∷ gob_only ∷ [])).0.json_fallback
length-run_example = length-run client (gob_only ∷ gob_only ∷ []) consistent

abbrev fallen : Client
fallen = record client { json_fallback = true }

fallen_auto : fallen.transport ≡ transport_auto
unfolding new_rpc_client
fallen_auto = refl

fallen_unconnected : fallen.cl ≡ none
unfolding new_rpc_client
fallen_unconnected = refl

run_sticky_example :
    All (λ k. k ≡ transport_legacy) (sent_kinds (run fallen (gob_only ∷ healthy ∷ [])).1)
run_sticky_example =
    run_sticky fallen (gob_only ∷ healthy ∷ []) (unconnected fallen fallen_unconnected) fallen_auto
      refl
