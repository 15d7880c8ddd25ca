-- ===== src/Tests/Surviving.antt =====
-- The servers of v1 and v2 over what their listeners meet.
use rpc.Base.{◌≡◌, refl, Text, none, false, Option, some, List, [], ◌∷◌, codes, ok}
use rpc.Base.Int.{pos}
use rpc.Errors.{sentinel, eof, net_closed, canceled, is_error}
use rpc.Codec.Stream.{Conn}
use rpc.Codec.Negotiate.{gob, new_codec_v2, get_codec_v1}
use rpc.Server.{accepted, accept_failed, accept, returned}
use rpc.Server.Earlier.{
  EarlierServer, port_of, new_earlier_server, apply_earlier_option, handled, codec_closed,
  connection_closed, process_crashed, Arrival, arrived, failed, Handler, serve_conn_v1,
  serve_conn_v2, deferred_v2, wait_for_client, accept_v1, accept_v2,
}
use rpc.Server.Earlier.Survival.{Survival, accept_v1-accept_v2}
use rpc.Tests.Ciphering.{toy}

abbrev server : EarlierServer
server = new_earlier_server (port_of (pos 2443) ∷ [])

abbrev link : Conn
link = record { chunks = []; ends = sentinel eof }

abbrev remote : Option Text
remote = some (codes "10.0.0.1")

abbrev polite : Handler
polite codec conn address = returned

abbrev arrivals : List Arrival
arrivals =
    arrived link remote
    ∷ failed (sentinel eof)
    ∷ arrived link remote
    ∷ failed (sentinel net_closed)
    ∷ []

open_codec : new_codec_v2 toy server.crypto_key ≡ ok gob
unfolding new_codec_v2 new_earlier_server apply_earlier_option
open_codec = refl

accept_v1-accept_v2_example : Survival toy server polite gob arrivals
accept_v1-accept_v2_example = accept_v1-accept_v2 toy server polite gob open_codec arrivals

-- The first failure of the listener takes v1's process down; v2 serves the next connection.
taken_down :
    accept_v1 toy server polite arrivals
    ≡ (handled gob link remote ∷ codec_closed ∷ process_crashed ∷ [], false)
unfolding accept_v1 serve_conn_v1 wait_for_client get_codec_v1 new_codec_v2 new_earlier_server
    apply_earlier_option
taken_down = refl

goes_on :
    accept_v2 toy server polite arrivals
    ≡ handled gob link remote
      ∷ codec_closed
      ∷ connection_closed
      ∷ handled gob link remote
      ∷ codec_closed
      ∷ connection_closed
      ∷ []
unfolding accept_v2 serve_conn_v2 deferred_v2 new_codec_v2 new_earlier_server apply_earlier_option
    is_error
goes_on = refl

-- v3's Accept goes on after a failure, and returns ctx.Err() once its listener is closed.
served_v3 :
    accept none none (some (sentinel canceled)) (
      accept_failed (sentinel eof)
      ∷ accepted link remote
      ∷ accept_failed (sentinel net_closed)
      ∷ accepted link none
      ∷ [])
    ≡ ((link, remote) ∷ [], some (some (sentinel canceled)))
unfolding accept is_error
served_v3 = refl
