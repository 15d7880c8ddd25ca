-- ===== src/Server/Laws.antt =====
-- ServeConn of v3/server.go with the codecs of v3/codec/negotiate.go.
use rpc.Base.{ℕ, Bytes, Bool, ◌≡◌, refl, Option, List, [], ◌∷◌, ◌++◌, Text, ok, ◌⊎◌, inl, inr}
use rpc.Codec.Stream.{Conn, flatten}
use rpc.Codec.Crypto.{Primitives}
use rpc.Codec.Negotiate.{is_json_stream, PrefixConn, Codec, new_client_codec_v3}
use rpc.Codec.Negotiate.Laws.{codec_agreement}
use rpc.Server.{
  Server, Ending, returned, panicked, ServeEvent, handled, codec_closed, panic_recovered,
  connection_closed, deferred, serve_conn,
}

-- The deferred function ends with the connection's Close; all it may do before is to recover.
deferred_ends :
    (e : Ending)
    → (before : List ServeEvent) × (deferred e ≡ before ++ (connection_closed ∷ []))
      × ((before ≡ []) ⊎ (before ≡ panic_recovered ∷ []))
unfolding deferred
deferred_ends returned = ([], refl, inl refl)
deferred_ends panicked = (panic_recovered ∷ [], refl, inr refl)

module _ {Block : Type 0} (p : Primitives Block) where
  -- A connection whose stream has two bytes or more, and starts like a JSON object exactly if its
  -- client, of the server's key and limit, chose the JSON transport, is handled once, with the
  -- client's own codec, on a connection that replays every byte the client sent; afterwards the
  -- codec and at last the connection are closed, whether the handler returns or panics.
  pub serve_conn-handled :
      (s : Server) (handle : Codec → PrefixConn → Option Text → Ending) (conn : Conn)
      (remote : Option Text) (json_transport : Bool) (codec : Codec) (a b : ℕ) (rest : Bytes)
      → flatten conn.chunks ≡ a ∷ b ∷ rest
      → is_json_stream (a ∷ b ∷ []) ≡ json_transport
      → new_client_codec_v3 p s.crypto_key s.max_json_body json_transport ≡ ok codec
      → (sniffed : PrefixConn) × (before : List ServeEvent) × (serve_conn p s handle conn remote
          ≡ handled codec sniffed remote ∷ codec_closed ∷ (before ++ (connection_closed ∷ [])))
        × ((before ≡ []) ⊎ (before ≡ panic_recovered ∷ []))
        × (sniffed.buffer ++ flatten sniffed.conn.chunks ≡ a ∷ b ∷ rest)
  unfolding serve_conn
  serve_conn-handled s handle conn remote json_transport codec a b rest e v h =
      let (sniffed, q, r) =
        codec_agreement p s.crypto_key s.max_json_body json_transport codec conn a b rest e v h in
      let (before, d, c) = deferred_ends (handle codec sniffed remote) in
      (sniffed, before, rw (q, d, serve_conn) refl, c, r)
