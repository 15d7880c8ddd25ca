-- ===== src/Tests/Negotiating.antt =====
-- Sniffing and serving, after v3/codec/negotiate_test.go.
use rpc.Base.{◌≡◌, refl, Bytes, true, Option, some, List, [], ◌∷◌, ◌++◌, codes, ok, Text, ◌⊎◌}
use rpc.Base.Int.{pos, is_positive}
use rpc.Errors.{sentinel, eof}
use rpc.Codec.Stream.{Conn, flatten, effective_max_body}
use rpc.Codec.Crypto.{Aead, Primitives}
use rpc.Codec.Negotiate.{
  PrefixConn, Codec, json, is_json_stream, peek, sniff_server_conn, new_json_codec,
  new_client_codec_v3, new_server_codec_v3,
}
use rpc.Codec.Negotiate.Laws.{IsSniffed, sniff_server_conn-IsSniffed, codec_agreement}
use rpc.Server.{
  Server, ServeEvent, Ending, panicked, handled, codec_closed, panic_recovered, connection_closed,
  serve_conn,
}
use rpc.Server.Laws.{serve_conn-handled}

-- One byte in the first segment, the rest in the second.
abbrev request : Conn
request = record { chunks = codes "{" ∷ codes "\"a\":1}" ∷ []; ends = sentinel eof }

abbrev gcm : Aead
gcm = record { nonce_size = 0; seal = λ n plaintext. plaintext; unseal = λ n c. ok c }

abbrev primitives : Primitives Bytes
primitives = record { sum256 = λ key. key; new_cipher = λ key. ok key; new_gcm = λ block. ok gcm }

abbrev sniffed : PrefixConn
sniffed = record {
  buffer = codes "{\"a\":1}";
  conn = record { chunks = [] ∷ []; ends = sentinel eof };
}

sniffed_lem : sniff_server_conn request ≡ ok (sniffed, true)
unfolding sniff_server_conn peek is_json_stream
sniffed_lem = refl

sniff_server_conn-IsSniffed_example : IsSniffed request (sniffed, true)
sniff_server_conn-IsSniffed_example =
    sniff_server_conn-IsSniffed request (sniffed, true) sniffed_lem

abbrev chosen : Codec
chosen = json 1000

client_lem : new_client_codec_v3 primitives [] (pos 1000) true ≡ ok chosen
unfolding new_client_codec_v3 new_json_codec effective_max_body is_positive
client_lem = refl

codec_agreement_example :
    (s : PrefixConn) × (new_server_codec_v3 primitives request [] (pos 1000) ≡ ok (s, chosen))
    × (s.buffer ++ flatten s.conn.chunks ≡ codes "{\"a\":1}")
codec_agreement_example =
    codec_agreement primitives [] (pos 1000) true chosen request b'{' b'"' (codes "a\":1}")
      (unfold flatten in refl) (unfold is_json_stream in refl) client_lem

abbrev handle : Codec → PrefixConn → Option Text → Ending
handle codec conn remote = panicked

abbrev server : Server
server = record { address = []; port = pos 2233; crypto_key = []; max_json_body = pos 1000 }

serve_conn-handled_example :
    (s : PrefixConn) × (before : List ServeEvent) × (serve_conn primitives server handle request
        (some (codes "::1"))
      ≡ handled chosen s (some (codes "::1")) ∷ codec_closed ∷ (before ++ (connection_closed ∷ [])))
    × ((before ≡ []) ⊎ (before ≡ panic_recovered ∷ []))
    × (s.buffer ++ flatten s.conn.chunks ≡ codes "{\"a\":1}")
serve_conn-handled_example =
    serve_conn-handled primitives server handle request (some (codes "::1")) true chosen b'{' b'"'
      (codes "a\":1}") (unfold flatten in refl) (unfold is_json_stream in refl) client_lem
