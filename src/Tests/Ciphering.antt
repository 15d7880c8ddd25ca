-- ===== src/Tests/Ciphering.antt =====
-- The crypto codec on a toy cipher, whose sealed text is the plaintext behind one tag byte, and on
-- a toy frame, the length before the bytes. After v3/codec/json_crypto_codec_test.go.
use rpc.Base.{
  ℕ, zero, ◌-◌, ◌≡◌, refl, ◌≢◌, Bytes, true, none, some, List, [], ◌∷◌, ◌++◌, leb, if◌then◌else◌,
  length, take, drop, min, codes, Result, ok, err, arith, length-append, take-append_length, inl,
  inr,
}
use rpc.Errors.{
  GoError, sentinel, failure, wrap, body_too_large, authentication_failed, eof, closed_pipe,
}
use rpc.Codec.Stream.{BudgetReader, reset_budget, read_all, budget_read, clip, read_chunks}
use rpc.Codec.Crypto.{Aead, Primitives, encrypt}
use rpc.Codec.Crypto.Laws.{IsStandard, Opens}
use rpc.Codec.Output.{
  Written, fresh_codec, BlobWriter, write_crypto_body, Operation, write_request_with,
  write_response_with, close_with, run_operations,
}
use rpc.Codec.Output.Laws.{IsClosedOnce, run_operations-IsClosedOnce}
use rpc.Codec.Body.{
  BlobStep, more, decoded, BlobReader, read_body, read_crypto_body, read_magic, match_byte,
  is_separator, source_read, decode_blob, decode_crypto_body,
}
use rpc.Codec.Body.Laws.{read_body_total}
use rpc.Codec.Body.RoundTrip.{IsGob, read_body-write_crypto_body}

abbrev open_sealed : Bytes → Result GoError Bytes
open_sealed (zero ∷ plaintext) = ok plaintext
open_sealed _ = err (failure authentication_failed)

abbrev pub toy_gcm : Aead
toy_gcm = record {
  nonce_size = 3;
  seal = λ n plaintext. 0 ∷ plaintext;
  unseal = λ n c. open_sealed c;
}

abbrev digest_32 : Bytes
digest_32 = codes "0123456789abcdef0123456789abcdef"

abbrev pub toy : Primitives Bytes
toy = record {
  sum256 = λ key. digest_32;
  new_cipher = λ key. ok key;
  new_gcm = λ block. ok toy_gcm;
}

toy-IsStandard : IsStandard toy
toy-IsStandard = record {
  digest = λ key. refl;
  cipher = λ key h. (key, refl);
  gcm = λ block. (toy_gcm, refl);
}

pub toy-Opens : Opens toy_gcm
toy-Opens n plaintext h = refl

abbrev nonce : Bytes
nonce = 7 ∷ 8 ∷ 9 ∷ []

abbrev body : Bytes
body = codes "42"

abbrev pub frame : Bytes → Bytes
frame blob = length blob ∷ blob

abbrev pub toy_writer : BlobWriter
toy_writer = record { write = λ bytes. (bytes, none); encode = λ blob. (frame blob, none) }

abbrev toy_step : Bytes → BlobStep
toy_step [] = more 4095
toy_step (n ∷ bytes) =
    if leb n (length bytes) then decoded (take n bytes) else more (n - length bytes - 1)

abbrev toy_reader : BlobReader
toy_reader = record { step = toy_step; cut = λ got e. e }

toy-completes : (blob rest : Bytes) → toy_step (frame blob ++ rest) ≡ decoded blob
toy-completes blob rest = ground (arith, length-append blob rest, take-append_length blob rest)

toy-IsGob : IsGob frame toy_writer toy_reader
toy-IsGob = record {
  writes = λ bytes. refl;
  encodes = λ blob. refl;
  starts = refl;
  completes = toy-completes;
}

abbrev sent : Bytes
sent = codes "CRYPT" ++ frame (nonce ++ (0 ∷ body))

abbrev connection : BudgetReader
connection = record {
  conn = record { chunks = (1 ∷ 2 ∷ 3 ∷ []) ∷ (4 ∷ 5 ∷ []) ∷ []; ends = sentinel eof };
  left = 0;
}

abbrev pipelined : Bytes
pipelined = codes "{\"ServiceMethod\":\"A.B\"}"

sent_lem : write_crypto_body toy_writer toy_gcm (ok nonce) (ok body) ≡ (sent, none)
unfolding write_crypto_body encrypt
sent_lem = refl

-- The end of line that json.Encoder writes after the header stands in front of the body.
abbrev end_of_line : Bytes
end_of_line = b'\n' ∷ []

-- The header of a pipelined request is gone from what the next decoder reads.
read_body-write_crypto_body_example :
    read_body toy_reader toy_gcm 5000 ok true (end_of_line ++ (sent ++ pipelined)) connection
    ≡ some (ok body, (drop (min 4101 4999 - length sent) pipelined, reset_budget 5000 connection))
read_body-write_crypto_body_example =
    read_body-write_crypto_body toy-IsGob toy_gcm toy-Opens nonce body refl ok true body 5000
      end_of_line sent pipelined connection refl sent_lem (inr (inr (inl refl)), tt) (omega arith)
      (omega arith)

pipelined_lost : drop (min 4101 4999 - length sent) pipelined ≡ []
pipelined_lost = refl

-- The end of line counts: behind it, a body of twelve bytes is too large for a limit of twelve.
over_the_limit :
    read_body toy_reader toy_gcm 12 ok true (end_of_line ++ sent) connection
    ≡ some (
      err (wrap (codes "rpc: crypto blob decode: ") (sentinel body_too_large)),
      (codes "2", reset_budget 12 connection),
    )
unfolding read_body read_crypto_body read_magic match_byte is_separator source_read decode_blob
    decode_crypto_body reset_budget budget_read clip read_chunks
over_the_limit = refl

read_body_total_example : read_body toy_reader toy_gcm 20 ok true (codes " CRY") connection ≢ none
read_body_total_example = read_body_total toy_reader toy_gcm 20 ok true (codes " CRY") connection

four_bytes : (read_all (2 ∷ 9 ∷ 9 ∷ []) (reset_budget 4 connection)).0 ≡ 1 ∷ 2 ∷ 3 ∷ 4 ∷ []
unfolding read_all reset_budget budget_read clip read_chunks
four_bytes = refl

abbrev header : Written
header = (codes "{}", none)

abbrev broken : Written
broken = ([], some (sentinel closed_pipe))

abbrev after_success : List ℕ
after_success = codes "{}" ++ sent

abbrev operations : List Operation
operations =
    write_request_with header header none
    ∷ write_response_with header broken none none
    ∷ close_with none
    ∷ []

run_operations-IsClosedOnce_example : IsClosedOnce (run_operations operations fresh_codec)
run_operations-IsClosedOnce_example = run_operations-IsClosedOnce operations
