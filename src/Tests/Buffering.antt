-- ===== src/Tests/Buffering.antt =====
-- The codecs of v2/codec over a connection that is cut into chunks, on a toy gob: a header is a
-- byte, a body its length and its bytes.
use rpc.Base.{
  ℕ, suc, Bytes, Bool, true, false, refl, none, List, [], ◌∷◌, ◌++◌, length, codes, Result, ok, err,
}
use mathlib.Core.Path.{subst}
use rpc.Errors.{GoError, sentinel, eof}
use rpc.Codec.Stream.{Conn, flatten}
use rpc.Codec.Output.{fresh_codec}
use rpc.Codec.Buffered.{new_buffered}
use rpc.Codec.Legacy.{LegacyCodec, Marshaller}
use rpc.Codec.Legacy.Streams.{
  Full, StreamGob, Simulates, ReadsOnly, Same, StreamCodec, read_stream, read_list,
}
use rpc.Codec.Legacy.Streams.Flat.{read_stream-read_list, Agree}
use rpc.Tests.Ciphering.{toy_gcm}

abbrev number_of : {S : Type 0} → ℕ → S → Result GoError Bytes → Result GoError ℕ × ℕ × S
number_of d s (err e) = (err e, d, s)
number_of d s (ok []) = (err (sentinel eof), d, s)
number_of d s (ok (x ∷ bytes)) = (ok x, suc d, s)

abbrev a_number : {S : Type 0} → Full S → ℕ → S → Result GoError ℕ × ℕ × S
a_number full d s = let (r, s') = full 1 s in number_of d s' r

abbrev blob_of : {S : Type 0} → Full S → ℕ → S → Result GoError ℕ → Result GoError Bytes × ℕ × S
blob_of full d s (err e) = (err e, d, s)
blob_of full d s (ok n) = let (bytes, s') = full n s in (bytes, d, s')

abbrev a_blob : {S : Type 0} → Full S → ℕ → S → Result GoError Bytes × ℕ × S
a_blob full d s = let (r, d', s') = a_number full d s in blob_of full d' s' r

abbrev gob_of_bytes : StreamGob ℕ ℕ ℕ Bytes
gob_of_bytes = record {
  encode_header = λ e h. ((h ∷ [], none), e);
  encode_body = λ e b. ((length b ∷ b, none), e);
  decode_header = λ full d s. a_number full d s;
  decode_body = λ full d s. a_blob full d s;
}

module _ {S S' : Type 0} (R : S → S' → Type 0) (full : Full S) (full' : Full S')
    (simulates : Simulates R full full') where
  number_of-Same :
      (d : ℕ) (s : S) (s' : S') (r : Result GoError Bytes)
      → R s s'
      → Same R (number_of d s r) (number_of d s' r)
  number_of-Same d s s' (err e) h = (refl, refl, h)
  number_of-Same d s s' (ok []) h = (refl, refl, h)
  number_of-Same d s s' (ok (x ∷ bytes)) h = (refl, refl, h)

  a_number-Same :
      (d : ℕ) (s : S) (s' : S') → R s s' → Same R (a_number full d s) (a_number full' d s')
  a_number-Same d s s' h =
      let (a, b) = simulates 1 s s' h in
      subst (λ r. Same R (a_number full d s) (number_of d (full' 1 s').1 r)) a
        (number_of-Same d (full 1 s).1 (full' 1 s').1 (full 1 s).0 b)

  blob_of-Same :
      (d : ℕ) (s : S) (s' : S') (r : Result GoError ℕ)
      → R s s'
      → Same R (blob_of full d s r) (blob_of full' d s' r)
  blob_of-Same d s s' (err e) h = (refl, refl, h)
  blob_of-Same d s s' (ok n) h = let (a, b) = simulates n s s' h in (a, refl, b)

  a_blob-Same : (d : ℕ) (s : S) (s' : S') → R s s' → Same R (a_blob full d s) (a_blob full' d s')
  a_blob-Same d s s' h =
      let (a, b, c) = a_number-Same d s s' h in
      let o = a_number full d s in
      let o' = a_number full' d s' in
      subst (λ r. Same R (a_blob full d s) (blob_of full' o'.1 o'.2 r)) a
        (subst (λ x. Same R (a_blob full d s) (blob_of full' x o'.2 o.0)) b
          (blob_of-Same o.1 o.2 o'.2 o.0 c))

gob_of_bytes-ReadsOnly : ReadsOnly gob_of_bytes
gob_of_bytes-ReadsOnly = record {
  headers = λ R full full' simulates. a_number-Same R full full' simulates;
  bodies = λ R full full' simulates. a_blob-Same R full full' simulates;
}

abbrev bytes_as_they_are : Marshaller Bytes
bytes_as_they_are = record { marshal = λ v. ok v; unmarshal = λ bytes. ok bytes }

-- A header, an encrypted body, and half of the next prefix.
abbrev cut : Conn
cut = record {
  chunks =
      (7 ∷ codes "CR")
      ∷ []
      ∷ codes "YPT"
      ∷ (5 ∷ 1 ∷ 2 ∷ [])
      ∷ (3 ∷ 0 ∷ 42 ∷ 8 ∷ [])
      ∷ codes "CRY"
      ∷ [];
  ends = sentinel eof;
}

abbrev chunked : StreamCodec ℕ
chunked = record { decoder = 0; rwc = new_buffered cut }

abbrev whole : LegacyCodec ℕ ℕ
whole = record {
  output = fresh_codec;
  encoder = 0;
  decoder = 0;
  incoming = 7 ∷ (codes "CRYPT" ++ (5 ∷ 1 ∷ 2 ∷ 3 ∷ 0 ∷ 42 ∷ 8 ∷ codes "CRY"));
  ends = sentinel eof;
}

abbrev order : List Bool
order = true ∷ false ∷ true ∷ false ∷ []

read_stream-read_list_example :
    Agree gob_of_bytes bytes_as_they_are toy_gcm
      (sentinel eof)
      (read_stream gob_of_bytes bytes_as_they_are toy_gcm order chunked)
      (read_list gob_of_bytes bytes_as_they_are toy_gcm (sentinel eof) order whole)
unfolding flatten new_buffered
read_stream-read_list_example =
    read_stream-read_list gob_of_bytes bytes_as_they_are toy_gcm gob_of_bytes-ReadsOnly
      (sentinel eof) order chunked whole
      (record { decoder = refl; bytes = refl; same_end = refl; same_end' = refl })
