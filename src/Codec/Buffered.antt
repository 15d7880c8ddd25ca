-- ===== src/Codec/Buffered.antt =====
-- BufferedReadWriteCloser of v2/codec/buffer.go: a bufio.Reader in front of the connection. Write
-- and Close go to the connection and are not part of it here.
pub mod Flat
pub mod Skips
use rpc.Base.{
  ℕ, zero, suc, ◌-◌, Bytes, Bool, true, false, List, [], ◌∷◌, ◌++◌, leb, ltb, if◌then◌else◌, length,
  take, drop, Option, none, some, Result, ok, err,
}
use rpc.Errors.{GoError, sentinel, eof, unexpected_eof}
use rpc.Codec.Stream.{Conn, flatten, read_chunks}
use rpc.Codec.Negotiate.{buffer_size, peek}

-- The bytes that the bufio.Reader holds, and the connection.
pub record BufferedReadWriteCloser : Type 0 where
  pub buffer : Bytes
  pub conn : Conn

-- newBufferedReadWriteCloser
unfoldable pub new_buffered : Conn → BufferedReadWriteCloser
new_buffered conn = record { buffer = []; conn = conn }

abbrev pub buffered : Bytes → GoError → List Bytes → BufferedReadWriteCloser
buffered bytes ends cs = record { buffer = bytes; conn = record { chunks = cs; ends = ends } }

-- Size, bufio.Reader's Buffered
abbrev pub size : BufferedReadWriteCloser → ℕ
size r = length r.buffer

-- Read into a slice of `n` > 0 bytes: what is buffered; or from the connection, into the buffer
-- unless the slice is at least as long as that.
unfoldable pub read : ℕ → BufferedReadWriteCloser → Result GoError Bytes × BufferedReadWriteCloser
read n r =
    let ends = r.conn.ends in
    let (direct, cs) = read_chunks n ends r.conn.chunks in
    let (fill, ds) = read_chunks buffer_size ends r.conn.chunks in
    elim r.buffer [
      | b ∷ bs ↦ (ok (take n (b ∷ bs)), buffered (drop n (b ∷ bs)) ends r.conn.chunks)
      | [] ↦ if leb buffer_size n then (direct, buffered [] ends cs) else elim fill [
        | err e ↦ (err e, buffered [] ends ds)
        | ok bytes ↦ (ok (take n bytes), buffered (drop n bytes) ends ds)
      ]
    ]

-- Peek of `n` bytes, for n up to the buffer's size
unfoldable pub peek_buffered :
    ℕ → BufferedReadWriteCloser → Bytes × Option GoError × BufferedReadWriteCloser
peek_buffered n r =
    let (bytes, cs) = peek n r.buffer r.conn.chunks in
    (
      take n bytes,
      if ltb (length bytes) n then some r.conn.ends else none,
      buffered bytes r.conn.ends cs,
    )

-- Discard's loop of fills, for n up to the buffer's size: how many bytes are missing at the end.
-- A fill that leaves too few bytes has taken its chunk whole.
unfoldable pub discard_from : ℕ → Bytes → List Bytes → ℕ × Bytes × List Bytes
discard_from n bytes [] =
    if leb n (length bytes) then (0, drop n bytes, []) else (n - length bytes, [], [])
discard_from n bytes (c ∷ cs) =
    let missing = n - length bytes in
    let filled = take buffer_size c in
    let more = discard_from missing filled cs in
    if leb n (length bytes)
    then (0, drop n bytes, c ∷ cs)
    else if leb missing (length filled)
    then (0, drop missing filled, drop buffer_size c ∷ cs)
    else more

-- Discard
unfoldable pub discard : ℕ → BufferedReadWriteCloser → Option GoError × BufferedReadWriteCloser
unfolding discard_from
discard n r =
    let (missing, bytes, cs) = discard_from n r.buffer r.conn.chunks in
    (if ltb 0 missing then some r.conn.ends else none, buffered bytes r.conn.ends cs)

-- The Reads of io.ReadFull for `n` bytes, in as many rounds: each Read without an error has a byte.
unfoldable pub read_rounds :
    ℕ → ℕ → BufferedReadWriteCloser → Bytes × Option GoError × BufferedReadWriteCloser
read_rounds rounds zero r = ([], none, r)
read_rounds zero (suc n) r = ([], none, r)
read_rounds (suc rounds) (suc n) r =
    let (got, r') = read (suc n) r in
    elim got [
      | err e ↦ ([], some e, r')
      | ok bytes ↦
          let (more, e, r'') = read_rounds rounds (suc n - length bytes) r' in
          (bytes ++ more, e, r'')
    ]

abbrev is_eof : GoError → Bool
is_eof (sentinel eof) = true
is_eof _ = false

-- io.ReadFull's error for an error of Read behind `bytes`
unfoldable pub full_error : Bytes → GoError → GoError
full_error [] e = e
full_error (b ∷ bs) e = if is_eof e then sentinel unexpected_eof else e

-- io.ReadFull
unfoldable pub read_full :
    ℕ → BufferedReadWriteCloser → Result GoError Bytes × BufferedReadWriteCloser
unfolding read_rounds full_error
read_full n r =
    let (bytes, e, r') = read_rounds n n r in
    elim e [ none ↦ (ok bytes, r') | some x ↦ (err (full_error bytes x), r') ]

-- ReadByte, for which an empty buffer is filled
unfoldable pub read_byte : BufferedReadWriteCloser → Result GoError ℕ × BufferedReadWriteCloser
read_byte r =
    let ends = r.conn.ends in
    let (fill, cs) = read_chunks buffer_size ends r.conn.chunks in
    elim r.buffer [
      | b ∷ bs ↦ (ok b, buffered bs ends r.conn.chunks)
      | [] ↦ elim fill [
        | err e ↦ (err e, buffered [] ends cs)
        | ok bytes ↦ elim bytes [
          | [] ↦ (err ends, buffered [] ends cs)
          | b ∷ bs ↦ (ok b, buffered bs ends cs)
        ]
      ]
    ]

-- ReadAll: bytes up to the first error, in `fuel` rounds at most
unfoldable pub read_all_bytes : ℕ → BufferedReadWriteCloser → Bytes × BufferedReadWriteCloser
unfolding read_byte
read_all_bytes zero r = ([], r)
read_all_bytes (suc fuel) r =
    let (b, r') = read_byte r in
    elim b [
      | err e ↦ ([], r')
      | ok x ↦ let (bytes, r'') = read_all_bytes fuel r' in (x ∷ bytes, r'')
    ]
