-- ===== src/Codec/Negotiate/Laws.antt =====
-- sniffServerConn and the two factories of v3/codec/negotiate.go.
use rpc.Base.{
  ℕ, ◌-◌, ◌≤◌, ◌<◌, Bytes, Bool, true, false, ◌≡◌, ◌≢◌, refl, sym, ap, ◌∙◌, List, [], ◌∷◌, ◌++◌,
  leb, length, take, drop, ok, arith, length-append, length-take, drop_all, take-append_le,
  take-append-drop, append_nil, append_assoc, Bool-cases, inl, inr, List-cases,
}
use rpc.Base.Int.{ℤ}
use rpc.Errors.{eof, is_error}
use rpc.Codec.Stream.{Conn, flatten}
use rpc.Codec.Crypto.{Primitives}
use rpc.Codec.Negotiate.{
  is_json_stream, PrefixConn, buffer_size, peek, sniff_server_conn, Codec, new_server_codec_v3,
  new_client_codec_v3,
}

-- What Peek leaves: the same stream, and the first `n` bytes of it in the buffer.
pub record IsPeeked (n : ℕ) (whole : Bytes) (r : Bytes × List Bytes) : Type 0 where
  pub kept : r.0 ++ flatten r.1 ≡ whole
  pub front : take n r.0 ≡ take n whole

enough :
    (n : ℕ) (buffer rest whole : Bytes)
    → n ≤ length buffer
    → buffer ++ rest ≡ whole
    → take n buffer ≡ take n whole
enough n buffer rest whole h e = sym (take-append_le n buffer rest h) ∙ ap (take n) e

-- A fill that leaves too few bytes took the whole chunk.
taken :
    (n : ℕ) (buffer c : Bytes)
    → n ≤ buffer_size
    → length (buffer ++ take (buffer_size - length buffer) c) < n
    → take (buffer_size - length buffer) c ≡ c
taken n buffer c h l =
    let room = buffer_size - length buffer in
    let short : length c ≤ room =
      omega (arith, length-append buffer (take room c), length-take room c) in
    sym (append_nil (take room c))
    ∙ ap (λ r. take room c ++ r) (sym (drop_all room c short))
    ∙ take-append-drop room c

pub peek-IsPeeked :
    (n : ℕ) (buffer : Bytes) (cs : List Bytes)
    → n ≤ buffer_size
    → IsPeeked n (buffer ++ flatten cs) (peek n buffer cs)
unfolding flatten
peek-IsPeeked n buffer [] h =
    unfold peek in record { kept = refl; front = ap (take n) (sym (append_nil buffer)) }
peek-IsPeeked n buffer (c ∷ cs) h =
    let room = buffer_size - length buffer in
    let filled = buffer ++ take room c in
    let cut : filled ++ (drop room c ++ flatten cs) ≡ buffer ++ (c ++ flatten cs) =
      append_assoc buffer (take room c) (drop room c ++ flatten cs)
      ∙ ap (λ r. buffer ++ r)
          (sym (append_assoc (take room c) (drop room c) (flatten cs))
            ∙ ap (λ r. r ++ flatten cs) (take-append-drop room c)) in
    elim (Bool-cases (leb n (length buffer))) [
      | inl full ↦
          let e : peek n buffer (c ∷ cs) ≡ (buffer, c ∷ cs) = unfold peek in ground (arith, full) in
          rw e (record {
            kept = refl;
            front = enough n buffer (c ++ flatten cs) _ (ground (arith, full)) refl;
          })
      | inr short ↦ elim (Bool-cases (leb n (length filled))) [
        | inl full ↦
            let e : peek n buffer (c ∷ cs) ≡ (filled, drop room c ∷ cs) =
              unfold peek in ground (arith, short, full) in
            rw e (record { kept = cut; front = enough n filled _ _ (ground (arith, full)) cut })
        | inr more ↦
            let e : peek n buffer (c ∷ cs) ≡ peek n filled cs =
              unfold peek in ground (arith, short, more) in
            let all : take room c ≡ c = taken n buffer c h (ground (arith, more)) in
            let same : filled ++ flatten cs ≡ buffer ++ (c ++ flatten cs) =
              append_assoc buffer (take room c) (flatten cs)
              ∙ ap (λ r. buffer ++ (r ++ flatten cs)) all in
            let ih = peek-IsPeeked n filled cs h in
            rw e (record { kept = ih.kept ∙ same; front = ih.front ∙ ap (take n) same })
      ]
    ]

-- A sniffed connection replays the whole stream, and its verdict is that of the stream's first two
-- bytes.
pub record IsSniffed (conn : Conn) (s : PrefixConn × Bool) : Type 0 where
  pub replays : s.0.buffer ++ flatten s.0.conn.chunks ≡ flatten conn.chunks
  pub ends : s.0.conn.ends ≡ conn.ends
  pub verdict : s.1 ≡ is_json_stream (take 2 (flatten conn.chunks))

module _ (conn : Conn) where
  abbrev peeked : Bytes × List Bytes
  peeked = peek 2 [] conn.chunks

  look : IsPeeked 2 (flatten conn.chunks) peeked
  look = peek-IsPeeked 2 [] conn.chunks (omega arith)

  abbrev prefixed : PrefixConn
  prefixed = record { buffer = peeked.0; conn = record { chunks = peeked.1; ends = conn.ends } }

  verdict_lem : is_json_stream (take 2 peeked.0) ≡ is_json_stream (take 2 (flatten conn.chunks))
  verdict_lem = ap is_json_stream look.front

  sniff_some :
      (b : ℕ) (bs : Bytes)
      → peeked.0 ≡ b ∷ bs
      → sniff_server_conn conn ≡ ok (prefixed, is_json_stream (take 2 peeked.0))
  unfolding sniff_server_conn
  sniff_some b bs e = ground (arith, e)

  sniff_none :
      peeked.0 ≡ [] → is_error conn.ends eof ≡ true → sniff_server_conn conn ≡ ok (prefixed, false)
  unfolding sniff_server_conn
  sniff_none e f = ground (arith, e, f)

  sniff_fails :
      (s : PrefixConn × Bool)
      → peeked.0 ≡ []
      → is_error conn.ends eof ≡ false
      → sniff_server_conn conn ≢ ok s
  unfolding sniff_server_conn
  sniff_fails s e f = ground (arith, e, f)

  -- However the stream is cut into chunks, a successful sniff gives back every byte and judges the
  -- first two bytes of the stream.
  pub sniff_server_conn-IsSniffed :
      (s : PrefixConn × Bool) → sniff_server_conn conn ≡ ok s → IsSniffed conn s
  unfolding is_json_stream
  sniff_server_conn-IsSniffed s h = elim (List-cases peeked.0) [
    | inr (b, bs, e) ↦
        let q : s ≡ (prefixed, is_json_stream (take 2 peeked.0)) = cc (h, sniff_some b bs e) in
        rw q (record { replays = look.kept; ends = refl; verdict = verdict_lem })
    | inl e ↦ elim (Bool-cases (is_error conn.ends eof)) [
      | inr f ↦ absurd (sniff_fails s e f h)
      | inl f ↦
          let q : s ≡ (prefixed, false) = cc (h, sniff_none e f) in
          let v : is_json_stream (take 2 peeked.0) ≡ false = ground (arith, e) in
          rw q (record { replays = look.kept; ends = refl; verdict = sym v ∙ verdict_lem })
    ]
  ]

  -- A stream with a byte in it is always sniffed.
  sniff_total :
      (b : ℕ) (bs : Bytes)
      → flatten conn.chunks ≡ b ∷ bs
      → (s : PrefixConn × Bool) × (sniff_server_conn conn ≡ ok s)
  sniff_total b bs e = elim (List-cases peeked.0) [
    | inr (x, xs, p) ↦ (_, sniff_some x xs p)
    | inl p ↦ absurd (ground (arith, p, e, look.front))
  ]

module _ {Block : Type 0} (p : Primitives Block) where
  -- Client and server of the same key agree on the codec: a client on the JSON transport, whose
  -- stream begins with the brace and the quote of a JSON object, meets its own codec, and so does
  -- a client on the legacy transport whose stream does not look like a JSON object.
  pub codec_agreement :
      (key : Bytes) (max_body : ℤ) (json_transport : Bool) (codec : Codec) (conn : Conn) (a b : ℕ)
      (rest : Bytes)
      → flatten conn.chunks ≡ a ∷ b ∷ rest
      → is_json_stream (a ∷ b ∷ []) ≡ json_transport
      → new_client_codec_v3 p key max_body json_transport ≡ ok codec
      → (s : PrefixConn) × (new_server_codec_v3 p conn key max_body ≡ ok (s, codec))
        × (s.buffer ++ flatten s.conn.chunks ≡ a ∷ b ∷ rest)
  unfolding new_client_codec_v3 new_server_codec_v3
  codec_agreement key max_body json_transport codec conn a b rest e v h =
      let (s, t) = sniff_total conn a (b ∷ rest) e in
      let k = sniff_server_conn-IsSniffed conn s t in
      let w : s.1 ≡ json_transport = k.verdict ∙ ap (λ x. is_json_stream (take 2 x)) e ∙ v in
      (s.0, ground (arith, t, w, h), k.replays ∙ e)
