-- ===== src/Tests/Exchanging.antt =====
-- Requests over a plain JSON connection, through a toy encoder and decoder: a value of up to nine
-- bytes is its length and its bytes, with a newline behind it.
use rpc.Base.{
  ℕ, suc, ◌+◌, ◌≤◌, ◌<◌, ◌≡◌, refl, sym, ap, ◌∙◌, Bytes, none, some, List, [], ◌∷◌, ◌++◌, ◌==◌, leb,
  if◌then◌else◌, length, take, drop, ok, err, arith, ◌⊎◌, inl, inr, length-append, append_assoc,
  Bool-cases,
}
use mathlib.Core.Path.{subst}
use rpc.Base.Int.{pos, is_positive}
use rpc.Errors.{sentinel, eof}
use rpc.Codec.Stream.{Conn, flatten, effective_max_body}
use rpc.Codec.Output.{Written, OutputCodec, fresh_codec, write_request, put, flush}
use rpc.Codec.Json.{
  Target, JsonStep, reads, returns, JsonDecoder, Reading, header, body, new_json_reader,
}
use rpc.Codec.Json.Values.{newline, line, IsJson}
use rpc.Codec.Json.Delivery.{Item, Delivered}
use rpc.Codec.Json.Requests.{Message, items, client, write_messages, read_messages-write_messages}
use rpc.Tests.Reading.{ToyState, value, fed}

abbrev pub skipped : Bytes → Bytes
skipped [] = []
skipped (x ∷ xs) = if x == b'\n' then xs else x ∷ xs

abbrev pub line_step : ToyState → JsonStep ToyState Bytes
line_step s = elim s.broken [ some e ↦ returns (err e) s | none ↦ value (skipped s.held) ]

abbrev pub toy_lines : JsonDecoder ToyState ℕ Bytes
toy_lines = record {
  fresh = record { held = []; broken = none };
  step = λ t s. line_step s;
  feed = λ s r. fed s r;
  buffered = λ s. s.held;
}

abbrev pub Holds : ToyState → Bytes → Type 0
Holds s buf = s ≡ record { held = buf; broken = none }

abbrev pub Encodes : Target ℕ → Bytes → Bytes → Type 0
Encodes t v text = (text ≡ length v ∷ v) × (length v < 10)

-- What `value` does with a value that is next.
abbrev Steps : Bytes → Bytes → Bytes → Bytes → Type 0
Steps v buf more rest =
    ((n : ℕ) × (value buf ≡ reads n) × (length buf < suc (length v)))
    ⊎ ((left : Bytes) × (value buf ≡ returns (ok v) (record { held = left; broken = none }))
        × (left ++ more ≡ rest))

pub front_of :
    (v bytes more rest : Bytes)
    → bytes ++ more ≡ v ++ rest
    → length v ≤ length bytes
    → (take (length v) bytes ≡ v) × (drop (length v) bytes ++ more ≡ rest)
front_of [] bytes more rest q l = (refl, q)
front_of (x ∷ v) [] more rest q l = absurd (omega (arith, l))
front_of (x ∷ v) (y ∷ bytes) more rest q l =
    let (a, b) = front_of v bytes more rest (cc q) (omega (arith, l)) in
    let e : y ≡ x = cc q in (cc (e, a), b)

value-Steps :
    (v buf more rest : Bytes) → buf ++ more ≡ (length v ∷ v) ++ rest → Steps v buf more rest
value-Steps v [] more rest q = inl (3, refl, omega arith)
value-Steps v (n ∷ bytes) more rest q =
    let e : n ≡ length v = cc q in
    let b : bytes ++ more ≡ v ++ rest = cc q in
    subst (λ k. Steps v (k ∷ bytes) more rest) (sym e)
      (elim (Bool-cases (leb (length v) (length bytes))) [
        | inl t ↦
            let (f, l) = front_of v bytes more rest b (ground (arith, t)) in
            inr (
              drop (length v) bytes,
              rw t (
                  ap (λ x. returns (ok x) (record { held = drop (length v) bytes; broken = none }))
                    f),
              l,
            )
        | inr t ↦ inl (length bytes + 4, rw t refl, ground (arith, t))
      ])

abbrev LineSteps : Bytes → Bytes → Bytes → Bytes → Bytes → Type 0
LineSteps v buf sep more rest =
    ((n : ℕ) × (value (skipped buf) ≡ reads n) × (length buf < length (sep ++ line (length v ∷ v))))
    ⊎ ((s' : ToyState) × (left : Bytes) × (value (skipped buf) ≡ returns (ok v) s')
        × Holds s' left
        × (left ++ more ≡ newline ++ rest))

-- Behind the separator, a line is a value with a newline.
widen :
    (v buf sep more rest : Bytes)
    → Steps v (skipped buf) more (newline ++ rest)
    → length buf ≤ length (skipped buf) + length sep
    → LineSteps v buf sep more rest
widen v buf sep more rest (inl (n, p, l)) k =
    inl
      (n, p, omega (arith, l, k, length-append sep (line (length v ∷ v)), length-append v newline))
widen v buf sep more rest (inr (left, p, q)) k =
    inr (record { held = left; broken = none }, left, p, refl, q)

skipped-LineSteps :
    (v buf sep more rest : Bytes)
    → length v < 10
    → (sep ≡ []) ⊎ (sep ≡ newline)
    → buf ++ more ≡ sep ++ (line (length v ∷ v) ++ rest)
    → LineSteps v buf sep more rest
skipped-LineSteps v [] sep more rest l o q =
    inl (3, refl, omega (arith, length-append sep (line (length v ∷ v))))
skipped-LineSteps v (x ∷ xs) sep more rest l (inl e) q =
    let r : x ∷ (xs ++ more) ≡ (length v ∷ v) ++ (newline ++ rest) =
      q
      ∙ ap (λ z. z ++ (line (length v ∷ v) ++ rest)) e
      ∙ append_assoc (length v ∷ v) newline rest in
    let n : x ≡ length v = cc r in
    let same : skipped (x ∷ xs) ≡ x ∷ xs = ground (arith, n, l) in
    widen v (x ∷ xs) sep more rest (rw same (value-Steps v (x ∷ xs) more (newline ++ rest) r))
      (omega (arith, ap length same))
skipped-LineSteps v (x ∷ xs) sep more rest l (inr e) q =
    let q' : x ∷ (xs ++ more) ≡ b'\n' ∷ (line (length v ∷ v) ++ rest) =
      q ∙ ap (λ z. z ++ (line (length v ∷ v) ++ rest)) e in
    let n : x ≡ b'\n' = cc q' in
    let r : xs ++ more ≡ line (length v ∷ v) ++ rest = cc q' in
    let same : skipped (x ∷ xs) ≡ xs = ground (arith, n) in
    widen v (x ∷ xs) sep more rest
      (rw same
        (value-Steps v xs more (newline ++ rest) (r ∙ append_assoc (length v ∷ v) newline rest)))
      (omega (arith, ap length same, ap length e))

pub toy_lines-IsJson : IsJson toy_lines Holds Encodes
toy_lines-IsJson = record {
  starts = refl;
  feeds = λ s buf bytes h. ap (λ z. fed z (ok bytes)) h;
  steps = λ t v text s buf sep more rest h (e, l) o q.
      subst
        (λ z.
          ((n : ℕ) × (line_step s ≡ reads n) × (length buf < length (sep ++ line z)))
          ⊎ ((s' : ToyState) × (left : Bytes) × (line_step s ≡ returns (ok v) s')
              × Holds s' left
              × (left ++ more ≡ newline ++ rest)))
        (sym e)
        (subst
          (λ z.
            ((n : ℕ) × (line_step z ≡ reads n) × (length buf < length (sep ++ line (length v ∷ v))))
            ⊎ ((s' : ToyState) × (left : Bytes) × (line_step z ≡ returns (ok v) s')
                × Holds s' left
                × (left ++ more ≡ newline ++ rest)))
          (sym h)
          (skipped-LineSteps v buf sep more rest l o
            (subst (λ z. buf ++ more ≡ sep ++ (line z ++ rest)) e q)));
}

-- Two requests, the second with an empty body.
abbrev toy_encode : Item ℕ Bytes → Written
toy_encode i = (line i.text, none)

abbrev item : Reading ℕ → Bytes → Item ℕ Bytes
item r v = record { reading = r; value = v; text = length v ∷ v }

abbrev two_requests : List (Message ℕ Bytes)
two_requests =
    record {
      head = item header (7 ∷ 8 ∷ []);
      content = item (body (some 0)) (10 ∷ []);
      flushing = none;
    }
    ∷ record { head = item header (9 ∷ []); content = item (body none) []; flushing = none }
    ∷ []

abbrev sent_bytes : Bytes
sent_bytes = 2 ∷ 7 ∷ 8 ∷ 10 ∷ 1 ∷ 10 ∷ 10 ∷ 1 ∷ 9 ∷ 10 ∷ 0 ∷ 10 ∷ []

abbrev sent_codec : OutputCodec
sent_codec = record fresh_codec { sent = sent_bytes }

abbrev cut_up : Conn
cut_up = record {
  chunks = (2 ∷ []) ∷ (7 ∷ 8 ∷ 10 ∷ 1 ∷ 10 ∷ []) ∷ [] ∷ (10 ∷ 1 ∷ 9 ∷ 10 ∷ 0 ∷ 10 ∷ 5 ∷ []) ∷ [];
  ends = sentinel eof;
}

two_requests_sent : write_messages toy_encode client two_requests fresh_codec ≡ (none, sent_codec)
unfolding write_messages write_request put flush
two_requests_sent = refl

read_messages-write_messages_example :
    Delivered toy_lines-IsJson
      (items two_requests)
      (new_json_reader toy_lines cut_up (pos 5))
      (5 ∷ [])
unfolding effective_max_body is_positive flatten
read_messages-write_messages_example =
    read_messages-write_messages toy_encode (λ i bytes e. sym (cc e)) toy_lines-IsJson client
      two_requests sent_codec cut_up (pos 5) (5 ∷ []) two_requests_sent refl
      (
        ((refl, omega arith), omega arith),
        (
          ((refl, omega arith), omega arith),
          (((refl, omega arith), omega arith), (((refl, omega arith), omega arith), _)),
        ),
      )
