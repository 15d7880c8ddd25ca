-- ===== src/Codec/Output/Laws.antt =====
-- WriteResponse, WriteRequest and Close of the JSON codecs of v3/codec, one and in sequence.
use rpc.Base.{
  suc, true, ◌≡◌, refl, sym, ap, ◌∙◌, ◌⊎◌, inl, inr, Option, none, some, List, [], ◌∷◌, ◌++◌,
  if◌then◌else◌, append_assoc, Option-cases, Bool-cases, arith,
}
use rpc.Errors.{GoError}
use rpc.Codec.Output.{
  Written, OutputCodec, fresh_codec, put, flush, close_codec, give_up, write_response,
  write_request, Operation, write_request_with, write_response_with, close_with, operate,
  run_operations,
}

-- A message went out whole: header and body in order, behind all that was written before.
pub record IsDelivered (header body : Written) (c c' : OutputCodec) : Type 0 where
  pub encoded : (header.1 ≡ none) × (body.1 ≡ none)
  pub flushed : c'.sent ≡ (c.sent ++ c.pending) ++ (header.0 ++ body.0)
  pub emptied : c'.pending ≡ []
  pub kept_open : c'.closed ≡ c.closed

delivered :
    (header body : Written) (flushing : Option GoError) (c c' : OutputCodec)
    → header.1 ≡ none
    → body.1 ≡ none
    → flush flushing (put body.0 (put header.0 c)) ≡ (none, c')
    → IsDelivered header body c c'
unfolding flush put
delivered header body (some e) c c' h b f = absurd (cc f)
delivered header body none c c' h b f =
    let e : c' ≡ record c { pending = []; sent = c.sent ++ ((c.pending ++ header.0) ++ body.0) } =
      cc f in
    rw e (record {
      encoded = (h, b);
      flushed =
          ap (λ r. c.sent ++ r) (append_assoc c.pending header.0 body.0)
          ∙ sym (append_assoc c.sent c.pending (header.0 ++ body.0));
      emptied = refl;
      kept_open = refl;
    })

give_up_fails :
    (e : GoError) (flushing closing : Option GoError) (c : OutputCodec)
    → (give_up e flushing closing c).0 ≡ some e
unfolding give_up flush
give_up_fails e none closing c = refl
give_up_fails e (some f) closing c = refl

-- A WriteResponse without an error does what WriteRequest does.
pub write_response-write_request :
    (header body : Written) (flushing closing : Option GoError) (c c' : OutputCodec)
    → write_response header body flushing closing c ≡ (none, c')
    → write_request header body flushing c ≡ (none, c')
unfolding write_response write_request
write_response-write_request header body flushing closing c c' e =
    let c₁ = put header.0 c in
    elim (Option-cases header.1) [
      | inr (x, p) ↦ absurd (ground (arith, p, e, give_up_fails x flushing closing c₁))
      | inl p ↦ elim (Option-cases body.1) [
        | inr (x, q) ↦
            absurd (ground (arith, p, q, e, give_up_fails x flushing closing (put body.0 c₁)))
        | inl q ↦ ground (arith, p, q, e)
      ]
    ]

-- A WriteRequest without an error has sent header and body whole, and everything pending before
-- them.
pub write_request-IsDelivered :
    (header body : Written) (flushing : Option GoError) (c c' : OutputCodec)
    → write_request header body flushing c ≡ (none, c')
    → IsDelivered header body c c'
write_request-IsDelivered header body flushing c c' h = elim (Option-cases header.1) [
  | inr (e, p) ↦ absurd (unfold write_request in ground (arith, p, h))
  | inl p ↦ elim (Option-cases body.1) [
    | inr (e, q) ↦ absurd (unfold write_request in ground (arith, p, q, h))
    | inl q ↦
        delivered header body flushing c c' p q (unfold write_request in ground (arith, p, q, h))
  ]
]

-- A WriteResponse without an error has sent header and body whole, and everything pending before
-- them.
pub write_response-IsDelivered :
    (header body : Written) (flushing closing : Option GoError) (c c' : OutputCodec)
    → write_response header body flushing closing c ≡ (none, c')
    → IsDelivered header body c c'
write_response-IsDelivered header body flushing closing c c' h =
    write_request-IsDelivered header body flushing c c'
      (write_response-write_request header body flushing closing c c' h)

-- The connection has been closed once if the codec is closed, and not at all if it is open.
abbrev pub IsClosedOnce : OutputCodec → Type 0
IsClosedOnce c = c.closes ≡ (if c.closed then 1 else 0)

-- What an operation does to the two fields: nothing, or a first close.
record Closes (c c' : OutputCodec) : Type 0 where
  once : IsClosedOnce c → IsClosedOnce c'
  stays : c.closed ≡ true → c'.closed ≡ true

close_codec-Closes : (e : Option GoError) (c : OutputCodec) → Closes c (close_codec e c).1
close_codec-Closes e c = elim (Bool-cases c.closed) [
  | inl p ↦
      let q : close_codec e c ≡ (none, c) = unfold close_codec in ground (arith, p) in
      rw q (record { once = λ h. h; stays = λ h. h })
  | inr p ↦
      let q : close_codec e c ≡ (e, record c { closed = true; closes = suc c.closes }) =
        unfold close_codec in ground (arith, p) in
      rw q (record { once = λ h. ground (arith, h, p); stays = λ h. refl })
]

flush-Closes : (e : Option GoError) (c : OutputCodec) → Closes c (flush e c).1
unfolding flush
flush-Closes (some e) c = record { once = λ h. h; stays = λ h. h }
flush-Closes none c = record { once = λ h. h; stays = λ h. h }

give_up-Closes :
    (e : GoError) (flushing closing : Option GoError) (c : OutputCodec)
    → Closes c (give_up e flushing closing c).1
unfolding give_up flush
give_up-Closes e none closing c =
    let k = close_codec-Closes closing (record c { pending = []; sent = c.sent ++ c.pending }) in
    record { once = k.once; stays = k.stays }
give_up-Closes e (some f) closing c = record { once = λ h. h; stays = λ h. h }

operate-Closes : (o : Operation) (c : OutputCodec) → Closes c (operate o c).1
unfolding operate write_request write_response put
operate-Closes (close_with e) c = close_codec-Closes e c
operate-Closes (write_request_with (h, some e) b f) c = record { once = λ k. k; stays = λ k. k }
operate-Closes (write_request_with (h, none) (b, some e) f) c = record {
  once = λ k. k;
  stays = λ k. k;
}
operate-Closes (write_request_with (h, none) (b, none) f) c =
    let k = flush-Closes f (record c { pending = (c.pending ++ h) ++ b }) in
    record { once = k.once; stays = k.stays }
operate-Closes (write_response_with (h, some e) b f g) c =
    let k = give_up-Closes e f g (record c { pending = c.pending ++ h }) in
    record { once = k.once; stays = k.stays }
operate-Closes (write_response_with (h, none) (b, some e) f g) c =
    let k = give_up-Closes e f g (record c { pending = (c.pending ++ h) ++ b }) in
    record { once = k.once; stays = k.stays }
operate-Closes (write_response_with (h, none) (b, none) f g) c =
    let k = flush-Closes f (record c { pending = (c.pending ++ h) ++ b }) in
    record { once = k.once; stays = k.stays }

run-Closes : (os : List Operation) (c : OutputCodec) → Closes c (run_operations os c)
unfolding run_operations
run-Closes [] c = record { once = λ h. h; stays = λ h. h }
run-Closes (o ∷ os) c =
    let k = operate-Closes o c in
    let r = run-Closes os (operate o c).1 in
    record { once = λ h. r.once (k.once h); stays = λ h. r.stays (k.stays h) }

-- Over any sequence of writes and closes of a new codec, the connection is closed exactly once if
-- the codec ends up closed, and otherwise not at all.
pub run_operations-IsClosedOnce :
    (os : List Operation) → IsClosedOnce (run_operations os fresh_codec)
run_operations-IsClosedOnce os = (run-Closes os fresh_codec).once refl

-- A response whose header or body could not be encoded returns that error; it leaves the codec
-- closed if the buffer could be flushed, so that the stream is not used any further.
pub write_response_closes :
    (header body : Written) (closing : Option GoError) (c : OutputCodec) (e : GoError)
    → (header.1 ≡ some e) ⊎ ((header.1 ≡ none) × (body.1 ≡ some e))
    → ((write_response header body none closing c).0 ≡ some e)
      × ((write_response header body none closing c).1.closed ≡ true)
unfolding write_response give_up flush put close_codec
write_response_closes (h, hf) (b, bf) closing c e (inl p) = ground (arith, p, Bool-cases c.closed)
write_response_closes (h, hf) (b, bf) closing c e (inr (p, q)) =
    ground (arith, p, q, Bool-cases c.closed)
