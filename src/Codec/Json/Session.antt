-- ===== src/Codec/Json/Session.antt =====
-- Any sequence of headers and bodies read by one codec of v3/codec (json_server_codec.go,
-- json_client_codec.go, json_crypto_codec.go).
use rpc.Base.{
  ℕ, suc, ◌+◌, ◌*◌, ◌≤◌, ◌≡◌, refl, ap, ◌∙◌, Bytes, List, [], ◌∷◌, ◌++◌, length, Result, Option,
  none, some, is_some, arith, append_assoc, length-append,
}
use mathlib.Core.Path.{subst}
use rpc.Errors.{GoError}
use rpc.Codec.Stream.{BudgetReader, reset_budget}
use rpc.Codec.Stream.Budget.{stream}
use rpc.Codec.Stream.Took.{Took}
use rpc.Codec.Json.{
  Target, to_header, to_raw, to_body, JsonDecoder, JsonCodec, read_json, read_json_header,
  read_json_body, read_crypto_message, Framing, plain, sealed, Reading, header, body, read_message,
  read_messages,
}
use rpc.Codec.Json.Decoding.{Stops, decode_total}
use rpc.Codec.Json.Bodies.{read_body-BodyRead}

-- A read that returned, and took at most `limit` bytes off the connection, from its front.
pub record Limited {A S : Type 0} (limit : ℕ) (c : JsonCodec S) (o : Option (A × JsonCodec S))
    : Type 0 where
  pub result : A
  pub codec : JsonCodec S
  pub returned : o ≡ some (result, codec)
  pub taken : Bytes
  pub split : taken ++ stream codec.budget ≡ stream c.budget
  pub bounded : length taken ≤ limit
  pub kept : codec.max_body ≡ c.max_body

module _ {S B V : Type 0} (d : JsonDecoder S B V) where
  from_budget :
      (c : JsonCodec S) (s : S) (front : Bytes) (b : BudgetReader) (r : Result GoError V)
      (o : Option (Result GoError V × JsonCodec S))
      → o ≡ some (r, record c { decoder = s; front = front; budget = b })
      → Took (reset_budget c.max_body c.budget) b
      → Limited c.max_body c o
  unfolding reset_budget
  from_budget c s front b r o p k = record {
    result = r;
    codec = record c { decoder = s; front = front; budget = b };
    returned = p;
    taken = k.taken;
    split = k.split;
    bounded = omega (arith, k.paid);
    kept = refl;
  }

  read_json-Limited :
      Stops d → (t : Target B) (c : JsonCodec S) → Limited c.max_body c (read_json d t c)
  read_json-Limited stops t c =
      let k =
        decode_total d stops t (suc (length c.front + c.max_body)) c.decoder c.front
          (reset_budget c.max_body c.budget) (unfold reset_budget in omega arith) in
      from_budget c k.decoder k.unread k.budget k.result (read_json d t c)
        (unfold read_json in rw (k.ends, read_json) refl) k.took

  read_message-Limited :
      Stops d
      → (f : Framing B V) (r : Reading B) (c : JsonCodec S)
      → Limited c.max_body c (read_message d f r c)
  unfolding read_message read_json_header read_json_body read_crypto_message
  read_message-Limited stops f header c = read_json-Limited stops to_header c
  read_message-Limited stops plain (body none) c = read_json-Limited stops to_raw c
  read_message-Limited stops plain (body (some b)) c = read_json-Limited stops (to_body b) c
  read_message-Limited stops (sealed blobs crypto unmarshal) (body b) c =
      let k =
        read_body-BodyRead blobs crypto c.max_body (unmarshal b) (is_some b) (d.buffered c.decoder)
          c.budget in
      from_budget c d.fresh k.rest k.budget k.result
        (read_crypto_message d blobs crypto unmarshal b c) (rw (k.ends, read_crypto_message) refl)
        k.took

  -- If Decode returns after a Read that failed, headers and bodies in any order are all read to an
  -- end, with results or errors, and together they take at most the message limit off the
  -- connection for each of them, from its front.
  pub read_messages-Limited :
      Stops d
      → (f : Framing B V) (rs : List (Reading B)) (c : JsonCodec S)
      → Limited (length rs * c.max_body) c (read_messages d f rs c)
  unfolding read_messages
  read_messages-Limited stops f [] c = record {
    result = [];
    codec = c;
    returned = refl;
    taken = [];
    split = refl;
    bounded = omega arith;
    kept = refl;
  }
  read_messages-Limited stops f (r ∷ rs) c =
      let k = read_message-Limited stops f r c in
      let ks = read_messages-Limited stops f rs k.codec in
      record {
        result = k.result ∷ ks.result;
        codec = ks.codec;
        returned = rw (k.returned, read_messages) (rw (ks.returned, read_messages) refl);
        taken = k.taken ++ ks.taken;
        split =
            append_assoc k.taken ks.taken (stream ks.codec.budget)
            ∙ ap (λ x. k.taken ++ x) ks.split
            ∙ k.split;
        bounded =
            let l : length ks.taken ≤ length rs * c.max_body =
              subst (λ m. length ks.taken ≤ length rs * m) k.kept ks.bounded in
            rw (length-append k.taken ks.taken) (omega (arith, k.bounded, l));
        kept = ks.kept ∙ k.kept;
      }
