-- ===== src/Codec/Json/Requests.antt =====
-- The two sides of a plain JSON connection of v3/codec: WriteRequest of json_client_codec.go
-- against the Read methods of json_server_codec.go, and WriteResponse against those of the client.
use rpc.Base.{
  ◌≡◌, refl, sym, ap, ◌∙◌, Bytes, List, [], ◌∷◌, ◌++◌, Option, none, some, arith, inl, inr,
  append_assoc, append_nil, All, Option-cases,
}
use mathlib.Core.Path.{ap₂}
use rpc.Base.Int.{ℤ}
use rpc.Errors.{GoError}
use rpc.Codec.Stream.{Conn, flatten, effective_max_body}
use rpc.Codec.Output.{Written, OutputCodec, fresh_codec, write_request, write_response}
use rpc.Codec.Output.Laws.{IsDelivered, write_request-IsDelivered, write_response-IsDelivered}
use rpc.Codec.Json.{Target, JsonDecoder, new_json_reader}
use rpc.Codec.Json.Values.{line, IsJson}
use rpc.Codec.Json.Delivery.{Item, wire, Fits, Delivered, read_messages-Delivered}

-- A header and a body, with the outcome of the Flush behind them.
pub record Message (B V : Type 0) : Type 0 where
  pub head : Item B V
  pub content : Item B V
  pub flushing : Option GoError

abbrev pub items : {B V : Type 0} → List (Message B V) → List (Item B V)
items [] = []
items (m ∷ ms) = m.head ∷ m.content ∷ items ms

-- The client writes requests, the server responses; a server closes the codec where it cannot
-- encode.
pub data Side : Type 0 where
  client : Side
  server : Option GoError → Side

abbrev pub write_message :
    Side → Written → Written → Option GoError → OutputCodec → Option GoError × OutputCodec
write_message client header body flushing c = write_request header body flushing c
write_message (server closing) header body flushing c =
    write_response header body flushing closing c

pub write_message-IsDelivered :
    (side : Side) (header body : Written) (flushing : Option GoError) (c c' : OutputCodec)
    → write_message side header body flushing c ≡ (none, c')
    → IsDelivered header body c c'
write_message-IsDelivered client header body flushing =
    write_request-IsDelivered header body flushing
write_message-IsDelivered (server closing) header body flushing =
    write_response-IsDelivered header body flushing closing

-- json.Encoder, which writes a value's text and a newline, or fails.
abbrev pub EncodesLines : {B V : Type 0} → (Item B V → Written) → Type 0
EncodesLines {B} {V} encode =
    (i : Item B V) (bytes : Bytes) → encode i ≡ (bytes, none) → bytes ≡ line i.text

module _ {B V : Type 0} (encode : Item B V → Written) where
  -- One message after the other, up to the first error.
  unfoldable pub write_messages :
      Side → List (Message B V) → OutputCodec → Option GoError × OutputCodec
  write_messages side [] c = (none, c)
  write_messages side (m ∷ ms) c =
      let (r, c') = write_message side (encode m.head) (encode m.content) m.flushing c in
      elim r [ some e ↦ (some e, c') | none ↦ write_messages side ms c' ]

  record IsSent (ms : List (Message B V)) (c c' : OutputCodec) : Type 0 where
    sent : c'.sent ≡ c.sent ++ wire (items ms)
    emptied : c'.pending ≡ []

  module _ (lines : EncodesLines encode) where
    cons-IsSent :
        (m : Message B V) (ms : List (Message B V)) (c c₁ c' : OutputCodec)
        → c.pending ≡ []
        → IsDelivered (encode m.head) (encode m.content) c c₁
        → IsSent ms c₁ c'
        → IsSent (m ∷ ms) c c'
    cons-IsSent m ms c c₁ c' p one more =
        let h = lines m.head (encode m.head).0 (ap (λ o. ((encode m.head).0, o)) one.encoded.0) in
        let b =
          lines m.content (encode m.content).0
            (ap (λ o. ((encode m.content).0, o)) one.encoded.1) in
        let first : c₁.sent ≡ c.sent ++ (line m.head.text ++ line m.content.text) =
          one.flushed
          ∙ ap₂ (λ x y. x ++ y) (ap (λ x. c.sent ++ x) p ∙ append_nil c.sent)
              (ap₂ (λ x y. x ++ y) h b) in
        record {
          sent =
              more.sent
              ∙ ap (λ x. x ++ wire (items ms)) first
              ∙ append_assoc c.sent (line m.head.text ++ line m.content.text) (wire (items ms))
              ∙ ap (λ x. c.sent ++ x)
                  (append_assoc (line m.head.text) (line m.content.text) (wire (items ms)));
          emptied = more.emptied;
        }

    write_messages-IsSent :
        (side : Side) (ms : List (Message B V)) (c c' : OutputCodec)
        → c.pending ≡ []
        → write_messages side ms c ≡ (none, c')
        → IsSent ms c c'
    unfolding write_messages
    write_messages-IsSent side [] c c' p e =
        let q : c ≡ c' = cc e in
        record {
          sent = ap (λ x. x.sent) (sym q) ∙ sym (append_nil c.sent);
          emptied = ap (λ x. x.pending) (sym q) ∙ p;
        }
    write_messages-IsSent side (m ∷ ms) c c' p e =
        let x = write_message side (encode m.head) (encode m.content) m.flushing c in
        elim (Option-cases x.0) [
          | inr (f, q) ↦ absurd (ground (arith, q, e))
          | inl q ↦
              let one =
                write_message-IsDelivered side (encode m.head) (encode m.content) m.flushing c x.1
                  (ap (λ o. (o, x.1)) q) in
              cons-IsSent m ms c x.1 c' p one
                (write_messages-IsSent side ms x.1 c' one.emptied (ground (arith, q, e)))
        ]

    module _ {S : Type 0} {d : JsonDecoder S B V} {Holds : S → Bytes → Type 0}
        {Encodes : Target B → V → Bytes → Type 0} (json : IsJson d Holds Encodes) where
      -- The messages that a new codec wrote without an error are read by a new codec at the other
      -- end: as many headers and bodies, in their order, each with the value that was written, if
      -- each fits into the reader's limit; however the connection cuts the stream, and whatever
      -- follows.
      pub read_messages-write_messages :
          (side : Side) (ms : List (Message B V)) (c' : OutputCodec) (conn : Conn) (limit : ℤ)
          (rest : Bytes)
          → write_messages side ms fresh_codec ≡ (none, c')
          → flatten conn.chunks ≡ c'.sent ++ rest
          → All (Fits Encodes (effective_max_body limit)) (items ms)
          → Delivered json (items ms) (new_json_reader d conn limit) rest
      unfolding new_json_reader
      read_messages-write_messages side ms c' conn limit rest w e fits =
          let k = write_messages-IsSent side ms fresh_codec c' refl w in
          read_messages-Delivered json (items ms) rest (new_json_reader d conn limit)
            (record {
              buf = [];
              sep = [];
              holds = json.starts;
              separates = inl refl;
              next = e ∙ ap (λ x. x ++ rest) k.sent;
            })
            fits
