-- ===== src/Codec/Json/Delivery.antt =====
-- Headers and bodies over a plain JSON codec of v3/codec (json_client_codec.go,
-- json_server_codec.go), as one side writes them and the other reads them.
use rpc.Base.{
  ℕ, suc, ◌+◌, ◌≤◌, ◌≡◌, refl, sym, ◌∙◌, Bytes, List, [], ◌∷◌, ◌++◌, map, length, Result, ok, none,
  some, arith, ◌⊎◌, inl, inr, append_assoc, length-append, All,
}
use mathlib.Core.Path.{subst}
use rpc.Errors.{GoError}
use rpc.Codec.Stream.{reset_budget}
use rpc.Codec.Json.{
  Target, to_header, to_raw, to_body, JsonDecoder, JsonCodec, read_json, read_json_header,
  read_json_body, plain, Reading, header, body, read_message, read_messages,
}
use rpc.Codec.Json.Values.{newline, line, IsJson, coming, Found, decode-Found}

-- A value with its text, and the read that asks for it.
pub record Item (B V : Type 0) : Type 0 where
  pub reading : Reading B
  pub value : V
  pub text : Bytes

abbrev pub target_of : {B : Type 0} → Reading B → Target B
target_of header = to_header
target_of (body none) = to_raw
target_of (body (some b)) = to_body b

-- What the encoder writes for the items.
abbrev pub wire : {B V : Type 0} → List (Item B V) → Bytes
wire [] = []
wire (i ∷ is) = line i.text ++ wire is

-- The items' values, as results.
abbrev pub results : {B V : Type 0} → List (Item B V) → List (Result GoError V)
results is = map (λ i. ok i.value) is

abbrev pub readings : {B V : Type 0} → List (Item B V) → List (Reading B)
readings is = map (λ i. i.reading) is

-- The text encodes the value, and fits into the limit with the newlines before and behind it.
abbrev pub Fits : {B V : Type 0} → (Target B → V → Bytes → Type 0) → ℕ → Item B V → Type 0
Fits Encodes limit i = Encodes (target_of i.reading) i.value i.text × (length i.text + 2 ≤ limit)

pub length-separator : (sep : Bytes) → (sep ≡ []) ⊎ (sep ≡ newline) → length sep ≤ 1
length-separator sep (inl e) = rw e (omega arith)
length-separator sep (inr e) = rw e (omega arith)

module _ {S B V : Type 0} {d : JsonDecoder S B V} {Holds : S → Bytes → Type 0}
    {Encodes : Target B → V → Bytes → Type 0} (json : IsJson d Holds Encodes) where
  -- The codec has `bytes` before it to read, behind a newline or not.
  pub record Awaits (c : JsonCodec S) (bytes : Bytes) : Type 0 where
    pub buf : Bytes
    pub sep : Bytes
    pub holds : Holds c.decoder buf
    pub separates : (sep ≡ []) ⊎ (sep ≡ newline)
    pub next : buf ++ coming c.front c.budget ≡ sep ++ bytes

  -- The read of one item.
  pub record Gets (r : Reading B) (v : V) (c : JsonCodec S) (rest : Bytes) : Type 0 where
    pub codec : JsonCodec S
    pub returned : read_message d plain r c ≡ some (ok v, codec)
    pub awaits : Awaits codec rest
    pub kept : codec.max_body ≡ c.max_body
    pub drained : c.front ≡ [] → codec.front ≡ []

  read_json-Found :
      (t : Target B) (v : V) (text rest : Bytes) (c : JsonCodec S)
      (a : Awaits c (line text ++ rest))
      → Encodes t v text
      → length text + 2 ≤ c.max_body
      → Found json t v
          (suc (length c.front + c.max_body))
          c.decoder
          c.front
          (reset_budget c.max_body c.budget)
          rest
  unfolding reset_budget
  read_json-Found t v text rest c a e l =
      decode-Found json t v text a.sep rest (suc (length c.front + c.max_body)) c.decoder a.buf
        c.front (reset_budget c.max_body c.budget) a.holds e a.separates a.next
        (omega (
          arith,
          l,
          length-separator a.sep a.separates,
          length-append a.sep (line text),
          length-append text newline,
        ))
        (omega arith)

  read_message_lem :
      (r : Reading B) (c : JsonCodec S) → read_message d plain r c ≡ read_json d (target_of r) c
  unfolding read_message read_json_header read_json_body
  read_message_lem header c = refl
  read_message_lem (body none) c = refl
  read_message_lem (body (some b)) c = refl

  pub read_message-Gets :
      (i : Item B V) (rest : Bytes) (c : JsonCodec S)
      → Awaits c (line i.text ++ rest)
      → Fits Encodes c.max_body i
      → Gets i.reading i.value c rest
  read_message-Gets i rest c a (e, l) =
      let k = read_json-Found (target_of i.reading) i.value i.text rest c a e l in
      record {
        codec = record c { decoder = k.decoder; front = k.unread; budget = k.budget };
        returned =
            read_message_lem i.reading c ∙ unfold read_json in rw (k.returned, read_json) refl;
        awaits = record {
          buf = k.left;
          sep = newline;
          holds = k.holds;
          separates = inr refl;
          next = k.next;
        };
        kept = refl;
        drained = k.drained;
      }

  -- Items that were read, and what is left to read.
  pub record Delivered (is : List (Item B V)) (c : JsonCodec S) (rest : Bytes) : Type 0 where
    pub codec : JsonCodec S
    pub returned : read_messages d plain (readings is) c ≡ some (results is, codec)
    pub awaits : Awaits codec rest
    pub kept : codec.max_body ≡ c.max_body

  -- Items that fit into the limit and are next in the stream are read in their order, as what was
  -- written, however the stream is cut into chunks; and the codec has before it what follows them.
  pub read_messages-Delivered :
      (is : List (Item B V)) (rest : Bytes) (c : JsonCodec S)
      → Awaits c (wire is ++ rest)
      → All (Fits Encodes c.max_body) is
      → Delivered is c rest
  unfolding read_messages
  read_messages-Delivered [] rest c a fits = record {
    codec = c;
    returned = refl;
    awaits = a;
    kept = refl;
  }
  read_messages-Delivered (i ∷ is) rest c a fits =
      let e : (line i.text ++ wire is) ++ rest ≡ line i.text ++ (wire is ++ rest) =
        append_assoc (line i.text) (wire is) rest in
      let k = read_message-Gets i (wire is ++ rest) c (subst (Awaits c) e a) fits.0 in
      let ks =
        read_messages-Delivered is rest k.codec k.awaits
          (subst (λ n. All (Fits Encodes n) is) (sym k.kept) fits.1) in
      record {
        codec = ks.codec;
        returned = rw (k.returned, read_messages) (rw (ks.returned, read_messages) refl);
        awaits = ks.awaits;
        kept = ks.kept ∙ k.kept;
      }
