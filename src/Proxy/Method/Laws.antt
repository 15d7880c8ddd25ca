-- ===== src/Proxy/Method/Laws.antt =====
-- SplitMethod of v3/proxy/service.go, and strings.Cut.
use rpc.Base.{
  is_empty, ◌||◌, ℕ, Text, ◌≡◌, refl, ◌≢◌, ◌↔◌, false, none, some, [], ◌∷◌, ◌++◌, arith,
  if◌then◌else◌, length, index_byte, contains_byte, Option-cases, inl, inr, take-append_length,
  length-append,
}
use rpc.Proxy.Method.{split_method, cut}

-- `before` is the text in front of the first `c`, `after` what follows it.
pub record IsCut (c : ℕ) (s before after : Text) : Type 0 where
  pub whole : s ≡ before ++ c ∷ after
  pub first : contains_byte c before ≡ false

pub cut-append :
    (c : ℕ) (before after : Text)
    → contains_byte c before ≡ false
    → cut c (before ++ c ∷ after) ≡ some (before, after)
unfolding cut contains_byte
cut-append c [] after h = ground arith
cut-append c (x ∷ before) after h = ground (arith, cut-append c before after)

pub cut_sound :
    (c : ℕ) (s before after : Text) → cut c s ≡ some (before, after) → IsCut c s before after
unfolding cut contains_byte
cut_sound c [] before after h = cc
cut_sound c (x ∷ xs) before after h = elim (Option-cases (cut c xs)) [
  | inl e ↦ ground (arith, e)
  | inr ((b, a), e) ↦ ground (arith, e, cut_sound c xs b a e)
]

no_dot : (c : ℕ) (s : Text) → cut c s ≡ none → index_byte c s ≡ none
unfolding cut index_byte
no_dot c [] h = refl
no_dot c (x ∷ xs) h = ground (arith, no_dot c xs)

index_byte_at :
    (c : ℕ) (before after : Text)
    → contains_byte c before ≡ false
    → index_byte c (before ++ c ∷ after) ≡ some (length before)
unfolding index_byte contains_byte
index_byte_at c [] after h = ground arith
index_byte_at c (x ∷ b) after h = ground (arith, index_byte_at c b after)

-- SplitMethod at a text with a first dot.
split_method_at :
    (before after : Text)
    → contains_byte b'.' before ≡ false
    → split_method (before ++ b'.' ∷ after)
      ≡ (if is_empty before || is_empty after then none else some before)
unfolding is_empty split_method
split_method_at [] after h = refl
split_method_at (x ∷ b) [] h =
    rw (index_byte_at b'.' (x ∷ b) [] h, split_method) (ground (arith, length-append b (b'.' ∷ [])))
split_method_at (x ∷ b) (y ∷ a) h =
    rw (index_byte_at b'.' (x ∷ b) (y ∷ a) h, split_method)
      (ground (arith, length-append b (b'.' ∷ y ∷ a), take-append_length b (b'.' ∷ y ∷ a)))

-- `m` is "service.rest" with both parts non-empty, and no dot in the service.
pub record IsMethod (m service : Text) : Type 0 where
  pub rest : Text
  pub cut_at : IsCut b'.' m service rest
  pub named : service ≢ []
  pub has_rest : rest ≢ []

both_parts :
    (before after : Text)
    → before ≢ []
    → after ≢ []
    → (if is_empty before || is_empty after then none else some before) ≡ some before
unfolding is_empty
both_parts before after h k = ground arith

uncut : (m service : Text) → cut b'.' m ≡ none → split_method m ≢ some service
unfolding split_method
uncut m service h = ground (arith, no_dot b'.' m)

dotted :
    (m before after service : Text)
    → IsCut b'.' m before after
    → split_method m ≡ some service
    → IsMethod m service
unfolding is_empty
dotted m [] after service k h = let e = split_method_at [] after k.first in cc (k.whole, e)
dotted m (x ∷ b) [] service k h = let e = split_method_at (x ∷ b) [] k.first in cc (k.whole, e)
dotted m (x ∷ b) (y ∷ a) service k h =
    let e = split_method_at (x ∷ b) (y ∷ a) k.first in
    let same : service ≡ x ∷ b = cc (k.whole, e) in
    record {
      rest = y ∷ a;
      cut_at = record { whole = rw same k.whole; first = rw same k.first };
      named = rw same (cc);
      has_rest = cc;
    }

-- SplitMethod accepts exactly the texts "service.rest" with both parts non-empty, and returns the
-- part in front of the first dot.
pub split_method_iff : (m service : Text) → (split_method m ≡ some service) ↔ IsMethod m service
split_method_iff m service = (sound, complete)
  where
    complete : IsMethod m service → split_method m ≡ some service
    complete k =
        rw (k.cut_at.whole, split_method_at service k.rest k.cut_at.first)
          (both_parts service k.rest k.named k.has_rest)

    sound : split_method m ≡ some service → IsMethod m service
    sound h = elim (Option-cases (cut b'.' m)) [
      | inl e ↦ absurd (uncut m service e h)
      | inr ((b, a), e) ↦ dotted m b a service (cut_sound b'.' m b a e) h
    ]
