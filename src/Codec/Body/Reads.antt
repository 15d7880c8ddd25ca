-- ===== src/Codec/Body/Reads.antt =====
-- Reads of an encrypted body's source in v3/codec/json_crypto_codec.go, up to the end of the magic
-- prefix, over what the JSON decoder has buffered and the chunks of the connection.
use rpc.Base.{
  ℕ, zero, suc, ◌-◌, ◌+◌, ◌≤◌, ◌<◌, ◌≡◌, refl, sym, ap, ◌∙◌, Bytes, [], ◌∷◌, ◌++◌, length, take,
  drop, Result, ok, none, some, Option, arith, false, All, List-cases, inl, inr, ◌⊎◌, append_assoc,
  take-append-drop, length-take, length-append,
}
use mathlib.Core.Path.{subst}
use rpc.Errors.{GoError}
use rpc.Codec.Stream.{budget_read}
use rpc.Codec.Stream.Budget.{stream, budget_read-IsCharged}
use rpc.Codec.Output.{magic_prefix}
use rpc.Codec.Body.{BodySource, source_read, is_separator, match_byte, read_magic}
use rpc.Codec.Body.Laws.{clip_positive, budget_read-Delivers, budget_read-ok}

-- What is to come of a body.
abbrev pub view : BodySource → Bytes
view s = s.pending ++ stream s.inner

-- The body's own budget ends no later than what it is over.
abbrev pub Sound : BodySource → Type 0
Sound s = s.left ≤ length s.pending + s.inner.left

pub record IsFed (n : ℕ) (s : BodySource) (o : Result GoError Bytes × BodySource) : Type 0 where
  pub got : Bytes
  pub read : o.0 ≡ ok got
  pub split : got ++ view o.1 ≡ view s
  pub charged : length got + o.1.left ≡ s.left
  pub sound : Sound o.1
  pub some_read : 0 < length got
  pub no_more : length got ≤ n

pub source_read-IsFed :
    (n : ℕ) (s : BodySource)
    → Sound s
    → 0 < s.left
    → 0 < length (view s)
    → IsFed (suc n) s (source_read (suc n) s)
unfolding source_read
source_read-IsFed n s k l h =
    let (m, e, m_le_n, m_le_left) = clip_positive n s.left (ground (arith, l)) in
    elim (List-cases s.pending) [
      | inr (b, bs, p) ↦
          let got = take (suc m) (b ∷ bs) in
          let rest = drop (suc m) (b ∷ bs) in
          let q : source_read (suc n) s
              ≡ (ok got, record s { pending = rest; left = s.left - length got }) =
            ground (arith, l, e, p) in
          let size : length got + length rest ≡ length s.pending = omega (
            arith,
            ap length p,
            ap length (take-append-drop (suc m) (b ∷ bs)),
            length-append got rest,
          ) in
          let some_read : 0 < length got = omega arith in
          let no_more : length got ≤ suc m = omega (arith, length-take (suc m) (b ∷ bs)) in
          rw q (record {
            got = got;
            read = refl;
            split =
                sym (append_assoc got rest (stream s.inner))
                ∙ ap (λ x. x ++ stream s.inner) (take-append-drop (suc m) (b ∷ bs) ∙ sym p);
            charged = omega (arith, no_more, m_le_left);
            sound = omega (arith, k, size, no_more, m_le_left);
            some_read = some_read;
            no_more = omega (arith, no_more, m_le_n);
          })
      | inl p ↦
          let (got, r) =
            budget_read-ok m s.inner (ground (arith, k, l, p))
              (subst (λ x. 0 < length (x ++ stream s.inner)) p h) in
          let inner = (budget_read (suc m) s.inner).1 in
          let c = budget_read-IsCharged (suc m) s.inner in
          let (some_read, no_more) = budget_read-Delivers m s.inner got r in
          let q : source_read (suc n) s
              ≡ (ok got, record s { inner = inner; left = s.left - length got }) =
            ground (arith, l, e, p, r) in
          rw q (record {
            got = got;
            read = refl;
            split =
                ap (λ x. got ++ (x ++ stream inner)) p
                ∙ c.kept got r
                ∙ ap (λ x. x ++ stream s.inner) (sym p);
            charged = omega (arith, no_more, m_le_left);
            sound = omega (arith, k, ap length p, c.charged got r, no_more, m_le_left);
            some_read = some_read;
            no_more = omega (arith, no_more, m_le_n);
          })
    ]

-- A Read of one byte that is next.
record IsNext (b : ℕ) (rest : Bytes) (s : BodySource) (o : Result GoError Bytes × BodySource)
    : Type 0 where
  read : o.0 ≡ ok (b ∷ [])
  next : view o.1 ≡ rest
  charged : suc o.1.left ≡ s.left
  sound : Sound o.1

source_read-IsNext :
    (b : ℕ) (rest : Bytes) (s : BodySource)
    → Sound s
    → 0 < s.left
    → view s ≡ b ∷ rest
    → IsNext b rest s (source_read 1 s)
source_read-IsNext b rest s k l q =
    let f = source_read-IsFed 0 s k l (omega (arith, ap length q)) in
    elim (List-cases f.got) [
      | inl e ↦ absurd (omega (arith, f.some_read, ap length e))
      | inr (x, [], e) ↦
          let o = (source_read 1 s).1 in
          let w : x ∷ view o ≡ b ∷ rest = ap (λ g. g ++ view o) (sym e) ∙ f.split ∙ q in
          let h : x ≡ b = cc w in
          let t : view o ≡ rest = cc w in
          record {
            read = f.read ∙ ap ok e ∙ ap (λ y. ok (y ∷ [])) h;
            next = t;
            charged = omega (arith, f.charged, ap length e);
            sound = f.sound;
          }
      | inr (x, y ∷ ys, e) ↦ absurd (omega (arith, f.no_more, ap length e))
    ]

-- What is left behind the prefix.
pub record Behind (rest : Bytes) (taken : ℕ) (s : BodySource)
    (o : Option (Option GoError × BodySource)) : Type 0 where
  pub source : BodySource
  pub found : o ≡ some (none, source)
  pub next : view source ≡ rest
  pub charged : taken + source.left ≡ s.left
  pub sound : Sound source

read_magic-Behind :
    (fuel : ℕ) (ms rest : Bytes) (s : BodySource)
    → Sound s
    → All (λ m. is_separator m ≡ false) ms
    → view s ≡ ms ++ rest
    → length ms ≤ fuel
    → length ms ≤ s.left
    → Behind rest (length ms) s (read_magic fuel ms s)
unfolding read_magic
read_magic-Behind fuel [] rest s k a q f l = record {
  source = s;
  found = refl;
  next = q;
  charged = omega arith;
  sound = k;
}
read_magic-Behind zero (m ∷ ms) rest s k a q f l = absurd (omega (arith, f))
read_magic-Behind (suc fuel) (m ∷ ms) rest s k a q f l =
    let r = source_read-IsNext m (ms ++ rest) s k (omega (arith, l)) q in
    let o = source_read 1 s in
    let g : match_byte m (m ∷ ms) ≡ some ms = unfold match_byte in ground (arith, a.0) in
    let ih =
      read_magic-Behind fuel ms rest o.1 r.sound a.1 r.next (omega (arith, f))
        (omega (arith, l, r.charged)) in
    record {
      source = ih.source;
      found = rw (r.read, g, read_magic) ih.found;
      next = ih.next;
      charged = omega (arith, ih.charged, r.charged);
      sound = ih.sound;
    }

-- The prefix, behind a newline or not.
pub separated-Behind :
    (fuel : ℕ) (sep rest : Bytes) (s : BodySource)
    → Sound s
    → (sep ≡ []) ⊎ (sep ≡ b'\n' ∷ [])
    → view s ≡ sep ++ (magic_prefix ++ rest)
    → 6 ≤ fuel
    → length sep + 5 ≤ s.left
    → Behind rest (length sep + 5) s (read_magic fuel magic_prefix s)
unfolding read_magic
separated-Behind fuel sep rest s k (inl e) q f l =
    let r =
      read_magic-Behind fuel magic_prefix rest s k
        (unfold is_separator in (refl, (refl, (refl, (refl, (refl, _))))))
        (q ∙ ap (λ x. x ++ (magic_prefix ++ rest)) e) (omega (arith, f)) (omega (arith, l)) in
    record {
      source = r.source;
      found = r.found;
      next = r.next;
      charged = omega (arith, r.charged, ap length e);
      sound = r.sound;
    }
separated-Behind zero sep rest s k (inr e) q f l = absurd (omega (arith, f))
separated-Behind (suc fuel) sep rest s k (inr e) q f l =
    let o = source_read 1 s in
    let n =
      source_read-IsNext b'\n' (magic_prefix ++ rest) s k (omega (arith, l))
        (q ∙ ap (λ x. x ++ (magic_prefix ++ rest)) e) in
    let g : match_byte b'\n' magic_prefix ≡ some magic_prefix = unfold match_byte in refl in
    let r =
      read_magic-Behind fuel magic_prefix rest o.1 n.sound
        (unfold is_separator in (refl, (refl, (refl, (refl, (refl, _)))))) n.next (omega (arith, f))
        (omega (arith, l, n.charged, ap length e)) in
    record {
      source = r.source;
      found = rw (n.read, g, read_magic) r.found;
      next = r.next;
      charged = omega (arith, r.charged, n.charged, ap length e);
      sound = r.sound;
    }
