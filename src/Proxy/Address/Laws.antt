-- ===== src/Proxy/Address/Laws.antt =====
-- splitHostPortDefault of v3/proxy/config.go on the output of targetString of v3/proxy/invoke.go.
use rpc.Base.{
  ℕ, zero, suc, ◌+◌, ◌*◌, ◌-◌, ◌&&◌, ◌||◌, ◌/◌, ◌%◌, ◌≤◌, ◌<◌, ◌≡◌, refl, sym, ap, ◌∙◌, Text, Bool,
  true, false, none, some, [], ◌∷◌, ◌++◌, ltb, leb, contains_byte, is_empty, ok, arith, Bool-cases,
  inl, inr,
}
use rpc.Base.Int.{pos}
use rpc.Proxy.Method.Laws.{cut-append}
use rpc.Proxy.Types.{Target}
use rpc.Proxy.Address.{
  decimal_from, itoa, join_host_port, target_string, cut_last, split_bracketed, split_plain,
  split_host_port, digits_from, unsigned, atoi, in_port_range, split_host_port_default,
}

digit : (n d : ℕ) (s : Text) → d < 10 → digits_from n ((b'0' + d) ∷ s) ≡ digits_from (n * 10 + d) s
digit n d s h =
    let e : digits_from n ((b'0' + d) ∷ s) ≡ digits_from (n * 10 + ((b'0' + d) - b'0')) s =
      unfold digits_from in ground (arith, h) in
    e ∙ ap (λ k. digits_from (n * 10 + k) s) (omega arith)

-- What the digits of `n` in front of `acc` parse to.
digits_from-decimal_from :
    (fuel n : ℕ) (acc : Text)
    → n < fuel
    → digits_from 0 (decimal_from fuel n acc) ≡ digits_from n acc
digits_from-decimal_from zero n acc h = absurd (omega arith)
digits_from-decimal_from (suc fuel) n acc h = elim (Bool-cases (ltb n 10)) [
  | inl p ↦
      let e : decimal_from (suc fuel) n acc ≡ (b'0' + n) ∷ acc =
        unfold decimal_from in ground (arith, p) in
      ap (digits_from 0) e
      ∙ digit 0 n acc (ground (arith, p))
      ∙ ap (λ k. digits_from k acc) (omega arith)
  | inr p ↦
      let e : decimal_from (suc fuel) n acc ≡ decimal_from fuel (n / 10) ((b'0' + n % 10) ∷ acc) =
        unfold decimal_from in ground (arith, p) in
      let big : 10 ≤ n = ground (arith, p) in
      ap (digits_from 0) e
      ∙ digits_from-decimal_from fuel (n / 10) ((b'0' + n % 10) ∷ acc) (omega arith)
      ∙ digit (n / 10) (n % 10) acc (omega arith)
      ∙ ap (λ k. digits_from k acc) (omega arith)
]

-- Every character of a printed number is a digit.
unfoldable all_digits : Text → Bool
all_digits [] = true
all_digits (c ∷ s) = leb b'0' c && leb c b'9' && all_digits s

all_digits-decimal_from :
    (fuel n : ℕ) (acc : Text)
    → n < fuel
    → all_digits acc ≡ true
    → (c : ℕ) × (s : Text) × (decimal_from fuel n acc ≡ c ∷ s) × (all_digits (c ∷ s) ≡ true)
all_digits-decimal_from zero n acc h a = absurd (omega arith)
all_digits-decimal_from (suc fuel) n acc h a = elim (Bool-cases (ltb n 10)) [
  | inl p ↦ (
    b'0' + n,
    acc,
    unfold decimal_from in ground (arith, p),
    unfold all_digits in ground (arith, p, a),
  )
  | inr p ↦
      let big : 10 ≤ n = ground (arith, p) in
      let (c, s, e, d) =
        all_digits-decimal_from fuel (n / 10) ((b'0' + n % 10) ∷ acc) (omega arith)
          (unfold all_digits in ground (arith, a)) in
      let q : decimal_from (suc fuel) n acc ≡ decimal_from fuel (n / 10) ((b'0' + n % 10) ∷ acc) =
        unfold decimal_from in ground (arith, p) in
      (c, s, q ∙ e, d)
]

digits_lack : (c : ℕ) (s : Text) → b'9' < c → all_digits s ≡ true → contains_byte c s ≡ false
unfolding all_digits contains_byte
digits_lack c [] h a = refl
digits_lack c (x ∷ s) h a = ground (arith, h, a, digits_lack c s h)

-- What the parsers need of a printed port.
record IsPort (n : ℕ) (text : Text) : Type 0 where
  parses : atoi text ≡ some (pos n)
  lacks : (c : ℕ) → b'9' < c → contains_byte c text ≡ false

itoa-IsPort : (n : ℕ) → n ≤ 65535 → IsPort n (itoa (pos n))
itoa-IsPort n h =
    let (c, s, e, d) =
      all_digits-decimal_from (suc n) n [] (omega arith) (unfold all_digits in refl) in
    let q : itoa (pos n) ≡ c ∷ s = unfold itoa in e in
    let v : digits_from 0 (c ∷ s) ≡ some n =
      ap (digits_from 0) (sym e)
      ∙ digits_from-decimal_from (suc n) n [] (omega arith)
      ∙ (unfold digits_from in refl) in
    rw q (record {
      parses =
          unfold atoi in
          unfold unsigned in unfold is_empty in unfold all_digits in ground (arith, d, v, h);
      lacks = λ k l. digits_lack k (c ∷ s) l d;
    })

cut_last-none : (c : ℕ) (s : Text) → contains_byte c s ≡ false → cut_last c s ≡ none
unfolding cut_last contains_byte
cut_last-none c [] h = refl
cut_last-none c (x ∷ xs) h = ground (arith, h, cut_last-none c xs)

cut_last-append :
    (c : ℕ) (before after : Text)
    → contains_byte c after ≡ false
    → cut_last c (before ++ c ∷ after) ≡ some (before, after)
unfolding cut_last
cut_last-append c [] after h = unfold cut_last in ground (arith, cut_last-none c after h)
cut_last-append c (x ∷ before) after h = rw (cut_last-append c before after h, cut_last) refl

contains_byte-append :
    (c : ℕ) (xs ys : Text) → contains_byte c (xs ++ ys) ≡ (contains_byte c xs || contains_byte c ys)
unfolding contains_byte
contains_byte-append c [] ys = refl
contains_byte-append c (x ∷ xs) ys = ground (arith, contains_byte-append c xs ys)

parse_port :
    (s host text : Text) (n : ℕ)
    → is_empty s ≡ false
    → split_host_port s ≡ ok (host, text)
    → atoi text ≡ some (pos n)
    → 1 ≤ n
    → n ≤ 65535
    → split_host_port_default s ≡ ok (host, pos n)
unfolding split_host_port_default in_port_range
parse_port s host text n i e a l u = ground (arith, i, e, a, l, u)

cut_last_later :
    (c x : ℕ) (xs : Text) (p : Text × Text)
    → cut_last c xs ≡ some p
    → cut_last c (x ∷ xs) ≡ some (x ∷ p.0, p.1)
unfolding cut_last
cut_last_later c x xs p e = ground (arith, e)

cut_last-some :
    (c : ℕ) (s : Text) → contains_byte c s ≡ true → (p : Text × Text) × (cut_last c s ≡ some p)
cut_last-some c [] h = absurd (unfold contains_byte in cc h)
cut_last-some c (x ∷ xs) h = elim (Bool-cases (contains_byte c xs)) [
  | inl q ↦ let (p, e) = cut_last-some c xs q in ((x ∷ p.0, p.1), cut_last_later c x xs p e)
  | inr q ↦ (
    ([], xs),
    unfold cut_last in unfold contains_byte in ground (arith, h, q, cut_last-none c xs q),
  )
]

-- What splits, and has a character.
abbrev Splits : Text → Text → Text → Type 0
Splits s host text = (split_host_port s ≡ ok (host, text)) × (is_empty s ≡ false)

bracketed-Splits :
    (host text : Text)
    → contains_byte b'[' host ≡ false
    → contains_byte b']' host ≡ false
    → ((c : ℕ) → b'9' < c → contains_byte c text ≡ false)
    → Splits (b'[' ∷ (host ++ (b']' ∷ b':' ∷ text))) host text
unfolding split_host_port split_bracketed is_empty
bracketed-Splits host text a b lacks =
    let rest = host ++ (b']' ∷ b':' ∷ text) in
    let colon : contains_byte b':' (b'[' ∷ rest) ≡ true =
      unfold contains_byte in ground (arith, contains_byte-append b':' host (b']' ∷ b':' ∷ text)) in
    let opening : contains_byte b'[' rest ≡ false =
      unfold contains_byte in
      ground
        (arith, a, lacks b'[' (omega arith), contains_byte-append b'[' host (b']' ∷ b':' ∷ text)) in
    let (p, e) = cut_last-some b':' (b'[' ∷ rest) colon in
    (
      ground (
        arith,
        e,
        opening,
        lacks b':' (omega arith),
        lacks b']' (omega arith),
        cut-append b']' host (b':' ∷ text) b,
      ),
      refl,
    )

plain-Splits :
    (host text : Text)
    → contains_byte b':' host ≡ false
    → contains_byte b'[' host ≡ false
    → contains_byte b']' host ≡ false
    → ((c : ℕ) → b'9' < c → contains_byte c text ≡ false)
    → Splits (host ++ (b':' ∷ text)) host text
unfolding split_host_port split_plain is_empty contains_byte
plain-Splits [] text c a b lacks =
    let e = cut_last-append b':' [] text (lacks b':' (omega arith)) in
    (ground (arith, e, lacks b'[' (omega arith), lacks b']' (omega arith)), refl)
plain-Splits (x ∷ xs) text c a b lacks =
    let e = cut_last-append b':' (x ∷ xs) text (lacks b':' (omega arith)) in
    (ground (arith, e, a, b, c, lacks b'[' (omega arith), lacks b']' (omega arith)), refl)

-- A host without brackets, joined to a printed port, splits again.
join_host_port-Splits :
    (host text : Text)
    → contains_byte b'[' host ≡ false
    → contains_byte b']' host ≡ false
    → ((c : ℕ) → b'9' < c → contains_byte c text ≡ false)
    → Splits (join_host_port host text) host text
join_host_port-Splits host text a b lacks = elim (Bool-cases (contains_byte b':' host)) [
  | inl colon ↦
      let e : join_host_port host text ≡ b'[' ∷ (host ++ (b']' ∷ b':' ∷ text)) =
        unfold join_host_port in ground (arith, colon) in
      rw e (bracketed-Splits host text a b lacks)
  | inr plain ↦
      let e : join_host_port host text ≡ host ++ (b':' ∷ text) =
        unfold join_host_port in ground (arith, plain) in
      rw e (plain-Splits host text plain a b lacks)
]

-- The address that targetString prints for a port in 1..65535 and a host without brackets parses
-- back to that host and port, with or without colons in the host.
pub split_host_port_default-target_string :
    (t : Target) (n : ℕ)
    → t.port ≡ pos n
    → 1 ≤ n
    → n ≤ 65535
    → contains_byte b'[' t.addr ≡ false
    → contains_byte b']' t.addr ≡ false
    → split_host_port_default (target_string t) ≡ ok (t.addr, t.port)
unfolding target_string
split_host_port_default-target_string t n p l u a b =
    let k = itoa-IsPort n u in
    let (s, e) = join_host_port-Splits t.addr (itoa (pos n)) a b k.lacks in
    let q =
      parse_port (join_host_port t.addr (itoa (pos n))) t.addr (itoa (pos n)) n e s k.parses l u in
    rw p q
