-- ===== src/Codec/Legacy/Exchange/Rounds.antt =====
-- Rounds of calls between codecs that are in step.
use rpc.Base.{
  ℕ, zero, suc, ◌≡◌, refl, sym, ap, ◌∙◌, ◌⊎◌, inl, inr, none, List, [], ◌∷◌, ◌++◌, map, length,
  drop, Result, ok, err, arith, All, Option-cases, Result-cases, append_nil, drop-append_length,
}
use mathlib.Core.Path.{subst}
use rpc.Errors.{GoError}
use rpc.Codec.Legacy.{LegacyCodec}
use rpc.Codec.Legacy.Channel.{
  Message, content, Channel, Carries, write_requests, read_requests, write_requests-Delivered,
}
use rpc.Codec.Legacy.Exchange.{Stopped, not_written, deliver, pass, Link, exchange, session}

-- A channel whose two directions have nothing in common but the codec that holds them.
pub record Separates {E D H V : Type 0} (ch : Channel E D H V) : Type 0 where
  pub writes :
      (msg : Message H V) (c : LegacyCodec E D)
      → ((ch.write msg c).1.decoder ≡ c.decoder) × ((ch.write msg c).1.incoming ≡ c.incoming)
  pub heads :
      (c : LegacyCodec E D)
      → ((ch.read_head c).1.encoder ≡ c.encoder) × ((ch.read_head c).1.output ≡ c.output)
  pub rests :
      (c : LegacyCodec E D)
      → ((ch.read_rest c).1.encoder ≡ c.encoder) × ((ch.read_rest c).1.output ≡ c.output)

module _ {E D H V : Type 0} (ch : Channel E D H V) (separates : Separates ch) where
  write_requests_apart :
      (msgs : List (Message H V)) (c : LegacyCodec E D)
      → ((write_requests ch msgs c).1.decoder ≡ c.decoder)
        × ((write_requests ch msgs c).1.incoming ≡ c.incoming)
  unfolding write_requests
  write_requests_apart [] c = (refl, refl)
  write_requests_apart (msg ∷ msgs) c =
      let (e, c') = ch.write msg c in
      let (p, q) = separates.writes msg c in
      let (r, s) = write_requests_apart msgs c' in ground (arith, Option-cases e, p, q, r, s)

  read_requests_apart :
      (n : ℕ) (c : LegacyCodec E D)
      → ((read_requests ch n c).1.encoder ≡ c.encoder)
        × ((read_requests ch n c).1.output ≡ c.output)
  unfolding read_requests
  read_requests_apart zero c = (refl, refl)
  read_requests_apart (suc n) c =
      let (h, c₁) = ch.read_head c in
      let (v, c₂) = ch.read_rest c₁ in
      let (more, c₃) = read_requests ch n c₂ in
      let (p, q) = separates.heads c in
      let (r, s) = separates.rests c₁ in
      let (t, u) = read_requests_apart n c₂ in
      ground (arith, Result-cases h, Result-cases v, Result-cases more, p, q, r, s, t, u)

pass_lem :
    {E D H V : Type 0} (ch : Channel E D H V) (msgs : List (Message H V)) (a b b' : LegacyCodec E D)
    (contents : List (H × V))
    → (write_requests ch msgs a).0 ≡ none
    → read_requests ch (length msgs) (deliver a (write_requests ch msgs a).1 b) ≡ (ok contents, b')
    → pass ch msgs a b ≡ (ok contents, (write_requests ch msgs a).1, b')
unfolding pass
pass_lem ch msgs a b b' contents p q = ground (arith, p, q)

-- `a` has nothing left to send, and `b` nothing left to read.
pub record Clear {E D : Type 0} (Synced : E → D → Type 0) (a b : LegacyCodec E D) : Type 0 where
  pub emptied : a.output.pending ≡ []
  pub all_read : b.incoming ≡ []
  pub synced : Synced a.encoder b.decoder

module _ {E D H V : Type 0} (ch : Channel E D H V) (separates : Separates ch)
    {Synced : E → D → Type 0} {Fits : Message H V → Type 0} (carries : Carries ch Synced Fits) where
  -- A pass that delivered its messages, or stopped at a failed write.
  record Passed (msgs : List (Message H V)) (a b a' b' : LegacyCodec E D) : Type 0 where
    passed : pass ch msgs a b ≡ (ok (map content msgs), a', b')
    clear : Clear Synced a' b'
    decoder : a'.decoder ≡ a.decoder
    incoming : a'.incoming ≡ a.incoming
    encoder : b'.encoder ≡ b.encoder
    output : b'.output ≡ b.output

  Unwritten : List (Message H V) → LegacyCodec E D → LegacyCodec E D → Type 0
  Unwritten msgs a b = (x : GoError) × ((pass ch msgs a b).0 ≡ err (not_written x))

  pass-Passed :
      (msgs : List (Message H V)) (a b : LegacyCodec E D)
      → Clear Synced a b
      → All Fits msgs
      → ((a' : LegacyCodec E D) × (b' : LegacyCodec E D) × Passed msgs a b a' b')
        ⊎ Unwritten msgs a b
  unfolding Unwritten pass
  pass-Passed msgs a b k fits =
      let (e, a') = write_requests ch msgs a in
      let b₁ = deliver a a' b in
      elim (Option-cases e) [
        | inr (x, p) ↦ inr (x, rw (p, pass) refl)
        | inl p ↦
            let d =
              write_requests-Delivered ch carries msgs a a' k.emptied fits (ap (λ o. (o, a')) p) in
            let came : b₁.incoming ≡ d.wire ++ [] =
              ap (λ x. x ++ drop (length a.output.sent) a'.output.sent) k.all_read
              ∙ ap (drop (length a.output.sent)) d.sent
              ∙ drop-append_length a.output.sent d.wire
              ∙ sym (append_nil d.wire) in
            let (b', q, none_left, synced) = d.received b₁ [] came k.synced in
            let (decoder, incoming) = write_requests_apart ch separates msgs a in
            let (encoder, output) = read_requests_apart ch separates (length msgs) b₁ in
            inl (
              a',
              b',
              record {
                passed = pass_lem ch msgs a b b' (map content msgs) p q;
                clear = record { emptied = d.emptied; all_read = none_left; synced = synced };
                decoder = decoder;
                incoming = incoming;
                encoder = sym (ap (λ o. o.1.encoder) q) ∙ encoder;
                output = sym (ap (λ o. o.1.output) q) ∙ output;
              },
            )
      ]

-- The two ends between rounds: nothing to send, nothing to read, and in step both ways.
pub record Ready {E D : Type 0} (Synced Synced' : E → D → Type 0) (l : Link E D) : Type 0 where
  pub to_server : Clear Synced l.client l.server
  pub to_client : Clear Synced' l.server l.client

module _ {H V K W : Type 0} (answer : H × V → Message K W) where
  -- The reply that a request gets.
  abbrev pub reply : Message H V → K × W
  reply msg = content (answer (content msg))

  abbrev pub Sound : (Message H V → Type 0) → (Message K W → Type 0) → Message H V → Type 0
  Sound Fits Fits' msg = Fits msg × Fits' (answer (content msg))

-- Rounds that were all answered, or came to a failed write.
abbrev pub Serves :
    {E D H V K W : Type 0}
    → (E → D → Type 0)
    → (E → D → Type 0)
    → Channel E D H V
    → Channel E D K W
    → (H × V → Message K W)
    → List (List (Message H V))
    → Link E D
    → Type 0
Serves {E} {D} Synced Synced' requests responses answer rounds l =
    ((after : Link E D) × (session requests responses answer rounds l
        ≡ (ok (map (λ msgs. map (reply answer) msgs) rounds), after))
      × Ready Synced Synced' after)
    ⊎ ((x : GoError) × ((session requests responses answer rounds l).0 ≡ err (not_written x)))

module _ {E D H V K W : Type 0} (requests : Channel E D H V) (responses : Channel E D K W)
    (answer : H × V → Message K W) (separates : Separates requests)
    (separates' : Separates responses) {Synced Synced' : E → D → Type 0}
    {Fits : Message H V → Type 0} {Fits' : Message K W → Type 0}
    (carries : Carries requests Synced Fits) (carries' : Carries responses Synced' Fits') where
  replies_lem :
      (msgs : List (Message H V))
      → map content (map answer (map content msgs)) ≡ map (reply answer) msgs
  replies_lem [] = refl
  replies_lem (msg ∷ msgs) = ap (λ xs. reply answer msg ∷ xs) (replies_lem msgs)

  requests_fit : (msgs : List (Message H V)) → All (Sound answer Fits Fits') msgs → All Fits msgs
  requests_fit [] fits = fits
  requests_fit (msg ∷ msgs) (f, fs) = (f.0, requests_fit msgs fs)

  answers_fit :
      (msgs : List (Message H V))
      → All (Sound answer Fits Fits') msgs
      → All Fits' (map answer (map content msgs))
  answers_fit [] fits = fits
  answers_fit (msg ∷ msgs) (f, fs) = (f.1, answers_fit msgs fs)

  exchange_lem :
      (msgs : List (Message H V)) (l : Link E D) (contents : List (H × V))
      (c c' s s' : LegacyCodec E D) (r : Result Stopped (List (K × W)))
      → pass requests msgs l.client l.server ≡ (ok contents, c, s)
      → pass responses (map answer contents) s c ≡ (r, s', c')
      → exchange requests responses answer msgs l ≡ (r, record { client = c'; server = s' })
  unfolding exchange
  exchange_lem msgs l contents c c' s s' r p q = ground (arith, p, q)

  -- Every request got its reply, and the ends are ready for more.
  record Answered (msgs : List (Message H V)) (l : Link E D) : Type 0 where
    after : Link E D
    answered : exchange requests responses answer msgs l ≡ (ok (map (reply answer) msgs), after)
    ready : Ready Synced Synced' after

  exchange-Answered :
      (msgs : List (Message H V)) (l : Link E D)
      → Ready Synced Synced' l
      → All (Sound answer Fits Fits') msgs
      → Answered msgs l
        ⊎ ((x : GoError) × ((exchange requests responses answer msgs l).0 ≡ err (not_written x)))
  unfolding Unwritten exchange
  exchange-Answered msgs l ready fits =
      elim (pass-Passed requests separates carries msgs l.client l.server ready.to_server
        (requests_fit msgs fits)) [
          | inr (x, p) ↦ inr (x, ground (arith, p))
          | inl (c, s, k) ↦
              let answers = map answer (map content msgs) in
              let back : Clear Synced' s c = record {
                emptied = ap (λ o. o.pending) k.output ∙ ready.to_client.emptied;
                all_read = k.incoming ∙ ready.to_client.all_read;
                synced =
                    subst (λ e. Synced' e c.decoder) (sym k.encoder)
                      (subst (λ d. Synced' l.server.encoder d) (sym k.decoder)
                        ready.to_client.synced);
              } in
              elim (pass-Passed responses separates' carries' answers s c back
                (answers_fit msgs fits)) [
                  | inr (x, p) ↦ inr (x, ground (arith, k.passed, p))
                  | inl (s', c', k') ↦ inl (record {
                    after = record { client = c'; server = s' };
                    answered =
                        exchange_lem msgs l (map content msgs) c c' s s' (ok (map content answers))
                          k.passed k'.passed
                        ∙ ap (λ r. (ok r, record { client = c'; server = s' })) (replies_lem msgs);
                    ready = record {
                      to_server = record {
                        emptied = ap (λ o. o.pending) k'.output ∙ k.clear.emptied;
                        all_read = k'.incoming ∙ k.clear.all_read;
                        synced =
                            subst (λ e. Synced e s'.decoder) (sym k'.encoder)
                              (subst (λ d. Synced c.encoder d) (sym k'.decoder) k.clear.synced);
                      };
                      to_client = k'.clear;
                    };
                  })
                ]
        ]

  pub session-Serves :
      (rounds : List (List (Message H V))) (l : Link E D)
      → Ready Synced Synced' l
      → All (λ msgs. All (Sound answer Fits Fits') msgs) rounds
      → Serves Synced Synced' requests responses answer rounds l
  unfolding session
  session-Serves [] l ready fits = inl (l, refl, ready)
  session-Serves (msgs ∷ rounds) l ready fits = elim (exchange-Answered msgs l ready fits.0) [
    | inr (x, p) ↦ inr (x, ground (arith, p))
    | inl k ↦ elim (session-Serves rounds k.after k.ready fits.1) [
      | inr (x, q) ↦ inr (x, ground (arith, k.answered, q))
      | inl (after, q, r) ↦ inl (after, ground (arith, k.answered, q), r)
    ]
  ]
