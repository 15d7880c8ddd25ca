-- ===== src/Server/Earlier/Survival.antt =====
-- Accept of server.go (v1) against Accept of v2/server.go.
use rpc.Base.{
  ◌≡◌, refl, sym, ap, ◌∙◌, Text, Bool, true, false, Option, none, some, List, [], ◌∷◌, ◌++◌, map,
  if◌then◌else◌, ok, arith, All, inl, inr, Bool-cases, ◌⊎◌, ◌↔◌,
}
use rpc.Errors.{is_error, net_closed}
use rpc.Codec.Stream.{Conn}
use rpc.Codec.Crypto.{Primitives}
use rpc.Codec.Negotiate.{Codec, new_codec_v2, get_codec_v1}
use rpc.Server.{Ending, returned, panicked}
use rpc.Server.Earlier.{
  EarlierServer, EarlierEvent, handled, codec_closed, process_crashed, Arrival, arrived, failed,
  cancelled, Handler, deferred_v2, serve_conn_v2, accept_v2, serve_conn_v1, wait_for_client,
  accept_v1,
}

abbrev pub Handled : Type 0
Handled = Codec × Conn × Option Text

-- The connections that reached the handler.
unfoldable pub handled_of : List EarlierEvent → List Handled
handled_of [] = []
handled_of (handled codec conn remote ∷ es) = (codec, conn, remote) ∷ handled_of es
handled_of (e ∷ es) = handled_of es

unfoldable pub is_crash : EarlierEvent → Bool
is_crash process_crashed = true
is_crash _ = false

unfoldable pub closes : Arrival → Bool
closes (arrived conn remote) = false
closes (failed e) = is_error e net_closed
closes cancelled = true

-- What comes before the listener is closed.
unfoldable pub before_close : List Arrival → List Arrival
before_close [] = []
before_close (a ∷ rest) = let more = before_close rest in if closes a then [] else a ∷ more

unfoldable pub connections : List Arrival → List (Conn × Option Text)
connections [] = []
connections (arrived conn remote ∷ rest) = (conn, remote) ∷ connections rest
connections (a ∷ rest) = connections rest

Ending-cases : (e : Ending) → (e ≡ returned) ⊎ (e ≡ panicked)
Ending-cases returned = inl refl
Ending-cases panicked = inr refl

module _ {Block : Type 0} (p : Primitives Block) (s : EarlierServer) (handle : Handler)
    (codec : Codec) where
  -- Up to the end of the context there are only TCP connections whose handler returns.
  pub Smooth : List Arrival → Type 0
  Smooth [] = Unit
  Smooth (cancelled ∷ rest) = Unit
  Smooth (failed e ∷ rest) = ⊥
  Smooth (arrived conn none ∷ rest) = ⊥
  Smooth (arrived conn (some address) ∷ rest) =
      (handle codec conn (some address) ≡ returned) × Smooth rest

  abbrev with_codec : Conn × Option Text → Handled
  with_codec (conn, remote) = (codec, conn, remote)

  -- Whether v1's process goes on, and what the two servers have in common.
  pub record Survival (arrivals : List Arrival) : Type 0 where
    pub alive : ((accept_v1 p s handle arrivals).1 ≡ true) ↔ Smooth arrivals
    pub agrees :
        Smooth arrivals
        → handled_of (accept_v1 p s handle arrivals).0 ≡ handled_of (accept_v2 p s handle arrivals)
    pub served :
        handled_of (accept_v2 p s handle arrivals)
        ≡ map with_codec (connections (before_close arrivals))
    pub stays_up : All (λ e. is_crash e ≡ false) (accept_v2 p s handle arrivals)

  served_v1 :
      (conn : Conn) (address : Text) (ending : Ending)
      → new_codec_v2 p s.crypto_key ≡ ok codec
      → handle codec conn (some address) ≡ ending
      → serve_conn_v1 p s handle (some conn) (some address) ≡ elim ending [
        | returned ↦ (handled codec conn (some address) ∷ codec_closed ∷ [], true)
        | panicked ↦
            (handled codec conn (some address) ∷ codec_closed ∷ process_crashed ∷ [], false)
      ]
  unfolding serve_conn_v1 get_codec_v1
  served_v1 conn address returned h q = rw (h, serve_conn_v1) (rw (q, serve_conn_v1) refl)
  served_v1 conn address panicked h q = rw (h, serve_conn_v1) (rw (q, serve_conn_v1) refl)

  served_v2 :
      (conn : Conn) (remote : Option Text) (ending : Ending)
      → new_codec_v2 p s.crypto_key ≡ ok codec
      → handle codec conn remote ≡ ending
      → serve_conn_v2 p s handle conn remote
        ≡ handled codec conn remote ∷ codec_closed ∷ deferred_v2 p s handle ending
  unfolding serve_conn_v2
  served_v2 conn remote ending h q = rw (h, serve_conn_v2) (rw (q, serve_conn_v2) refl)

  no_crash :
      (conn : Conn) (remote : Option Text) (ending : Ending) (rest : List EarlierEvent)
      → All (λ e. is_crash e ≡ false) rest
      → All
          (λ e. is_crash e ≡ false)
          ((handled codec conn remote ∷ codec_closed ∷ deferred_v2 p s handle ending) ++ rest)
  unfolding is_crash deferred_v2
  no_crash conn remote returned rest k = (refl, (refl, (refl, k)))
  no_crash conn remote panicked rest k = (refl, (refl, (refl, (refl, k))))

  up_v2 :
      new_codec_v2 p s.crypto_key ≡ ok codec
      → (arrivals : List Arrival) → All (λ e. is_crash e ≡ false) (accept_v2 p s handle arrivals)
  unfolding accept_v2
  up_v2 h [] = tt
  up_v2 h (cancelled ∷ rest) = tt
  up_v2 h (failed e ∷ rest) = elim (Bool-cases (is_error e net_closed)) [
    | inl q ↦ rw q tt
    | inr q ↦ rw q (up_v2 h rest)
  ]
  up_v2 h (arrived conn remote ∷ rest) =
      rw (served_v2 conn remote (handle codec conn remote) h refl)
        (no_crash conn remote (handle codec conn remote) (accept_v2 p s handle rest) (up_v2 h rest))

  handled_v2 :
      (conn : Conn) (remote : Option Text) (ending : Ending) (rest : List EarlierEvent)
      → handled_of
          ((handled codec conn remote ∷ codec_closed ∷ deferred_v2 p s handle ending) ++ rest)
        ≡ (codec, conn, remote) ∷ handled_of rest
  unfolding handled_of deferred_v2
  handled_v2 conn remote returned rest = refl
  handled_v2 conn remote panicked rest = refl

  served_all :
      new_codec_v2 p s.crypto_key ≡ ok codec
      → (arrivals : List Arrival)
      → handled_of (accept_v2 p s handle arrivals)
        ≡ map with_codec (connections (before_close arrivals))
  unfolding accept_v2 handled_of connections before_close closes
  served_all h [] = refl
  served_all h (cancelled ∷ rest) = refl
  served_all h (failed e ∷ rest) = elim (Bool-cases (is_error e net_closed)) [
    | inl q ↦ rw q refl
    | inr q ↦ rw q (served_all h rest)
  ]
  served_all h (arrived conn remote ∷ rest) =
      rw (served_v2 conn remote (handle codec conn remote) h refl) (
        handled_v2 conn remote (handle codec conn remote) (accept_v2 p s handle rest)
        ∙ ap (λ r. (codec, conn, remote) ∷ r) (served_all h rest))

  dead_v1 :
      (a : Arrival) (rest : List Arrival) (conn : Option Conn) (remote : Option Text)
      → wait_for_client p s handle a ≡ some (conn, remote)
      → (serve_conn_v1 p s handle conn remote).1 ≡ false
      → (accept_v1 p s handle (a ∷ rest)).1 ≡ false
  unfolding accept_v1
  dead_v1 a rest conn remote w d = ground (arith, w, d)

  lives_v1 :
      (conn : Conn) (address : Text) (rest : List Arrival)
      → new_codec_v2 p s.crypto_key ≡ ok codec
      → handle codec conn (some address) ≡ returned
      → accept_v1 p s handle (arrived conn (some address) ∷ rest) ≡ (
        (handled codec conn (some address) ∷ codec_closed ∷ []) ++ (accept_v1 p s handle rest).0,
        (accept_v1 p s handle rest).1,
      )
  unfolding accept_v1 wait_for_client Smooth
  lives_v1 conn address rest h q = rw (served_v1 conn address returned h q, accept_v1) refl

  alive_v1 :
      new_codec_v2 p s.crypto_key ≡ ok codec
      → (arrivals : List Arrival) → ((accept_v1 p s handle arrivals).1 ≡ true) ↔ Smooth arrivals
  unfolding accept_v1 wait_for_client Smooth
  alive_v1 h [] = (λ _. tt, λ _. refl)
  alive_v1 h (cancelled ∷ rest) = (λ _. tt, λ _. refl)
  alive_v1 h (failed e ∷ rest) =
      let d =
        dead_v1 (failed e) rest none none refl
          (unfold serve_conn_v1 in unfold get_codec_v1 in rw (h, serve_conn_v1) refl) in
      (λ alive. absurd (cc (alive, d)), λ smooth. absurd smooth)
  alive_v1 h (arrived conn none ∷ rest) =
      let d =
        dead_v1 (arrived conn none) rest (some conn) none refl
          (unfold serve_conn_v1 in unfold get_codec_v1 in rw (h, serve_conn_v1) refl) in
      (λ alive. absurd (cc (alive, d)), λ smooth. absurd smooth)
  alive_v1 h (arrived conn (some address) ∷ rest) =
      elim (Ending-cases (handle codec conn (some address))) [
        | inl q ↦
            let ih = alive_v1 h rest in
            let l = ap (λ x. x.1) (lives_v1 conn address rest h q) in
            (λ alive. (q, ih.0 (sym l ∙ alive)), λ smooth. l ∙ ih.1 smooth.1)
        | inr q ↦
            let d =
              dead_v1 (arrived conn (some address)) rest (some conn) (some address) refl
                (rw (served_v1 conn address panicked h q) refl) in
            (λ alive. absurd (cc (alive, d)), λ smooth. absurd (cc (smooth.0, q)))
      ]

  same_handled :
      new_codec_v2 p s.crypto_key ≡ ok codec
      → (arrivals : List Arrival) → Smooth arrivals
      → handled_of (accept_v1 p s handle arrivals).0 ≡ handled_of (accept_v2 p s handle arrivals)
  unfolding accept_v1 accept_v2 wait_for_client handled_of deferred_v2 Smooth
  same_handled h [] smooth = refl
  same_handled h (cancelled ∷ rest) smooth = refl
  same_handled h (failed e ∷ rest) smooth = absurd smooth
  same_handled h (arrived conn none ∷ rest) smooth = absurd smooth
  same_handled h (arrived conn (some address) ∷ rest) smooth =
      let first : handled_of (accept_v1 p s handle (arrived conn (some address) ∷ rest)).0
          ≡ (codec, conn, some address) ∷ handled_of (accept_v1 p s handle rest).0 =
        ap (λ x. handled_of x.0) (lives_v1 conn address rest h smooth.0) in
      let second : handled_of (accept_v2 p s handle (arrived conn (some address) ∷ rest))
          ≡ (codec, conn, some address) ∷ handled_of (accept_v2 p s handle rest) =
        rw (served_v2 conn (some address) returned h smooth.0) refl in
      first ∙ ap (λ r. (codec, conn, some address) ∷ r) (same_handled h rest smooth.1) ∙ sym second

  -- With a key that makes a codec, v1's process outlives what Accept meets exactly if there are, up
  -- to the end of the context, only TCP connections whose handler returns; then v2 hands the same
  -- connections to the handler, in the same order. Whatever Accept meets, v2 hands every connection
  -- that comes before its listener is closed to the handler, once and in order, and its process
  -- goes on.
  pub accept_v1-accept_v2 :
      new_codec_v2 p s.crypto_key ≡ ok codec → (arrivals : List Arrival) → Survival arrivals
  accept_v1-accept_v2 h arrivals = record {
    alive = alive_v1 h arrivals;
    agrees = same_handled h arrivals;
    served = served_all h arrivals;
    stays_up = up_v2 h arrivals;
  }
