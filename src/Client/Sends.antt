-- ===== src/Client/Sends.antt =====
-- How often, and over which transport, the calls of a client send their request.
use rpc.Base.{
  ℕ, ◌+◌, ◌≤◌, ◌≡◌, refl, sym, ◌∙◌, ap, Bool, true, false, List, [], ◌∷◌, ◌++◌, ◌⊎◌, inl, inr,
  arith, All, All-append, length, length-append,
}
use mathlib.Core.Path.{ap₂}
use rpc.Errors.{GoError}
use rpc.Client.Defs.{
  TransportKind, transport_auto, transport_json, transport_legacy, is_json, is_auto,
  effective_transport, Connection, Client, Attempt, Environment, Event, opened, closed, sent, Step,
  get_client, call,
}
use rpc.Client.Paths.{
  Gets, reused, no_dial, no_codec, fresh, get_client-Gets, Opens, Refuses, marked, falls_back,
  Retries, unreached, answered, broken, Calls, expired, refused, gave_up, fell_back, call-Calls,
}
use rpc.Client.Connections.{Source, kept, made, Opens-Source, run}
use rpc.Client.Fallback.{IsConsistent, unconnected, Opens-Attempts, Left, Retries-Left, call-Left}

-- The transports of the requests sent, in their order.
unfoldable pub sent_kinds : List Event → List TransportKind
sent_kinds [] = []
sent_kinds (opened conn ∷ es) = sent_kinds es
sent_kinds (closed conn ∷ es) = sent_kinds es
sent_kinds (sent conn ∷ es) = conn.kind ∷ sent_kinds es

pub sent_kinds-append :
    (es fs : List Event) → sent_kinds (es ++ fs) ≡ sent_kinds es ++ sent_kinds fs
unfolding sent_kinds
sent_kinds-append [] fs = refl
sent_kinds-append (opened conn ∷ es) fs = sent_kinds-append es fs
sent_kinds-append (closed conn ∷ es) fs = sent_kinds-append es fs
sent_kinds-append (sent conn ∷ es) fs = ap (λ r. conn.kind ∷ r) (sent_kinds-append es fs)

abbrev pub choice : Client → TransportKind
choice c = effective_transport c.transport c.json_fallback

record Chosen (c : Client) (conn : Connection) (c' : Client) (es : List Event) : Type 0 where
  kind : conn.kind ≡ choice c
  active : c'.active_transport ≡ conn.kind
  quiet : sent_kinds es ≡ []

Opens-Chosen :
    (c : Client) (a : Attempt) (conn : Connection) (c' : Client) (es : List Event)
    → IsConsistent c
    → Opens c a conn c' es
    → Chosen c conn c' es
Opens-Chosen c a conn c' es h o = from (Opens-Source c a conn c' es o)
  where
    from : Source c conn c' es → Chosen c conn c' es
    from (kept e p q) = record {
      kind = (h conn e).0;
      active = rw p (h conn e).1;
      quiet = rw q (unfold sent_kinds in refl);
    }
    from (made e p q r) = record {
      kind = rw p;
      active = rw (q, p);
      quiet = rw r (unfold sent_kinds in refl);
    }

Refuses-sent_kinds :
    (c : Client) (a : Attempt) (e : GoError) (c' : Client) (es : List Event)
    → Refuses c a e c' es
    → sent_kinds es ≡ []
unfolding sent_kinds
Refuses-sent_kinds c a e c' es r = from (get_client-Gets c a)
  where
    from : Gets c a (get_client c a) → sent_kinds es ≡ []
    from (reused k p g) = absurd (ground (arith, g, r.got))
    from (no_dial x p d g) = ground (arith, g, r.got)
    from (no_codec x p k g) = ground (arith, g, r.got)
    from (fresh p g) = absurd (ground (arith, g, r.got))

-- The requests of one call.
pub data Sends (c d : Client) (ks : List TransportKind) : Type 0 where
  silent : ks ≡ [] → Sends c d ks
  single : ks ≡ choice c ∷ [] → Sends c d ks
  fallback :
      c.transport ≡ transport_auto
      → c.json_fallback ≡ false
      → d.json_fallback ≡ true
      → (ks ≡ transport_json ∷ []) ⊎ (ks ≡ transport_json ∷ transport_legacy ∷ [])
      → Sends c d ks

-- One request on `conn` after the effects `es`.
sent_once :
    (conn : Connection) (es fs : List Event)
    → sent_kinds es ≡ []
    → sent_kinds (es ++ sent conn ∷ fs) ≡ conn.kind ∷ sent_kinds fs
unfolding sent_kinds
sent_once conn es fs q = rw (sent_kinds-append, q)

auto_facts :
    (c : Client)
    → falls_back c ≡ true
    → (c.transport ≡ transport_auto)
      × (c.active_transport ≡ transport_json)
      × (c.json_fallback ≡ false)
unfolding is_auto is_json
auto_facts c h = ground arith

Retries-sent_kinds :
    (c : Client) (a : Attempt) (t : Step)
    → IsConsistent c
    → Retries c a t
    → (sent_kinds t.2 ≡ []) ⊎ (sent_kinds t.2 ≡ choice c ∷ [])
unfolding sent_kinds
Retries-sent_kinds c a t h (unreached e c' es r g) = inl (rw g (Refuses-sent_kinds c a e c' es r))
Retries-sent_kinds c a t h (answered conn c' es o g) =
    let k = Opens-Chosen c a conn c' es h o in
    inr (rw g (sent_once conn es [] k.quiet ∙ ap (λ x. x ∷ []) k.kind))
Retries-sent_kinds c a t h (broken conn c' es e o p g) =
    let k = Opens-Chosen c a conn c' es h o in
    inr (rw g (sent_once conn es (closed conn ∷ []) k.quiet ∙ ap (λ x. x ∷ []) k.kind))

module _ (c : Client) (env : Environment) (h : IsConsistent c) where
  fallback-Sends :
      (conn : Connection) (c' : Client) (es : List Event) (e : GoError) (t : Step)
      → Opens c env.first conn c' es
      → falls_back c' ≡ true
      → Retries (marked c') env.retry t
      → Sends c t.1 (sent_kinds (es ++ sent conn ∷ closed conn ∷ t.2))
  unfolding sent_kinds
  fallback-Sends conn c' es e t o f r =
      let k = Opens-Chosen c env.first conn c' es h o in
      let x = Opens-Attempts c env.first conn c' es h o in
      let a = auto_facts c' f in
      let legacy : choice (marked c') ≡ transport_legacy =
        ap (λ m. effective_transport m true) a.0 ∙ unfold effective_transport in refl in
      let json : conn.kind ≡ transport_json = sym k.active ∙ a.1 in
      let first = sent_once conn es (closed conn ∷ t.2) k.quiet in
      let again = Retries-sent_kinds (marked c') env.retry t (unconnected (marked c') refl) r in
      let y = Retries-Left (marked c') env.retry t (unconnected (marked c') refl) r in
      fallback (sym x.transport ∙ a.0) (sym x.fallback ∙ a.2) (y.keeps.sticky refl) (elim again [
        | inl n ↦ inl (first ∙ cc (json, n))
        | inr n ↦ inr (first ∙ cc (json, n, legacy))
      ])

  Calls-Sends : (s : Step) → Calls c env s → Sends c s.1 (sent_kinds s.2)
  unfolding sent_kinds
  Calls-Sends s (expired e p g) = silent (rw g)
  Calls-Sends s (unreached e c' es r g) = silent (rw g (Refuses-sent_kinds c env.first e c' es r))
  Calls-Sends s (answered conn c' es o p g) =
      let k = Opens-Chosen c env.first conn c' es h o in
      single (rw g (sent_once conn es [] k.quiet ∙ ap (λ x. x ∷ []) k.kind))
  Calls-Sends s (refused conn c' es e o p q g) =
      let k = Opens-Chosen c env.first conn c' es h o in
      single (rw g (sent_once conn es (closed conn ∷ []) k.quiet ∙ ap (λ x. x ∷ []) k.kind))
  Calls-Sends s (gave_up conn c' es e o p q f g) =
      let k = Opens-Chosen c env.first conn c' es h o in
      single (rw g (sent_once conn es (closed conn ∷ []) k.quiet ∙ ap (λ x. x ∷ []) k.kind))
  Calls-Sends s (fell_back conn c' es e o p q f t r g) = rw g (fallback-Sends conn c' es e t o f r)

-- A call sends its request once, over the transport that the client would choose at its start, or
-- not at all; only an auto client that has not fallen back before sends it over JSON and then at
-- most once more over the legacy transport, and it has fallen back afterwards.
pub call-Sends :
    (c : Client) (env : Environment)
    → IsConsistent c
    → Sends c (call c env).1 (sent_kinds (call c env).2)
call-Sends c env h = Calls-Sends c env h (call c env) (call-Calls c env)

abbrev pub count_of : Bool → ℕ
count_of true = 1
count_of false = 0

Sends-length :
    (c d : Client) (ks : List TransportKind)
    → Left c d
    → Sends c d ks
    → length ks + count_of c.json_fallback ≤ 1 + count_of d.json_fallback
Sends-length c d ks l (silent p) = rw p (ground (arith, l.keeps.sticky))
Sends-length c d ks l (single p) = rw p (ground (arith, l.keeps.sticky))
Sends-length c d ks l (fallback t f m (inl p)) = rw p (ground (arith, f, m))
Sends-length c d ks l (fallback t f m (inr p)) = rw p (ground (arith, f, m))

-- Over any sequence of calls the requests sent are at most one for each call and one more: the
-- fallback happens once in the life of a client.
pub length-run :
    (c : Client) (envs : List Environment)
    → IsConsistent c
    → length (sent_kinds (run c envs).1) + count_of c.json_fallback
      ≤ length envs + count_of (run c envs).0.json_fallback
unfolding run sent_kinds
length-run c [] h = omega arith
length-run c (env ∷ envs) h =
    let d = (call c env).1 in
    let l = call-Left c env h in
    let one = Sends-length c d (sent_kinds (call c env).2) l (call-Sends c env h) in
    let rest = length-run d envs l.consistent in
    rw (sent_kinds-append (call c env).2 (run d envs).1) (
      omega
        (arith, one, rest, length-append (sent_kinds (call c env).2) (sent_kinds (run d envs).1)))

Sends-transport_legacy :
    (c d : Client) (ks : List TransportKind)
    → c.transport ≡ transport_auto
    → c.json_fallback ≡ true
    → Sends c d ks
    → All (λ k. k ≡ transport_legacy) ks
unfolding effective_transport
Sends-transport_legacy c d ks a f (silent p) = rw p tt
Sends-transport_legacy c d ks a f (single p) = rw p (cc (ap₂ effective_transport a f), tt)
Sends-transport_legacy c d ks a f (fallback t m x p) = absurd (cc (f, m))

-- Once an auto client has fallen back, no call ever sends over JSON again.
pub run_sticky :
    (c : Client) (envs : List Environment)
    → IsConsistent c
    → c.transport ≡ transport_auto
    → c.json_fallback ≡ true
    → All (λ k. k ≡ transport_legacy) (sent_kinds (run c envs).1)
unfolding run sent_kinds
run_sticky c [] h a f = tt
run_sticky c (env ∷ envs) h a f =
    let d = (call c env).1 in
    let l = call-Left c env h in
    rw (sent_kinds-append (call c env).2 (run d envs).1) (
      All-append (λ k. k ≡ transport_legacy) (sent_kinds (call c env).2) (sent_kinds (run d envs).1)
        (Sends-transport_legacy c d _ a f (call-Sends c env h))
        (run_sticky d envs l.consistent (l.keeps.transport ∙ a) (l.keeps.sticky f)))
