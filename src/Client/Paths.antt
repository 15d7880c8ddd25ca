-- ===== src/Client/Paths.antt =====
-- The ways through getClient and Call, each with the state and the effects that it leaves. The
-- properties of the client are read off these ways.
use rpc.Base.{
  suc, ◌≡◌, refl, Bool, true, false, not, ◌&&◌, none, some, List, [], ◌∷◌, ◌++◌, arith,
  Option-cases, Bool-cases, inl, inr,
}
use rpc.Errors.{GoError}
use rpc.Client.Defs.{
  is_json, is_auto, Connection, Client, effective_transport, is_conn_error, Attempt, Environment,
  Event, opened, closed, sent, Step, Obtained, connected, failed, get_client, invalidate,
  retry_call, after_error, call,
}

-- The connection that a client without one would dial.
abbrev pub next_connection : Client → Connection
next_connection c = record { id = c.dialed; kind = effective_transport c.transport c.json_fallback }

-- The client after dialling it.
abbrev pub dialled : Client → Client
dialled c = record c {
  cl = some (next_connection c);
  active_transport = effective_transport c.transport c.json_fallback;
  dialed = suc c.dialed;
}

pub data Gets (c : Client) (a : Attempt) (g : Obtained × Client × List Event) : Type 0 where
  reused : (conn : Connection) → c.cl ≡ some conn → g ≡ (connected conn, c, []) → Gets c a g
  no_dial : (e : GoError) → c.cl ≡ none → a.dial ≡ some e → g ≡ (failed e, c, []) → Gets c a g
  no_codec :
      (e : GoError)
      → c.cl ≡ none
      → a.codec ≡ some e
      → g ≡ (
        failed e,
        record c { dialed = suc c.dialed },
        opened (next_connection c) ∷ closed (next_connection c) ∷ [],
      )
      → Gets c a g
  fresh :
      c.cl ≡ none
      → g ≡ (connected (next_connection c), dialled c, opened (next_connection c) ∷ [])
      → Gets c a g

pub get_client-Gets : (c : Client) (a : Attempt) → Gets c a (get_client c a)
unfolding get_client
get_client-Gets c a = elim (Option-cases c.cl) [
  | inr (conn, e) ↦ reused conn e (ground (arith, e))
  | inl e ↦ elim (Option-cases a.dial) [
    | inr (x, d) ↦ no_dial x e d (ground (arith, e, d))
    | inl d ↦ elim (Option-cases a.codec) [
      | inr (x, k) ↦ no_codec x e k (ground (arith, e, d, k))
      | inl k ↦ fresh e (ground (arith, e, d, k))
    ]
  ]
]

-- getClient never leaves the client with another connection than the one that it returns.
pub record Opens (c : Client) (a : Attempt) (conn : Connection) (c' : Client) (es : List Event)
    : Type 0 where
  pub got : get_client c a ≡ (connected conn, c', es)
  pub held : c'.cl ≡ some conn

pub record Refuses (c : Client) (a : Attempt) (e : GoError) (c' : Client) (es : List Event)
    : Type 0 where
  pub got : get_client c a ≡ (failed e, c', es)
  pub held : c'.cl ≡ none

pub data Attempted (c : Client) (a : Attempt) : Type 0 where
  opens : (conn : Connection) (c' : Client) (es : List Event) → Opens c a conn c' es → Attempted c a
  refuses : (e : GoError) (c' : Client) (es : List Event) → Refuses c a e c' es → Attempted c a

pub attempted : (c : Client) (a : Attempt) → Attempted c a
attempted c a = from (get_client-Gets c a)
  where
    from : Gets c a (get_client c a) → Attempted c a
    from (reused conn e g) = opens conn c [] (record { got = g; held = e })
    from (no_dial x e d g) = refuses x c [] (record { got = g; held = e })
    from (no_codec x e k g) = refuses x _ _ (record { got = g; held = e })
    from (fresh e g) = opens (next_connection c) (dialled c) _ (record { got = g; held = refl })

pub invalidate_held :
    (c : Client) (conn : Connection)
    → c.cl ≡ some conn
    → invalidate c ≡ (record c { cl = none }, closed conn ∷ [])
unfolding invalidate
invalidate_held c conn e = ground (arith, e)

-- The client without its connection, and marked for the legacy transport.
abbrev pub dropped : Client → Client
dropped c = record c { cl = none }

abbrev pub marked : Client → Client
marked c = record c { cl = none; json_fallback = true }

-- The condition of the fallback.
abbrev pub falls_back : Client → Bool
falls_back c = is_auto c.transport && is_json c.active_transport && not c.json_fallback

pub data Retries (c : Client) (a : Attempt) (s : Step) : Type 0 where
  unreached :
      (e : GoError) (c' : Client) (es : List Event)
      → Refuses c a e c' es
      → s ≡ (some e, c', es)
      → Retries c a s
  answered :
      (conn : Connection) (c' : Client) (es : List Event)
      → Opens c a conn c' es
      → s ≡ (a.done, c', es ++ sent conn ∷ [])
      → Retries c a s
  broken :
      (conn : Connection) (c' : Client) (es : List Event) (e : GoError)
      → Opens c a conn c' es
      → a.reply ≡ some e
      → s ≡ (some e, dropped c', es ++ sent conn ∷ closed conn ∷ [])
      → Retries c a s

pub retry_call-Retries : (c : Client) (a : Attempt) → Retries c a (retry_call c a)
unfolding retry_call
retry_call-Retries c a = from (attempted c a)
  where
    from : Attempted c a → Retries c a (retry_call c a)
    from (refuses e c' es r) = unreached e c' es r (ground (arith, r.got))
    from (opens conn c' es o) = elim (Option-cases a.reply) [
      | inl p ↦ answered conn c' es o (ground (arith, o.got, p))
      | inr (e, p) ↦
          broken conn c' es e o p (ground (arith, o.got, p, invalidate_held c' conn o.held))
    ]

-- The ways through Call.
pub data Calls (c : Client) (env : Environment) (s : Step) : Type 0 where
  expired : (e : GoError) → env.started ≡ some e → s ≡ (some e, c, []) → Calls c env s
  unreached :
      (e : GoError) (c' : Client) (es : List Event)
      → Refuses c env.first e c' es
      → s ≡ (some e, c', es)
      → Calls c env s
  answered :
      (conn : Connection) (c' : Client) (es : List Event)
      → Opens c env.first conn c' es
      → env.first.reply ≡ none
      → s ≡ (env.first.done, c', es ++ sent conn ∷ [])
      → Calls c env s
  refused :
      (conn : Connection) (c' : Client) (es : List Event) (e : GoError)
      → Opens c env.first conn c' es
      → env.first.reply ≡ some e
      → is_conn_error e ≡ false
      → s ≡ (some e, dropped c', es ++ sent conn ∷ closed conn ∷ [])
      → Calls c env s
  gave_up :
      (conn : Connection) (c' : Client) (es : List Event) (e : GoError)
      → Opens c env.first conn c' es
      → env.first.reply ≡ some e
      → is_conn_error e ≡ true
      → falls_back c' ≡ false
      → s ≡ (some e, marked c', es ++ sent conn ∷ closed conn ∷ [])
      → Calls c env s
  fell_back :
      (conn : Connection) (c' : Client) (es : List Event) (e : GoError)
      → Opens c env.first conn c' es
      → env.first.reply ≡ some e
      → is_conn_error e ≡ true
      → falls_back c' ≡ true
      → (t : Step) → Retries (marked c') env.retry t
      → s ≡ (t.0, t.1, es ++ sent conn ∷ closed conn ∷ t.2)
      → Calls c env s

pub call-Calls : (c : Client) (env : Environment) → Calls c env (call c env)
unfolding call after_error
call-Calls c env = elim (Option-cases env.started) [
  | inr (e, p) ↦ expired e p (ground (arith, p))
  | inl p ↦ from p (attempted c env.first)
]
  where
    broken :
        env.started ≡ none
        → (conn : Connection) (c' : Client) (es : List Event) (e : GoError)
        → Opens c env.first conn c' es
        → env.first.reply ≡ some e
        → Calls c env (call c env)
    broken p conn c' es e o q = elim (Bool-cases (is_conn_error e)) [
      | inr k ↦
          refused conn c' es e o q k
            (ground (arith, p, o.got, q, k, invalidate_held c' conn o.held))
      | inl k ↦ elim (Bool-cases (falls_back c')) [
        | inr f ↦
            gave_up conn c' es e o q k f
              (ground (arith, p, o.got, q, k, f, invalidate_held c' conn o.held))
        | inl f ↦
            fell_back conn c' es e o q k f (retry_call (marked c') env.retry)
              (retry_call-Retries (marked c') env.retry)
              (ground (arith, p, o.got, q, k, f, invalidate_held c' conn o.held))
      ]
    ]

    from : env.started ≡ none → Attempted c env.first → Calls c env (call c env)
    from p (refuses e c' es r) = unreached e c' es r (ground (arith, p, r.got))
    from p (opens conn c' es o) = elim (Option-cases env.first.reply) [
      | inl q ↦ answered conn c' es o q (ground (arith, p, o.got, q))
      | inr (e, q) ↦ broken p conn c' es e o q
    ]
