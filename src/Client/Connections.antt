-- ===== src/Client/Connections.antt =====
-- The connections that getClient, invalidate and Close of v3/client.go open and close.
use rpc.Base.{◌≡◌, Option, none, some, List, [], ◌∷◌, ◌++◌, inl, inr, arith, Option-cases}
use rpc.Errors.{GoError}
use rpc.Client.Defs.{
  Connection, Client, Attempt, Environment, Event, opened, closed, sent, Step, get_client, call,
  close,
}
use rpc.Client.Paths.{
  next_connection, dialled, Gets, reused, no_dial, no_codec, fresh, get_client-Gets, Opens, Refuses,
  marked, Retries, unreached, answered, broken, Calls, expired, refused, gave_up, fell_back,
  call-Calls,
}

-- From one open connection (or none) to another, by effects in their order.
pub data Run : Option Connection → List Event → Option Connection → Type 0 where
  stop : (o : Option Connection) → Run o [] o
  dial :
      {es : List Event} {o : Option Connection} (conn : Connection)
      → Run (some conn) es o
      → Run none (opened conn ∷ es) o
  send :
      {es : List Event} {o : Option Connection} (conn : Connection)
      → Run (some conn) es o
      → Run (some conn) (sent conn ∷ es) o
  hang_up :
      {es : List Event} {o : Option Connection} (conn : Connection)
      → Run none es o
      → Run (some conn) (closed conn ∷ es) o

pub Run-append :
    {o p q : Option Connection} {es fs : List Event} → Run o es p → Run p fs q → Run o (es ++ fs) q
Run-append (stop o) s = s
Run-append (dial conn r) s = dial conn (Run-append r s)
Run-append (send conn r) s = send conn (Run-append r s)
Run-append (hang_up conn r) s = hang_up conn (Run-append r s)

-- What an attempt that got a connection did: it kept the open one, or dialled.
pub data Source (c : Client) (conn : Connection) (c' : Client) (es : List Event) : Type 0 where
  kept : c.cl ≡ some conn → c' ≡ c → es ≡ [] → Source c conn c' es
  made :
      c.cl ≡ none
      → conn ≡ next_connection c
      → c' ≡ dialled c
      → es ≡ opened conn ∷ []
      → Source c conn c' es

pub Opens-Source :
    (c : Client) (a : Attempt) (conn : Connection) (c' : Client) (es : List Event)
    → Opens c a conn c' es
    → Source c conn c' es
Opens-Source c a conn c' es o = from (get_client-Gets c a)
  where
    from : Gets c a (get_client c a) → Source c conn c' es
    from (reused k e g) =
        kept (ground (arith, e, g, o.got)) (ground (arith, g, o.got)) (ground (arith, g, o.got))
    from (no_dial x e d g) = absurd (ground (arith, g, o.got))
    from (no_codec x e k g) = absurd (ground (arith, g, o.got))
    from (fresh e g) =
        made e (ground (arith, g, o.got)) (ground (arith, g, o.got)) (ground (arith, g, o.got))

Source-Run :
    (c : Client) (conn : Connection) (c' : Client) (es : List Event)
    → Source c conn c' es
    → Run c.cl es (some conn)
Source-Run c conn c' es (kept e p q) = rw (e, q) (stop (some conn))
Source-Run c conn c' es (made e p q r) = rw (e, r) (dial conn (stop (some conn)))

Opens-Run :
    (c : Client) (a : Attempt) (conn : Connection) (c' : Client) (es : List Event)
    → Opens c a conn c' es
    → Run c.cl es (some conn)
Opens-Run c a conn c' es o = Source-Run c conn c' es (Opens-Source c a conn c' es o)

Refuses-Run :
    (c : Client) (a : Attempt) (e : GoError) (c' : Client) (es : List Event)
    → Refuses c a e c' es
    → Run c.cl es none
Refuses-Run c a e c' es r = from (get_client-Gets c a)
  where
    from : Gets c a (get_client c a) → Run c.cl es none
    from (reused k p g) = absurd (ground (arith, g, r.got))
    from (no_dial x p d g) = let q : es ≡ [] = ground (arith, g, r.got) in rw (p, q) (stop none)
    from (no_codec x p k g) =
        let q : es ≡ opened (next_connection c) ∷ closed (next_connection c) ∷ [] =
          ground (arith, g, r.got) in
        rw (p, q) (dial (next_connection c) (hang_up (next_connection c) (stop none)))
    from (fresh p g) = absurd (ground (arith, g, r.got))

Retries-Run : (c : Client) (a : Attempt) (t : Step) → Retries c a t → Run c.cl t.2 t.1.cl
Retries-Run c a t (unreached e c' es r g) = rw (g, r.held) (Refuses-Run c a e c' es r)
Retries-Run c a t (answered conn c' es o g) =
    rw (g, o.held) (Run-append (Opens-Run c a conn c' es o) (send conn (stop (some conn))))
Retries-Run c a t (broken conn c' es e o p g) =
    rw g (Run-append (Opens-Run c a conn c' es o) (send conn (hang_up conn (stop none))))

Calls-Run : (c : Client) (env : Environment) (s : Step) → Calls c env s → Run c.cl s.2 s.1.cl
Calls-Run c env s (expired e p g) = rw g (stop c.cl)
Calls-Run c env s (unreached e c' es r g) = rw (g, r.held) (Refuses-Run c env.first e c' es r)
Calls-Run c env s (answered conn c' es o p g) =
    rw (g, o.held) (Run-append (Opens-Run c env.first conn c' es o) (send conn (stop (some conn))))
Calls-Run c env s (refused conn c' es e o p k g) =
    rw g (Run-append (Opens-Run c env.first conn c' es o) (send conn (hang_up conn (stop none))))
Calls-Run c env s (gave_up conn c' es e o p k f g) =
    rw g (Run-append (Opens-Run c env.first conn c' es o) (send conn (hang_up conn (stop none))))
Calls-Run c env s (fell_back conn c' es e o p k f t r g) = rw g (
    Run-append (Opens-Run c env.first conn c' es o)
      (send conn (hang_up conn (Retries-Run (marked c') env.retry t r))))

-- Along a call the client has at most one open connection: it dials only when it has none, sends
-- only on the open one, closes the open one, and what the call leaves open is the client's.
pub call-Run : (c : Client) (env : Environment) → Run c.cl (call c env).2 (call c env).1.cl
call-Run c env = Calls-Run c env (call c env) (call-Calls c env)

close-Run :
    (c : Client) (e : Option GoError) → Run c.cl (close c e).2 none × ((close c e).1.cl ≡ none)
unfolding close
close-Run c e = elim (Option-cases c.cl) [
  | inl p ↦ (
    (let es : (close c e).2 ≡ [] = ground (arith, p) in rw (es, p) (stop none)),
    ground (arith, p),
  )
  | inr (conn, p) ↦ (
    (let es : (close c e).2 ≡ closed conn ∷ [] = ground (arith, p) in
        rw (es, p) (hang_up conn (stop none))),
    ground (arith, p),
  )
]

-- Any sequence of calls: the effects in their order, and the client that is left.
unfoldable pub run : Client → List Environment → Client × List Event
run c [] = (c, [])
run c (env ∷ envs) = let (r, c', es) = call c env in let (c'', fs) = run c' envs in (c'', es ++ fs)

-- The same over any sequence of calls followed by Close: every connection that was opened has
-- been closed.
run-Run : (c : Client) (envs : List Environment) → Run c.cl (run c envs).1 (run c envs).0.cl
unfolding run
run-Run c [] = stop c.cl
run-Run c (env ∷ envs) = Run-append (call-Run c env) (run-Run (call c env).1 envs)

pub run-close-Run :
    (c : Client) (envs : List Environment) (e : Option GoError)
    → Run c.cl ((run c envs).1 ++ (close (run c envs).0 e).2) none
run-close-Run c envs e = Run-append (run-Run c envs) (close-Run (run c envs).0 e).0
