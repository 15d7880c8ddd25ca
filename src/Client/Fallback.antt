-- ===== src/Client/Fallback.antt =====
-- The transport of the connections, and the fallback to the legacy one.
use rpc.Base.{◌≡◌, refl, ◌∙◌, true, none, some, List, arith}
use rpc.Errors.{GoError}
use rpc.Client.Defs.{
  effective_transport, Connection, Client, Attempt, Environment, Event, Step, get_client, call,
}
use rpc.Client.Paths.{
  Gets, reused, no_dial, no_codec, fresh, get_client-Gets, Opens, Refuses, dropped, marked, Retries,
  unreached, answered, broken, Calls, expired, refused, gave_up, fell_back, call-Calls,
}
use rpc.Client.Connections.{Source, kept, made, Opens-Source}

-- An open connection has the transport that the client would choose now, and is the active one.
abbrev pub IsConsistent : Client → Type 0
IsConsistent c =
    (conn : Connection)
    → c.cl ≡ some conn
    → (conn.kind ≡ effective_transport c.transport c.json_fallback)
      × (c.active_transport ≡ conn.kind)

-- The configuration of the client is not changed, and the fallback flag never cleared.
pub record Keeps (c d : Client) : Type 0 where
  pub transport : d.transport ≡ c.transport
  pub sticky : c.json_fallback ≡ true → d.json_fallback ≡ true

-- After an attempt: consistency, and nothing else that the fallback reads.
pub record Attempts (c c' : Client) : Type 0 where
  pub consistent : IsConsistent c'
  pub transport : c'.transport ≡ c.transport
  pub fallback : c'.json_fallback ≡ c.json_fallback

pub Opens-Attempts :
    (c : Client) (a : Attempt) (conn : Connection) (c' : Client) (es : List Event)
    → IsConsistent c
    → Opens c a conn c' es
    → Attempts c c'
Opens-Attempts c a conn c' es h o = from (Opens-Source c a conn c' es o)
  where
    from : Source c conn c' es → Attempts c c'
    from (kept e p q) = rw p (record { consistent = h; transport = refl; fallback = refl })
    from (made e p q r) =
        rw q (record { consistent = λ k x. ground (arith, x); transport = refl; fallback = refl })

pub Refuses-Attempts :
    (c : Client) (a : Attempt) (e : GoError) (c' : Client) (es : List Event)
    → Refuses c a e c' es
    → Attempts c c'
Refuses-Attempts c a e c' es r = from (get_client-Gets c a)
  where
    none_held : IsConsistent c'
    none_held k x = absurd (ground (arith, x, r.held))

    from : Gets c a (get_client c a) → Attempts c c'
    from (reused k p g) = absurd (ground (arith, g, r.got))
    from (no_dial x p d g) = record {
      consistent = none_held;
      transport = ground (arith, g, r.got);
      fallback = ground (arith, g, r.got);
    }
    from (no_codec x p k g) = record {
      consistent = none_held;
      transport = ground (arith, g, r.got);
      fallback = ground (arith, g, r.got);
    }
    from (fresh p g) = absurd (ground (arith, g, r.got))

-- A client without a connection is consistent.
pub unconnected : (c : Client) → c.cl ≡ none → IsConsistent c
unconnected c e k x = absurd (ground (arith, x, e))

-- What a call leaves: a consistent client of the same configuration, whose fallback flag stays
-- set.
pub record Left (c d : Client) : Type 0 where
  pub consistent : IsConsistent d
  pub keeps : Keeps c d

Attempts-Left : (c d : Client) → Attempts c d → Left c d
Attempts-Left c d a = record {
  consistent = a.consistent;
  keeps = record { transport = a.transport; sticky = λ p. a.fallback ∙ p };
}

pub Retries-Left :
    (c : Client) (a : Attempt) (t : Step) → IsConsistent c → Retries c a t → Left c t.1
Retries-Left c a t h (unreached e c' es r g) =
    rw g (Attempts-Left c c' (Refuses-Attempts c a e c' es r))
Retries-Left c a t h (answered conn c' es o g) =
    rw g (Attempts-Left c c' (Opens-Attempts c a conn c' es h o))
Retries-Left c a t h (broken conn c' es e o p g) =
    let k = Opens-Attempts c a conn c' es h o in
    rw g (record {
      consistent = unconnected (dropped c') refl;
      keeps = record { transport = k.transport; sticky = λ q. k.fallback ∙ q };
    })

module _ (c : Client) (env : Environment) (h : IsConsistent c) where
  Calls-Left : (s : Step) → Calls c env s → Left c s.1
  Calls-Left s (expired e p g) =
      rw g (record { consistent = h; keeps = record { transport = refl; sticky = λ q. q } })
  Calls-Left s (unreached e c' es r g) =
      rw g (Attempts-Left c c' (Refuses-Attempts c env.first e c' es r))
  Calls-Left s (answered conn c' es o p g) =
      rw g (Attempts-Left c c' (Opens-Attempts c env.first conn c' es h o))
  Calls-Left s (refused conn c' es e o p k g) =
      let x = Opens-Attempts c env.first conn c' es h o in
      rw g (record {
        consistent = unconnected (dropped c') refl;
        keeps = record { transport = x.transport; sticky = λ q. x.fallback ∙ q };
      })
  Calls-Left s (gave_up conn c' es e o p k f g) =
      let x = Opens-Attempts c env.first conn c' es h o in
      rw g (record {
        consistent = unconnected (marked c') refl;
        keeps = record { transport = x.transport; sticky = λ q. refl };
      })
  Calls-Left s (fell_back conn c' es e o p k f t r g) =
      let x = Opens-Attempts c env.first conn c' es h o in
      let y = Retries-Left (marked c') env.retry t (unconnected (marked c') refl) r in
      rw g (record {
        consistent = y.consistent;
        keeps = record {
          transport = y.keeps.transport ∙ x.transport;
          sticky = λ q. y.keeps.sticky refl;
        };
      })

-- A call keeps the client consistent and its configured transport as it is, and never clears the
-- fallback flag.
pub call-Left : (c : Client) (env : Environment) → IsConsistent c → Left c (call c env).1
call-Left c env h = Calls-Left c env h (call c env) (call-Calls c env)
