-- ===== src/Proxy/CallErrors/Laws.antt =====
-- The codes of mapCallError in v3/proxy/errors.go, by the error's chain.
use rpc.Base.{
  Text, ◌≡◌, refl, ◌↔◌, ◌⊎◌, inl, inr, true, false, none, some, arith, ap, ◌||◌, Bool-cases,
  Option-cases,
}
use rpc.Errors.{
  GoError, Sentinel, sentinel, server_error, op_error, wrap, eof, unexpected_eof, closed_pipe,
  is_error, as_server_error, rank_injective, is_error_self,
}
use rpc.Proxy.Types.{CallError, backend_error, transport_error, backend_not_json}
use rpc.Proxy.CallErrors.{map_call_error}

-- `e` is `x`, or wraps an error that is.
pub data Wraps (x : GoError) : GoError → Type 0 where
  here : (e : GoError) → e ≡ x → Wraps x e
  in_op : (m : Text) (e : GoError) → Wraps x e → Wraps x (op_error m e)
  in_wrap : (m : Text) (e : GoError) → Wraps x e → Wraps x (wrap m e)

as_server_error-Wraps :
    (e : GoError) (m : Text) → as_server_error e ≡ some m → Wraps (server_error m) e
unfolding as_server_error
as_server_error-Wraps (server_error t) m h = here (server_error t) (ground arith)
as_server_error-Wraps (op_error t e) m h = in_op t e (as_server_error-Wraps e m h)
as_server_error-Wraps (wrap t e) m h = in_wrap t e (as_server_error-Wraps e m h)
as_server_error-Wraps _ m h = absurd (ground arith)

Wraps-as_server_error :
    (m : Text) (e : GoError) → Wraps (server_error m) e → as_server_error e ≡ some m
unfolding as_server_error
Wraps-as_server_error m e (here _ p) = ground (arith, p)
Wraps-as_server_error m e (in_op t d w) = Wraps-as_server_error m d w
Wraps-as_server_error m e (in_wrap t d w) = Wraps-as_server_error m d w

is_error-Wraps : (e : GoError) (s : Sentinel) → is_error e s ≡ true → Wraps (sentinel s) e
unfolding is_error
is_error-Wraps (sentinel r) s h = here (sentinel r) (ap sentinel (rank_injective r s h))
is_error-Wraps (op_error t e) s h = in_op t e (is_error-Wraps e s h)
is_error-Wraps (wrap t e) s h = in_wrap t e (is_error-Wraps e s h)
is_error-Wraps _ s h = absurd (ground arith)

Wraps-is_error : (s : Sentinel) (e : GoError) → Wraps (sentinel s) e → is_error e s ≡ true
unfolding is_error
Wraps-is_error s e (here _ p) = rw p (is_error_self s)
Wraps-is_error s e (in_op t d w) = Wraps-is_error s d w
Wraps-is_error s e (in_wrap t d w) = Wraps-is_error s d w

-- The error, or one that it wraps, says that the peer closed the connection.
abbrev pub WrapsClosed : GoError → Type 0
WrapsClosed e =
    Wraps (sentinel eof) e ⊎ Wraps (sentinel unexpected_eof) e ⊎ Wraps (sentinel closed_pipe) e

is_error-WrapsClosed :
    (e : GoError)
    → ((is_error e eof || is_error e unexpected_eof || is_error e closed_pipe) ≡ true)
      ↔ WrapsClosed e
is_error-WrapsClosed e = (to, from)
  where
    to :
        (is_error e eof || is_error e unexpected_eof || is_error e closed_pipe) ≡ true
        → WrapsClosed e
    to h = elim (Bool-cases (is_error e eof)) [
      | inl p ↦ inl (is_error-Wraps e eof p)
      | inr n ↦ elim (Bool-cases (is_error e unexpected_eof)) [
        | inl p ↦ inr (inl (is_error-Wraps e unexpected_eof p))
        | inr q ↦ inr (inr (is_error-Wraps e closed_pipe (ground arith)))
      ]
    ]

    from :
        WrapsClosed e
        → (is_error e eof || is_error e unexpected_eof || is_error e closed_pipe) ≡ true
    from (inl w) = ground (arith, Wraps-is_error eof e w)
    from (inr (inl w)) = ground (arith, Wraps-is_error unexpected_eof e w)
    from (inr (inr w)) = ground (arith, Wraps-is_error closed_pipe e w)

abbrev pub WrapsServer : GoError → Type 0
WrapsServer e = (m : Text) × Wraps (server_error m) e

not-WrapsServer : (e : GoError) → as_server_error e ≡ none → ¬ WrapsServer e
not-WrapsServer e h w = let p = Wraps-as_server_error w.0 e w.1 in cc (h, p)

-- How a call error classifies the error `e`.
pub record IsClassified (e : GoError) (target : Text) (c : CallError) : Type 0 where
  pub backend : (c.code ≡ backend_error) ↔ WrapsServer e
  pub not_json : (c.code ≡ backend_not_json) ↔ (¬ WrapsServer e × WrapsClosed e)
  pub other : ¬ WrapsServer e → ¬ WrapsClosed e → c.code ≡ transport_error
  pub target_kept : c.target ≡ target

open_chain :
    (e : GoError) (target : Text)
    → as_server_error e ≡ none
    → ¬ WrapsServer e
    → (is_error e eof || is_error e unexpected_eof || is_error e closed_pipe) ≡ false
    → IsClassified e target (map_call_error e target)
unfolding map_call_error
open_chain e target s n c = record {
  backend = (λ p. absurd (ground (arith, p)), λ w. absurd (n w));
  not_json = (
    λ p. absurd (ground (arith, p)),
    λ p. absurd (let q = (is_error-WrapsClosed e).1 p.1 in cc (c, q)),
  );
  other = λ _ _. ground arith;
  target_kept = ground arith;
}

-- The code is backend_error exactly when the chain holds a server error, backend_not_json exactly
-- when it holds none but an EOF, unexpected EOF or closed pipe, and transport_error for all other
-- errors; the target is kept.
pub map_call_error-IsClassified :
    (e : GoError) (target : Text) → IsClassified e target (map_call_error e target)
unfolding map_call_error
map_call_error-IsClassified e target = elim (Option-cases (as_server_error e)) [
  | inr (m, s) ↦
      let w : WrapsServer e = (m, as_server_error-Wraps e m s) in
      rw (s, map_call_error)
        (record {
          backend = (λ _. w, λ _. refl);
          not_json = (λ p. absurd (cc p), λ p. absurd (p.0 w));
          other = λ n. absurd (n w);
          target_kept = refl;
        })
  | inl s ↦
      let n : ¬ WrapsServer e = not-WrapsServer e s in
      elim (Bool-cases (is_error e eof || is_error e unexpected_eof || is_error e closed_pipe)) [
        | inl c ↦
            rw (s, c, map_call_error)
              (record {
                backend = (λ p. absurd (cc p), λ w. absurd (n w));
                not_json = (λ _. (n, (is_error-WrapsClosed e).0 c), λ _. refl);
                other = λ _ k. absurd (k ((is_error-WrapsClosed e).0 c));
                target_kept = refl;
              })
        | inr c ↦ open_chain e target s n c
      ]
]
