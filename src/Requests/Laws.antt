-- ===== src/Requests/Laws.antt =====
-- Meta as a map whose keys differ by more than their case.
use rpc.Base.{
  Text, ◌≡◌, refl, ap, ◌∙◌, Option, List, [], ◌∷◌, if◌then◌else◌, text_eq, arith, Bool-cases, inl,
  inr,
}
use rpc.Base.Map.{lookup-insert}
use rpc.Requests.{Meta, set, get, set_all}

module _ {V : Type 0} (to_upper : Text → Text) where
  -- The value of the last Set of a key that is `key` but for the case, or what was there before.
  abbrev pub last_of : Text → List (Text × Option V) → Option V → Option V
  last_of key [] before = before
  last_of key ((k, value) ∷ sets) before =
      last_of key sets (if text_eq (to_upper k) (to_upper key) then value else before)

  get-set :
      (key k : Text) (value : Option V) (m : Meta V)
      → get to_upper key (set to_upper k value m)
        ≡ (if text_eq (to_upper k) (to_upper key) then value else get to_upper key m)
  unfolding get set
  get-set key k value m =
      let l = lookup-insert (to_upper k) (to_upper key) value m.records in
      elim (Bool-cases (text_eq (to_upper k) (to_upper key))) [
        | inl t ↦ ground (arith, t, l)
        | inr t ↦ ground (arith, t, l)
      ]

  -- After any Sets, Get of a key is the value of the last Set of a key that is the same in upper
  -- case, and what Get was before if there is none.
  pub get-set_all :
      (key : Text) (sets : List (Text × Option V)) (m : Meta V)
      → get to_upper key (set_all to_upper sets m) ≡ last_of key sets (get to_upper key m)
  unfolding set_all
  get-set_all key [] m = refl
  get-set_all key ((k, value) ∷ sets) m =
      get-set_all key sets (set to_upper k value m) ∙ ap (last_of key sets) (get-set key k value m)
