-- ===== src/Requests.antt =====
-- The types that callers of v1 and v2 send (request.go, response.go and errors.go, in the root and
-- in v2). A value of type `any` is an Option, `none` for nil; strings.ToUpper is a parameter.
pub mod Laws
use rpc.Base.{ℕ, Text, Option, none, some, List, [], ◌∷◌}
use rpc.Base.Int.{ℤ}
use rpc.Base.Map.{Map, lookup, insert}
use rpc.Errors.{GoError}

-- Meta
pub record Meta (V : Type 0) : Type 0 where
  pub records : Map (Option V)

-- NewMeta
abbrev pub new_meta : {V : Type 0} → Meta V
new_meta = record { records = [] }

module _ {V : Type 0} (to_upper : Text → Text) where
  -- Set
  unfoldable pub set : Text → Option V → Meta V → Meta V
  set key value m = record { records = insert (to_upper key) value m.records }

  -- Get, whose value for a key that is not there is nil
  unfoldable pub get : Text → Meta V → Option V
  get key m = elim (lookup (to_upper key) m.records) [ none ↦ none | some v ↦ v ]

  -- One Set after the other.
  unfoldable pub set_all : List (Text × Option V) → Meta V → Meta V
  unfolding set
  set_all [] m = m
  set_all ((key, value) ∷ sets) m = set_all sets (set key value m)

-- Request and Response
pub record Request (V T : Type 0) : Type 0 where
  pub metadata : Meta V
  pub data_of : T

pub record Response (T : Type 0) : Type 0 where
  pub error : Option GoError
  pub status : ℤ
  pub data_of : T

-- CallError, with NewCallError and Error
pub record CallError : Type 0 where
  pub message : Text
