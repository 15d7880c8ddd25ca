-- ===== src/Tests/Messaging.antt =====
-- Meta of v2/request.go, with a toy strings.ToUpper for lower-case letters.
use rpc.Base.{
  ◌-◌, ◌≡◌, refl, Text, Option, none, some, List, [], ◌∷◌, map, ltb, if◌then◌else◌, codes, text_eq,
}
use rpc.Base.Map.{lookup, insert}
use rpc.Requests.{new_meta, get, set_all}
use rpc.Requests.Laws.{last_of, get-set_all}

abbrev upper : Text → Text
upper t = map (λ c. if ltb b'`' c then c - 32 else c) t

abbrev sets : List (Text × Option Text)
sets =
    (codes "user", some (codes "a")) ∷ (codes "trace", none) ∷ (codes "USER", some (codes "b")) ∷ []

get-set_all_example :
    get upper (codes "User") (set_all upper sets new_meta)
    ≡ last_of upper (codes "User") sets (get upper (codes "User") new_meta)
get-set_all_example = get-set_all upper (codes "User") sets new_meta

last_set : get upper (codes "uSer") (set_all upper sets new_meta) ≡ some (codes "b")
unfolding get set_all lookup insert text_eq
last_set = refl
