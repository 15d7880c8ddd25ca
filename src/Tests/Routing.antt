-- ===== src/Tests/Routing.antt =====
-- Routing tables, after v3/proxy/router_test.go, and the classification of errors.
use rpc.Base.{◌≡◌, refl, ◌↔◌, [], ◌∷◌, codes, err, ok, All, is_empty, text_eq}
use rpc.Base.Int.{pos}
use rpc.Base.Map.{Map, lookup, insert}
use rpc.Errors.{failure, no_route, invalid_port, wrap, sentinel, eof}
use rpc.Proxy.Types.{Target}
use rpc.Proxy.Router.{StaticRouter, new_static_router, validate, is_transport, is_bad_port, resolve}
use rpc.Proxy.Router.Laws.{IsRoute, IsGoMap, new_static_router_iff, resolve-IsRoute}
use rpc.Proxy.CallErrors.{map_call_error}
use rpc.Proxy.CallErrors.Laws.{IsClassified, map_call_error-IsClassified}

abbrev mailer : Target
mailer = record { addr = codes "mailer.local"; port = pos 2443; secret = []; transport = codes "" }

abbrev table : Map Target
table =
    (codes "mailer", mailer)
    ∷ (codes "miki", record mailer { port = pos 0; transport = codes "json" })
    ∷ []

abbrev router : StaticRouter
router = record { targets = table }

routes : new_static_router table ≡ ok router
unfolding new_static_router validate is_transport is_bad_port insert text_eq is_empty
routes = refl

bad_port :
    new_static_router ((codes "m", record mailer { port = pos 70000 }) ∷ [])
    ≡ err (failure (invalid_port (codes "m") (pos 70000)))
unfolding new_static_router validate is_transport is_bad_port insert text_eq is_empty
bad_port = refl

resolved :
    (resolve router (codes "mailer") ≡ ok mailer)
    × (resolve router (codes "x") ≡ err (failure (no_route (codes "x"))))
unfolding resolve lookup text_eq
resolved = (refl, refl)

distinct : IsGoMap table
unfolding lookup text_eq
distinct = (refl, (refl, tt))

new_static_router_iff_example :
    ((r : StaticRouter) × (new_static_router table ≡ ok r)) ↔ All IsRoute table
new_static_router_iff_example = new_static_router_iff table

resolve-IsRoute_example : IsRoute (codes "mailer", mailer)
resolve-IsRoute_example =
    resolve-IsRoute table router (codes "mailer") mailer distinct routes resolved.0

map_call_error-IsClassified_example :
    IsClassified
      (wrap (codes "rpc") (sentinel eof))
      (codes "h:1")
      (map_call_error (wrap (codes "rpc") (sentinel eof)) (codes "h:1"))
map_call_error-IsClassified_example =
    map_call_error-IsClassified (wrap (codes "rpc") (sentinel eof)) (codes "h:1")
