-- ===== src/Tests/Serving.antt =====
-- Call of the proxy's service, after v3/proxy/service_test.go.
use rpc.Base.{
  ◌≡◌, refl, none, some, [], ◌∷◌, codes, ok, false, is_empty, text_eq, contains_byte, ◌||◌,
}
use rpc.Base.Int.{pos}
use rpc.Base.Map.{Map, lookup, insert, has}
use rpc.Proxy.Types.{Target, GenericRequest}
use rpc.Proxy.Method.{split_method, trim_space, cut}
use rpc.Proxy.Allowlist.{policy_default, Allowlist, new_allowlist, add_entry, allowed, allows}
use rpc.Proxy.Allowlist.Permits.{permits, all_blank, entry_permits, is_wildcard_of}
use rpc.Proxy.Router.{StaticRouter, new_static_router, validate, is_transport, is_bad_port, resolve}
use rpc.Proxy.Router.Laws.{IsGoMap}
use rpc.Proxy.Service.{call, call_configured, answer}
use rpc.Proxy.Service.Laws.{Invocation, IsAnswered, configured, call-IsAnswered}
use rpc.Tests.Invoking.{set, values, invoker, env}
use rpc.Proxy.Service.Composed.{rpc_result, rpc_effects, Guarded, call_effects, call-Guarded}
use rpc.Proxy.Service.EndToEnd.{fresh, proxy, IsServed, call-IsServed, denial, call_denied}

abbrev pub mailer : Target
mailer = record { addr = codes "mailer.local"; port = pos 2443; secret = []; transport = codes "" }

abbrev pub table : Map Target
table = (codes "mailer", mailer) ∷ []

abbrev pub router : StaticRouter
router = record { targets = table }

pub routes : new_static_router table ≡ ok router
unfolding new_static_router validate is_transport is_bad_port insert text_eq is_empty
routes = refl

pub distinct : IsGoMap table
unfolding lookup
distinct = (refl, tt)

abbrev listed : Allowlist
listed = record { policy = policy_default; exact = []; services = (codes "mailer", tt) ∷ [] }

built : new_allowlist (codes "mailer.*" ∷ []) policy_default ≡ ok listed
unfolding new_allowlist add_entry trim_space cut contains_byte text_eq is_empty insert
built = refl

abbrev echo : Invocation
echo target method payload md = ok payload

abbrev send : GenericRequest
send = record { method = codes "mailer.Send"; payload = 1 ∷ 2 ∷ []; metadata = [] }

abbrev foreign : GenericRequest
foreign = record send { method = codes "kata.Run" }

answered :
    (call (proxy listed router echo) send (some fresh) 5).response
    ≡ some (record { payload = 1 ∷ 2 ∷ []; error = none })
unfolding call call_configured answer split_method allowed allows has lookup text_eq resolve
answered = refl

call-IsAnswered_example :
    IsAnswered none
      (resolve router)
      echo
      send
      fresh
      5
      (call (configured none (resolve router) echo) send (some fresh) 5)
call-IsAnswered_example = call-IsAnswered none (resolve router) echo send fresh 5

call-IsServed_example : IsServed (codes "mailer.*" ∷ []) table echo send (1 ∷ 2 ∷ [])
call-IsServed_example =
    call-IsServed (codes "mailer.*" ∷ []) listed table router built distinct routes echo send
      (1 ∷ 2 ∷ []) 5 answered

split : split_method foreign.method ≡ some (codes "kata")
unfolding split_method
split = refl

not_permitted :
    (all_blank (codes "mailer.*" ∷ []) || permits (codes "mailer.*" ∷ []) foreign.method) ≡ false
unfolding all_blank permits entry_permits is_wildcard_of trim_space split_method text_eq is_empty
not_permitted = refl

call_denied_example :
    (call (proxy listed router echo) foreign (some fresh) 5).response ≡ some (denial foreign.method)
call_denied_example =
    call_denied (codes "mailer.*" ∷ []) listed table router built distinct routes echo foreign
      (codes "kata") 5 split not_permitted

call-Guarded_example :
    Guarded set values invoker env
      (codes "mailer.*" ∷ [])
      table
      send
      (call (proxy listed router (rpc_result set values invoker env)) send (some fresh) 5).response
      (call_effects
        (some (allowed (some listed)))
        (resolve router)
        (rpc_effects set values invoker env)
        send)
call-Guarded_example =
    call-Guarded set values invoker env (codes "mailer.*" ∷ []) listed table router built distinct
      routes send 5

-- A denied method has no effect, and a permitted one has those of Invoke.
not_touched :
    call_effects
      (some (allowed (some listed)))
      (resolve router)
      (rpc_effects set values invoker env)
      foreign
    ≡ []
unfolding call_effects split_method allowed allows has lookup text_eq resolve
not_touched = refl
