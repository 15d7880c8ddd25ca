-- ===== src/Tests/Wiring.antt =====
-- The clients that the proxy opens for its routes.
use rpc.Base.{◌≡◌, refl, [], ◌∷◌, codes, ok, All, text_eq}
use rpc.Base.Map.{lookup}
use rpc.Proxy.Router.{resolve}
use rpc.Proxy.Factory.{default_client_factory}
use rpc.Proxy.Factory.Pinned.{wire, default_client_factory-wire}
use rpc.Client.Connections.{run}
use rpc.Client.Sends.{sent_kinds}
use rpc.Tests.Serving.{mailer, table, router, routes, distinct}
use rpc.Tests.Calling.{gob_only, healthy}

resolved : resolve router (codes "mailer") ≡ ok mailer
unfolding resolve lookup text_eq
resolved = refl

default_client_factory-wire_example :
    All
      (λ k. k ≡ wire mailer)
      (sent_kinds (run (default_client_factory mailer) (gob_only ∷ healthy ∷ [])).1)
default_client_factory-wire_example =
    default_client_factory-wire table router (codes "mailer") mailer (gob_only ∷ healthy ∷ [])
      distinct routes resolved
