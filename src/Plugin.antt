-- ===== src/Plugin.antt =====
-- payment-system/plugin.go: the construction of the plugin and the routes that it registers with the
-- host application. The background reconciliation is the child's.
pub mod Background
use procyon_modules.Base.{
  ℕ, ◌≡◌, refl, Bool, true, false, ◌⊎◌, inl, inr, Option, none, some, List, [], ◌∷◌, ◌++◌, All,
  if◌then◌else◌,
}
use procyon_modules.Base.Int.{ℤ}
use procyon_modules.Base.Text.{Text, bytes, is_empty}
use procyon_modules.Models.Errors.{Error, message}
use procyon_modules.Exec.{Result, ok, err, Exec}
use procyon_modules.Exec.Results.{◌>>=◌, ◌>>◌, require, wrap}
use procyon_modules.Config.{Platform, RuntimeConfig, load_runtime_config}
use procyon_modules.Service.{PaymentSystemService, Factory, new_payment_system_service}
use procyon_modules.Controller.Access.{Endpoint, wants_identity, IsRefused, call_endpoint-IsRefused}

-- `Config`; the values are a map.
pub record PluginConfig : Type 0 where
  pub providers : List Text
  pub values : Text → Text

-- What `New` gets of the host application and of the libraries. `factories` are the registered ones,
-- for a configuration.
pub record Dependencies : Type 0 where
  pub platform : Platform
  pub has_db : Bool
  pub has_events : Bool
  pub unmarshal_config : Text → Result PluginConfig
  pub parse_url : Text → Option (Text × Text)
  pub factories : RuntimeConfig → List Factory

pub record Plugin : Type 0 where
  pub service : PaymentSystemService
  pub reconcile_every : ℤ

-- `Config{}` where there is no text, and else what it says.
abbrev read_config : Dependencies → Text → Result PluginConfig
read_config dependencies raw =
    if is_empty raw
    then ok (record { providers = []; values = λ key. [] })
    else wrap (bytes "parse payment-system config") (dependencies.unmarshal_config raw)

-- `New`
unfoldable pub new_plugin : Dependencies → Text → Result Plugin
unfolding load_runtime_config new_payment_system_service
new_plugin dependencies raw = do
  require dependencies.has_db (message (bytes "payment-system requires a database"))
  require dependencies.has_events (
      message (
        bytes "payment-system requires the Procyon event bus; "
        ++ bytes "update the application runtime wiring"))
  config ← read_config dependencies raw
  runtime ←
      wrap (bytes "configure payment-system")
        (load_runtime_config dependencies.platform config.providers config.values)
  service ← wrap (bytes "initialize payment-system providers") (
      new_payment_system_service dependencies.platform runtime dependencies.parse_url
        (dependencies.factories runtime))
  ok (record { service = service; reconcile_every = runtime.reconcile_every })

pub data Method : Type 0 where
  get post : Method

-- The group of the host application that a route is registered with.
pub data Group : Type 0 where
  public authenticated admin : Group

-- `permission` says whether the route has the permission middleware, `limited` whether its group has
-- the limit of 64K on bodies.
pub record Route : Type 0 where
  pub group : Group
  pub method : Method
  pub path : Text
  pub permission : Bool
  pub limited : Bool
  pub endpoint : Endpoint

-- `coreplugins.Routes`: which groups are there, and whether permissions can be required.
pub record Routes : Type 0 where
  pub has_public : Bool
  pub has_authenticated : Bool
  pub has_admin : Bool
  pub can_require : Bool

abbrev open_route : Method → Text → Endpoint → Route
open_route method path endpoint = record {
  group = Group.public;
  method = method;
  path = path;
  permission = false;
  limited = false;
  endpoint = endpoint;
}

abbrev user_route : Bool → Method → Text → Endpoint → Route
user_route permission method path endpoint = record {
  group = Group.authenticated;
  method = method;
  path = path;
  permission = permission;
  limited = true;
  endpoint = endpoint;
}

abbrev admin_route : Method → Text → Endpoint → Route
admin_route method path endpoint = record {
  group = Group.admin;
  method = method;
  path = path;
  permission = false;
  limited = true;
  endpoint = endpoint;
}

abbrev public_routes : List Route
public_routes =
    open_route Method.get (bytes "/payments/prices/:provider") Endpoint.price_list
    ∷ open_route Method.post (bytes "/payments/webhooks/:provider") Endpoint.notify
    ∷ []

abbrev user_routes : Bool → List Route
user_routes can =
    user_route can Method.post (bytes "/payments/checkout") Endpoint.create_checkout
    ∷ user_route can Method.post (bytes "/payments/subscriptions/checkout")
        Endpoint.create_subscription
    ∷ user_route can Method.get (bytes "/payments/subscriptions") Endpoint.subscription_list
    ∷ user_route can Method.post (bytes "/payments/subscriptions/cancel")
        Endpoint.cancel_subscription
    ∷ user_route can Method.post (bytes "/payments/portal") Endpoint.create_portal_session
    ∷ user_route can Method.post (bytes "/payments/verify/:provider") Endpoint.verify_store_purchase
    ∷ user_route can Method.get (bytes "/payments/history") Endpoint.payment_history
    ∷ user_route can Method.get (bytes "/payments/entitlement") Endpoint.entitlement
    ∷ []

abbrev admin_routes : List Route
admin_routes =
    admin_route Method.get (bytes "/payments/providers") Endpoint.provider_status
    ∷ admin_route Method.get (bytes "/payments/webhooks/failed") Endpoint.failed_webhooks
    ∷ admin_route Method.post (bytes "/payments/webhooks/retry") Endpoint.retry_webhook
    ∷ admin_route Method.post (bytes "/payments/reconcile") Endpoint.reconcile
    ∷ []

-- `RegisterRoutes`: the routes in their order.
unfoldable pub register_routes : Routes → List Route
register_routes routes =
    (if routes.has_public then public_routes else [])
    ++ (if routes.has_authenticated
        then user_routes routes.can_require ++ (if routes.has_admin then admin_routes else [])
        else [])

-- What stands between a request and the effect of a route: the host's admin group, for a method that
-- wants no identity; or the method itself, and the permission where permissions can be required; or
-- nothing, for the two methods that are open. All but the open ones have the limit on bodies.
abbrev pub IsGuarded : PaymentSystemService → Routes → Route → Type 0
IsGuarded s routes route = elim route.group [
  | Group.public ↦ (route.endpoint ≡ Endpoint.price_list) ⊎ (route.endpoint ≡ Endpoint.notify)
  | Group.authenticated ↦
      IsRefused s route.endpoint × (route.permission ≡ routes.can_require) × (route.limited ≡ true)
  | Group.admin ↦ (wants_identity route.endpoint ≡ false) × (route.limited ≡ true)
]

-- Every route that the plugin registers is guarded: the routes for signed-in identities refuse a
-- request without one, before any effect, and ask for the permission where permissions can be
-- required; the public ones are the price list and the webhook; all others are in the admin group,
-- and want no identity. All but the public ones have the limit on bodies.
pub register_routes-IsGuarded :
    (s : PaymentSystemService) (routes : Routes) → All (IsGuarded s routes) (register_routes routes)
unfolding register_routes
register_routes-IsGuarded s routes = go routes.has_public routes.has_authenticated routes.has_admin
  where
    user : (e : Endpoint) → wants_identity e ≡ true → IsRefused s e
    user e h = call_endpoint-IsRefused s e h

    admins : (b : Bool) → All (IsGuarded s routes) (if b then admin_routes else [])
    admins true = ((refl, refl), ((refl, refl), ((refl, refl), ((refl, refl), tt))))
    admins false = tt

    users :
        (b : Bool)
        → All
            (IsGuarded s routes)
            (user_routes routes.can_require ++ (if b then admin_routes else []))
    users b = (
      (user _ refl, refl, refl),
      (
        (user _ refl, refl, refl),
        (
          (user _ refl, refl, refl),
          (
            (user _ refl, refl, refl),
            (
              (user _ refl, refl, refl),
              (
                (user _ refl, refl, refl),
                ((user _ refl, refl, refl), ((user _ refl, refl, refl), admins b)),
              ),
            ),
          ),
        ),
      ),
    )

    signed_in :
        (b c : Bool)
        → All
            (IsGuarded s routes)
            (if b then user_routes routes.can_require ++ (if c then admin_routes else []) else [])
    signed_in true c = users c
    signed_in false c = tt

    go :
        (a b c : Bool)
        → All (IsGuarded s routes) (
            (if a then public_routes else [])
            ++ (if b
                then user_routes routes.can_require ++ (if c then admin_routes else [])
                else []))
    go true b c = (inl refl, (inr refl, signed_in b c))
    go false b c = signed_in b c
