-- ===== src/Agent/Routes.antt =====
-- startTriggers of agent.go, for the webhooks: the routes of a configuration.
use kickd.Prelude.{Bool, true, false, String, Option, none, some, List, [], ◌∷◌, filter}
use kickd.Prelude.Map.{Map}
use kickd.Config.Model.{Param, Trigger, Event, Config, is_enabled, kind_of}
use kickd.Config.Use.{param_names, is_kind_webhook}
use kickd.Webhook.Request.{Route}
use kickd.Webhook.Serve.{Registered, refused, panicked, registered, register}
use kickd.Agent.{and_then}

abbrev pub route_of : Event → Trigger → Route
route_of e t = record {
  event = e.name;
  path = t.path;
  methods = t.methods;
  token = t.token;
  secret = t.secret;
  wait = t.wait;
  params = param_names e.params;
  required = param_names (filter (λ (p : Param). p.required) e.params);
}

-- A route that Register refuses is logged and left out; a panic ends the agent: `none`.
abbrev pub after_register : Map String Route → Registered → Option (Map String Route)
after_register routes refused = some routes
after_register routes panicked = none
after_register routes (registered routes') = some routes'

module _ (takes : List String → String → Bool) where
  abbrev pub add_route : Route → Map String Route → Option (Map String Route)
  add_route r routes = after_register routes (register takes r routes)

  unfoldable pub add_routes : Event → List Trigger → Map String Route → Option (Map String Route)
  add_routes e [] routes = some routes
  add_routes e (t ∷ ts) routes =
      and_then
        (elim (is_kind_webhook (kind_of t.type)) [
          | true ↦ add_route (route_of e t) routes
          | false ↦ some routes
        ])
        (add_routes e ts)

  unfoldable pub add_all_routes : List Event → Map String Route → Option (Map String Route)
  add_all_routes [] routes = some routes
  add_all_routes (e ∷ es) routes = and_then (add_routes e e.triggers routes) (add_all_routes es)

  -- The routes that the server serves; it has none where webhook.enabled is false.
  unfoldable pub routes_of : Config → Option (Map String Route)
  routes_of c = elim (is_enabled c.webhook) [ true ↦ add_all_routes c.events [] | false ↦ some [] ]
