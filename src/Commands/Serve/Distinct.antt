-- ===== src/Commands/Serve/Distinct.antt =====
-- No route is registered twice, at which the router of gin would panic.
use scuffinger.Prelude.{
  string_eq, list_eq, ◌≡◌, refl, Bool, true, false, not, ◌&&◌, List, [], ◌∷◌, ◌++◌, ◌==◌, any,
}
use scuffinger.Server.Routes.{
  Route, new_router, register_all, register_routes, post_route, get_route, Registrar,
  github_handler, auth_handler, debug_handler,
}
use scuffinger.Config.{enabled, first_client_id}
use scuffinger.Config.Load.{Config}
use scuffinger.Commands.Serve.{Wired, registrars, one_if}

abbrev pub has_route : Route → List Route → Bool
has_route r rs = any (λ s. s == r) rs

abbrev pub distinct : List Route → Bool
distinct [] = true
distinct (r ∷ rs) = not (has_route r rs) && distinct rs

-- the groups for an outcome of each test
abbrev groups : Bool → Bool → Bool → List Registrar
groups github auth debug =
    one_if github github_handler ++ (one_if auth auth_handler ++ one_if debug debug_handler)

pub record Serves (auth : Bool) (routes : List Route) : Type 0 where
  pub once : distinct routes ≡ true
  pub login : has_route (post_route "/api/auth") routes ≡ auth
  pub ready : has_route (get_route "/health/ready") routes ≡ true

groups-Serves : (github auth debug : Bool) → Serves auth (new_router (groups github auth debug))
unfolding new_router register_all register_routes
groups-Serves true true true = record { once = refl; login = refl; ready = refl }
groups-Serves true true false = record { once = refl; login = refl; ready = refl }
groups-Serves true false true = record { once = refl; login = refl; ready = refl }
groups-Serves true false false = record { once = refl; login = refl; ready = refl }
groups-Serves false true true = record { once = refl; login = refl; ready = refl }
groups-Serves false true false = record { once = refl; login = refl; ready = refl }
groups-Serves false false true = record { once = refl; login = refl; ready = refl }
groups-Serves false false false = record { once = refl; login = refl; ready = refl }

pub registrars-Serves :
    (cfg : Config) (wired : Wired)
    → Serves
        (not (first_client_id cfg.github.applications == ""))
        (new_router (registrars cfg wired))
unfolding registrars
registrars-Serves cfg wired =
    groups-Serves (enabled cfg.github && wired.github)
      (not (first_client_id cfg.github.applications == "")) (wired.database && wired.cache)
