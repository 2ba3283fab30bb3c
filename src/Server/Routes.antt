-- ===== src/Server/Routes.antt =====
-- The routes of internal/server: `NewRouter` with its registrars. A handler is known by its route.
use scuffinger.Prelude.{String, List, [], ◌∷◌, ◌++◌}

abbrev pub Route : Type 0
Route = List String

abbrev pub get_route : String → Route
get_route path = "GET" ∷ path ∷ []

abbrev pub post_route : String → Route
post_route path = "POST" ∷ path ∷ []

-- the types that implement RouteRegistrar
pub data Registrar : Type 0 where
  github_handler : Registrar
  auth_handler : Registrar
  debug_handler : Registrar

-- GitHubHandler.RegisterRoutes
abbrev pub github_routes : List Route
github_routes =
    get_route "/api/github/users/:username"
    ∷ get_route "/api/github/orgs/:org"
    ∷ get_route "/api/github/repos/:owner/:repo"
    ∷ get_route "/api/github/repos/:owner/:repo/branches"
    ∷ get_route "/api/github/repos/:owner/:repo/workflows"
    ∷ get_route "/api/github/repos/:owner/:repo/workflows/:workflow_id/runs"
    ∷ get_route "/api/github/rate-limit"
    ∷ []

-- AuthHandler.RegisterRoutes
abbrev pub auth_routes : List Route
auth_routes = post_route "/api/auth" ∷ []

-- DebugHandler.RegisterRoutes
abbrev pub debug_routes : List Route
debug_routes =
    get_route "/api/debug/pg/databases"
    ∷ get_route "/api/debug/pg/tables"
    ∷ get_route "/api/debug/pg/tables/:table/columns"
    ∷ get_route "/api/debug/pg/tables/:table/rows"
    ∷ get_route "/api/debug/cache/keys"
    ∷ get_route "/api/debug/cache/keys/*key"
    ∷ get_route "/api/debug/cache/stats"
    ∷ []

-- the health endpoints, RegisterMetrics and RegisterDocs
abbrev pub health_routes : List Route
health_routes = get_route "/health/live" ∷ get_route "/health/ready" ∷ []

abbrev pub metrics_routes : List Route
metrics_routes = get_route "/metrics" ∷ []

abbrev pub docs_routes : List Route
docs_routes = get_route "/docs" ∷ get_route "/docs/openapi.yaml" ∷ []

unfoldable pub register_routes : Registrar → List Route
register_routes github_handler = github_routes
register_routes auth_handler = auth_routes
register_routes debug_handler = debug_routes

unfoldable pub register_all : List Registrar → List Route
register_all [] = []
register_all (r ∷ rs) = register_routes r ++ register_all rs

unfoldable pub new_router : List Registrar → List Route
new_router registrars = (health_routes ++ metrics_routes ++ docs_routes) ++ register_all registrars
