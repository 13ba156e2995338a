-- ===== src/Startup.antt =====
-- The start of the program: `main` of cmd/server/main.go up to the point where both servers listen, with
-- internal/db/postgres.go, internal/k8s/client.go, internal/server/k8s.go and the functions
-- Register*FromEndpoint of api/gen/buildapi/v1/*.pb.gw.go. The libraries are the record `Host`.
pub mod Serving
pub mod Cases
use Prim.Native.String
use build_api.Common.{
  String, ◌==◌, Option, none, some, List, [], ◌∷◌, ◌++◌, Result, ok, err, if◌then◌else◌,
}
use build_api.Gateway.Edge.{get_env, parse_cors_origins}

-- What the program opened and closed, in order.
pub data Event : Type 0 where
  pool_opened pool_closed : Event
  listening client_created : String → Event

abbrev pub Start : Type 0 → Type 0
Start A = List Event → Result String A × List Event

abbrev start_then : {A B : Type 0} → Result String A → (A → Start B) → Start B
start_then (ok a) f events = f a events
start_then (err e) f events = (err e, events)

infixl 5 ◌>>=◌ ◌>>◌
abbrev pub ◌>>=◌ : {A B : Type 0} → Start A → (A → Start B) → Start B
◌>>=◌ m f events = let (r, events') = m events in start_then r f events'

abbrev pub ◌>>◌ : {A B : Type 0} → Start A → Start B → Start B
m >> k = m >>= λ _. k

abbrev done : {A : Type 0} → A → Start A
done a events = (ok a, events)

abbrev emit : Event → Start (Unit {0})
emit e events = (ok tt, events ++ e ∷ [])

abbrev attempt : {A : Type 0} → Result String A → Start A
attempt r events = (r, events)

-- `if err != nil { return err }`
abbrev check : Option String → Start (Unit {0})
check none events = (ok tt, events)
check (some e) events = (err e, events)

-- The environment of the process, the files of the machine and the libraries that connect.
pub record Host (Pool Config Client Conn : Type 0) : Type 0 where
  -- `os.Getenv`, "" for a variable that is not set
  pub environ : String → String
  pub pgxpool_new : String → Result String Pool
  pub ping : Pool → Option String
  pub build_config_from_flags : String → Result String Config
  pub in_cluster_config : Result String Config
  pub home_dir : String
  pub join : List String → String
  pub client_go_scheme : Option String
  pub buildkit_scheme : Option String
  pub template_scheme : Option String
  pub ctrl_new : Config → Result String Client
  pub net_listen : String → Option String
  pub grpc_new_client : String → Result String Conn

pub record Settings : Type 0 where
  pub database_url : String
  pub jwt_secret : String
  pub grpc_addr : String
  pub http_addr : String
  pub cors_origins : List String
  pub kubeconfig : String

-- What `main` has when it waits for a signal.
pub record Running (Pool Client Conn : Type 0) : Type 0 where
  pub settings : Settings
  pub pool : Pool
  pub client : Client
  pub auth : Conn
  pub builders : Conn
  pub organizations : Conn
  pub templates : Conn

-- The calls of `getEnv` in `main`
unfoldable pub read_settings : (String → String) → Settings
read_settings environ = record {
  database_url = get_env environ "DATABASE_URL" "postgres://localhost/builderhub?sslmode=disable";
  jwt_secret = get_env environ "JWT_SECRET" "dev-secret-change-in-production";
  grpc_addr = get_env environ "GRPC_ADDR" ":9090";
  http_addr = get_env environ "HTTP_ADDR" ":8080";
  cors_origins = parse_cors_origins (
      get_env environ "CORS_ALLOWED_ORIGINS"
        "http://localhost:3000,http://localhost:3001,https://console.builder-hub.dev");
  kubeconfig = get_env environ "KUBECONFIG" "";
}

module _ {Pool Config Client Conn : Type 0} (host : Host Pool Config Client Conn) where
  abbrev pool_or_close : Pool → Option String → Start Pool
  pool_or_close pool none = done pool
  pool_or_close pool (some e) = do emit pool_closed; attempt (err e)

  -- `db.NewPool`
  unfoldable pub new_pool : String → Start Pool
  new_pool conn_string = do
    pool ← attempt (host.pgxpool_new conn_string)
    emit pool_opened
    pool_or_close pool (host.ping pool)

  abbrev outside_cluster : String → Result String Config
  outside_cluster kubeconfig =
      if host.home_dir == ""
      then host.build_config_from_flags kubeconfig
      else host.build_config_from_flags (host.join (host.home_dir ∷ ".kube" ∷ "config" ∷ []))

  -- `restConfig`
  unfoldable pub rest_config : String → Result String Config
  rest_config kubeconfig =
      if kubeconfig == ""
      then elim host.in_cluster_config [ ok c ↦ ok c | err e ↦ outside_cluster kubeconfig ]
      else host.build_config_from_flags kubeconfig

  -- `k8s.NewClient`, which `server.NewK8sClient` calls
  unfoldable pub new_client : String → Start Client
  new_client kubeconfig = do
    config ← attempt (rest_config kubeconfig)
    check host.client_go_scheme
    check host.buildkit_scheme
    check host.template_scheme
    attempt (host.ctrl_new config)

  -- `Register*HandlerFromEndpoint`: registering the routes itself does not fail, so the connection stays.
  unfoldable pub from_endpoint : String → Start Conn
  from_endpoint endpoint = do
    conn ← attempt (host.grpc_new_client endpoint)
    emit (client_created endpoint)
    done conn

  -- `sugar.Fatalf` ends the process with a text in front of the error.
  abbrev pub or_fatal : {A : Type 0} → String → Start A → Start A
  or_fatal text m events =
      let (r, events') = m events in
      elim r [ ok a ↦ (ok a, events') | err e ↦ (err (String.◌++◌ text e), events') ]

  abbrev pub listen : String → Start (Unit {0})
  listen addr = do check (host.net_listen addr); emit (listening addr)

  -- `main`, to the wait for a signal
  unfoldable pub run_main : Start (Running Pool Client Conn)
  run_main = do
    let settings = read_settings host.environ
    pool ← or_fatal "connect to database: " (new_pool settings.database_url)
    client ← or_fatal "create K8s client: " (new_client settings.kubeconfig)
    or_fatal "listen gRPC: " (listen settings.grpc_addr)
    auth ← or_fatal "register auth gateway: " (from_endpoint settings.grpc_addr)
    builders ← or_fatal "register buildapi gateway: " (from_endpoint settings.grpc_addr)
    organizations ← or_fatal "register organization gateway: " (from_endpoint settings.grpc_addr)
    templates ← or_fatal "register template gateway: " (from_endpoint settings.grpc_addr)
    done (record {
      settings = settings;
      pool = pool;
      client = client;
      auth = auth;
      builders = builders;
      organizations = organizations;
      templates = templates;
    })
