-- ===== src/Startup/Cases.antt =====
-- When the program comes to serve.
use build_api.Common.{String, ◌≡◌, ◌⊎◌, some, [], ◌∷◌, ok, err}
use build_api.Startup.{pool_opened, Host, read_settings, new_client}

module _ {Pool Config Client Conn : Type 0} (host : Host Pool Config Client Conn) where
  -- The database cannot be reached, the client of the cluster cannot be made, the address of the gRPC
  -- server is not free, or no connection to it can be made.
  abbrev pub Broken : Type 0
  Broken =
      let s = read_settings host.environ in
      ((e : String) × (host.pgxpool_new s.database_url ≡ err e))
      ⊎ ((pool : Pool) × (e : String) × (host.pgxpool_new s.database_url ≡ ok pool)
          × (host.ping pool ≡ some e))
      ⊎ ((e : String) × ((new_client host s.kubeconfig (pool_opened ∷ [])).0 ≡ err e))
      ⊎ ((e : String) × (host.net_listen s.grpc_addr ≡ some e))
      ⊎ ((e : String) × (host.grpc_new_client s.grpc_addr ≡ err e))
