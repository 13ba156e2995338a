-- ===== src/Tests/StartupTests.antt =====
-- The start of the program: instances on a small machine.
use build_api.Common.{ℕ, String, none, ok, err}
use build_api.Startup.{Host, Running, read_settings}

-- No variable is set, and everything answers; the cluster's configuration is a file.
abbrev machine : Host ℕ String ℕ String
machine = record {
  environ = λ key. "";
  pgxpool_new = λ url. ok 1;
  ping = λ pool. none;
  build_config_from_flags = λ path. ok path;
  in_cluster_config = err "not in a cluster";
  home_dir = "/root";
  join = λ parts. "/root/.kube/config";
  client_go_scheme = none;
  buildkit_scheme = none;
  template_scheme = none;
  ctrl_new = λ config. ok 2;
  net_listen = λ addr. none;
  grpc_new_client = λ addr. ok addr;
}

abbrev running : Running ℕ ℕ String
running = record {
  settings = read_settings machine.environ;
  pool = 1;
  client = 2;
  auth = (read_settings machine.environ).grpc_addr;
  builders = (read_settings machine.environ).grpc_addr;
  organizations = (read_settings machine.environ).grpc_addr;
  templates = (read_settings machine.environ).grpc_addr;
}
