-- ===== src/Tests/Demo.antt =====
-- A concrete environment: no outage, identifiers are their own canonical text, the cluster counts
-- the writes, and one session token belongs to the user "ann".
use build_api.Common.{
  ℕ, suc, String, ◌==◌, ◌=?◌, true, none, some, [], ◌∷◌, Result, ok, err, if◌then◌else◌,
}
use build_api.Common.Int.{pos}
use build_api.World.Tables.{Db, UserRow, OrgRow, MemberRow, KeyRow}
use build_api.World.External.{
  Postgres, Claims, SigningMethod, ParsedToken, JwtLibrary, BuilderCr, TemplateCr, Kubernetes,
  Environment,
}
use build_api.World.Effect.{World}
use build_api.Auth.Context.{Context}

abbrev pub postgres : Postgres
postgres = record {
  gen_random_uuid = λ n. if n =? 0 then "id-0" else "id-1";
  uuid_in = λ text. ok text;
  error_text = λ sqlstate. sqlstate;
  epoch = λ t. t;
  outage = λ n. none;
  order_by_name = λ rows. rows;
  order_by_joined_at = λ rows. rows;
  order_by_created_at_desc = λ rows. rows;
}

abbrev pub claims : Claims
claims = record {
  jti = "j";
  subject = "ann";
  issued_at = 0;
  expires_at = 9;
  user_id = "ann";
  email = "ann@x";
  type = "access";
}

abbrev parse : (SigningMethod → Result String String) → ℕ → String → Result String ParsedToken
parse key now token =
    if token == "a.b.c" then ok (record { claims = some claims; valid = true }) else err "bad"

abbrev pub jwt : JwtLibrary
jwt = record {
  new_numeric_date = λ t. t;
  signed_string = λ key c. ok "a.b.c";
  parse_with_claims = parse;
}

abbrev pub builder : BuilderCr
builder = record {
  namespace = "org";
  name = "b";
  annotations = none;
  spec = record {
    mode = "on";
    template_ref = some "t";
    replicas = none;
    idle_timeout_seconds = none;
    labels = none;
  };
  status = record { endpoint = ""; node_port = pos 0; phase = "Ready" };
}

abbrev pub template : TemplateCr String
template = record {
  namespace = "org";
  name = "t";
  spec = record {
    buildkit_image = "img";
    rootless = true;
    arch = "amd64";
    resources = record { limits = []; requests = [] };
    cache_config = record { type = ""; pvc = none; s3 = none };
  };
}

abbrev pub kube : Kubernetes ℕ String
kube = record {
  create_namespace = λ ns k. (none, suc k);
  delete_namespace = λ ns k. (none, suc k);
  list_builders = λ ns k. ok (builder ∷ []);
  get_builder = λ ns name k. ok builder;
  create_builder = λ b k. (ok b, suc k);
  update_builder = λ b k. (ok b, suc k);
  patch_builder = λ original b k. (ok b, suc k);
  delete_builder = λ ns name k. (none, suc k);
  list_templates = λ ns k. ok (template ∷ []);
  get_template = λ ns name k. ok template;
  create_template = λ t k. (ok t, suc k);
  update_template = λ t k. (ok t, suc k);
  delete_template = λ ns name k. (none, suc k);
  parse_quantity = λ s. some s;
  quantity_text = λ q. q;
}

abbrev pub env : Environment ℕ String
env = record {
  pg = postgres;
  jwt = jwt;
  kube = kube;
  sha256 = λ s. 171 ∷ 205 ∷ [];
  random_read = λ n. ok (1 ∷ 2 ∷ 3 ∷ 4 ∷ []);
  uuid_new = λ n. "jti";
  bcrypt_generate = λ n password. ok password;
  bcrypt_compare = λ hash password. hash == password;
  lower_beyond = λ c. c;
  rfc3339 = λ t. "1970-01-01T00:00:00Z";
}

abbrev pub ann : UserRow
ann = record { id = "ann"; email = "ann@x"; password_hash = "pw"; name = "Ann"; created_at = 1 }

abbrev pub membership : String → MemberRow
membership role = record { user_id = "ann"; organization_id = "org"; role = role; joined_at = 2 }

abbrev pub org : OrgRow
org = record { id = "org"; name = "Org"; slug = "org"; plan = "pro"; created_at = 2 }

abbrev pub key : KeyRow
key = record {
  id = "key";
  user_id = "ann";
  name = "ci";
  key_prefix = "bh_";
  key_hash = "00";
  scopes = "builders:read" ∷ [];
  created_at = 3;
  last_used_at = none;
  expires_at = none;
}

abbrev pub db : Db
db = record {
  users = ann ∷ [];
  organizations = org ∷ [];
  members = membership "admin" ∷ [];
  keys = key ∷ [];
  drawn = 0;
}

abbrev pub world : World ℕ
world = record { db = db; cluster = 0; now = 5; db_now = 5; step = 0 }

-- A session of "ann", as a request carries it and as the interceptor attaches it.
abbrev pub session : Context
session = record {
  principal = none;
  metadata = some (λ k. if k == "authorization" then "Bearer a.b.c" ∷ [] else []);
}

abbrev pub signed_in : Context
signed_in = record {
  principal = some (record { user_id = "ann"; full_access = true; scopes = [] });
  metadata = none;
}
