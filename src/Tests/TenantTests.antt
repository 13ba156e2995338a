-- ===== src/Tests/TenantTests.antt =====
-- Tenants: a cluster that counts the writes to each namespace.
use build_api.Common.{
  ℕ, suc, String, ◌==◌, ◌≡◌, ◌≢◌, ◌⊎◌, refl, sym, some, none, [], ◌∷◌, ok, if◌then◌else◌, eq_false,
  eq_iff, arith,
}
use build_api.Text.{split, trim_space, trim_left, trim_right, is_space, cut_prefix, has_prefix}
use build_api.World.Sql.{select_is_member}
use build_api.Membership.{ensure_org_member}
use build_api.Auth.Scopes.{has_scope, lookup, enforce_access}
use build_api.Auth.Jwt.{validate_access_token, parse_token}
use build_api.Auth.Middleware.{
  unary_server_interceptor, authenticate, extract_bearer_token, first_bearer, bearer,
  looks_like_jwt,
}
use build_api.Builders.Service.{delete_builder}
use build_api.World.External.{Kubernetes, Environment}
use build_api.World.Effect.{World}
use build_api.Auth.Context.{Principal, with_principal}
use build_api.Auth.Middleware.Gate.{Admitted}
use build_api.Builders.Rpc.{delete, serve_builder_call, run_builder_call}
use build_api.Cluster.Isolation.{Isolated}
use build_api.Membership.Rows.{IsMember}
use build_api.Server.{ServerCall, builder_call, organization_call, server_method, serve_call}
use build_api.Server.Isolation.{serve_call-isolated}
use build_api.Organizations.Rpc as Organizations
use build_api.World.Tables.{OrgRow, MemberRow}
use build_api.Invariant.OrgRows.{SameOrg}
use build_api.Invariant.OrgServed.{serve_call-SameOrg}
use build_api.Tests.Demo.{env, db, session, builder, template, org, membership}

abbrev Writes : Type 0
Writes = String → ℕ

abbrev write : String → Writes → Writes
write m k n = if n == m then suc (k n) else k n

abbrev counting : Kubernetes Writes String
counting = record {
  create_namespace = λ ns k. (none, write ns.name k);
  delete_namespace = λ ns k. (none, write ns k);
  list_builders = λ ns k. ok (builder ∷ []);
  get_builder = λ ns name k. ok (record builder { namespace = ns });
  create_builder = λ b k. (ok b, write b.namespace k);
  update_builder = λ b k. (ok b, write b.namespace k);
  patch_builder = λ original b k. (ok b, write b.namespace k);
  delete_builder = λ ns name k. (none, write ns k);
  list_templates = λ ns k. ok (template ∷ []);
  get_template = λ ns name k. ok (record template { namespace = ns });
  create_template = λ t k. (ok t, write t.namespace k);
  update_template = λ t k. (ok t, write t.namespace k);
  delete_template = λ ns name k. (none, write ns k);
  parse_quantity = λ s. some s;
  quantity_text = λ q. q;
}

abbrev tenants : Environment Writes String
tenants = record {
  pg = env.pg;
  jwt = env.jwt;
  kube = counting;
  sha256 = env.sha256;
  random_read = env.random_read;
  uuid_new = env.uuid_new;
  bcrypt_generate = env.bcrypt_generate;
  bcrypt_compare = env.bcrypt_compare;
  lower_beyond = env.lower_beyond;
  rfc3339 = env.rfc3339;
}

untouched : (ns m : String) (k : Writes) → m ≢ ns → write m k ns ≡ k ns
untouched ns m k other = rw (eq_false ns m (λ e. other (sym e)))

counting-Isolated : (ns : String) → Isolated counting ns (λ k. k ns)
counting-Isolated ns = record {
  namespace_created = λ n k other. untouched ns n.name k other;
  namespace_deleted = λ name k other. untouched ns name k other;
  builder_created = λ b k other. untouched ns b.namespace k other;
  builder_updated = λ b k other. untouched ns b.namespace k other;
  builder_patched = λ a b k other. untouched ns b.namespace k other;
  builder_deleted = λ m name k other. untouched ns m k other;
  builder_read = λ m name k b found. cc;
  template_created = λ t k other. untouched ns t.namespace k other;
  template_updated = λ t k other. untouched ns t.namespace k other;
  template_deleted = λ m name k other. untouched ns m k other;
  template_read = λ m name k t found. cc;
}

abbrev shared : World Writes
shared = record { db = db; cluster = λ m. 0; now = 5; db_now = 5; step = 0 }

abbrev delete_call : ServerCall
delete_call = builder_call (delete (record { namespace = "org"; name = "b" }))

other_name : ◌≢◌ {A = String} "id-0" "other"
other_name e = ground (arith, eq_iff "id-0" "other")

serve_call-isolated_example :
    ((p : Principal) × (w' : World Writes) × Admitted tenants "s" session
        (server_method delete_call)
        shared
        p
        w'
      × IsMember tenants (with_principal session p) "other" w')
    ⊎ ((serve_call tenants "s" session delete_call shared).1.cluster "other" ≡ 0)
serve_call-isolated_example =
    serve_call-isolated tenants "s" "other" (λ k. k "other") (counting-Isolated "other") session
      delete_call shared other_name

-- The deletion is one write to its own namespace.
written : (serve_call tenants "s" session delete_call shared).1.cluster "org" ≡ 1
unfolding serve_call serve_builder_call run_builder_call delete_builder ensure_org_member
    select_is_member unary_server_interceptor authenticate validate_access_token parse_token
    extract_bearer_token first_bearer bearer looks_like_jwt has_scope lookup enforce_access split
    trim_space trim_left trim_right is_space cut_prefix has_prefix
written = refl

abbrev other_org : OrgRow
other_org = record org { id = "other"; slug = "other" }

abbrev other_member : MemberRow
other_member = record (membership "owner") { user_id = "bob"; organization_id = "other" }

abbrev two_tenants : World Writes
two_tenants = record shared {
  db = record db {
    organizations = org ∷ other_org ∷ [];
    members = membership "admin" ∷ other_member ∷ [];
  };
}

abbrev delete_other : ServerCall
delete_other = organization_call (Organizations.delete "other")

serve_call-SameOrg_example :
    ((p : Principal) × (w' : World Writes) × Admitted tenants "s" session
        (server_method delete_other)
        two_tenants
        p
        w'
      × IsMember tenants (with_principal session p) "other" w')
    ⊎ SameOrg "other" two_tenants.db (serve_call tenants "s" session delete_other two_tenants).1.db
serve_call-SameOrg_example =
    serve_call-SameOrg tenants "s" "other" "other" refl session delete_other two_tenants refl
      other_name
