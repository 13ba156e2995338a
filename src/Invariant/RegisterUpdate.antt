-- ===== src/Invariant/RegisterUpdate.antt =====
-- What the two handlers with the longest runs, `Register` and `UpdateOrganization`, do to the tables.
use build_api.Common.{ℕ, String, arith, Result-cases, inl, inr, ok, err, ◌≡◌, ◌∷◌, suc}
use build_api.Text.{trim_space}
use build_api.World.External.{Environment}
use build_api.World.Effect.{World}
use build_api.World.Tables.{Db}
use build_api.Auth.Service.{register}
use build_api.Auth.Sql.{insert_user, select_user}
use build_api.Auth.Context.{Context, user_id_from_context}
use build_api.Auth.Jwt.{create_access_token, create_refresh_token}
use build_api.Api.AuthMessages.{RegisterRequest}
use build_api.Api.OrganizationMessages.{UpdateOrganizationRequest}
use build_api.Organizations.Sql.{select_role}
use build_api.Organizations.Update.{assemble, update_org}
use build_api.Organizations.Service.{update_organization, apply_update}
use build_api.Organizations.Service.Roles.{get_organization-frame, select_role-frame}
use build_api.Invariant.Runs.{Statement, OrganizationStatement, user_inserted, org_updated}

module _ {K Q : Type 0} (env : Environment K Q) (w : World K) (P : Db → Type 0) (h : P w.db) where
  -- `Register` leaves the tables alone or runs its INSERT statement on them.
  register-db :
      (secret : String) (req : RegisterRequest) (hash : String)
      → env.bcrypt_generate w.step req.password ≡ ok hash
      → P (insert_user env.pg w.db_now (trim_space req.email) hash (trim_space req.name) w.db).1
      → P (register env secret req w).1.db
  unfolding register select_user create_access_token create_refresh_token
  register-db secret req hash hashed wf = ground arith

  register-unhashed :
      (secret : String) (req : RegisterRequest) (e : String)
      → env.bcrypt_generate w.step req.password ≡ err e
      → P (register env secret req w).1.db
  unfolding register
  register-unhashed secret req e bad = ground arith

  -- `UpdateOrganization` leaves the tables alone or runs its UPDATE statement on them.
  apply_update-db :
      (ctx : Context) (req : UpdateOrganizationRequest)
      → P
          (update_org env.pg
            (assemble env.lower_beyond req).set_clause
            (req.id ∷ (assemble env.lower_beyond req).args)
            w.db).1
      → P (apply_update env ctx req w).1.db
  unfolding apply_update
  apply_update-db ctx req wf =
      let a = assemble env.lower_beyond req in
      let read = get_organization-frame env ctx req.id w in
      let written = get_organization-frame env ctx req.id (record w {
        db = (update_org env.pg a.set_clause (req.id ∷ a.args) w.db).1;
        step = suc w.step;
      }) in
      ground (arith, read.0, written.0)

module _ {K Q : Type 0} (env : Environment K Q) (w : World K) (P : Db → Type 0) (h : P w.db) where
  pub update_organization-db :
      (ctx : Context) (req : UpdateOrganizationRequest)
      → P
          (update_org env.pg
            (assemble env.lower_beyond req).set_clause
            (req.id ∷ (assemble env.lower_beyond req).args)
            w.db).1
      → P (update_organization env ctx req w).1.db
  unfolding update_organization
  update_organization-db ctx req wf =
      let same = select_role-frame env (user_id_from_context ctx) req.id w.db_now w.db in
      let w' = record w {
        db = (select_role env.pg w.db_now (user_id_from_context ctx) req.id w.db).1;
        step = suc w.step;
      } in
      let applied = apply_update-db env w' P (rw same h) ctx req (rw same wf) in
      ground (arith, same, applied)

module _ {K Q : Type 0} (env : Environment K Q) (w : World K) (P : Db → Type 0) (h : P w.db) where
  pub register-keeps :
      (secret : String) (req : RegisterRequest)
      → ((hash : String)
          → P
              (insert_user env.pg w.db_now
                (trim_space req.email)
                hash
                (trim_space req.name)
                w.db).1)
      → P (register env secret req w).1.db
  register-keeps secret req after = elim (Result-cases (env.bcrypt_generate w.step req.password)) [
    | inl (hash, hashed) ↦ register-db env w P h secret req hash hashed (after hash)
    | inr (e, bad) ↦ register-unhashed env w P h secret req e bad
  ]

  pub register-closed :
      (from : ℕ)
      → ((a b : Db) → P a → Statement env from a b → P b)
      → (secret : String) (req : RegisterRequest) → P (register env secret req w).1.db
  register-closed from closed secret req = register-keeps secret req (λ hash.
      closed _ _ h (user_inserted w.db_now (trim_space req.email) hash (trim_space req.name) w.db))

module _ {K Q : Type 0} (env : Environment K Q) (w : World K) (P : Db → Type 0)
    (closed : (a b : Db) → P a → OrganizationStatement env.pg a b → P b) (h : P w.db) where
  pub update_organization-closed :
      (ctx : Context) (req : UpdateOrganizationRequest) → P (update_organization env ctx req w).1.db
  update_organization-closed ctx req = update_organization-db env w P h ctx req (
      closed _ _ h (
        org_updated (assemble env.lower_beyond req).set_clause
          (req.id ∷ (assemble env.lower_beyond req).args) w.db))
