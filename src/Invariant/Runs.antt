-- ===== src/Invariant/Runs.antt =====
-- The SQL statements that change a table, as steps from tables to tables, and runs of them.
use build_api.Common.{ℕ, ◌≤◌, String, List, Option, ok, ◌≡◌}
use build_api.World.Tables.{Db}
use build_api.World.External.{Postgres, Environment}
use build_api.Auth.Keys.{touch_key, key_of_bytes, hash_api_key_token}
use build_api.Auth.Sql.{insert_user, update_user_name, insert_key, delete_key}
use build_api.Organizations.Sql.{insert_org, insert_owner, delete_org}
use build_api.Organizations.Update.{Column, update_org}
use build_api.Invariant.Tables.{WellFormed}
use build_api.Invariant.Statements.{
  insert_user-WellFormed, update_user_name-WellFormed, insert_key-WellFormed, touch_key-WellFormed,
  delete_key-WellFormed, insert_org-WellFormed, insert_owner-WellFormed, update_org-WellFormed,
  delete_org-WellFormed,
}

module _ (pg : Postgres) where
  -- A statement that the organization service changes a table by.
  pub data OrganizationStatement : Db → Db → Type 0 where
    org_inserted :
        (now : ℕ) (name slug plan : String) (db : Db)
        → OrganizationStatement db (insert_org pg now name slug plan db).1
    owner_inserted :
        (now : ℕ) (user_id org_id : String) (db : Db)
        → OrganizationStatement db (insert_owner pg now user_id org_id db).1
    org_updated :
        (clauses : List (Column × ℕ)) (args : List String) (db : Db)
        → OrganizationStatement db (update_org pg clauses args db).1
    org_deleted :
        (now : ℕ) (org_id : String) (db : Db)
        → OrganizationStatement db (delete_org pg now org_id db).1

  OrganizationStatement-WellFormed :
      {a b : Db} → OrganizationStatement a b → WellFormed a → WellFormed b
  OrganizationStatement-WellFormed (org_inserted now name slug plan db) h =
      insert_org-WellFormed pg now name slug plan db h
  OrganizationStatement-WellFormed (owner_inserted now user_id org_id db) h =
      insert_owner-WellFormed pg now user_id org_id db h
  OrganizationStatement-WellFormed (org_updated clauses args db) h =
      update_org-WellFormed pg 0 clauses args db h
  OrganizationStatement-WellFormed (org_deleted now org_id db) h =
      delete_org-WellFormed pg now org_id db h

module _ {K Q : Type 0} (env : Environment K Q) (from : ℕ) where
  -- One statement with any arguments, at any time of the database; a key is made of random bytes that
  -- are drawn at the step `from` or later. A statement that fails leaves the tables as its definition
  -- says.
  pub data Statement : Db → Db → Type 0 where
    user_inserted :
        (now : ℕ) (email hash name : String) (db : Db)
        → Statement db (insert_user env.pg now email hash name db).1
    user_renamed :
        (now : ℕ) (name user_id : String) (db : Db)
        → Statement db (update_user_name env.pg now name user_id db).1
    key_inserted :
        (now n : ℕ) (bytes : List ℕ) (user_id name : String) (scopes : List String)
        (expires_at : Option ℕ) (db : Db)
        → env.random_read n ≡ ok bytes
        → from ≤ n
        → Statement db
            (insert_key env.pg now user_id name
              (key_of_bytes env bytes).1
              (hash_api_key_token env (key_of_bytes env bytes).0)
              scopes
              expires_at
              db).1
    key_touched : (now : ℕ) (id : String) (db : Db) → Statement db (touch_key now id db).1
    key_deleted :
        (now : ℕ) (id user_id : String) (db : Db)
        → Statement db (delete_key env.pg now id user_id db).1
    on_organizations : (a b : Db) → OrganizationStatement env.pg a b → Statement a b

  Statement-WellFormed : {a b : Db} → Statement a b → WellFormed a → WellFormed b
  Statement-WellFormed (user_inserted now email hash name db) h =
      insert_user-WellFormed env.pg now email hash name db h
  Statement-WellFormed (user_renamed now name user_id db) h =
      update_user_name-WellFormed env.pg now name user_id db h
  Statement-WellFormed (key_inserted now n bytes user_id name scopes expires_at db drawn late) h =
      insert_key-WellFormed env.pg now user_id name _ _ scopes expires_at db h
  Statement-WellFormed (key_touched now id db) h = touch_key-WellFormed env.pg now id db h
  Statement-WellFormed (key_deleted now id user_id db) h =
      delete_key-WellFormed env.pg now id user_id db h
  Statement-WellFormed (on_organizations a b s) h = OrganizationStatement-WellFormed env.pg s h

module _ {K Q : Type 0} (env : Environment K Q) where
  pub data Run : Db → Db → Type 0 where
    no_statement : (db : Db) → Run db db
    one_more : (a b c : Db) → Run a b → Statement env 0 b c → Run a c

  -- Well-formed tables stay well-formed in whatever order statements of several requests run,
  -- each of them as a whole.
  pub Run-WellFormed : {a b : Db} → Run a b → WellFormed a → WellFormed b
  Run-WellFormed (no_statement db) h = h
  Run-WellFormed (one_more a b c before statement) h =
      Statement-WellFormed env 0 statement (Run-WellFormed before h)
