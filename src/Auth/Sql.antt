-- ===== src/Auth/Sql.antt =====
-- The SQL statements of internal/auth/handler.go.
use build_api.Common.{
  ℕ, suc, String, ◌==◌, Bool, ◌&&◌, ◌||◌, not, Option, none, List, [], ◌∷◌, ◌++◌, Result, ok,
  if◌then◌else◌, map,
}
use build_api.Common.Lists.{first_row, any_row, where_rows, length}
use build_api.World.Tables.{Db, UserRow, KeyRow, DbError}
use build_api.World.External.{Postgres}
use build_api.World.Sql.{with_uuid, one_row, violation, unique_violation, foreign_key_violation}

abbrev pub is_key_of : String → String → KeyRow → Bool
is_key_of kid uid k = k.id == kid && k.user_id == uid

module _ (pg : Postgres) (db_now : ℕ) where
  -- INSERT INTO users (email, password_hash, name) VALUES ($1, $2, $3) RETURNING id
  unfoldable pub insert_user : String → String → String → Db → Result DbError String × Db
  insert_user email hash name db =
      let id = pg.gen_random_uuid db.drawn in
      if any_row (λ u. u.email == email) db.users || any_row (λ u. u.id == id) db.users
      then (violation pg unique_violation, db)
      else (let row : UserRow = record {
        id = id;
        email = email;
        password_hash = hash;
        name = name;
        created_at = db_now;
      } in
          (ok id, record db { users = db.users ++ row ∷ []; drawn = suc db.drawn }))

  -- SELECT ... FROM users WHERE id = $1, the four columns that the statements choose from
  unfoldable pub select_user : String → Db → Result DbError UserRow × Db
  select_user user_id db =
      with_uuid pg user_id (λ uid. (one_row (first_row (λ u. u.id == uid) db.users), db)) db

  -- SELECT id, name, password_hash FROM users WHERE email = $1
  unfoldable pub select_login : String → Db → Result DbError UserRow × Db
  select_login email db = (one_row (first_row (λ u. u.email == email) db.users), db)

  abbrev renamed : String → String → UserRow → UserRow
  renamed name uid u = if u.id == uid then record u { name = name } else u

  -- UPDATE users SET name = $1 WHERE id = $2, with the number of rows affected
  unfoldable pub update_user_name : String → String → Db → Result DbError ℕ × Db
  update_user_name name user_id db =
      with_uuid pg user_id
        (λ uid. (
          ok (length (where_rows (λ u. u.id == uid) db.users)),
          record db { users = map (renamed name uid) db.users },
        ))
        db

  -- INSERT INTO user_api_keys (...) VALUES (...) RETURNING id, created_at, expires_at
  unfoldable pub insert_key :
      String → String → String → String → List String → Option ℕ → Db → Result DbError KeyRow × Db
  insert_key user_id name prefix hash scopes expires_at db =
      with_uuid pg user_id
        (λ uid.
          let id = pg.gen_random_uuid db.drawn in
          if any_row (λ k. k.key_hash == hash) db.keys || any_row (λ k. k.id == id) db.keys
          then (violation pg unique_violation, db)
          else if not (any_row (λ u. u.id == uid) db.users)
          then (violation pg foreign_key_violation, db)
          else (let row : KeyRow = record {
            id = id;
            user_id = uid;
            name = name;
            key_prefix = prefix;
            key_hash = hash;
            scopes = scopes;
            created_at = db_now;
            last_used_at = none;
            expires_at = expires_at;
          } in
              (ok row, record db { keys = db.keys ++ row ∷ []; drawn = suc db.drawn })))
        db

  -- SELECT ... FROM user_api_keys WHERE user_id = $1 ORDER BY created_at DESC
  unfoldable pub select_keys : String → Db → Result DbError (List KeyRow) × Db
  select_keys user_id db =
      with_uuid pg user_id
        (λ uid. (ok (pg.order_by_created_at_desc (where_rows (λ k. k.user_id == uid) db.keys)), db))
        db

  -- DELETE FROM user_api_keys WHERE id = $1 AND user_id = $2, with the number of rows affected
  unfoldable pub delete_key : String → String → Db → Result DbError ℕ × Db
  delete_key id user_id db =
      with_uuid pg id
        (λ kid.
          with_uuid pg user_id
            (λ uid. (
              ok (length (where_rows (is_key_of kid uid) db.keys)),
              record db { keys = where_rows (λ k. not (is_key_of kid uid k)) db.keys },
            ))
            db)
        db
