-- ===== src/Auth/Service/KeyLife.antt =====
-- The life of an API key: created, used, revoked.
use Prim.Native.String.{[], ◌∷◌}
use build_api.Common.{
  ℕ, suc, String, ◌==◌, eq_refl, ◌≡◌, refl, Bool, true, false, not, ◌&&◌, ◌=?◌, Option, none, some,
  List, [], ◌∷◌, ◌++◌, ok, err, arith, Result-cases, inl, inr, ◌⊎◌,
}
use build_api.Common.Lists.{any_row, first_row, where_rows, length}
use build_api.Text.{trim_space, has_prefix}
use build_api.Api.AuthMessages.{
  CreateUserApiKeyRequest, CreateUserApiKeyResponse, RevokeUserApiKeyRequest,
}
use build_api.World.Tables.{KeyRow}
use build_api.World.External.{Environment}
use build_api.World.Effect.{World}
use build_api.Status.{Status}
use build_api.Auth.Context.{Context, user_id_from_context}
use build_api.Auth.Keys.{
  generate_user_api_key, key_of_bytes, hash_api_key_token, lookup_api_key, select_live_key, is_live,
}
use build_api.Auth.Middleware.{authenticate, looks_like_jwt}
use build_api.Auth.Encoding.Shape.{key_of_bytes-shape}
use build_api.Auth.Sql.{insert_key, delete_key, is_key_of}
use build_api.Auth.Validation.{check_scopes, expiry_of}
use build_api.Auth.Service.{create_user_api_key, revoke_user_api_key}

-- The newest key is found by its hash while it lives, if no key before it has that hash.
first-live {ℓ} :
    {A : Type ℓ} (p q : A → Bool) (rows : List A) (a : A)
    → any_row p rows ≡ false
    → p a ≡ true
    → q a ≡ true
    → first_row (λ x. p x && q x) (rows ++ a ∷ []) ≡ some a
first-live p q [] a h k l = rw (k, l)
first-live p q (x ∷ rows) a h k l = ground (arith, first-live p q rows a)

length-where_rows {ℓ} :
    {A : Type ℓ} (p : A → Bool) (rows : List A)
    → (length (where_rows p rows) =? 0) ≡ not (any_row p rows)
length-where_rows p [] = refl
length-where_rows p (x ∷ rows) = ground (arith, length-where_rows p rows)

where_rows-none {ℓ} :
    {A : Type ℓ} (p : A → Bool) (rows : List A)
    → length (where_rows p rows) ≡ 0
    → where_rows (λ x. not (p x)) rows ≡ rows
where_rows-none p [] h = refl
where_rows-none p (x ∷ rows) h = ground (arith, where_rows-none p rows)

module _ {K Q : Type 0} (env : Environment K Q) (secret : String) where
  -- A token of the right shape whose hash belongs to a live row authenticates as the row's user
  -- with the row's scopes.
  pub authenticate-key :
      (token : String) (k : KeyRow) (w : World K)
      → looks_like_jwt token ≡ false
      → has_prefix token "bh_" ≡ true
      → (token == "") ≡ false
      → env.pg.outage w.step ≡ none
      → first_row
          (λ r. r.key_hash == hash_api_key_token env token && is_live w.db_now r.expires_at)
          w.db.keys
        ≡ some k
      → (authenticate env secret token w).0
        ≡ ok (record { user_id = k.user_id; full_access = false; scopes = k.scopes })
  unfolding authenticate lookup_api_key select_live_key
  authenticate-key token k w plain prefix filled up found = ground arith

  -- A request to revoke a key either fails and leaves the tables alone, or it is answered without an
  -- error, the caller has a key with the identifier, and the caller's keys with the identifier are
  -- removed and no other row of any table.
  pub revoke_user_api_key-cases :
      (ctx : Context) (req : RevokeUserApiKeyRequest) (w : World K)
      → ((s : Status) × ((revoke_user_api_key env secret ctx req w).0 ≡ err s)
          × ((revoke_user_api_key env secret ctx req w).1.db ≡ w.db))
        ⊎ ((kid : String) × (uid : String) × (env.pg.uuid_in (trim_space req.id) ≡ ok kid)
            × (env.pg.uuid_in (user_id_from_context ctx) ≡ ok uid)
            × ((revoke_user_api_key env secret ctx req w).0 ≡ ok tt)
            × (any_row (is_key_of kid uid) w.db.keys ≡ true)
            × ((revoke_user_api_key env secret ctx req w).1.db
                ≡ record w.db { keys = where_rows (λ k. not (is_key_of kid uid k)) w.db.keys }))
  unfolding revoke_user_api_key delete_key
  revoke_user_api_key-cases ctx req w =
      elim (Result-cases (revoke_user_api_key env secret ctx req w).0) [
        | inr (s, failed) ↦ inl (s, failed, kept s failed)
        | inl (_, done) ↦ elim (Result-cases (env.pg.uuid_in (trim_space req.id))) [
          | inr (e, bad) ↦ absurd (ground arith)
          | inl (kid, key) ↦ elim (Result-cases (env.pg.uuid_in (user_id_from_context ctx))) [
            | inr (e, bad) ↦ absurd (ground arith)
            | inl (uid, user) ↦
                let held : any_row (is_key_of kid uid) w.db.keys ≡ true =
                  ground (arith, length-where_rows (is_key_of kid uid) w.db.keys) in
                inr (kid, uid, key, user, done, held, ground arith)
          ]
        ]
      ]
    where
      kept :
          (s : Status)
          → (revoke_user_api_key env secret ctx req w).0 ≡ err s
          → (revoke_user_api_key env secret ctx req w).1.db ≡ w.db
      kept s failed = elim (Result-cases (env.pg.uuid_in (trim_space req.id))) [
        | inr (e, bad) ↦ ground arith
        | inl (kid, key) ↦ elim (Result-cases (env.pg.uuid_in (user_id_from_context ctx))) [
          | inr (e, bad) ↦ ground arith
          | inl (uid, user) ↦ ground (arith, where_rows-none (is_key_of kid uid) w.db.keys)
        ]
      ]

module _ {K Q : Type 0} (env : Environment K Q) (secret : String) (ctx : Context)
    (req : CreateUserApiKeyRequest) (w : World K) (uid : String) (expires_at : Option ℕ)
    (bytes : List ℕ) (user : (user_id_from_context ctx == "") ≡ false)
    (name : (trim_space req.name == "") ≡ false) (some_scope : (length req.scopes =? 0) ≡ false)
    (scopes : check_scopes [] req.scopes ≡ ok tt)
    (lifetime : expiry_of w.now req.expires_in_days ≡ ok expires_at)
    (drawn : env.random_read w.step ≡ ok bytes) (calm : (n : ℕ) → env.pg.outage n ≡ none)
    (known : env.pg.uuid_in (user_id_from_context ctx) ≡ ok uid)
    (exists : any_row (λ u. u.id == uid) w.db.users ≡ true)
    (fresh : any_row (λ k. k.id == env.pg.gen_random_uuid w.db.drawn) w.db.keys ≡ false)
    (unused : any_row
        (λ k. k.key_hash == hash_api_key_token env (key_of_bytes env bytes).0)
        w.db.keys
      ≡ false) where
  abbrev key_row : KeyRow
  key_row = record {
    id = env.pg.gen_random_uuid w.db.drawn;
    user_id = uid;
    name = trim_space req.name;
    key_prefix = (key_of_bytes env bytes).1;
    key_hash = hash_api_key_token env (key_of_bytes env bytes).0;
    scopes = req.scopes;
    created_at = w.db_now;
    last_used_at = none;
    expires_at = expires_at;
  }

  created :
      (r : CreateUserApiKeyResponse) × ((create_user_api_key env secret ctx req w).0 ≡ ok r)
      × (r.token ≡ (key_of_bytes env bytes).0)
      × ((create_user_api_key env secret ctx req w).1.db.keys ≡ w.db.keys ++ key_row ∷ [])
  unfolding create_user_api_key generate_user_api_key insert_key
  created = elim (Result-cases (create_user_api_key env secret ctx req w).0) [
    | inl (r, done) ↦
        (r, done, ground (arith, calm (suc w.step)), ground (arith, calm (suc w.step)))
    | inr (s, failed) ↦ absurd (ground (arith, calm (suc w.step)))
  ]

  -- Without an outage, a signed-in user of the table whose request has a name, at least one scope,
  -- scopes that pass the check and a lifetime that is accepted gets a key, if the random bytes are
  -- drawn and no key has the new token's hash or the drawn identifier yet. The token of the answer then authenticates that
  -- user with the scopes of the request, at any time of the database's clock at which the key lives.
  pub authenticate-create :
      (later : ℕ)
      → is_live later expires_at ≡ true
      → (r : CreateUserApiKeyResponse) × ((create_user_api_key env secret ctx req w).0 ≡ ok r)
        × ((authenticate env secret r.token
              (record (create_user_api_key env secret ctx req w).1 { db_now = later })).0
            ≡ ok (record { user_id = uid; full_access = false; scopes = req.scopes }))
  authenticate-create later lives =
      let (r, done, same, keys) = created in
      let (plain, prefix, filled) = key_of_bytes-shape env bytes in
      let found =
        first-live (λ k. k.key_hash == hash_api_key_token env (key_of_bytes env bytes).0)
          (λ k. is_live later k.expires_at) w.db.keys key_row unused (eq_refl key_row.key_hash)
          lives in
      (
        r,
        done,
        rw same (
            authenticate-key env secret (key_of_bytes env bytes).0 key_row
              (record (create_user_api_key env secret ctx req w).1 { db_now = later }) plain prefix
              filled (calm _) (rw keys found)),
      )
