-- ===== src/Invariant/Revoked.antt =====
-- An API key that was revoked, in all that follows.
use build_api.Common.{
  ℕ, ◌≤◌, eq_false, String, ◌==◌, eq_iff, eq_refl, ◌≡◌, ◌≢◌, refl, sym, subst, Bool, true, false,
  not, ◌&&◌, some, none, List, [], ◌∷◌, ok, err, arith, Result-cases, Bool-cases, inl, inr, Option,
  ◌∙◌,
}
use mathlib.Core.Option.{some-injective}
use build_api.Common.Lists.{any_row, first_row, where_rows}
use build_api.Text.{trim_space}
use build_api.Api.AuthMessages.{RevokeUserApiKeyRequest}
use build_api.World.Tables.{Db, KeyRow}
use build_api.World.External.{Environment}
use build_api.World.Effect.{World}
use build_api.Auth.Context.{Context, user_id_from_context}
use build_api.Auth.Keys.{
  hash_api_key_token, key_of_bytes, touch_key, lookup_api_key, select_live_key, is_live,
}
use build_api.Auth.Middleware.{authenticate, looks_like_jwt, bad_token}
use build_api.Auth.Service.{revoke_user_api_key}
use build_api.Auth.Service.KeyLife.{revoke_user_api_key-cases}
use build_api.Auth.Sql.{insert_user, update_user_name, insert_key, delete_key, is_key_of}
use build_api.Organizations.Sql.{insert_org, insert_owner, delete_org}
use build_api.Organizations.Update.{update_org}
use build_api.Invariant.Rows.{Apart, same_by, any_row-snoc, any_row-where_rows, any_row-map}
use build_api.Invariant.Tables.{WellFormed}
use build_api.Invariant.Runs.{
  Statement, OrganizationStatement, user_inserted, user_renamed, key_inserted, key_touched,
  key_deleted, on_organizations, org_inserted, owner_inserted, org_updated, org_deleted,
}
use build_api.Invariant.Served.{serve_call-closed}
use build_api.Server.{ServerCall, serve_call}
use build_api.Server.Steps.{serve_call-step}

-- The test of a key's hash.
abbrev pub has_hash : String → KeyRow → Bool
has_hash hash k = k.key_hash == hash

-- No key has the hash.
abbrev NoKey : String → Db → Type 0
NoKey hash db = any_row (has_hash hash) db.keys ≡ false

any_row-agree :
    (hash : String) (x : KeyRow) (rows : List KeyRow)
    → (x.key_hash == hash) ≡ true
    → any_row (same_by (λ k. k.key_hash) x) rows ≡ any_row (has_hash hash) rows
any_row-agree hash x rows h = rw ((eq_iff x.key_hash hash).0 h)

abbrev Purged : String → List KeyRow → KeyRow → Type 0
Purged hash rows k =
    any_row (has_hash hash) (where_rows (λ r. not (is_key_of k.id k.user_id r)) rows) ≡ false

removed-first :
    (hash : String) (x : KeyRow) (rows : List KeyRow)
    → any_row (has_hash hash) rows ≡ false
    → Purged hash (x ∷ rows) x
removed-first hash x rows h =
    rw (eq_refl x.id, eq_refl x.user_id)
      (any_row-where_rows (has_hash hash) (λ r. not (is_key_of x.id x.user_id r)) rows h)

first_row-here :
    (p : KeyRow → Bool) (x k : KeyRow) (rows : List KeyRow)
    → first_row p (x ∷ rows) ≡ some k
    → p x ≡ true
    → x ≡ k
first_row-here p x k rows found here = some-injective x k (rw here at found)

-- Where hashes are apart, removing the key with the hash leaves none with it.
removed-NoKey :
    (hash : String) (rows : List KeyRow) (k : KeyRow)
    → Apart (same_by (λ r. r.key_hash)) rows
    → first_row (has_hash hash) rows ≡ some k
    → Purged hash rows k
removed-NoKey hash [] k h found = cc
removed-NoKey hash (x ∷ rows) k (here, h) found = elim (Bool-cases (x.key_hash == hash)) [
  | inl same ↦
      subst (Purged hash (x ∷ rows)) (first_row-here (has_hash hash) x k rows found same)
        (removed-first hash x rows (sym (any_row-agree hash x rows same) ∙ here))
  | inr other ↦ ground (arith, removed-NoKey hash rows k h)
]

module _ {K Q : Type 0} (env : Environment K Q) (hash : String) where
  OrganizationStatement-NoKey :
      {a b : Db} → NoKey hash a → OrganizationStatement env.pg a b → NoKey hash b
  unfolding insert_org insert_owner update_org delete_org
  OrganizationStatement-NoKey h (org_inserted now name slug plan db) = ground arith
  OrganizationStatement-NoKey h (owner_inserted now user_id org_id db) = ground arith
  OrganizationStatement-NoKey h (org_updated clauses args db) = ground arith
  OrganizationStatement-NoKey h (org_deleted now org_id db) = ground arith

  insert_key-NoKey :
      (now : ℕ) (user_id name prefix other : String) (scopes : List String) (expires_at : Option ℕ)
      (db : Db)
      → other ≢ hash
      → NoKey hash db
      → NoKey hash (insert_key env.pg now user_id name prefix other scopes expires_at db).1
  unfolding insert_key
  insert_key-NoKey now user_id name prefix other scopes expires_at db differs h =
      elim (Result-cases (env.pg.uuid_in user_id)) [
        | inr (e, bad) ↦ ground arith
        | inl (uid, user) ↦
            let row : KeyRow = record {
              id = env.pg.gen_random_uuid db.drawn;
              user_id = uid;
              name = name;
              key_prefix = prefix;
              key_hash = other;
              scopes = scopes;
              created_at = now;
              last_used_at = none;
              expires_at = expires_at;
            } in
            ground (
              arith,
              any_row-snoc (λ (r k : KeyRow). has_hash hash k) row row db.keys h
                  (eq_false other hash differs),
            )
      ]

  delete_key-NoKey :
      (now : ℕ) (id user_id : String) (db : Db)
      → NoKey hash db
      → NoKey hash (delete_key env.pg now id user_id db).1
  unfolding delete_key
  delete_key-NoKey now id user_id db h = elim (Result-cases (env.pg.uuid_in id)) [
    | inr (e, bad) ↦ ground arith
    | inl (kid, known) ↦ elim (Result-cases (env.pg.uuid_in user_id)) [
      | inr (e, bad) ↦ ground arith
      | inl (uid, user) ↦
          ground
            (arith, any_row-where_rows (has_hash hash) (λ k. not (is_key_of kid uid k)) db.keys h)
    ]
  ]

  -- No statement makes a key with the hash, if no random bytes that it may use do.
  Statement-NoKey :
      (from : ℕ)
      → ((n : ℕ) (bytes : List ℕ)
          → from ≤ n
          → env.random_read n ≡ ok bytes
          → hash_api_key_token env (key_of_bytes env bytes).0 ≢ hash)
      → (a b : Db) → NoKey hash a
      → Statement env from a b
      → NoKey hash b
  unfolding insert_user update_user_name touch_key
  Statement-NoKey from new a b h (user_inserted now email hash' name db) = ground arith
  Statement-NoKey from new a b h (user_renamed now name user_id db) = ground arith
  Statement-NoKey from new a b h
        (key_inserted now n bytes user_id name scopes expires_at db drawn late) =
      insert_key-NoKey now user_id name _ _ scopes expires_at db (new n bytes late drawn) h
  Statement-NoKey from new a b h (key_touched now id db) =
      any_row-map (has_hash hash) (has_hash hash) _ a.keys (λ x. ground arith) ∙ h
  Statement-NoKey from new a b h (key_deleted now id user_id db) =
      delete_key-NoKey now id user_id db h
  Statement-NoKey from new a b h (on_organizations _ _ s) = OrganizationStatement-NoKey h s

module _ {K Q : Type 0} (env : Environment K Q) (secret : String) (token : String) where
  abbrev token_hash : String
  token_hash = hash_api_key_token env token

  -- No random bytes that are drawn at a step or later make the token's hash.
  abbrev pub Unrepeated : ℕ → Type 0
  Unrepeated from =
      (n : ℕ) (bytes : List ℕ)
      → from ≤ n
      → env.random_read n ≡ ok bytes
      → hash_api_key_token env (key_of_bytes env bytes).0 ≢ token_hash

  -- What comes after a state: the server serves a call, with any context, request and outcome; or
  -- something happens that leaves the tables alone and draws no random bytes a second time.
  pub data Later (w : World K) : World K → Type 0 where
    at_once : Later w w
    after_call :
        (ctx : Context) (c : ServerCall) (u : World K)
        → Later w u
        → Later w (serve_call env secret ctx c u).1
    after_other : (u v : World K) → Later w u → v.db ≡ u.db → u.step ≤ v.step → Later w v

  Later-step : {w v : World K} → Later w v → w.step ≤ v.step
  Later-step at_once = omega arith
  Later-step (after_call ctx c u before) =
      let h = Later-step before in let k = serve_call-step env secret ctx c u in omega arith
  Later-step (after_other u v before same k) = let h = Later-step before in omega arith

  Later-NoKey :
      {w v : World K}
      → Unrepeated w.step
      → Later w v
      → NoKey token_hash w.db
      → NoKey token_hash v.db
  Later-NoKey new at_once h = h
  Later-NoKey {w} new (after_call ctx c u before) h =
      serve_call-closed env secret (NoKey token_hash) w.step
        (Statement-NoKey env token_hash w.step new) ctx c u (Later-NoKey new before h)
        (Later-step before)
  Later-NoKey new (after_other u v before same _) h =
      subst (NoKey token_hash) (sym same) (Later-NoKey new before h)

  none-live :
      (q : KeyRow → Bool) (rows : List KeyRow)
      → any_row (has_hash token_hash) rows ≡ false
      → first_row (λ k. k.key_hash == token_hash && q k) rows ≡ none
  none-live q [] h = refl
  none-live q (k ∷ rows) h = ground (arith, none-live q rows)

  authenticate-NoKey :
      (w : World K)
      → looks_like_jwt token ≡ false
      → NoKey token_hash w.db
      → (authenticate env secret token w).0 ≡ err bad_token
  unfolding authenticate lookup_api_key select_live_key
  authenticate-NoKey w opaque gone =
      ground (arith, none-live (λ k. is_live w.db_now k.expires_at) w.db.keys gone)

  revoked-NoKey :
      (ctx : Context) (req : RevokeUserApiKeyRequest) (k : KeyRow) (w : World K)
      → WellFormed w.db
      → first_row (has_hash token_hash) w.db.keys ≡ some k
      → env.pg.uuid_in (trim_space req.id) ≡ ok k.id
      → env.pg.uuid_in (user_id_from_context ctx) ≡ ok k.user_id
      → (revoke_user_api_key env secret ctx req w).0 ≡ ok tt
      → NoKey token_hash (revoke_user_api_key env secret ctx req w).1.db
  revoked-NoKey ctx req k w formed held key user done =
      elim (revoke_user_api_key-cases env secret ctx req w) [
        | inl (s, failed, _) ↦ absurd (ground arith)
        | inr (kid, uid, key', user', _, _, left) ↦
            let this : kid ≡ k.id = cc in
            let their : uid ≡ k.user_id = cc in
            let gone = removed-NoKey token_hash w.db.keys k formed.hashes held in
            rw (left, this, their) gone
      ]

  -- A key that its user revoked is refused from then on: in well-formed tables, where the token's
  -- hash is that of a key, a request of the key's user to revoke the key that is answered without an
  -- error leaves states in which, after any further calls, the token is answered by Unauthenticated, if
  -- no random bytes that are drawn after the revocation make a token with the same hash. The token is
  -- not in the form of a JWT.
  pub authenticate-revoke :
      (ctx : Context) (req : RevokeUserApiKeyRequest) (k : KeyRow) (w v : World K)
      → WellFormed w.db
      → first_row (has_hash token_hash) w.db.keys ≡ some k
      → env.pg.uuid_in (trim_space req.id) ≡ ok k.id
      → env.pg.uuid_in (user_id_from_context ctx) ≡ ok k.user_id
      → (revoke_user_api_key env secret ctx req w).0 ≡ ok tt
      → Unrepeated (revoke_user_api_key env secret ctx req w).1.step
      → looks_like_jwt token ≡ false
      → Later (revoke_user_api_key env secret ctx req w).1 v
      → (authenticate env secret token v).0 ≡ err bad_token
  authenticate-revoke ctx req k w v formed held key user done new opaque later =
      authenticate-NoKey v opaque
        (Later-NoKey new later (revoked-NoKey ctx req k w formed held key user done))
