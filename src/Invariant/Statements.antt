-- ===== src/Invariant/Statements.antt =====
-- Well-formed tables across the SQL statements that change one.
use build_api.Common.{
  ℕ, String, ◌==◌, eq_iff, true, false, not, Bool-cases, Result-cases, inl, inr, ◌≡◌, refl, ◌∙◌,
  List, map, arith, Result, Option, Option-cases,
}
use build_api.Common.Lists.{any_row, where_rows, All-append}
use build_api.World.Tables.{Db, DbError}
use build_api.World.External.{Postgres}
use build_api.World.Sql.{is_membership, with_uuid}
use build_api.Auth.Keys.{touch_key}
use build_api.Auth.Sql.{insert_user, update_user_name, insert_key, delete_key, is_key_of}
use build_api.Organizations.Sql.{insert_org, insert_owner, delete_org}
use build_api.Organizations.Update.{
  Column, placeholder, bind_clauses, update_org, clashes, assign_at,
}
use build_api.Invariant.Rows.{
  Apart-snoc, Apart-where_rows, Apart-map, any_row-append, any_row-map, any_row-kept, All-kept,
  All-map, same_by, same_by_sym,
}
use build_api.Invariant.Tables.{
  WellFormed, same_pair, same_pair_sym, has_user, has_org, with_users, with_keys, with_orgs,
  with_orgs_members,
}
use build_api.Invariant.Slugs.{assign_at-id, Apart-assign}

abbrev pub Keeps : {R : Type 0} → (Db → R × Db) → Type 0
Keeps f = (db : Db) → WellFormed db → WellFormed (f db).1

module _ (pg : Postgres) (now : ℕ) where
  with_uuid-WellFormed :
      {R : Type 0}
      → (text : String) (k : String → Result DbError R × Db) (db : Db) → WellFormed db
      → ((id : String) → WellFormed (k id).1)
      → WellFormed (with_uuid pg text k db).1
  with_uuid-WellFormed text k db h f = elim (Result-cases (pg.uuid_in text)) [
    | inr (e, bad) ↦ rw (bad, with_uuid) h
    | inl (id, known) ↦ rw (known, with_uuid) (f id)
  ]

  pub insert_user-WellFormed :
      (email hash name : String) → Keeps (insert_user pg now email hash name)
  unfolding insert_user
  insert_user-WellFormed email hash name db h =
      elim (Bool-cases (any_row (λ u. u.email == email) db.users)) [
        | inl taken ↦ rw taken h
        | inr unused ↦ elim (Bool-cases (has_user db.users (pg.gen_random_uuid db.drawn))) [
          | inl drawn_before ↦ rw (unused, drawn_before) h
          | inr fresh ↦
              rw (unused, fresh)
                (with_users db _ h _
                  (Apart-snoc (same_by (λ u. u.id)) (same_by_sym (λ u. u.id)) db.users _ fresh
                    h.user_ids)
                  (Apart-snoc (same_by (λ u. u.email)) (same_by_sym (λ u. u.email)) db.users _
                    unused h.emails)
                  (λ uid known. any_row-append (λ u. u.id == uid) db.users _ known))
        ]
      ]

  pub touch_key-WellFormed : (id : String) → Keeps (touch_key now id)
  unfolding touch_key
  touch_key-WellFormed id db h =
      with_keys db _ h _ (Apart-map (same_by (λ k. k.id)) _ db.keys (λ k j. ground arith) h.key_ids)
        (Apart-map (same_by (λ k. k.key_hash)) _ db.keys (λ k j. ground arith) h.hashes)
        (All-map (λ k. has_user db.users k.user_id ≡ true) _ db.keys (λ k known. ground arith)
          h.key_users)

  pub delete_key-WellFormed : (id user_id : String) → Keeps (delete_key pg now id user_id)
  unfolding delete_key
  delete_key-WellFormed id user_id db h = with_uuid-WellFormed id _ db h λ kid.
      with_uuid-WellFormed user_id _ db h λ uid.
        with_keys db _ h (where_rows (λ k. not (is_key_of kid uid k)) db.keys)
          (Apart-where_rows (same_by (λ k. k.id)) _ db.keys h.key_ids)
          (Apart-where_rows (same_by (λ k. k.key_hash)) _ db.keys h.hashes)
          (All-kept _ db.keys (λ k kept known. known) h.key_users)

  pub insert_key-WellFormed :
      (user_id name prefix hash : String) (scopes : List String) (expires_at : Option ℕ)
      → Keeps (insert_key pg now user_id name prefix hash scopes expires_at)
  unfolding insert_key
  insert_key-WellFormed user_id name prefix hash scopes expires_at db h =
      with_uuid-WellFormed user_id _ db h λ uid.
        elim (Bool-cases (any_row (λ k. k.key_hash == hash) db.keys)) [
          | inl taken ↦ rw taken h
          | inr unused ↦
              elim (Bool-cases (any_row (λ k. k.id == pg.gen_random_uuid db.drawn) db.keys)) [
                | inl drawn_before ↦ rw (unused, drawn_before) h
                | inr fresh ↦ elim (Bool-cases (has_user db.users uid)) [
                  | inr missing ↦ rw (unused, fresh, missing) h
                  | inl known ↦
                      rw (unused, fresh, known)
                        (with_keys db _ h _
                          (Apart-snoc (same_by (λ k. k.id)) (same_by_sym (λ k. k.id)) db.keys _
                            fresh h.key_ids)
                          (Apart-snoc (same_by (λ k. k.key_hash)) (same_by_sym (λ k. k.key_hash))
                            db.keys _ unused h.hashes)
                          (All-append (λ k. has_user db.users k.user_id ≡ true) db.keys _
                            h.key_users (known, tt)))
                ]
              ]
        ]

  pub update_user_name-WellFormed :
      (name user_id : String) → Keeps (update_user_name pg now name user_id)
  unfolding update_user_name
  update_user_name-WellFormed name user_id db h = with_uuid-WellFormed user_id _ db h λ uid.
      with_users db _ h _
        (Apart-map (same_by (λ u. u.id)) _ db.users (λ u v. ground arith) h.user_ids)
        (Apart-map (same_by (λ u. u.email)) _ db.users (λ u v. ground arith) h.emails)
        (λ x known.
          any_row-map (λ u. u.id == x) (λ u. u.id == x) _ db.users (λ u. ground arith) ∙ known)

  pub insert_org-WellFormed : (name slug plan : String) → Keeps (insert_org pg now name slug plan)
  unfolding insert_org
  insert_org-WellFormed name slug plan db h =
      elim (Bool-cases (any_row (λ o. o.slug == slug) db.organizations)) [
        | inl taken ↦ rw taken h
        | inr unused ↦ elim (Bool-cases (has_org db.organizations (pg.gen_random_uuid db.drawn))) [
          | inl drawn_before ↦ rw (unused, drawn_before) h
          | inr fresh ↦
              rw (unused, fresh)
                (with_orgs db _ h _
                  (Apart-snoc (same_by (λ o. o.id)) (same_by_sym (λ o. o.id)) db.organizations _
                    fresh h.org_ids)
                  (Apart-snoc (same_by (λ o. o.slug)) (same_by_sym (λ o. o.slug)) db.organizations _
                    unused h.slugs)
                  (λ oid known. any_row-append (λ o. o.id == oid) db.organizations _ known))
        ]
      ]

  pub insert_owner-WellFormed :
      (user_id org_id : String) → Keeps (insert_owner pg now user_id org_id)
  unfolding insert_owner
  insert_owner-WellFormed user_id org_id db h = with_uuid-WellFormed user_id _ db h λ uid.
      with_uuid-WellFormed org_id _ db h λ oid.
        elim (Bool-cases (any_row (is_membership uid oid) db.members)) [
          | inl taken ↦ rw taken h
          | inr unused ↦ elim (Bool-cases (has_user db.users uid)) [
            | inr missing ↦ rw (unused, missing) h
            | inl user ↦ elim (Bool-cases (has_org db.organizations oid)) [
              | inr missing ↦ rw (unused, user, missing) h
              | inl org ↦
                  rw (unused, user, org)
                    (with_orgs_members db _ h db.organizations _ h.org_ids h.slugs
                      (Apart-snoc same_pair same_pair_sym db.members _ unused h.pairs)
                      (All-append (λ m. has_user db.users m.user_id ≡ true) db.members _
                        h.member_users (user, tt))
                      (All-append (λ m. has_org db.organizations m.organization_id ≡ true)
                        db.members _ h.member_orgs (org, tt)))
            ]
          ]
        ]

  pub delete_org-WellFormed : (org_id : String) → Keeps (delete_org pg now org_id)
  unfolding delete_org
  delete_org-WellFormed org_id db h = with_uuid-WellFormed org_id _ db h λ oid.
      with_orgs_members db _ h _ _
        (Apart-where_rows (same_by (λ o. o.id)) _ db.organizations h.org_ids)
        (Apart-where_rows (same_by (λ o. o.slug)) _ db.organizations h.slugs)
        (Apart-where_rows same_pair _ db.members h.pairs)
        (All-kept _ db.members (λ m kept known. known) h.member_users)
        (All-kept _ db.members
          (λ m kept known.
            any_row-kept (λ o. o.id == m.organization_id) (λ o. not (o.id == oid)) db.organizations
              (λ o same. ground (arith, eq_iff o.id m.organization_id, eq_iff o.id oid)) known)
          h.member_orgs)

  with_update :
      (oid : String) (bound : List (Column × String)) (db : Db)
      → WellFormed db
      → clashes oid bound db.organizations ≡ false
      → WellFormed (record db { organizations = map (assign_at oid bound) db.organizations })
  with_update oid bound db h free =
      with_orgs db _ h _
        (Apart-map (same_by (λ o. o.id)) _ db.organizations
          (λ o q. rw (assign_at-id oid bound o, assign_at-id oid bound q) refl) h.org_ids)
        (Apart-assign oid bound db.organizations h.org_ids h.slugs free)
        (λ x known.
          any_row-map (λ o. o.id == x) (λ o. o.id == x) _ db.organizations
            (λ o. rw (assign_at-id oid bound o) refl)
          ∙ known)

  pub update_org-WellFormed :
      (clauses : List (Column × ℕ)) (args : List String) → Keeps (update_org pg clauses args)
  unfolding update_org
  update_org-WellFormed clauses args db h = elim (Option-cases (placeholder args 1)) [
    | inl none_given ↦ rw none_given h
    | inr (id, given) ↦ rw given (
        with_uuid-WellFormed id _ db h λ oid. elim (Option-cases (bind_clauses args clauses)) [
          | inl unbound ↦ rw unbound h
          | inr (bound, found) ↦ elim (Bool-cases (clashes oid bound db.organizations)) [
            | inl clash ↦ rw (found, clash) h
            | inr free ↦ rw (found, free) (with_update oid bound db h free)
          ]
        ])
  ]
