-- ===== src/Auth/Service/Login.antt =====
-- Registering and logging in.
use build_api.Common.{
  ℕ, suc, String, ◌==◌, eq_refl, ◌≡◌, Bool, true, false, none, some, List, [], ◌∷◌, ◌++◌, ok, err,
  arith, inl, inr, Result-cases, ◌∙◌, sym,
}
use build_api.Common.Lists.{first_row, any_row}
use build_api.Text.{trim_space}
use build_api.Api.AuthMessages.{RegisterRequest, RegisterResponse, LoginResponse}
use build_api.World.Tables.{UserRow}
use build_api.World.External.{Environment}
use build_api.World.Effect.{World}
use build_api.Auth.Jwt.{create_access_token, create_refresh_token}
use build_api.Auth.Sql.{insert_user, select_login, select_user}
use build_api.Auth.Validation.{is_unique_violation}
use build_api.Auth.Service.{register, login, email_taken}

-- A row that is appended is the first with its property, if no row before it has it.
first_row-append {ℓ} :
    {A : Type ℓ} (p : A → Bool) (rows : List A) (a : A)
    → any_row p rows ≡ false
    → p a ≡ true
    → first_row p (rows ++ a ∷ []) ≡ some a
first_row-append p [] a h k = rw k
first_row-append p (x ∷ rows) a h k = ground (arith, first_row-append p rows a)

module _ {K Q : Type 0} (env : Environment K Q) (secret : String)
    (calm : (n : ℕ) → env.pg.outage n ≡ none) (email password : String) (w : World K) (u : UserRow)
    (given : (email == "") ≡ false) (secret_given : (password == "") ≡ false)
    (found : first_row (λ v. v.email == email) w.db.users ≡ some u)
    (matches : env.bcrypt_compare u.password_hash password ≡ true) where
  -- Who is found by the email and has the password is logged in.
  login_known :
      (l : LoginResponse) × ((login env secret (record { email = email; password = password }) w).0
        ≡ ok l)
      × (l.user.id ≡ u.id)
      × (l.user.email ≡ email)
      × (l.user.name ≡ u.name)
  unfolding login select_login select_user create_access_token create_refresh_token
  login_known =
      elim (Result-cases (login env secret (record { email = email; password = password }) w).0) [
        | inl (l, done) ↦ (
          l,
          done,
          ground (arith, calm w.step),
          ground (arith, calm w.step),
          ground (arith, calm w.step),
        )
        | inr (s, failed) ↦ absurd (ground (arith, calm w.step))
      ]

module _ {K Q : Type 0} (env : Environment K Q) (secret : String)
    (calm : (n : ℕ) → env.pg.outage n ≡ none) (req : RegisterRequest) (w : World K)
    (email : (trim_space req.email == "") ≡ false) (password : (req.password == "") ≡ false)
    (name : (trim_space req.name == "") ≡ false) (hash : String)
    (hashed : env.bcrypt_generate w.step req.password ≡ ok hash) where
  -- Without an outage, a request with an email, a password that can be hashed and a name, whose
  -- email is taken already, is refused as such and leaves the tables alone.
  pub register_taken :
      any_row (λ u. u.email == trim_space req.email) w.db.users ≡ true
      → ((register env secret req w).0 ≡ err email_taken)
        × ((register env secret req w).1.db ≡ w.db)
  unfolding register insert_user is_unique_violation
  register_taken taken = ground (arith, calm (suc w.step))

  abbrev new_row : UserRow
  new_row = record {
    id = env.pg.gen_random_uuid w.db.drawn;
    email = trim_space req.email;
    password_hash = hash;
    name = trim_space req.name;
    created_at = w.db_now;
  }

  register_new :
      any_row (λ u. u.email == trim_space req.email) w.db.users ≡ false
      → any_row (λ u. u.id == env.pg.gen_random_uuid w.db.drawn) w.db.users ≡ false
      → (r : RegisterResponse) × ((register env secret req w).0 ≡ ok r)
        × (r.user.id ≡ new_row.id)
        × (r.user.email ≡ new_row.email)
        × (r.user.name ≡ new_row.name)
        × ((register env secret req w).1.db.users ≡ w.db.users ++ new_row ∷ [])
  unfolding register insert_user select_user create_access_token create_refresh_token
  register_new unused fresh = elim (Result-cases (register env secret req w).0) [
    | inl (r, done) ↦ (
      r,
      done,
      ground (arith, calm (suc w.step)),
      ground (arith, calm (suc w.step)),
      ground (arith, calm (suc w.step)),
      ground (arith, calm (suc w.step)),
    )
    | inr (s, failed) ↦ absurd (ground (arith, calm (suc w.step)))
  ]

  -- Without an outage, a request with a new email, a password that can be hashed and a name
  -- registers a user if the database draws an identifier that no user has, and if the hash matches the password, that user can log in at once with the
  -- trimmed email and the password and is answered with the same identifier, email and name.
  pub login-register :
      any_row (λ u. u.email == trim_space req.email) w.db.users ≡ false
      → any_row (λ u. u.id == env.pg.gen_random_uuid w.db.drawn) w.db.users ≡ false
      → env.bcrypt_compare hash req.password ≡ true
      → (r : RegisterResponse) × ((register env secret req w).0 ≡ ok r)
        × ((l : LoginResponse) × ((login env secret
                (record { email = trim_space req.email; password = req.password })
                (register env secret req w).1).0
              ≡ ok l)
            × (l.user.id ≡ r.user.id)
            × (l.user.email ≡ r.user.email)
            × (l.user.name ≡ r.user.name))
  login-register unused fresh matches =
      let (r, done, same_id, same_email, same_name, users) = register_new unused fresh in
      let found =
        first_row-append (λ u. u.email == trim_space req.email) w.db.users new_row unused
          (eq_refl (trim_space req.email)) in
      let (l, answered, id, mail, label) =
        login_known env secret calm (trim_space req.email) req.password
          (register env secret req w).1 new_row email password (rw users found) matches in
      (r, done, (l, answered, id ∙ sym same_id, mail ∙ sym same_email, label ∙ sym same_name))
