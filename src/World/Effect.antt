-- ===== src/World/Effect.antt =====
-- Handlers as actions: an action gives a value or a status, and the state it leaves behind, also
-- where it fails. `step` counts the calls of outside services.
use build_api.Common.{
  ℕ, suc, none, some, Result, ok, err, Bool, true, false, ◌≡◌, inl, inr, arith, Result-cases,
}
use build_api.Status.{Status}
use build_api.World.Tables.{Db, DbError}
use build_api.World.External.{Environment}

-- `now` is the clock of the server's process, `db_now` that of the database.
pub record World (K : Type 0) : Type 0 where
  pub db : Db
  pub cluster : K
  pub now : ℕ
  pub db_now : ℕ
  pub step : ℕ

abbrev pub Action : Type 0 → Type 0 → Type 0
Action K A = World K → Result Status A × World K

abbrev continue : {K A B : Type 0} → Result Status A → (A → Action K B) → Action K B
continue r f w = elim r [ ok a ↦ f a w | err s ↦ (err s, w) ]

infixl 5 ◌>>=◌ ◌>>◌
abbrev pub ◌>>=◌ : {K A B : Type 0} → Action K A → (A → Action K B) → Action K B
◌>>=◌ m f w = let (r, w') = m w in continue r f w'

abbrev pub ◌>>◌ : {K A B : Type 0} → Action K A → Action K B → Action K B
m >> k = m >>= λ _. k

abbrev pub pure : {K A : Type 0} → A → Action K A
pure a w = (ok a, w)

abbrev pub fail : {K A : Type 0} → Status → Action K A
fail s w = (err s, w)

-- `if test { return status }`
abbrev pub fail_if : {K : Type 0} → Bool → Status → Action K (Unit {0})
fail_if test s w = elim test [ true ↦ (err s, w) | false ↦ (ok tt, w) ]

-- `if test { ... } else { ... }`
abbrev pub branch : {K A : Type 0} → Bool → Action K A → Action K A → Action K A
branch test m n w = elim test [ true ↦ m w | false ↦ n w ]

-- A value, or the status that the code returns for the error.
abbrev pub or_fail : {K E A : Type 0} → Result E A → (E → Status) → Action K A
or_fail r s w = elim r [ ok a ↦ (ok a, w) | err e ↦ (err (s e), w) ]

abbrev pub gets : {K A : Type 0} → (World K → A) → Action K A
gets f w = (ok (f w), w)

-- A call of a service that uses up a step number.
abbrev pub tick : {K A : Type 0} → (ℕ → A) → Action K A
tick f w = (ok (f w.step), record w { step = suc w.step })

module _ {K Q : Type 0} (env : Environment K Q) where
  -- One statement: it fails in an outage, and otherwise runs on the tables.
  abbrev pub run_sql : {A : Type 0} → (Db → Result DbError A × Db) → Action K (Result DbError A)
  run_sql sql w = elim (env.pg.outage w.step) [
    | some e ↦ (ok (err e), record w { step = suc w.step })
    | none ↦ let (r, db') = sql w.db in (ok r, record w { db = db'; step = suc w.step })
  ]

-- One call of the cluster.
abbrev pub run_kube : {K A : Type 0} → (K → A × K) → Action K A
run_kube call w = let (a, cluster') = call w.cluster in (ok a, record w { cluster = cluster' })

-- A property of the value of an action that succeeds.
abbrev pub Returns : {E A : Type 0} → (A → Type 0) → Result E A → Type 0
Returns P (ok a) = P a
Returns P (err e) = ⊥

-- Wrapping an answer does not touch the state.
pub state-wrap :
    {K A B : Type 0} (m : Action K A) (f : A → B) (w : World K)
    → ((m >>= (λ r. pure (f r))) w).1 ≡ (m w).1
state-wrap m f w = elim (Result-cases (m w).0) [
  | inl (a, good) ↦ ground arith
  | inr (s, bad) ↦ ground arith
]
