-- ===== src/Invariant/Reachable.antt =====
-- Histories of the server: calls one after another, from empty tables.
use build_api.Common.{arith, String, ◌≡◌, sym, subst, []}
use build_api.World.Tables.{Db}
use build_api.World.External.{Environment}
use build_api.World.Effect.{World}
use build_api.Auth.Context.{Context}
use build_api.Server.{ServerCall, serve_call}
use build_api.Invariant.Tables.{WellFormed}
use build_api.Invariant.Served.{serve_call-closed}
use build_api.Invariant.Runs.{Statement, Run, no_statement, one_more, Run-WellFormed}

abbrev pub empty_db : Db
empty_db = record { users = []; organizations = []; members = []; keys = []; drawn = 0 }

module _ {K Q : Type 0} (env : Environment K Q) (secret : String) where
  -- One step: the server serves a call, with any context, request and outcome; or something happens
  -- that leaves the tables alone, such as a tick of a clock or a change in the cluster.
  pub data Step : World K → World K → Type 0 where
    served :
        (ctx : Context) (c : ServerCall) (w : World K) → Step w (serve_call env secret ctx c w).1
    elsewhere : (w w' : World K) → w'.db ≡ w.db → Step w w'

  pub data Reachable : World K → Type 0 where
    start : (w : World K) → w.db ≡ empty_db → Reachable w
    next : (w w' : World K) → Reachable w → Step w w' → Reachable w'

  pub empty-WellFormed : WellFormed empty_db
  empty-WellFormed = record {
    user_ids = tt;
    emails = tt;
    org_ids = tt;
    slugs = tt;
    key_ids = tt;
    hashes = tt;
    pairs = tt;
    member_users = tt;
    member_orgs = tt;
    key_users = tt;
  }

  module _ (w : World K) where
    -- What a step leaves of tables to which any run of statements may have led.
    more : (a b : Db) → Run env w.db a → Statement env 0 a b → Run env w.db b
    more a b = one_more w.db a b

    abbrev Left : Db → Type 0
    Left = Run env w.db

    begun : Left w.db
    begun = no_statement w.db

  -- Each step, so each call of each of the four services, changes the tables only by a run of the
  -- nine SQL statements that write one: what the interceptor and the handler do to them is a sequence
  -- of such statements, also where they fail midway.
  step-Run : {w w' : World K} → Step w w' → Run env w.db w'.db
  step-Run (served ctx c w) =
      serve_call-closed env secret (Left w) 0 (more w) ctx c w (begun w) (omega arith)
  step-Run (elsewhere w w' same) = subst (Run env w.db) (sym same) (begun w)

  -- In every state that is reachable from empty tables, no two users have one identifier or one
  -- email, no two organizations one identifier or one slug, no two keys one identifier or one hash and
  -- no two memberships the same user and organization, every membership is of a user and an
  -- organization of the tables, and every key is of a user of the tables. A state is reachable
  -- by calls of the four services, in any order and with any requests, those included that failed
  -- midway, in an outage or otherwise.
  pub Reachable-WellFormed : {w : World K} → Reachable w → WellFormed w.db
  Reachable-WellFormed (start w empty) = subst WellFormed (sym empty) empty-WellFormed
  Reachable-WellFormed (next w w' before step) =
      Run-WellFormed env (step-Run step) (Reachable-WellFormed before)
