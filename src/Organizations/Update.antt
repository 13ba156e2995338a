-- ===== src/Organizations/Update.antt =====
-- The UPDATE statement that `UpdateOrganization` assembles (internal/organizations/service.go): a
-- SET clause is a column and the number of its placeholder, and the arguments go with the text.
pub mod Placeholders
use build_api.Common.{
  ℕ, zero, suc, ◌+◌, Char, String, ◌==◌, Bool, true, false, ◌&&◌, not, Option, none, some, List, [],
  ◌∷◌, ◌++◌, map, Result, ok, err, if◌then◌else◌,
}
use build_api.Common.Lists.{any_row}
use build_api.Text.{trim_space, to_lower}
use build_api.Api.OrganizationMessages.{UpdateOrganizationRequest}
use build_api.World.Tables.{Db, OrgRow, DbError}
use build_api.World.External.{Postgres}
use build_api.World.Sql.{with_uuid, violation, unique_violation}

pub data Column : Type 0 where
  name_column slug_column plan_column : Column

-- The variables `setClause`, `args` and `argNum`.
pub record Assembly : Type 0 where
  pub set_clause : List (Column × ℕ)
  pub args : List String
  pub arg_num : ℕ

abbrev add_clause : Bool → Column → String → Assembly → Assembly
add_clause given column value a =
    if given
    then record {
      set_clause = a.set_clause ++ (column, a.arg_num + 1) ∷ [];
      args = a.args ++ value ∷ [];
      arg_num = a.arg_num + 1;
    }
    else a

abbrev no_clauses : Assembly
no_clauses = record { set_clause = []; args = []; arg_num = 1 }

-- The three `if` blocks; `args` still lacks the id, which the caller puts in front.
unfoldable pub assemble : (Char → Char) → UpdateOrganizationRequest → Assembly
assemble lower_beyond req = add_clause (not (req.plan == "")) plan_column req.plan (
    add_clause (not (req.slug == "")) slug_column (to_lower lower_beyond (trim_space req.slug))
      (add_clause (not (req.name == "")) name_column (trim_space req.name) no_clauses))

-- `$n` of a statement.
unfoldable pub placeholder : List String → ℕ → Option String
placeholder [] n = none
placeholder (a ∷ args) zero = none
placeholder (a ∷ args) (suc zero) = some a
placeholder (a ∷ args) (suc (suc n)) = placeholder args (suc n)

-- The columns with their values, none where a placeholder has no argument.
unfoldable pub bind_clauses : List String → List (Column × ℕ) → Option (List (Column × String))
bind_clauses args [] = some []
bind_clauses args ((column, n) ∷ clauses) = elim (placeholder args n) [
  | none ↦ none
  | some value ↦ elim (bind_clauses args clauses) [
    | none ↦ none
    | some bound ↦ some ((column, value) ∷ bound)
  ]
]

abbrev assign_column : Column → String → OrgRow → OrgRow
assign_column name_column value o = record o { name = value }
assign_column slug_column value o = record o { slug = value }
assign_column plan_column value o = record o { plan = value }

unfoldable pub assign : List (Column × String) → OrgRow → OrgRow
assign [] o = o
assign ((column, value) ∷ bound) o = assign bound (assign_column column value o)

abbrev pub assign_at : String → List (Column × String) → OrgRow → OrgRow
assign_at oid bound o = if o.id == oid then assign bound o else o

-- The unique index on `slug`: a row that changes has the slug of a row that does not.
abbrev pub clashes : String → List (Column × String) → List OrgRow → Bool
clashes oid bound rows =
    any_row
      (λ o. o.id == oid && any_row (λ q. not (q.id == oid) && q.slug == (assign bound o).slug) rows)
      rows

abbrev run_update :
    Postgres → String → Option (List (Column × String)) → Db → Result DbError (Unit {0}) × Db
run_update pg oid none db = (violation pg "08P01", db)
run_update pg oid (some bound) db =
    if clashes oid bound db.organizations
    then (violation pg unique_violation, db)
    else (ok tt, record db { organizations = map (assign_at oid bound) db.organizations })

abbrev with_first :
    Postgres
    → Option String
    → (String → Result DbError (Unit {0}) × Db)
    → Db
    → Result DbError (Unit {0}) × Db
with_first pg none k db = (violation pg "08P01", db)
with_first pg (some id) k db = with_uuid pg id k db

-- UPDATE organizations SET <clauses> WHERE id = $1, at the arguments of the call
unfoldable pub update_org :
    Postgres → List (Column × ℕ) → List String → Db → Result DbError (Unit {0}) × Db
update_org pg clauses args db =
    with_first pg (placeholder args 1) (λ oid. run_update pg oid (bind_clauses args clauses) db) db
