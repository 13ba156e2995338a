-- ===== src/Organizations/Update/Placeholders.antt =====
-- The assembled UPDATE statement binds each placeholder to the value that belongs to its column.
use build_api.Common.{Char, String, ◌==◌, ◌≡◌, some, List, [], ◌∷◌, arith, if◌then◌else◌}
use build_api.Text.{trim_space, to_lower}
use build_api.Api.OrganizationMessages.{UpdateOrganizationRequest}
use build_api.World.Tables.{OrgRow}
use build_api.Organizations.Update.{
  Column, name_column, slug_column, plan_column, assemble, placeholder, bind_clauses, assign,
}

-- The row that a request asks for: a field that is "" is left alone.
abbrev pub requested : (Char → Char) → UpdateOrganizationRequest → OrgRow → OrgRow
requested lower_beyond req o = record o {
  name = if req.name == "" then o.name else trim_space req.name;
  slug = if req.slug == "" then o.slug else to_lower lower_beyond (trim_space req.slug);
  plan = if req.plan == "" then o.plan else req.plan;
}

abbrev unless_empty : String → Column → String → List (Column × String) → List (Column × String)
unless_empty given column value rest = if given == "" then rest else (column, value) ∷ rest

-- The columns that a request changes, with their new values.
abbrev pub requested_columns : (Char → Char) → UpdateOrganizationRequest → List (Column × String)
requested_columns lower_beyond req = unless_empty req.name name_column (trim_space req.name) (
    unless_empty req.slug slug_column (to_lower lower_beyond (trim_space req.slug))
      (unless_empty req.plan plan_column req.plan []))

pub assemble-binds :
    (lower_beyond : Char → Char) (req : UpdateOrganizationRequest)
    → bind_clauses
        (req.id ∷ (assemble lower_beyond req).args)
        (assemble lower_beyond req).set_clause
      ≡ some (requested_columns lower_beyond req)
unfolding assemble placeholder bind_clauses
assemble-binds lower_beyond req = ground arith

pub assign-requested :
    (lower_beyond : Char → Char) (req : UpdateOrganizationRequest) (o : OrgRow)
    → assign (requested_columns lower_beyond req) o ≡ requested lower_beyond req o
unfolding assign
assign-requested lower_beyond req o = ground arith

-- Whichever fields a request has, every placeholder of the statement has the argument of its own
-- column, and a row that the statement is applied to becomes the row that the request asks for.
pub assemble-requested :
    (lower_beyond : Char → Char) (req : UpdateOrganizationRequest) (o : OrgRow)
    → (bind_clauses
          (req.id ∷ (assemble lower_beyond req).args)
          (assemble lower_beyond req).set_clause
        ≡ some (requested_columns lower_beyond req))
      × (assign (requested_columns lower_beyond req) o ≡ requested lower_beyond req o)
assemble-requested lower_beyond req o =
    (assemble-binds lower_beyond req, assign-requested lower_beyond req o)
