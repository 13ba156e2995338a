-- ===== src/Status.antt =====
-- gRPC statuses: the errors that every handler returns (`status.Error`, `status.Errorf`).
use Prim.Native.String
use build_api.Common.{String, ◌≡◌, refl}

-- The codes of google.golang.org/grpc/codes that the program uses.
pub data Code : Type 0 where
  invalid_argument not_found already_exists permission_denied : Code
  unauthenticated internal unimplemented : Code

pub record Status : Type 0 where
  pub code : Code
  pub message : String

-- `status.Error`
abbrev pub status_error : Code → String → Status
status_error c m = record { code = c; message = m }

-- `status.Errorf(c, "<label>: %v", err)`, given the text of `err`.
unfoldable pub status_errorf : Code → String → String → Status
status_errorf c label text = record {
  code = c;
  message = String.◌++◌ label (String.◌++◌ ": " text);
}

-- The text changes with the error, the code does not.
pub code-status_errorf : (c : Code) (label text : String) → (status_errorf c label text).code ≡ c
unfolding status_errorf
code-status_errorf c label text = refl
