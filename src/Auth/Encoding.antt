-- ===== src/Auth/Encoding.antt =====
-- The encodings of Go's standard library that internal/auth/apikeys.go calls, over lists of bytes.
pub mod Shape
use Prim.Native.String
use Prim.Native.String.{char_at, [], ◌∷◌}
use build_api.Common.{ℕ, ◌+◌, ◌*◌, ◌/◌, ◌%◌, Char, String, List, [], ◌∷◌}

abbrev alphabet : String
alphabet = "ABCDEFGHIJKLMNOPQRSTUVWXYZabcdefghijklmnopqrstuvwxyz0123456789-_"

abbrev pub sextet : ℕ → Char
sextet n = char_at alphabet (n % 64)

-- `base64.RawURLEncoding.EncodeToString`: four characters for three bytes, no padding.
unfoldable pub base64_raw_url : List ℕ → String
base64_raw_url [] = []
base64_raw_url (a ∷ []) = sextet (a / 4) ∷ (sextet (a * 16) ∷ [])
base64_raw_url (a ∷ b ∷ []) = sextet (a / 4) ∷ (sextet (a * 16 + b / 16) ∷ (sextet (b * 4) ∷ []))
base64_raw_url (a ∷ b ∷ c ∷ rest) =
    sextet (a / 4)
    ∷ (sextet (a * 16 + b / 16) ∷ (sextet (b * 4 + c / 64) ∷ (sextet c ∷ base64_raw_url rest)))

abbrev hex_digit : ℕ → Char
hex_digit n = char_at "0123456789abcdef" (n % 16)

-- `hex.EncodeToString`
unfoldable pub hex : List ℕ → String
hex [] = []
hex (b ∷ bytes) = hex_digit (b / 16) ∷ (hex_digit b ∷ hex bytes)
