-- ===== src/Auth/Encoding/Shape.antt =====
-- The shape of a generated secret: it is no session token.
use Prim.Native.String
use Prim.Native.String.{char_at, [], ◌∷◌}
use build_api.Common.{
  ℕ, zero, suc, ◌+◌, ◌*◌, ◌/◌, ◌%◌, ◌<◌, code, String, ◌=?◌, ◌==◌, eq_false, ◌≡◌, refl, sym, ◌∙◌,
  Bool, true, false, not, ◌&&◌, List, [], ◌∷◌, arith,
}
use text.Mathlib.TextLemmas.{cons-append, nil-append, cons-ne-nil}
use build_api.Text.{split, has_prefix}
use build_api.Text.Trim.{cut_prefix-append}
use build_api.Auth.Encoding.{sextet, base64_raw_url}
use build_api.Auth.Keys.{key_of_bytes}
use build_api.Auth.Middleware.{looks_like_jwt}
use build_api.World.External.{Environment}

below : ℕ → (ℕ → Bool) → Bool
below zero test = true
below (suc n) test = test n && below n test

below_sound : (n : ℕ) (test : ℕ → Bool) (k : ℕ) → below n test ≡ true → k < n → test k ≡ true
unfolding below
below_sound zero test k h lt = absurd (omega arith)
below_sound (suc n) test k h lt = ground (arith, below_sound n test k)

abbrev has_no_dot : String → Bool
has_no_dot [] = true
has_no_dot (c ∷ s) = not (code c =? b'.') && has_no_dot s

abbrev plain_digit : ℕ → Bool
plain_digit k =
    not
      (code (char_at "ABCDEFGHIJKLMNOPQRSTUVWXYZabcdefghijklmnopqrstuvwxyz0123456789-_" k) =? b'.')

plain_digits : below 64 plain_digit ≡ true
unfolding below
plain_digits = refl

sextet-plain : (n : ℕ) → not (code (sextet n) =? b'.') ≡ true
sextet-plain n = below_sound 64 plain_digit (n % 64) plain_digits (omega arith)

has_no_dot-base64 : (bytes : List ℕ) → has_no_dot (base64_raw_url bytes) ≡ true
unfolding base64_raw_url
has_no_dot-base64 [] = refl
has_no_dot-base64 (a ∷ []) = rw (sextet-plain (a / 4), sextet-plain (a * 16))
has_no_dot-base64 (a ∷ b ∷ []) =
    rw (sextet-plain (a / 4), sextet-plain (a * 16 + b / 16), sextet-plain (b * 4))
has_no_dot-base64 (a ∷ b ∷ c ∷ rest) =
    rw
      (
        sextet-plain (a / 4),
        sextet-plain (a * 16 + b / 16),
        sextet-plain (b * 4 + c / 64),
        sextet-plain c,
      )
      (has_no_dot-base64 rest)

split_no_dot : (s : String) → has_no_dot s ≡ true → split s b'.' ≡ s ∷ []
unfolding split
split_no_dot [] h = refl
split_no_dot (c ∷ s) h = ground (arith, split_no_dot s)

abbrev with_bh : String → String
with_bh s = String.◌++◌ "bh_" s

has_no_dot-with_bh : (s : String) → has_no_dot s ≡ true → has_no_dot (with_bh s) ≡ true
has_no_dot-with_bh s h = rw (cons-append, cons-append, cons-append, nil-append) h

no_jwt : (s : String) → has_no_dot s ≡ true → looks_like_jwt (with_bh s) ≡ false
unfolding looks_like_jwt
no_jwt s h = rw (split_no_dot (with_bh s) (has_no_dot-with_bh s h))

bh_prefix : (s : String) → has_prefix (with_bh s) "bh_" ≡ true
unfolding has_prefix
bh_prefix s = rw (cut_prefix-append "bh_" s)

with_bh-filled : (s : String) → (with_bh s == "") ≡ false
with_bh-filled s = eq_false (with_bh s) "" (λ e. cons-ne-nil _ _ (sym (cons-append _ _ s) ∙ e))

module _ {K Q : Type 0} (env : Environment K Q) (bytes : List ℕ) where
  -- A generated secret is not taken for a session token, begins with "bh_" and is not empty.
  pub key_of_bytes-shape :
      (looks_like_jwt (key_of_bytes env bytes).0 ≡ false)
      × (has_prefix (key_of_bytes env bytes).0 "bh_" ≡ true)
      × (((key_of_bytes env bytes).0 == "") ≡ false)
  unfolding key_of_bytes
  key_of_bytes-shape =
      let enc = base64_raw_url bytes in
      (no_jwt enc (has_no_dot-base64 bytes), bh_prefix enc, with_bh-filled enc)
