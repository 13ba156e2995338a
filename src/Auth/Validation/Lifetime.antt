-- ===== src/Auth/Validation/Lifetime.antt =====
-- The lifetime of a new key.
use build_api.Common.{
  ℕ, zero, suc, ◌+◌, ◌*◌, ◌≤◌, ◌≡◌, refl, ◌⊎◌, inl, inr, Option, none, some, ok, arith,
}
use build_api.Common.Int.{ℤ, pos, negsuc}
use build_api.Auth.Jwt.{second}
use build_api.Auth.Validation.{expiry_of, add_days}

-- A key that is created either never expires, and then the request says -1, or expires a number of
-- days after the request that lies between 1 and 3650: the requested number, or 365 for 0.
pub expiry_of-ok :
    (now : ℕ) (d : ℤ) (e : Option ℕ)
    → expiry_of now d ≡ ok e
    → ((d ≡ negsuc 0) × (e ≡ none))
      ⊎ ((days : ℕ) × ((d ≡ pos days) ⊎ ((d ≡ pos 0) × (days ≡ 365)))
          × (1 ≤ days)
          × (days ≤ 3650)
          × (e ≡ some (now + days * 86400 * second)))
unfolding expiry_of add_days
expiry_of-ok now (negsuc zero) e h = inl (refl, ground arith)
expiry_of-ok now (negsuc (suc n)) e h = absurd (ground arith)
expiry_of-ok now (pos zero) e h =
    inr (365, inr (refl, refl), omega arith, omega arith, ground arith)
expiry_of-ok now (pos (suc n)) e h = inr (suc n, inl refl, omega arith, ground arith, ground arith)
