-- ===== src/Manager/Collect/Measure.antt =====
-- How many entries of the dictionary have no status yet.
use drnavigator.Common.{
  ℕ, ◌+◌, ◌≤◌, ◌<◌, String, ◌≡◌, true, false, [], ◌∷◌, arith, eq_iff, length, if◌then◌else◌,
}
use drnavigator.Common.Dict.{Dict, get, insert, has, get-insert}

module _ {ℓ κ} {A : Type ℓ} {B : Type κ} where
  abbrev pub missing : Dict A → Dict B → ℕ
  missing [] r = 0
  missing ((k, _) ∷ d) r = (if has r k then 0 else 1) + missing d r

  pub missing-le-length : (d : Dict A) (r : Dict B) → missing d r ≤ length d
  missing-le-length [] r = omega arith
  missing-le-length ((k, v) ∷ d) r = ground (arith, missing-le-length d r)

  -- More statuses, fewer missing.
  pub missing_mono :
      (d : Dict A) (r t : Dict B)
      → ((k : String) → has r k ≡ true → has t k ≡ true)
      → missing d t ≤ missing d r
  missing_mono [] r t h = omega arith
  missing_mono ((k, v) ∷ d) r t h = ground (arith, missing_mono d r t h, h k)

  -- A first status for an entry of the dictionary leaves fewer missing.
  pub missing-insert :
      (d : Dict A) (r : Dict B) (k : String) (b : B)
      → has d k ≡ true
      → has r k ≡ false
      → missing d (insert r k b) < missing d r
  unfolding get
  missing-insert [] r k b h n = ground arith
  missing-insert ((j, v) ∷ d) r k b h n = ground (
    arith,
    missing-insert d r k b,
    missing_mono d r (insert r k b) (λ i e. ground (arith, get-insert r k i b)),
    get-insert r k j b,
    eq_iff j k,
    eq_iff k j,
  )
