-- ===== src/Text/Strip.antt =====
-- `s.rstrip(…)` and `s.strip()`.
use mbdeploy.Base.{ℕ, Bool, false, ◌&&◌, [], ◌∷◌, ◌≡◌, refl, arith, if◌then◌else◌, is_nil, All}
use mbdeploy.Text.{Text}

module _ (p : ℕ → Bool) where
  -- without the characters at the end that satisfy `p`
  unfoldable pub rstrip : Text → Text
  rstrip [] = []
  rstrip (c ∷ s) = let rest = rstrip s in if p c && is_nil rest then [] else c ∷ rest

  -- without the characters at the front that satisfy `p`
  unfoldable pub lstrip : Text → Text
  lstrip [] = []
  lstrip (c ∷ s) = let rest = lstrip s in if p c then rest else c ∷ s

  unfoldable pub strip : Text → Text
  unfolding rstrip lstrip
  strip s = rstrip (lstrip s)

  rstrip-All : (s : Text) → All (λ c. p c ≡ false) s → rstrip s ≡ s
  unfolding rstrip
  rstrip-All [] h = refl
  rstrip-All (c ∷ s) h = ground (arith, rstrip-All s h.1)
