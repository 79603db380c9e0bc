-- ===== src/Text/Equality.antt =====
-- Equality of texts is decided by `same`.
use mbdeploy.Base.{◌≡◌, refl, ◌↔◌, true, [], ◌∷◌, arith}
use mbdeploy.Text.{Text, same}

pub same→eq : (a b : Text) → same a b ≡ true → a ≡ b
unfolding same
same→eq [] [] h = refl
same→eq (x ∷ a) (y ∷ b) h = ground (arith, same→eq a b)
same→eq [] (y ∷ b) h = ground arith
same→eq (x ∷ a) [] h = ground arith

pub same_refl : (a : Text) → same a a ≡ true
unfolding same
same_refl [] = refl
same_refl (x ∷ a) = ground (arith, same_refl a)

pub eq→same : {a b : Text} → a ≡ b → same a b ≡ true
eq→same {a} e = ground (arith, same_refl a)

pub same_iff : (a b : Text) → (same a b ≡ true) ↔ (a ≡ b)
same_iff a b = (same→eq a b, eq→same)
