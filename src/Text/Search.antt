-- ===== src/Text/Search.antt =====
-- `startswith`, `in` and dropping a prefix, described by concatenation.
use mbdeploy.Base.{◌≡◌, refl, true, List, [], ◌∷◌, ◌++◌, arith, length, drop}
use mbdeploy.Text.{Text, starts_with, contains}

pub starts_with-append : (p s : Text) → starts_with (p ++ s) p ≡ true
unfolding starts_with
starts_with-append [] s = refl
starts_with-append (c ∷ p) s = ground (arith, starts_with-append p s)

-- A text that starts with `p` is `p` and what is left after dropping it.
pub starts_with-drop : (p s : Text) → starts_with s p ≡ true → s ≡ p ++ drop (length p) s
unfolding starts_with
starts_with-drop [] s h = refl
starts_with-drop (c ∷ p) [] h = ground arith
starts_with-drop (c ∷ p) (d ∷ s) h = ground (arith, starts_with-drop p s)

pub drop-append {ℓ} : {A : Type ℓ} (p s : List A) → drop (length p) (p ++ s) ≡ s
drop-append [] s = refl
drop-append (c ∷ p) s = drop-append p s

pub contains-append : (p pre post : Text) → contains p (pre ++ (p ++ post)) ≡ true
unfolding contains
contains-append p (c ∷ pre) post = ground (arith, contains-append p pre post)
contains-append [] [] [] = refl
contains-append [] [] (c ∷ post) = refl
contains-append (c ∷ p) [] post = ground (arith, starts_with-append (c ∷ p) post)
