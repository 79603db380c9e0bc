-- ===== src/Devices/Name.antt =====
-- `friendly_name` of src/mbdeploy/devices.py: the five-letter name of a board.
use mbdeploy.Base.{
  ℕ, zero, suc, ◌+◌, ◌*◌, ◌/◌, ◌%◌, ◌^◌, ◌<◌, ◌≡◌, ◌↔◌, refl, sym, ap, ◌∙◌, List, [], ◌∷◌, arith,
  ◌==◌, if◌then◌else◌,
}
use mbdeploy.Text.{Text, codes}

-- `_NAME_CODEBOOK`, one column of letters for each base-5 digit, the least significant first
abbrev name_codebook : List Text
name_codebook = codes "zvgpt" ∷ codes "uoiea" ∷ codes "zvgpt" ∷ codes "uoiea" ∷ codes "zvgpt" ∷ []

-- `column[d]`
letter : Text → ℕ → ℕ
letter [] d = 0
letter (c ∷ cs) zero = c
letter (c ∷ cs) (suc d) = letter cs d

-- The loop: the letter of each further digit lands before the letters so far.
spell : List Text → ℕ → Text → Text
spell [] n letters = letters
spell (column ∷ columns) n letters = spell columns (n / 5) (letter column (n % 5) ∷ letters)

unfoldable pub friendly_name : ℕ → Text
unfolding letter spell
friendly_name device_id = spell name_codebook (device_id % 2 ^ 32) []

-- A name read back: the place of each letter in its column, as base-5 digits.
place : Text → ℕ → ℕ
place [] c = 0
place (x ∷ xs) c = if x == c then 0 else place xs c + 1

unspell : Text → ℕ
unspell (e ∷ d ∷ c ∷ b ∷ a ∷ []) =
    place (codes "zvgpt") a
    + 5
      * (place (codes "uoiea") b
          + 5
            * (place (codes "zvgpt") c
                + 5 * (place (codes "uoiea") d + 5 * place (codes "zvgpt") e)))
unspell _ = 0

place-consonant : (d : ℕ) → d < 5 → place (codes "zvgpt") (letter (codes "zvgpt") d) ≡ d
unfolding letter place
place-consonant zero h = refl
place-consonant (suc zero) h = refl
place-consonant (suc (suc zero)) h = refl
place-consonant (suc (suc (suc zero))) h = refl
place-consonant (suc (suc (suc (suc zero)))) h = refl
place-consonant (suc (suc (suc (suc (suc d))))) h = absurd (omega arith)

place-vowel : (d : ℕ) → d < 5 → place (codes "uoiea") (letter (codes "uoiea") d) ≡ d
unfolding letter place
place-vowel zero h = refl
place-vowel (suc zero) h = refl
place-vowel (suc (suc zero)) h = refl
place-vowel (suc (suc (suc zero))) h = refl
place-vowel (suc (suc (suc (suc zero)))) h = refl
place-vowel (suc (suc (suc (suc (suc d))))) h = absurd (omega arith)

-- the digits of `n` in the five columns
abbrev spelled : ℕ → Text
spelled n =
    letter (codes "zvgpt") (n / 5 / 5 / 5 / 5 % 5)
    ∷ letter (codes "uoiea") (n / 5 / 5 / 5 % 5)
    ∷ letter (codes "zvgpt") (n / 5 / 5 % 5)
    ∷ letter (codes "uoiea") (n / 5 % 5)
    ∷ letter (codes "zvgpt") (n % 5)
    ∷ []

unspell-spelled : (n : ℕ) → unspell (spelled n) ≡ n % 3125
unfolding unspell
unspell-spelled n = omega (
  arith,
  place-consonant (n % 5) (omega arith),
  place-vowel (n / 5 % 5) (omega arith),
  place-consonant (n / 5 / 5 % 5) (omega arith),
  place-vowel (n / 5 / 5 / 5 % 5) (omega arith),
  place-consonant (n / 5 / 5 / 5 / 5 % 5) (omega arith),
)

friendly_name_lem : (i : ℕ) → friendly_name i ≡ spelled (i % 2 ^ 32)
unfolding friendly_name
friendly_name_lem i = refl

unspell-friendly_name : (i : ℕ) → unspell (friendly_name i) ≡ i % 2 ^ 32 % 3125
unspell-friendly_name i = rw friendly_name_lem (unspell-spelled (i % 2 ^ 32))

digit_one : (n : ℕ) → n % 3125 / 5 % 5 ≡ n / 5 % 5
digit_one n = omega arith

digit_two : (n : ℕ) → n % 3125 / 5 / 5 % 5 ≡ n / 5 / 5 % 5
digit_two n = omega arith

digit_three : (n : ℕ) → n % 3125 / 5 / 5 / 5 % 5 ≡ n / 5 / 5 / 5 % 5
digit_three n = omega arith

digit_four : (n : ℕ) → n % 3125 / 5 / 5 / 5 / 5 % 5 ≡ n / 5 / 5 / 5 / 5 % 5
digit_four n = omega arith

digit_zero : (n : ℕ) → n % 3125 % 5 ≡ n % 5
digit_zero n = omega arith

spelled-mod : (n : ℕ) → spelled (n % 3125) ≡ spelled n
spelled-mod n = cc (digit_zero n, digit_one n, digit_two n, digit_three n, digit_four n)

-- Two boards have the same name exactly when the low 32 bits of their device ids agree modulo 3125,
-- the number of names: the name shows these five base-5 digits and nothing else.
pub friendly_name-eq_iff :
    (i j : ℕ) → (friendly_name i ≡ friendly_name j) ↔ (i % 2 ^ 32 % 3125 ≡ j % 2 ^ 32 % 3125)
friendly_name-eq_iff i j = (
  λ e. sym (unspell-friendly_name i) ∙ ap unspell e ∙ unspell-friendly_name j,
  λ e.
      friendly_name_lem i
      ∙ sym (spelled-mod (i % 2 ^ 32))
      ∙ ap spelled e
      ∙ spelled-mod (j % 2 ^ 32)
      ∙ sym (friendly_name_lem j),
)

-- the example of the docstring
friendly_name-tovez : friendly_name 2314287040 ≡ codes "tovez"
unfolding friendly_name
friendly_name-tovez = refl
