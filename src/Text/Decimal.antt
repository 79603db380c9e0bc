-- ===== src/Text/Decimal.antt =====
-- `str(n)` and `int(s)`: what is printed is read back.
use mbdeploy.Base.{
  ℕ, zero, suc, ◌+◌, ◌*◌, ◌/◌, ◌%◌, ◌<◌, ◌≤◌, ◌≡◌, refl, sym, ap, ◌∙◌, ◌≢◌, ◌++◌, true, Option,
  none, some, [], ◌∷◌, arith, ltb, if◌then◌else◌, length, All, ℤ, pos, negsuc, Bool-cases, inl, inr,
  append_assoc, append-nil, all,
}
use mbdeploy.Text.{
  Text, Unicode, is_digit, is_digit_char, is_space, decimal_value, max_str_digits, codes,
}
use mbdeploy.Text.Split.{IsWord}

-- the digits of `n`; the fuel is above `n`
show_from : ℕ → ℕ → Text
show_from zero n = []
show_from (suc f) n =
    let more = show_from f (n / 10) ++ (48 + n % 10) ∷ [] in
    if ltb n 10 then (48 + n) ∷ [] else more

-- `str(n)` of a natural number
unfoldable pub show : ℕ → Text
unfolding show_from
show n = show_from (suc n) n

-- `str(z)`
unfoldable pub show_int : ℤ → Text
unfolding show
show_int (pos n) = show n
show_int (negsuc n) = codes "-" ++ show (suc n)

module _ (u : Unicode) where
  unfoldable pub read_from : ℕ → Text → Option ℕ
  read_from n [] = some n
  read_from n (c ∷ s) = elim (decimal_value u c) [ none ↦ none | some d ↦ read_from (n * 10 + d) s ]

  -- `int(s)` of a text of digits; `none` is the `ValueError`
  unfoldable pub int_of : Text → Option ℕ
  unfolding read_from
  int_of s = if ltb max_str_digits (length s) then none else read_from 0 s

  decimal_value-digit : (d : ℕ) → d < 10 → decimal_value u (48 + d) ≡ some d
  unfolding decimal_value
  decimal_value-digit d h = ground arith

  read_from-show_from :
      (f n : ℕ) (s : Text) → n < f → read_from 0 (show_from f n ++ s) ≡ read_from n s
  unfolding read_from show_from
  read_from-show_from zero n s h = elim h [ ]
  read_from-show_from (suc f) n s h = elim (Bool-cases (ltb n 10)) [
    | inl small ↦ rw small (
        rw (decimal_value-digit n (ground arith), read_from)
          (ap (λ k. read_from k s) (omega arith)))
    | inr big ↦
        rw (big, append_assoc (show_from f (n / 10)) ((48 + n % 10) ∷ []) s)
          (read_from-show_from f (n / 10) ((48 + n % 10) ∷ s) (ground arith)
            ∙ rw (decimal_value-digit (n % 10) (omega arith), read_from) (rw (split_ten n) refl))
  ]
    where
      split_ten : (m : ℕ) → m / 10 * 10 + m % 10 ≡ m
      split_ten m = omega arith

  read_from-show : (n : ℕ) → read_from 0 (show n) ≡ some n
  unfolding show read_from
  read_from-show n =
      ap (read_from 0) (sym (append-nil (show_from (suc n) n)))
      ∙ read_from-show_from (suc n) n [] (omega arith)

  -- `int(str(n)) == n`, up to the length that CPython converts.
  pub int_of-show : (n : ℕ) → length (show n) ≤ max_str_digits → int_of (show n) ≡ some n
  unfolding int_of
  int_of-show n h = ground (arith, read_from-show n)

-- The ASCII digits.
abbrev pub IsDigits : Text → Type 0
IsDigits = All (λ c. (48 ≤ c) × (c < 58))

IsDigits-append : (s t : Text) → IsDigits s → IsDigits t → IsDigits (s ++ t)
IsDigits-append [] t h k = k
IsDigits-append (c ∷ s) t h k = (h.0, IsDigits-append s t h.1 k)

show_from-IsDigits : (f n : ℕ) → IsDigits (show_from f n)
unfolding show_from
show_from-IsDigits zero n = tt
show_from-IsDigits (suc f) n = elim (Bool-cases (ltb n 10)) [
  | inl small ↦ rw small (ground arith)
  | inr big ↦
      rw big
        (IsDigits-append (show_from f (n / 10)) _ (show_from-IsDigits f (n / 10)) (omega arith))
]

pub show-IsDigits : (n : ℕ) → IsDigits (show n)
unfolding show
show-IsDigits n = show_from-IsDigits (suc n) n

append-ne-nil : (s : Text) (c : ℕ) → s ++ c ∷ [] ≢ []
append-ne-nil [] c e = cc
append-ne-nil (d ∷ s) c e = cc

pub show-ne-nil : (n : ℕ) → show n ≢ []
unfolding show show_from
show-ne-nil n = ground (arith, append-ne-nil (show_from n (n / 10)) (48 + n % 10))

module _ (u : Unicode) where
  all-is_digit_char : (s : Text) → IsDigits s → all (is_digit_char u) s ≡ true
  unfolding is_digit_char
  all-is_digit_char [] h = refl
  all-is_digit_char (c ∷ s) h = ground (arith, all-is_digit_char s h.1)

  pub is_digit-IsDigits : (s : Text) → IsDigits s → s ≢ [] → is_digit u s ≡ true
  unfolding is_digit
  is_digit-IsDigits s h ne = ground (arith, all-is_digit_char s h)

  -- No digit is white space, so a printed number is one word.
  pub IsDigits-IsWord : (s : Text) → IsDigits s → IsWord (is_space u) s
  unfolding is_space
  IsDigits-IsWord [] h = tt
  IsDigits-IsWord (c ∷ s) h = (ground arith, IsDigits-IsWord s h.1)
