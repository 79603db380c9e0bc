-- ===== src/Text.antt =====
-- Python's `str` and `bytes` as lists of code points and of byte values, with the methods that the
-- program calls. What those methods do outside ASCII is the record `Unicode`, a parameter.
pub mod Equality
pub mod Search
pub mod Split
pub mod Decimal
pub mod Strip
pub mod Dict
use Prim.Native.Char.{code}
use mbdeploy.Base.{
  ℕ, zero, suc, ◌+◌, ◌-◌, ◌*◌, ◌/◌, ◌%◌, String, Bool, true, false, not, ◌&&◌, ◌||◌, Option, none,
  some, List, [], ◌∷◌, ◌++◌, map, ltb, leb, ◌==◌, if◌then◌else◌, length, all, is_nil,
}

abbrev pub Text : Type 0
Text = List ℕ

-- The code points of a literal. `String` has its own `[]` and `∷`.
abbrev pub codes : String → Text
codes String.[] = []
codes (String.◌∷◌ c s) = code c ∷ codes s

-- `a == b` on texts
unfoldable pub same : Text → Text → Bool
same [] [] = true
same (a ∷ s) (b ∷ t) = a == b && same s t
same _ _ = false

-- What Python's `str` does outside ASCII, its codecs on bytes that are not ASCII, and `repr`.
pub record Unicode : Type 0 where
  pub lower_of : Text → Text
  pub upper_of : Text → Text
  pub space : ℕ → Bool
  pub digit : ℕ → Bool
  pub decimal : ℕ → Option ℕ
  pub decode_replace : Text → Text
  pub decode_ignore : Text → Text
  pub repr : Text → Text

abbrev pub is_ascii : ℕ → Bool
is_ascii c = ltb c 128

abbrev ascii_lower : ℕ → ℕ
ascii_lower c = if leb b'A' c && leb c b'Z' then c + 32 else c

abbrev ascii_upper : ℕ → ℕ
ascii_upper c = if leb b'a' c && leb c b'z' then c - 32 else c

module _ (u : Unicode) where
  -- `s.lower()`
  unfoldable pub lower : Text → Text
  lower s = if all is_ascii s then map ascii_lower s else u.lower_of s

  -- `s.upper()`
  unfoldable pub upper : Text → Text
  upper s = if all is_ascii s then map ascii_upper s else u.upper_of s

  -- `c.isspace()`: in ASCII, 9 to 13, 28 to 31 and the space
  unfoldable pub is_space : ℕ → Bool
  is_space c = if is_ascii c then (leb 9 c && leb c 13) || (leb 28 c && leb c 32) else u.space c

  unfoldable pub is_digit_char : ℕ → Bool
  is_digit_char c = if is_ascii c then leb b'0' c && leb c b'9' else u.digit c

  -- `s.isdigit()`
  unfoldable pub is_digit : Text → Bool
  unfolding is_digit_char
  is_digit s = not (is_nil s) && all is_digit_char s

  -- the value of a decimal digit; `int` refuses the other characters
  unfoldable pub decimal_value : ℕ → Option ℕ
  decimal_value c =
      if is_ascii c then (if leb b'0' c && leb c b'9' then some (c - 48) else none) else u.decimal c

  -- `b.decode("utf-8", "replace")`
  unfoldable pub decode_replace : Text → Text
  decode_replace b = if all is_ascii b then b else u.decode_replace b

  -- `b.decode("utf-8", "ignore")`
  unfoldable pub decode_ignore : Text → Text
  decode_ignore b = if all is_ascii b then b else u.decode_ignore b

-- `s.startswith(p)`
unfoldable pub starts_with : Text → Text → Bool
starts_with s [] = true
starts_with [] (b ∷ p) = false
starts_with (a ∷ s) (b ∷ p) = a == b && starts_with s p

-- `p in s`
unfoldable pub contains : Text → Text → Bool
unfolding starts_with
contains p [] = starts_with [] p
contains p (c ∷ s) = starts_with (c ∷ s) p || contains p s

-- `sep.join(parts)`
unfoldable pub join : Text → List Text → Text
join sep [] = []
join sep (x ∷ []) = x
join sep (x ∷ y ∷ r) = x ++ (sep ++ join sep (y ∷ r))

-- CPython refuses to convert longer numerals, with a `ValueError`.
abbrev pub max_str_digits : ℕ
max_str_digits = 4300

-- An unconfigured platform: nothing outside ASCII is a letter, a digit or a space.
abbrev pub ascii_only : Unicode
ascii_only = record {
  lower_of = λ s. s;
  upper_of = λ s. s;
  space = λ c. false;
  digit = λ c. false;
  decimal = λ c. none;
  decode_replace = map (λ c. if is_ascii c then c else 0xfffd);
  decode_ignore = λ s. s;
  repr = λ s. b'\'' ∷ (s ++ b'\'' ∷ []);
}
