-- ===== src/Cli/Service/Words.antt =====
-- The `ExecStart` line of src/mbdeploy/cli.py is read back, word by word, as the command it names.
use mbdeploy.Base.{
  ℕ, ◌≡◌, refl, sym, ap, ◌∙◌, Bool, true, false, not, ◌||◌, Option, none, some, List, [], ◌∷◌, ◌++◌,
  arith, if◌then◌else◌, ◌==◌, all, append_assoc, append-nil, Bool-cases, inl, inr, All,
}
use mbdeploy.Text.{Text, codes}
use mbdeploy.Cli.Service.{is_plain, escaped}

-- where a shell is in its line: between words, in a word, or in a quoted part of one
pub data Place : Type 0 where
  between : Place
  bare single double : Text → Place

-- whether a character is one of a text
unfoldable pub among : ℕ → Text → Bool
among c [] = false
among c (k ∷ ks) = c == k || among c ks

-- a space, a tab, a newline
abbrev pub blanks : Text
blanks = codes " \t\n"

-- What a shell takes for an operator, an expansion, a pattern, a comment or an escape, outside of
-- quotes.
abbrev pub specials : Text
specials = codes "|&;<>()$`\\*?[]#~!{}"

-- what it expands inside of double quotes
abbrev pub expanded : Text
expanded = codes "$`\\!"

-- The words of a simple command. `none` is a quote that does not end, or a special character for
-- which the line is not read as plain words.
unfoldable pub shell_words : Place → Text → Option (List Text)
shell_words between [] = some []
shell_words (bare w) [] = some (w ∷ [])
shell_words (single w) [] = none
shell_words (double w) [] = none
shell_words between (c ∷ s) =
    let skipped = shell_words between s in
    let quoted = shell_words (single []) s in
    let doubled = shell_words (double []) s in
    let started = shell_words (bare (c ∷ [])) s in
    if among c blanks
    then skipped
    else if c == b'\''
    then quoted
    else if c == b'"'
    then doubled
    else if among c specials
    then none
    else started
shell_words (bare w) (c ∷ s) =
    let ended = shell_words between s in
    let quoted = shell_words (single w) s in
    let doubled = shell_words (double w) s in
    let longer = shell_words (bare (w ++ c ∷ [])) s in
    if among c blanks
    then elim ended [ none ↦ none | some ws ↦ some (w ∷ ws) ]
    else if c == b'\''
    then quoted
    else if c == b'"'
    then doubled
    else if among c specials
    then none
    else longer
shell_words (single w) (c ∷ s) =
    let closed = shell_words (bare w) s in
    let longer = shell_words (single (w ++ c ∷ [])) s in if c == b'\'' then closed else longer
shell_words (double w) (c ∷ s) =
    let closed = shell_words (bare w) s in
    let longer = shell_words (double (w ++ c ∷ [])) s in
    if c == b'"' then closed else if among c expanded then none else longer

eq_of : (a b : ℕ) → (a == b) ≡ true → a ≡ b
eq_of a b h = ground (arith, h)

-- no blank, no quote, nothing special
abbrev pub IsOrdinary : ℕ → Type 0
IsOrdinary c =
    (among c blanks ≡ false)
    × ((c == b'\'') ≡ false)
    × ((c == b'"') ≡ false)
    × (among c specials ≡ false)

abbrev pub IsBare : Text → Type 0
IsBare = All IsOrdinary

plain_ne : (c k : ℕ) → is_plain c ≡ true → is_plain k ≡ false → (c == k) ≡ false
plain_ne c k h n = elim (Bool-cases (c == k)) [
  | inl y ↦ absurd (ground (arith, sym h ∙ ap is_plain (eq_of c k y) ∙ n))
  | inr f ↦ f
]

plain-among :
    (c : ℕ) (ks : Text)
    → is_plain c ≡ true
    → all (λ k. not (is_plain k)) ks ≡ true
    → among c ks ≡ false
unfolding among
plain-among c [] h a = refl
plain-among c (k ∷ ks) h a =
    let n : is_plain k ≡ false = ground (arith, a) in
    let later : all (λ k. not (is_plain k)) ks ≡ true = ground (arith, a) in
    rw (plain_ne c k h n, plain-among c ks h later) refl

pub plain-IsOrdinary : (c : ℕ) → is_plain c ≡ true → IsOrdinary c
unfolding is_plain
plain-IsOrdinary c h = (
  plain-among c blanks h refl,
  plain_ne c b'\'' h refl,
  plain_ne c b'"' h refl,
  plain-among c specials h refl,
)

pub all-IsBare : (s : Text) → all is_plain s ≡ true → IsBare s
all-IsBare [] h = tt
all-IsBare (c ∷ s) h = (plain-IsOrdinary c (ground (arith, h)), all-IsBare s (ground (arith, h)))

shell_words-bare :
    (c : ℕ) (s w : Text)
    → IsOrdinary c
    → shell_words (bare w) (c ∷ s) ≡ shell_words (bare (w ++ c ∷ [])) s
unfolding shell_words
shell_words-bare c s w (a, b, d, e) = rw (a, b, d, e) refl

pub shell_words-between :
    (c : ℕ) (s : Text) → IsOrdinary c → shell_words between (c ∷ s) ≡ shell_words (bare (c ∷ [])) s
unfolding shell_words
shell_words-between c s (a, b, d, e) = rw (a, b, d, e) refl

pub bare-IsBare :
    (s w rest : Text)
    → IsBare s
    → shell_words (bare w) (s ++ rest) ≡ shell_words (bare (w ++ s)) rest
bare-IsBare [] w rest p = rw (append-nil w) refl
bare-IsBare (c ∷ s) w rest (o, p) =
    shell_words-bare c (s ++ rest) w o
    ∙ bare-IsBare s (w ++ c ∷ []) rest p
    ∙ ap (λ l. shell_words (bare l) rest) (append_assoc w (c ∷ []) s)

shell_words-single :
    (c : ℕ) (s w : Text)
    → (c == b'\'') ≡ false
    → shell_words (single w) (c ∷ s) ≡ shell_words (single (w ++ c ∷ [])) s
unfolding shell_words
shell_words-single c s w n = rw n refl

-- the way out of the quotes and back that stands for one quote
shell_words-escape :
    (s w : Text)
    → shell_words (single w) (codes "'\"'\"'" ++ s) ≡ shell_words (single (w ++ b'\'' ∷ [])) s
unfolding shell_words among
shell_words-escape s w = refl

single-escaped_char :
    (c : ℕ) (s w rest : Text)
    → shell_words (single w) (escaped (c ∷ s) ++ rest)
      ≡ shell_words (single (w ++ c ∷ [])) (escaped s ++ rest)
single-escaped_char c s w rest = elim (Bool-cases (c == b'\'')) [
  | inl y ↦ rw (y, eq_of c b'\'' y) (shell_words-escape (escaped s ++ rest) w)
  | inr n ↦ rw n (shell_words-single c (escaped s ++ rest) w n)
]

pub single-escaped :
    (s w rest : Text)
    → shell_words (single w) (escaped s ++ rest) ≡ shell_words (single (w ++ s)) rest
single-escaped [] w rest = rw (append-nil w) refl
single-escaped (c ∷ s) w rest =
    single-escaped_char c s w rest
    ∙ single-escaped s (w ++ c ∷ []) rest
    ∙ ap (λ l. shell_words (single l) rest) (append_assoc w (c ∷ []) s)
