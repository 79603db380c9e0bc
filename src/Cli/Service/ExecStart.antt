-- ===== src/Cli/Service/ExecStart.antt =====
-- The whole of the `ExecStart` line that `_build_exec_start` of src/mbdeploy/cli.py writes.
use mbdeploy.Base.{
  ℕ, ◌≡◌, ◌≢◌, refl, sym, ap, ◌∙◌, Bool, true, false, Option, none, some, List, [], ◌∷◌, ◌++◌,
  arith, map, if◌then◌else◌, all, append_assoc, append-nil, Bool-cases, inl, inr, ℤ, pos, negsuc,
  suc,
}
use mbdeploy.Text.{Text, codes, join}
use mbdeploy.Text.Decimal.{show, show_int, show-IsDigits, show-ne-nil, IsDigits}
use mbdeploy.Cli.Service.{
  ServeArgs, System, is_plain, escaped, quote, flag, flag_if, build_exec_start,
  resolve_mbdeploy_executable,
}
use mbdeploy.Cli.Service.Words.{
  between, bare, single, shell_words, IsBare, all-IsBare, bare-IsBare, shell_words-between,
  single-escaped, plain-IsOrdinary, among,
}

-- The text `q` stands for the word `p`.
abbrev Spells : Text → Text → Type 0
Spells q p = (rest : Text) → shell_words between (q ++ rest) ≡ shell_words (bare p) rest

word-Spells : (p : Text) → p ≢ [] → IsBare p → Spells p p
word-Spells [] ne b rest = absurd (ne refl)
word-Spells (c ∷ s) ne (o, b) rest =
    shell_words-between c (s ++ rest) o ∙ bare-IsBare s (c ∷ []) rest b

plain-Spells : (c : ℕ) (s : Text) → all is_plain (c ∷ s) ≡ true → Spells (c ∷ s) (c ∷ s)
plain-Spells c s h = word-Spells (c ∷ s) (λ e. cc) (all-IsBare (c ∷ s) h)

shell_words-open : (s : Text) → shell_words between (b'\'' ∷ s) ≡ shell_words (single []) s
unfolding shell_words among
shell_words-open s = refl

shell_words-close : (w s : Text) → shell_words (single w) (b'\'' ∷ s) ≡ shell_words (bare w) s
unfolding shell_words among
shell_words-close w s = refl

quoted-Spells : (p : Text) → Spells (b'\'' ∷ (escaped p ++ b'\'' ∷ [])) p
quoted-Spells p rest =
    shell_words-open ((escaped p ++ b'\'' ∷ []) ++ rest)
    ∙ ap (shell_words (single [])) (append_assoc (escaped p) (b'\'' ∷ []) rest)
    ∙ single-escaped p [] (b'\'' ∷ rest)
    ∙ shell_words-close p rest

quote-Spells : (p : Text) → Spells (quote p) p
unfolding quote shell_words among
quote-Spells [] rest = refl
quote-Spells (c ∷ s) rest = elim (Bool-cases (all is_plain (c ∷ s))) [
  | inl y ↦ rw (y, quote) (plain-Spells c s y rest)
  | inr n ↦ rw (n, quote) (quoted-Spells (c ∷ s) rest)
]

-- The texts stand for the words, one for one.
abbrev AllSpell : List Text → List Text → Type 0
AllSpell [] [] = Unit
AllSpell (q ∷ qs) (p ∷ ps) = Spells q p × AllSpell qs ps
AllSpell _ _ = ⊥

AllSpell-append :
    (qs ps rs ws : List Text) → AllSpell qs ps → AllSpell rs ws → AllSpell (qs ++ rs) (ps ++ ws)
AllSpell-append [] [] rs ws a b = b
AllSpell-append (q ∷ qs) (p ∷ ps) rs ws (s, a) b = (s, AllSpell-append qs ps rs ws a b)
AllSpell-append [] (p ∷ ps) rs ws a b = absurd a
AllSpell-append (q ∷ qs) [] rs ws a b = absurd a

quote-AllSpell : (ps : List Text) → AllSpell (map quote ps) ps
quote-AllSpell [] = tt
quote-AllSpell (p ∷ ps) = (quote-Spells p, quote-AllSpell ps)

shell_words-last : (p : Text) → shell_words (bare p) [] ≡ some (p ∷ [])
unfolding shell_words
shell_words-last p = refl

shell_words-next :
    (p s : Text) (ws : List Text)
    → shell_words between s ≡ some ws
    → shell_words (bare p) (b' ' ∷ s) ≡ some (p ∷ ws)
unfolding shell_words among
shell_words-next p s ws e = rw e refl

shell_words-join :
    (qs ps : List Text) → AllSpell qs ps → shell_words between (join (b' ' ∷ []) qs) ≡ some ps
unfolding join shell_words
shell_words-join [] [] a = refl
shell_words-join (q ∷ []) (p ∷ []) (s, a) =
    ap (shell_words between) (sym (append-nil q)) ∙ s [] ∙ shell_words-last p
shell_words-join (q ∷ r ∷ qs) (p ∷ w ∷ ps) (s, a) =
    s (b' ' ∷ join (b' ' ∷ []) (r ∷ qs))
    ∙ shell_words-next p (join (b' ' ∷ []) (r ∷ qs)) (w ∷ ps) (shell_words-join (r ∷ qs) (w ∷ ps) a)
shell_words-join [] (p ∷ ps) a = absurd a
shell_words-join (q ∷ qs) [] a = absurd a
shell_words-join (q ∷ []) (p ∷ w ∷ ps) a = absurd a.1
shell_words-join (q ∷ r ∷ qs) (p ∷ []) a = absurd a.1

IsDigits-IsBare : (s : Text) → IsDigits s → IsBare s
unfolding is_plain
IsDigits-IsBare [] d = tt
IsDigits-IsBare (c ∷ s) ((lo, hi), d) =
    let plain : is_plain c ≡ true = ground (arith, lo, hi) in
    (plain-IsOrdinary c plain, IsDigits-IsBare s d)

show_int-Spells : (z : ℤ) → Spells (show_int z) (show_int z)
unfolding show_int among
show_int-Spells (pos n) =
    word-Spells (show n) (show-ne-nil n) (IsDigits-IsBare (show n) (show-IsDigits n))
show_int-Spells (negsuc n) =
    word-Spells (b'-' ∷ show (suc n)) (λ e. cc)
      ((refl, refl, refl, refl), IsDigits-IsBare (show (suc n)) (show-IsDigits (suc n)))

-- a flag with its value, as words
abbrev pub given : Text → Option Text → List Text
given name none = []
given name (some value) = name ∷ value ∷ []

abbrev pub given_if : Text → Option Text → List Text
given_if name none = []
given_if name (some []) = []
given_if name (some (c ∷ value)) = name ∷ (c ∷ value) ∷ []

module _ (sys : System) where
  flag-AllSpell :
      (c : ℕ) (name : Text) (o : Option Text)
      → all is_plain (c ∷ name) ≡ true
      → AllSpell (flag sys (c ∷ name) o) (given (c ∷ name) o)
  flag-AllSpell c name none h = tt
  flag-AllSpell c name (some value) h = (plain-Spells c name h, (quote-Spells value, tt))

  flag_if-AllSpell :
      (c : ℕ) (name : Text) (o : Option Text)
      → all is_plain (c ∷ name) ≡ true
      → AllSpell (flag_if sys (c ∷ name) o) (given_if (c ∷ name) o)
  flag_if-AllSpell c name none h = tt
  flag_if-AllSpell c name (some []) h = tt
  flag_if-AllSpell c name (some (d ∷ value)) h =
      (plain-Spells c name h, (quote-Spells (d ∷ value), tt))

  -- the command that the service runs, before any quoting
  abbrev pub serve_argv : ServeArgs → Text → Option Text → List Text
  serve_argv args config_path token_file =
      resolve_mbdeploy_executable sys
      ++ codes "serve"
        ∷ codes "--config"
        ∷ config_path
        ∷ codes "--poll-interval"
        ∷ args.poll_interval
        ∷ codes "--base-port"
        ∷ show_int args.base_port
        ∷ (given_if (codes "--bind") args.bind
            ++ given (codes "--token-file") token_file
            ++ (if args.no_flash then codes "--no-flash" ∷ [] else [])
            ++ codes "--target-mcu"
              ∷ args.target_mcu
              ∷ given_if (codes "--service-name") args.service_name)

  no_flash-AllSpell :
      (b : Bool)
      → AllSpell
          (if b then codes "--no-flash" ∷ [] else [])
          (if b then codes "--no-flash" ∷ [] else [])
  unfolding is_plain
  no_flash-AllSpell false = tt
  no_flash-AllSpell true = (plain-Spells _ _ refl, tt)

  options-AllSpell :
      (args : ServeArgs) (token_file : Option Text)
      → AllSpell
          (flag_if sys (codes "--bind") args.bind
            ++ flag sys (codes "--token-file") token_file
            ++ (if args.no_flash then codes "--no-flash" ∷ [] else [])
            ++ codes "--target-mcu"
              ∷ quote args.target_mcu
              ∷ flag_if sys (codes "--service-name") args.service_name)
          (given_if (codes "--bind") args.bind
            ++ given (codes "--token-file") token_file
            ++ (if args.no_flash then codes "--no-flash" ∷ [] else [])
            ++ codes "--target-mcu"
              ∷ args.target_mcu
              ∷ given_if (codes "--service-name") args.service_name)
  unfolding is_plain
  options-AllSpell args token_file =
      AllSpell-append _ _ _ _
        (AllSpell-append _ _ _ _
          (AllSpell-append _ _ _ _ (flag_if-AllSpell _ _ args.bind refl)
            (flag-AllSpell _ _ token_file refl))
          (no_flash-AllSpell args.no_flash))
        (
          plain-Spells _ _ refl,
          (quote-Spells args.target_mcu, flag_if-AllSpell _ _ args.service_name refl),
        )

  -- Where `:g` prints the poll interval with plain characters, at least one, the `ExecStart` line is
  -- read back as the command that it is made from, word by word: no path, address, name or device
  -- type of it breaks apart or joins another, whichever characters it has. The line is read as a
  -- shell reads a simple command: blanks separate words, quotes join, and outside of single quotes no
  -- special character is taken as it is.
  pub exec_start-words :
      (args : ServeArgs) (config_path : Text) (token_file : Option Text)
      → args.poll_interval ≢ []
      → all is_plain args.poll_interval ≡ true
      → shell_words between (build_exec_start sys args config_path token_file)
        ≡ some (serve_argv args config_path token_file)
  unfolding build_exec_start is_plain
  exec_start-words args config_path token_file ne plain =
      shell_words-join _ (serve_argv args config_path token_file) (
        AllSpell-append _ (resolve_mbdeploy_executable sys) _ _
          (quote-AllSpell (resolve_mbdeploy_executable sys))
          (
            plain-Spells _ _ refl,
            (
              plain-Spells _ _ refl,
              (
                quote-Spells config_path,
                (
                  plain-Spells _ _ refl,
                  (
                    word-Spells args.poll_interval ne (all-IsBare args.poll_interval plain),
                    (
                      plain-Spells _ _ refl,
                      (show_int-Spells args.base_port, options-AllSpell args token_file),
                    ),
                  ),
                ),
              ),
            ),
          ))
