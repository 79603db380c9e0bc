-- ===== src/Remote/Resolve.antt =====
-- `_short_name` and `resolve_board` of src/mbdeploy/remote.py, on what `mdns.browse` has found.
pub mod Unique
use mbdeploy.Base.{
  ℕ, ◌-◌, Bool, true, false, ◌||◌, Option, none, some, List, [], ◌∷◌, ◌++◌, ◌==◌, if◌then◌else◌,
  length, take, drop, is_nil,
}
use mbdeploy.Text.{Text, Unicode, codes, same, starts_with, decimal_value, join}
use mbdeploy.Text.Decimal.{show}
use mbdeploy.Text.Dict.{Dict}

-- one result of `browse`
pub record Found : Type 0 where
  pub name : Text
  pub host : Text
  pub port : ℕ
  pub txt : Dict Text

-- a board, or the message of the `ValueError`
pub data Resolution : Type 0 where
  board : Found → Resolution
  refused : Text → Resolution

-- `s.endswith(p)`
unfoldable pub ends_with : Text → Text → Bool
ends_with [] p = is_nil p
ends_with (c ∷ s) p = same (c ∷ s) p || ends_with s p

module _ (u : Unicode) where
  -- `\d+\)$`, after at least one digit or not: what stays of the text if it matches
  unfoldable pub closes : Bool → Text → Option Text
  closes some_digit [] = none
  closes some_digit (c ∷ s) =
      let later = closes true s in
      elim (decimal_value u c) [
        | some d ↦ later
        | none ↦
            if c == b')'
            then (if some_digit
                then (if is_nil s then some [] else if same s (b'\n' ∷ []) then some s else none)
                else none)
            else none
      ]

  unfoldable pub rename_suffix : Text → Option Text
  unfolding closes
  rename_suffix s = if starts_with s (codes " (") then closes false (drop 2 s) else none

  -- `_DEDUPE_SUFFIX_RE.sub("", s)`, of the pattern ` \(\d+\)$`
  unfoldable pub without_rename : Text → Text
  unfolding rename_suffix
  without_rename [] = []
  without_rename (c ∷ s) =
      let later = without_rename s in
      elim (rename_suffix (c ∷ s)) [ some rest ↦ rest | none ↦ c ∷ later ]

  unfoldable pub short_name : Text → Text → Text
  unfolding ends_with without_rename
  short_name raw_name service_type =
      let suffix = b'.' ∷ service_type in
      let short =
        if ends_with raw_name suffix
        then take (length raw_name - length suffix) raw_name
        else raw_name in
      without_rename short

  unfoldable pub matches : Text → Text → List Found → List Found
  unfolding short_name
  matches name service_type [] = []
  matches name service_type (f ∷ fs) =
      let rest = matches name service_type fs in
      if same (short_name f.name service_type) name
      then record f { name = short_name f.name service_type } ∷ rest
      else rest

  abbrev candidates : List Found → List Text
  candidates [] = []
  candidates (f ∷ fs) = (f.host ++ b':' ∷ show f.port) ∷ candidates fs

  abbrev pub choose : Text → Text → List Found → Resolution
  choose name service_type [] =
      refused (codes "no board named '" ++ (name ++ (codes "' found advertising " ++ service_type)))
  choose name service_type (f ∷ []) = board f
  choose name service_type (f ∷ g ∷ fs) = refused (
      codes "multiple boards named '"
      ++ (name
          ++ (codes "' found advertising "
              ++ (service_type ++ (codes ": " ++ join (codes ", ") (candidates (f ∷ g ∷ fs)))))))

  unfoldable pub resolve_board : Text → Text → List Found → Resolution
  unfolding matches
  resolve_board name service_type results =
      choose name service_type (matches name service_type results)
