-- ===== src/Devices/Resolve.antt =====
-- `resolve_target` of src/mbdeploy/devices.py: the entry that a token typed by the user names.
pub mod Laws
use mbdeploy.Base.{
  ℕ, ◌≤◌, ◌≡◌, ◌≢◌, refl, sym, ap, ◌∙◌, Bool, true, false, ◌&&◌, ◌||◌, Option, none, some, List, [],
  ◌∷◌, map, arith, ◌==◌, leb, if◌then◌else◌, length, all, Bool-cases, inl, inr, ◌⊎◌, ◌++◌,
}
use mbdeploy.Text.{
  Text, Unicode, codes, same, is_digit, is_digit_char, starts_with, contains, lower,
}
use mbdeploy.Text.Decimal.{int_of}
use mbdeploy.Text.Dict.{values}
use mbdeploy.Devices.Registry.{Entry, Registry}

-- why a token is refused, with a `ValueError` each time
pub data Refusal : Type 0 where
  bad_number no_such_enum port_path no_such_uid no_such_name : Refusal

pub data Resolved : Type 0 where
  found : Entry → Resolved
  refused : Refusal → Resolved

-- the first of the entries that passes the test
unfoldable pub first : (Entry → Bool) → Refusal → List Entry → Resolved
first p why [] = refused why
first p why (e ∷ es) = if p e then found e else first p why es

abbrev pub has_enum : ℕ → Entry → Bool
has_enum n e = elim e.enum [ none ↦ false | some m ↦ m == n ]

abbrev pub has_uid : Text → Entry → Bool
has_uid token e = elim e.uid [ none ↦ false | some uid ↦ same uid token ]

-- `entry.get(field) or ""`
abbrev pub or_empty : Option Text → Text
or_empty none = []
or_empty (some s) = s

abbrev is_hex_char : ℕ → Bool
is_hex_char c =
    (leb b'0' c && leb c b'9') || (leb b'a' c && leb c b'f') || (leb b'A' c && leb c b'F')

-- `re.fullmatch(r"[0-9a-fA-F]{40,52}", token)`
unfoldable pub is_uid : Text → Bool
is_uid token = leb 40 (length token) && leb (length token) 52 && all is_hex_char token

-- `token.startswith("/dev/") or "/" in token`
unfoldable pub is_path : Text → Bool
is_path token = starts_with token (codes "/dev/") || contains (codes "/") token

-- the two passes over the entries, one for each of `NAME_FIELDS`
otherwise : Resolved → Resolved → Resolved
otherwise (found e) r = found e
otherwise (refused why) r = r

module _ (u : Unicode) where
  abbrev pub named : Text → (Entry → Option Text) → Entry → Bool
  named token field e = same (lower u (or_empty (field e))) (lower u token)

  by_name : Text → List Entry → Resolved
  by_name token es =
      otherwise (first (named token (λ e. e.device_name)) no_such_name es)
        (first (named token (λ e. e.board_name)) no_such_name es)

  by_enum : Text → List Entry → Resolved
  by_enum token es = elim (int_of u token) [
    | none ↦ refused bad_number
    | some n ↦ first (has_enum n) no_such_enum es
  ]

  unfoldable pub resolve_target : Text → Registry → Resolved
  unfolding by_enum by_name otherwise
  resolve_target token devices =
      if is_digit u token
      then by_enum token (values devices)
      else if is_path token
      then refused port_path
      else if is_uid token
      then first (has_uid token) no_such_uid (values devices)
      else by_name token (values devices)
