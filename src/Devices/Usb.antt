-- ===== src/Devices/Usb.antt =====
-- `flashable_probes` and `_flashable_probes_cli` of src/mbdeploy/devices.py, over what pyOCD answers.
pub mod Search
mod Tests
use mbdeploy.Base.{
  ℕ, Bool, true, false, not, ◌&&◌, ◌||◌, Option, none, some, List, [], ◌∷◌, leb, ◌==◌,
  if◌then◌else◌, length,
}
use mbdeploy.Text.{Text, Unicode, is_ascii, is_space}
use mbdeploy.Text.Strip.{strip}

pub record Probe : Type 0 where
  pub uid : Text
  pub description : Text

abbrev pub is_hex : ℕ → Bool
is_hex c = (leb b'0' c && leb c b'9') || (leb b'a' c && leb c b'f') || (leb b'A' c && leb c b'F')

abbrev is_ascii_word : ℕ → Bool
is_ascii_word c =
    (leb b'0' c && leb c b'9')
    || (leb b'a' c && leb c b'z')
    || (leb b'A' c && leb c b'Z')
    || c == b'_'

-- the hexadecimal digits that a text begins with, and what follows them
unfoldable pub hex_run : Text → Text × Text
hex_run [] = ([], [])
hex_run (c ∷ s) = let (run, rest) = hex_run s in if is_hex c then (c ∷ run, rest) else ([], c ∷ s)

-- where `splitlines` ends a line. It takes "\r\n" for one end; here an empty line is between, in
-- which there is no UID.
abbrev is_line_break : ℕ → Bool
is_line_break c =
    (leb 10 c && leb c 13) || (leb 28 c && leb c 30) || c == 0x85 || c == 0x2028 || c == 0x2029

-- the line that a text begins with, and the later lines
unfoldable pub lines_from : Text → Text × List Text
lines_from [] = ([], [])
lines_from (c ∷ s) =
    let (line, lines) = lines_from s in
    if is_line_break c then ([], line ∷ lines) else (c ∷ line, lines)

-- `getattr(p, "unique_id", None)` and `getattr(p, "description", "")` of a probe: those that have a
-- UID that is not empty
unfoldable pub with_uids : List (Option Text × Option Text) → List Probe
with_uids [] = []
with_uids ((none, d) ∷ ps) = with_uids ps
with_uids ((some [], d) ∷ ps) = with_uids ps
with_uids ((some (c ∷ uid), none) ∷ ps) = record { uid = c ∷ uid; description = [] } ∷ with_uids ps
with_uids ((some (c ∷ uid), some d) ∷ ps) = record { uid = c ∷ uid; description = d } ∷ with_uids ps

-- `word` is Python's `\w` outside ASCII.
module _ (u : Unicode) (word : ℕ → Bool) where
  abbrev pub is_word : ℕ → Bool
  is_word c = if is_ascii c then is_ascii_word c else word c

  abbrev pub starts_word : Text → Bool
  starts_word [] = false
  starts_word (c ∷ s) = is_word c

  -- A match that begins here. It ends at a `\b`, and so where the digits end.
  abbrev pub uid_at : Text → Option Text
  uid_at s =
      let (run, rest) = hex_run s in
      if leb 40 (length run) && leb (length run) 52 && not (starts_word rest)
      then some run
      else none

  -- The search for `\b([0-9a-fA-F]{40,52})\b`. The flag tells whether a word character stands before
  -- the text, so that no `\b` is before a digit.
  unfoldable pub search_uid : Bool → Text → Option Text
  search_uid before [] = none
  search_uid before (c ∷ s) =
      let later = search_uid (is_word c) s in
      if before then later else elim (uid_at (c ∷ s)) [ none ↦ later | some uid ↦ some uid ]

  unfoldable pub probes_of : List Text → List Probe
  probes_of [] = []
  probes_of (line ∷ lines) =
      let rest = probes_of lines in
      elim (search_uid false line) [
        | none ↦ rest
        | some uid ↦ record { uid = uid; description = strip (is_space u) line } ∷ rest
      ]

  -- `_flashable_probes_cli`, by the output of `pyocd list`; `none` is an `OSError` or a
  -- `SubprocessError`
  unfoldable pub flashable_probes_cli : Option Text → List Probe
  flashable_probes_cli none = []
  flashable_probes_cli (some out) = let (line, lines) = lines_from out in probes_of (line ∷ lines)

  -- `flashable_probes`, by what the pyOCD API answers; `none` is an exception
  unfoldable pub flashable_probes :
      Option (List (Option Text × Option Text)) → Option Text → List Probe
  flashable_probes none out = flashable_probes_cli out
  flashable_probes (some probes) out = with_uids probes
