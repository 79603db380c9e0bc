-- ===== src/Server/Header.antt =====
-- `_parse_flash_header` of src/mbdeploy/server.py: `FLASH <bytes> [sha256=<hex>] [force-relay]`.
use mbdeploy.Base.{
  ℕ, Bool, true, false, not, Option, none, some, List, [], ◌∷◌, if◌then◌else◌, drop,
}
use mbdeploy.Text.{Text, Unicode, codes, same, starts_with, is_digit, is_space}
use mbdeploy.Text.Split.{split}
use mbdeploy.Text.Decimal.{int_of}

pub record Header : Type 0 where
  pub nbytes : ℕ
  pub sha256 : Option Text
  pub force_relay : Bool

-- a header, `None`, or the `ValueError` of `int`
pub data Parsed : Type 0 where
  header : Header → Parsed
  malformed : Parsed
  value_error : Parsed

-- one optional token; an unknown one is ignored
read_token : Text → Header → Header
read_token tok h =
    if starts_with tok (codes "sha256=")
    then record h { sha256 = some (drop 7 tok) }
    else if same tok (codes "force-relay")
    then record h { force_relay = true }
    else h

-- the loop over `parts[2:]`
read_tokens : List Text → Header → Header
read_tokens [] h = h
read_tokens (tok ∷ toks) h = read_tokens toks (read_token tok h)

abbrev with_count : Option ℕ → List Text → Parsed
with_count none toks = value_error
with_count (some n) toks =
    header (read_tokens toks (record { nbytes = n; sha256 = none; force_relay = false }))

module _ (u : Unicode) where
  read_parts : List Text → Parsed
  read_parts (command ∷ count ∷ toks) =
      if not (same command (codes "FLASH"))
      then malformed
      else if not (is_digit u count)
      then malformed
      else with_count (int_of u count) toks
  read_parts _ = malformed

  unfoldable pub parse_flash_header : Text → Parsed
  unfolding read_parts read_tokens read_token
  parse_flash_header text = read_parts (split (is_space u) text)
