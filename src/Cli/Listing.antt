-- ===== src/Cli/Listing.antt =====
-- `_device_rows`, `_cmd_list` and `_cmd_probe` of src/mbdeploy/cli.py, and `read_board_name` of
-- src/mbdeploy/devices.py. What is printed is the table of rows; a set of UIDs is a list of them.
pub mod Boards
mod Tests
use mbdeploy.Base.{
  ℕ, ◌+◌, ◌^◌, Bool, true, false, not, ◌&&◌, ◌||◌, Option, none, some, List, [], ◌∷◌, ◌++◌, map,
  ◌==◌, ltb, if◌then◌else◌, is_nil, is_some,
}
use mbdeploy.Text.{Text, Unicode, codes, same}
use mbdeploy.Text.Decimal.{show}
use mbdeploy.Text.Dict.{Dict, get, put, has, keys, values}
use mbdeploy.Devices.Name.{friendly_name}
use mbdeploy.Devices.Hardware.{Hardware, member, port_serial_map, read_device_id}
use mbdeploy.Devices.Registry.{Entry, no_entry, Registry}
use mbdeploy.Devices.Probe.{load_devices, probe_all}
use mbdeploy.Remote.Listing.{text_le}
use mbdeploy.Cli.Deploy.{or_default}

pub record Row : Type 0 where
  pub enum : Option ℕ
  pub conn : Bool
  pub name : Text
  pub common : Text
  pub role : Text
  pub port : Text
  pub uid : Text

abbrev pub read_board_name : (Text → Option Text → Option ℕ) → Text → Text → Option Text
read_board_name attach uid mcu = elim (read_device_id attach uid mcu) [
  | none ↦ none
  | some device_id ↦ some (friendly_name device_id)
]

-- `a or b or ""`
abbrev pub first_of : Option Text → Option Text → Text
first_of a b = or_default a (or_default b [])

abbrev pub entry_at : Text → Registry → Entry
entry_at uid entries = elim (get uid entries) [ none ↦ no_entry | some e ↦ e ]

-- the UIDs of the registry, then those that are only live
unfoldable pub unlisted : Registry → List Text → List Text
unlisted entries [] = []
unlisted entries (uid ∷ uids) =
    let rest = unlisted entries uids in if has uid entries then rest else uid ∷ rest

-- `int(r["enum"]) if r["enum"] else 1 << 30`
abbrev pub rank : Row → ℕ
rank r = elim r.enum [ none ↦ 2 ^ 30 | some n ↦ n ]

-- the order of the sort keys: connected first, then by number, then by UID
unfoldable pub comes_first : Row → Row → Bool
comes_first a b =
    if a.conn && not b.conn
    then true
    else if not a.conn && b.conn
    then false
    else if rank a == rank b
    then text_le a.uid b.uid
    else ltb (rank a) (rank b)

unfoldable pub insert : Row → List Row → List Row
insert a [] = a ∷ []
insert a (b ∷ rows) =
    let later = insert a rows in if comes_first a b then a ∷ b ∷ rows else b ∷ later

-- `rows.sort`
unfoldable pub sort : List Row → List Row
sort [] = []
sort (a ∷ rows) = insert a (sort rows)

module _ (name_of : Text → Option Text) (live_uids : List Text) (live_ports : Dict Text)
    (read_names : Bool) where
  abbrev pub name_or_read : Text → Text → Bool → Text
  name_or_read uid [] true = or_default (name_of uid) []
  name_or_read uid [] false = []
  name_or_read uid (c ∷ name) reads = c ∷ name

  abbrev pub row_for : Registry → Text → Row
  row_for entries uid =
      let entry = entry_at uid entries in
      let connected = member uid live_uids in
      record {
        enum = entry.enum;
        conn = connected;
        name =
            name_or_read uid (first_of entry.device_name entry.board_name)
              (connected && read_names);
        common = or_default entry.common_name [];
        role = or_default entry.role [];
        port = if connected then first_of (get uid live_ports) entry.port else [];
        uid = uid;
      }

  abbrev pub all_uids : Registry → List Text
  all_uids entries = keys entries ++ unlisted entries live_uids

  unfoldable pub device_rows : Registry → List Row
  device_rows entries = sort (map (row_for entries) (all_uids entries))

-- the table, or "no devices found"
pub data Shown : Type 0 where
  no_devices : Shown
  table : List Row → Shown

abbrev pub shown : List Row → Shown
shown [] = no_devices
shown (r ∷ rows) = table (r ∷ rows)

module _ (u : Unicode) (mcu : Text) (hw : Hardware u) where
  abbrev pub live_ports_of : List Text → Dict Text
  live_ports_of [] = []
  live_ports_of (uid ∷ uids) = port_serial_map (some (uid ∷ uids)) hw.comports

  -- `_cmd_list` without `--remote`
  unfoldable pub cmd_list : Bool → Option Registry → Shown
  cmd_list fast file = shown (
      device_rows (λ uid. read_board_name hw.attach uid mcu) hw.probes (live_ports_of hw.probes)
        (not fast) (load_devices file))

  -- `{entry["uid"]: entry for entry in entries if entry.get("uid")}`
  unfoldable pub by_uid : List Entry → Registry → Registry
  by_uid [] registry = registry
  by_uid (e ∷ entries) registry = by_uid entries (elim e.uid [
    | none ↦ registry
    | some [] ↦ registry
    | some (c ∷ uid) ↦ put (c ∷ uid) e registry
  ])

  abbrev pub show_probed : List Entry → Shown
  show_probed [] = no_devices
  show_probed (e ∷ entries) = table (
      device_rows (λ uid. read_board_name hw.attach uid mcu) hw.probes [] false
        (by_uid (e ∷ entries) []))

  -- `_cmd_probe`: the registry that is saved, and what is shown; `none` is an uncaught `ValueError`
  unfoldable pub cmd_probe : Bool → Option Registry → Option (Registry × Shown)
  cmd_probe clear file = elim (probe_all u mcu hw file clear none) [
    | none ↦ none
    | some registry ↦ some (registry, show_probed (values registry))
  ]
