-- ===== src/Devices/Probe.antt =====
-- `port_serial_map`, `read_device_id` and `probe_all` of src/mbdeploy/devices.py. USB, the serial
-- ports, pyOCD and the registry file are parameters: the record `Hardware` is what they answer.
pub mod Loop
pub mod Laws
use mbdeploy.Base.{
  ℕ, suc, ◌+◌, ◌≡◌, Bool, true, false, not, ◌&&◌, Option, none, some, List, [], ◌∷◌, ◌++◌, ◌==◌,
  if◌then◌else◌, is_some, any,
}
use mbdeploy.Text.{Text, Unicode, same}
use mbdeploy.Text.Dict.{Dict, get, put, values, has}
use mbdeploy.Devices.Name.{friendly_name}
use mbdeploy.Devices.Announce.{Announcement, Port, probe_type}
use mbdeploy.Devices.Registry.{Entry, no_entry, Registry, assign_enum}
use mbdeploy.Devices.Hardware.{Hardware, member, port_serial_map, read_device_id}

-- what the loop asked of a board: HELLO on its port, or a read over SWD
pub data Call : Type 0 where
  hello : Text → Call
  swd : Text → Call

abbrev truthy : Option Text → Bool
truthy none = false
truthy (some []) = false
truthy (some (c ∷ s)) = true

with_port : Text → Dict Text → Entry → Entry
with_port uid ports e = record e { uid = some uid; port = get uid ports }

with_enum : Registry → Text → Entry → Entry
with_enum devices uid e =
    if is_some e.enum then e else record e { enum = some (assign_enum devices uid) }

-- the fields of an announcement; without one they stay as they are
with_info : Option Announcement → Entry → Entry
with_info none e = e
with_info (some info) e = record e {
  announcement = some info.raw;
  role = some info.role;
  common_name = some info.common_name;
  device_name = some info.device_name;
  serial = some info.serial;
}

with_name : Option ℕ → Entry → Entry
with_name none e = e
with_name (some d) e = record e { device_id = some d; board_name = some (friendly_name d) }

hello_calls : Option Text → List Call
hello_calls none = []
hello_calls (some []) = []
hello_calls (some (c ∷ s)) = hello (c ∷ s) ∷ []

-- `devices.get(uid, {})`
abbrev pub entry_of : Registry → Text → Entry
entry_of devices uid = elim (get uid devices) [ some e ↦ e | none ↦ no_entry ]

-- `[p for p in probes if p["uid"] in only_uids]`
unfoldable pub narrow : Option (List Text) → List Text → List Text
narrow none uids = uids
narrow (some only) [] = []
narrow (some only) (uid ∷ uids) =
    let rest = narrow (some only) uids in if member uid only then uid ∷ rest else rest

-- `load_devices`: `{}` for a file that is missing or does not parse
abbrev pub load_devices : Option Registry → Registry
load_devices none = []
load_devices (some d) = d

module _ (u : Unicode) (mcu : Text) (hw : Hardware u) where
  -- `probe_type(port) if port else None`; its timeout is 1.6 s
  unfoldable pub announced : Option Text → Option Announcement
  announced none = none
  announced (some []) = none
  announced (some (c ∷ s)) = probe_type u 1600 (hw.port_at (c ∷ s))

  -- the entry that one turn of the loop stores for `uid`
  unfoldable pub refreshed : Dict Text → Registry → Text → Entry
  unfolding with_port with_enum with_info with_name announced
  refreshed ports devices uid =
      let e = with_enum devices uid (with_port uid ports (entry_of devices uid)) in
      let f = with_info (announced e.port) e in
      if truthy f.board_name then f else with_name (read_device_id hw.attach uid mcu) f

  -- what one turn of the loop asks of the boards
  unfoldable pub calls_for : Dict Text → Registry → Text → List Call
  unfolding with_info announced hello_calls
  calls_for ports devices uid =
      let name = (with_info (announced (get uid ports)) (entry_of devices uid)).board_name in
      hello_calls (get uid ports) ++ (if truthy name then [] else swd uid ∷ [])

  -- the loop over the probes
  unfoldable pub probe_each : Dict Text → List Text → Registry → Registry
  probe_each ports [] devices = devices
  probe_each ports (uid ∷ uids) devices =
      probe_each ports uids (put uid (refreshed ports devices uid) devices)

  unfoldable pub probe_calls : Dict Text → List Text → Registry → List Call
  probe_calls ports [] devices = []
  probe_calls ports (uid ∷ uids) devices =
      calls_for ports devices uid
      ++ probe_calls ports uids (put uid (refreshed ports devices uid) devices)

  -- The registry that is saved and whose values are returned; `none` is the `ValueError`.
  unfoldable pub probe_all : Option Registry → Bool → Option (List Text) → Option Registry
  probe_all file clear only =
      if is_some only && clear
      then none
      else (let devices = if clear then [] else load_devices file in
          let uids = narrow only hw.probes in
          some (probe_each (port_serial_map (some uids) hw.comports) uids devices))
