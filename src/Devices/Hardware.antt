-- ===== src/Devices/Hardware.antt =====
-- `port_serial_map` and `read_device_id` of src/mbdeploy/devices.py, over what pyserial, pyOCD and
-- the registry file answer: these are parameters, the fields of `Hardware`.
use mbdeploy.Base.{
  ℕ, Bool, false, not, ◌&&◌, Option, none, some, List, [], ◌∷◌, ◌==◌, if◌then◌else◌, any,
}
use mbdeploy.Text.{Text, Unicode, same}
use mbdeploy.Text.Dict.{Dict, put, has}
use mbdeploy.Devices.Announce.{Port}

-- one serial port that `comports()` lists
pub record ComPort : Type 0 where
  pub vid : ℕ
  pub pid : ℕ
  pub serial_number : Option Text
  pub device : Text

pub record Hardware (u : Unicode) : Type 0 where
  pub probes : List Text
  pub comports : List ComPort
  pub port_at : Text → Port u
  pub attach : Text → Option Text → Option ℕ

-- `uid in known`
abbrev pub member : Text → List Text → Bool
member k l = any (λ x. same x k) l

-- `known is not None and uid not in known`
abbrev unknown : Option (List Text) → Text → Bool
unknown none uid = false
unknown (some known) uid = not (member uid known)

-- `out.setdefault(uid, device)`
abbrev set_default : Text → Text → Dict Text → Dict Text
set_default k v d = if has k d then d else put k v d

-- The loop over the ports. `_DAPLINK_VID_PID` is (0x0d28, 0x0204).
add_ports : Option (List Text) → List ComPort → Dict Text → Dict Text
add_ports known [] out = out
add_ports known (p ∷ ps) out = add_ports known ps (
    if not (p.vid == 0x0d28 && p.pid == 0x0204) then out else elim p.serial_number [
      | none ↦ out
      | some uid ↦ if unknown known uid then out else set_default uid p.device out
    ])

unfoldable pub port_serial_map : Option (List Text) → List ComPort → Dict Text
unfolding add_ports
port_serial_map known ports = add_ports known ports []

-- `attach` opens a session on the board behind a UID and reads `FICR.DEVICEID[1]`, with a target
-- override or without; `none` is an exception.
unfoldable pub read_device_id : (Text → Option Text → Option ℕ) → Text → Text → Option ℕ
read_device_id attach uid mcu = elim (attach uid (some mcu)) [
  | some d ↦ some d
  | none ↦ attach uid none
]

-- `_quiet_pyocd` around what is done with the logger's level: one above `CRITICAL` while it runs, and
-- the level before, however it ends
unfoldable pub quiet_pyocd : {R : Type 0} → (ℕ → R) → ℕ → R × ℕ
quiet_pyocd body previous = (body 51, previous)
