-- ===== src/Cli/Deploy.antt =====
-- `_device_label`, `_deploy_entry`, `_cmd_deploy` and `_cmd_deploy_remote` of src/mbdeploy/cli.py. An
-- error message is the constructor of `Failure` that names it, with what it quotes.
pub mod Guards
mod Tests
use mbdeploy.Base.{
  ℕ, Bool, true, false, not, ◌&&◌, ◌||◌, Option, none, some, List, [], ◌∷◌, ◌++◌, map,
  if◌then◌else◌, is_nil, ℤ, pos, nonzero,
}
use mbdeploy.Text.{Text, Unicode, codes}
use mbdeploy.Text.Dict.{Dict, get, put, keys, values}
use mbdeploy.Text.Decimal.{show}
use mbdeploy.Flash.{Argv, Process, Loaded, Attempt, Shell, Target, start, flash_hex}
use mbdeploy.Devices.Announce.{is_relay}
use mbdeploy.Devices.Hardware.{Hardware, member, port_serial_map}
use mbdeploy.Devices.Registry.{Entry, Registry}
use mbdeploy.Devices.Probe.{load_devices}
use mbdeploy.Devices.Resolve.{Refusal, Resolved, found, refused, is_path, resolve_target}
use mbdeploy.Remote.Deploy.{Network, Report, deploy_over_network}
use mbdeploy.Cli.Builder.{Tools, Request, Built, run}

pub record Args : Type 0 where
  pub target : Option Text
  pub build : Bool
  pub clean : Bool
  pub jobs : Option ℤ
  pub force_relay : Bool
  pub hex : Option Text
  pub target_mcu : Option Text
  pub remote : Bool

-- what goes to stderr before the exit
pub data Failure : Type 0 where
  remote_path remote_without_target : Failure
  unresolved : Refusal → Failure
  no_board no_serial_port : Text → Failure
  not_on_port : Text → List Text → Failure
  unregistered : Text → Text → Failure
  no_candidate : Failure
  ambiguous : List Text → Failure
  is_a_relay : Text → Failure
  not_connected : Text → Failure
  build_failed : ℤ → Failure

-- an exit code, or the `KeyError` of an entry without a UID
pub data Exit : Type 0 where
  exited : ℤ → Exit
  key_error : Exit

-- `a or b` on a text that may be missing
abbrev pub or_default : Option Text → Text → Text
or_default none d = d
or_default (some []) d = d
or_default (some (c ∷ s)) d = c ∷ s

abbrev enum_or_uid : Entry → Text
enum_or_uid e = elim e.enum [
  | some n ↦ show n
  | none ↦ elim e.uid [ some uid ↦ uid | none ↦ codes "unknown" ]
]

unfoldable pub device_label : Entry → Text
device_label e = or_default e.device_name (or_default e.board_name (enum_or_uid e))

-- `{port: uid for uid, port in live_ports.items()}`, onto what is there
unfoldable pub by_port : Dict Text → Dict Text → Dict Text
by_port [] out = out
by_port ((uid, port) ∷ d) out = by_port d (put port uid out)

pub data Choice : Type 0 where
  chosen : Entry → Choice
  refusal : Failure → Choice

module _ (u : Unicode) where
  abbrev registered : Text → Text → Option Entry → Choice
  registered target uid none = refusal (unregistered target uid)
  registered target uid (some e) = chosen e

  abbrev on_port : Text → Registry → Dict Text → Option Text → Choice
  on_port target registry uids none = refusal (not_on_port target (keys uids))
  on_port target registry uids (some uid) = registered target uid (get uid registry)

  -- a path, by the live map of the serial ports
  unfoldable pub entry_on_port : Text → Registry → Hardware u → Choice
  entry_on_port target registry hw =
      let live = port_serial_map (some hw.probes) hw.comports in
      if is_nil live
      then refusal (if is_nil hw.probes then no_board target else no_serial_port target)
      else on_port target registry (by_port live []) (get target (by_port live []))

  abbrev of_resolved : Resolved → Choice
  of_resolved (found e) = chosen e
  of_resolved (refused why) = refusal (unresolved why)

  unfoldable pub deploy_entry : Text → Registry → Hardware u → Choice
  deploy_entry target registry hw =
      if is_path target
      then entry_on_port target registry hw
      else of_resolved (resolve_target u target registry)

  -- `[e for e in registry.values() if not is_relay(e.get("role"))]`
  unfoldable pub non_relays : List Entry → List Entry
  non_relays [] = []
  non_relays (e ∷ es) = let rest = non_relays es in if is_relay u e.role then rest else e ∷ rest

  abbrev pub only : List Entry → Choice
  only [] = refusal no_candidate
  only (e ∷ []) = chosen e
  only (e ∷ f ∷ es) = refusal (ambiguous (map device_label (e ∷ f ∷ es)))

  -- the entry that `_cmd_deploy` goes on with; an empty target counts as none
  unfoldable pub choose_entry : Option Text → Registry → Hardware u → Choice
  choose_entry none registry hw = only (non_relays (values registry))
  choose_entry (some []) registry hw = only (non_relays (values registry))
  choose_entry (some (c ∷ s)) registry hw = deploy_entry (c ∷ s) registry hw

-- What the commands use of the machine: the boards, the registry file, build.py, pyocd, intelhex and
-- the network.
pub record Machine (u : Unicode) (W : Type 0) : Type 0 where
  pub hardware : W → Hardware u
  pub saved : W → Option Registry
  pub tools : Tools W
  pub spawn : Argv → W → Process × W
  pub load : Text → W → Loaded
  pub network : W → Network

-- How a command ends: its exit, the error it prints, the build command, the boards given to
-- `flash_hex` with the pyocd commands that ran, what went over the network, and the world.
pub record Done (W : Type 0) : Type 0 where
  pub exit : Exit
  pub failure : Option Failure
  pub built : Option Argv
  pub flashed : List Target
  pub ran : List Attempt
  pub sent : List Text
  pub world : W

abbrev pub done : {W : Type 0} → Exit → W → Done W
done e w = record {
  exit = e;
  failure = none;
  built = none;
  flashed = [];
  ran = [];
  sent = [];
  world = w;
}

abbrev pub fail : {W : Type 0} → Failure → W → Done W
fail f w = record (done (exited (pos 1)) w) { failure = some f }

module _ {W : Type 0} (u : Unicode) (m : Machine u W) (args : Args) where
  abbrev pub request : Request
  request = record { clean = args.clean; verbose = false; jobs = args.jobs; build_cmd = none }

  -- `--build` and `--clean` build first, and a failed build ends the command
  unfoldable pub after_build : (W → Done W) → W → Done W
  after_build next w =
      if args.build || args.clean
      then (let b = run u m.tools request w in
          if nonzero b.code
          then record (fail (build_failed b.code) b.world) {
            exit = exited b.code;
            built = b.command;
          }
          else record (next b.world) { built = b.command })
      else next w

  abbrev pub mcu : Text
  mcu = or_default args.target_mcu (codes "nrf52833")

  abbrev pub hex_path : Text
  hex_path = or_default args.hex (codes "MICROBIT.hex")

  abbrev pub target_of : Entry → Text → Target
  target_of e uid = record {
    python = m.tools.python;
    uid = uid;
    hex_path = hex_path;
    mcu = mcu;
    board_name = some (device_label e);
  }

  unfoldable pub flash_entry : Entry → Text → W → Done W
  flash_entry e uid w =
      let t = target_of e uid in
      let (rc, sh) = flash_hex u m.spawn m.load t (start w) in
      record (done (exited rc) sh.world) { flashed = t ∷ []; ran = sh.ran }

  -- the live-probe confirmation, with `entry["uid"]`
  abbrev pub confirm : Entry → Option Text → W → Done W
  confirm e none w = done key_error w
  confirm e (some uid) w =
      if not (member uid (m.hardware w).probes)
      then fail (not_connected uid) w
      else after_build (flash_entry e uid) w

  unfoldable pub guard_relay : Entry → W → Done W
  guard_relay e w =
      if is_relay u e.role && not args.force_relay
      then fail (is_a_relay (device_label e)) w
      else confirm e e.uid w

  abbrev pub deploy_chosen : Choice → W → Done W
  deploy_chosen (refusal f) w = fail f w
  deploy_chosen (chosen e) w = guard_relay e w

  unfoldable pub send_remote : Text → W → Done W
  send_remote target w =
      let r = deploy_over_network u (m.network w) target hex_path args.force_relay in
      record (done (exited (pos r.code)) w) { sent = r.sent }

  unfoldable pub deploy_remote : Option Text → W → Done W
  deploy_remote none w = fail remote_without_target w
  deploy_remote (some []) w = fail remote_without_target w
  deploy_remote (some (c ∷ s)) w =
      if is_path (c ∷ s) then fail remote_path w else after_build (send_remote (c ∷ s)) w

  unfoldable pub cmd_deploy : W → Done W
  cmd_deploy w =
      if args.remote
      then deploy_remote args.target w
      else deploy_chosen (choose_entry u args.target (load_devices (m.saved w)) (m.hardware w)) w
