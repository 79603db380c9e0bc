-- ===== src/Cli/Connect.antt =====
-- `connect` of src/mbdeploy/cli.py, local and remote. The text of a message is its UTF-8 bytes.
pub mod Ports
pub mod Remote
pub mod Closing
pub mod Local
mod Tests
use mbdeploy.Base.{
  ℕ, Bool, true, false, Option, none, some, List, [], ◌∷◌, ◌++◌, if◌then◌else◌, drop,
}
use mbdeploy.Text.{Text, Unicode, codes, starts_with, contains, join, decode_replace}
use mbdeploy.Text.Split.{split_on}
use mbdeploy.Text.Dict.{get}
use mbdeploy.Devices.Hardware.{Hardware, member, port_serial_map}
use mbdeploy.Devices.Registry.{Entry, Registry}
use mbdeploy.Devices.Resolve.{Refusal, Resolved, found, refused, is_path, resolve_target}
use mbdeploy.Console.{Port, send_command, interact}
use mbdeploy.Cli.Deploy.{or_default}

-- the port to open, a `ValueError`, or the `KeyError` of an entry without a UID
pub data Chosen : Type 0 where
  port_named : Text → Chosen
  no_match : Refusal → Chosen
  not_connected no_serial_port : Chosen
  key_error : Chosen

abbrev pub named_port : Text → Chosen
named_port [] = no_serial_port
named_port (c ∷ port) = port_named (c ∷ port)

module _ (u : Unicode) where
  abbrev pub live_port : Hardware u → Entry → Text → Chosen
  live_port hw e uid =
      if member uid hw.probes
      then named_port (
          or_default (get uid (port_serial_map (some (uid ∷ [])) hw.comports))
            (or_default e.port []))
      else not_connected

  abbrev pub port_of : Hardware u → Resolved → Chosen
  port_of hw (refused why) = no_match why
  port_of hw (found e) = elim e.uid [ none ↦ key_error | some uid ↦ live_port hw e uid ]

  -- `_connect_port`
  unfoldable pub connect_port : Text → Registry → Hardware u → Chosen
  connect_port target registry hw =
      if is_path target then port_named target else port_of hw (resolve_target u target registry)

-- What a session leaves: its exit code, stdout, whether it tells of no response and whether it is left
-- by the exception of a write, and the world, where the port is closed. What the reader thread of an
-- interactive session prints is left out.
pub record Session (W : Type 0) : Type 0 where
  pub code : ℕ
  pub out : List Text
  pub no_response : Bool
  pub is_broken : Bool
  pub world : W

-- Python's exit code for an exception that nothing catches
abbrev pub broken_session : {W : Type 0} → W → Session W
broken_session w = record { code = 1; out = []; no_response = false; is_broken = true; world = w }

module _ {W : Type 0} (u : Unicode) (port : Port W) (close : W → W) where
  abbrev pub one_shot : List Text × W → Session W
  one_shot ([], w) = record {
    code = 1;
    out = [];
    no_response = true;
    is_broken = false;
    world = close w;
  }
  one_shot (line ∷ lines, w) = record {
    code = 0;
    out = line ∷ lines;
    no_response = false;
    is_broken = false;
    world = close w;
  }

  abbrev pub interacted : Option ℕ × W → Session W
  interacted (none, w) = broken_session (close w)
  interacted (some code, w) = record {
    code = code;
    out = [];
    no_response = false;
    is_broken = false;
    world = close w;
  }

  -- `_run_connect_session`, with the writes that raise, and with what comes on stdin
  unfoldable pub run_connect_session :
      (Text → W → Bool) → List Text → ℕ → ℕ → List Text → W → Session W
  run_connect_session write_raises [] timeout idle_gap stdin w =
      interacted (interact u port write_raises stdin w)
  run_connect_session write_raises (word ∷ words) timeout idle_gap stdin w =
      let message = join (b' ' ∷ []) (word ∷ words) in
      let ready = port.reset_input_buffer w in
      if write_raises (message ++ b'\n' ∷ []) ready
      then broken_session (close ready)
      else one_shot (send_command u port message timeout idle_gap w)
