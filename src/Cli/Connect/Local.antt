-- ===== src/Cli/Connect/Local.antt =====
-- `_cmd_connect` of src/mbdeploy/cli.py: a board on USB, or one on the network. Opening a serial port
-- is `open_port` of src/mbdeploy/console.py; `none` is its `ConsoleError`.
use mbdeploy.Base.{
  ℕ, ◌≡◌, refl, sym, ap, ◌∙◌, Bool, true, false, ◌&&◌, Option, none, some, if◌then◌else◌, if_true,
  if_false, Bool-cases, Option-cases, inl, inr, ◌⊎◌,
}
use mbdeploy.Text.{Text, Unicode}
use mbdeploy.Devices.Hardware.{Hardware}
use mbdeploy.Devices.Registry.{Registry}
use mbdeploy.Devices.Probe.{load_devices}
use mbdeploy.Devices.Resolve.{is_path}
use mbdeploy.Console.{Port}
use mbdeploy.Cli.Connect.{
  Chosen, port_named, no_match, not_connected, no_serial_port, key_error, connect_port, Session,
  run_connect_session,
}
use mbdeploy.Cli.Connect.Ports.{LiveMatch, connect_port_lem}
use mbdeploy.Cli.Connect.Remote.{ConnectArgs, Ended}

-- How the command ends: a message and exit code 1, the `KeyError` of `_connect_port`, a session on a
-- serial port, or what `_cmd_connect_remote` gives.
pub data Connected (W : Type 0) : Type 0 where
  path_with_remote : Connected W
  no_port : Chosen → Connected W
  uncaught : Connected W
  cannot_open : Text → Connected W
  on_port : Text → Session W → Connected W
  over_network : Ended → Connected W

-- The machine: its boards, the registry file, and the serial ports.
pub record Desk (u : Unicode) (W : Type 0) : Type 0 where
  pub hardware : Hardware u
  pub registry_file : Option Registry
  pub serial : Port W
  pub write_raises : Text → W → Bool
  pub open_port : Text → W → Option W
  pub close_port : W → W

module _ {W : Type 0} (u : Unicode) (desk : Desk u W) (args : ConnectArgs) (idle_gap : ℕ) where
  abbrev pub open_and_run : Text → W → Connected W
  open_and_run port w = elim (desk.open_port port w) [
    | none ↦ cannot_open port
    | some opened ↦ on_port port (
        run_connect_session u desk.serial desk.close_port desk.write_raises args.message
          args.timeout idle_gap args.stdin opened)
  ]

  abbrev pub on_chosen : Chosen → W → Connected W
  on_chosen (port_named port) w = open_and_run port w
  on_chosen key_error w = uncaught
  on_chosen (no_match why) w = no_port (no_match why)
  on_chosen not_connected w = no_port not_connected
  on_chosen no_serial_port w = no_port no_serial_port

  -- `remote_end` is what `_cmd_connect_remote` gives.
  unfoldable pub cmd_connect : Bool → Ended → W → Connected W
  cmd_connect remote remote_end w =
      if remote && is_path args.target
      then path_with_remote
      else if remote
      then over_network remote_end
      else on_chosen (connect_port u args.target (load_devices desk.registry_file) desk.hardware) w

  open_and_run-port :
      (port : Text) (w : W) (opened : Text) (s : Session W)
      → open_and_run port w ≡ on_port opened s
      → port ≡ opened
  open_and_run-port port w opened s e = elim (Option-cases (desk.open_port port w)) [
    | inl n ↦
        let clash : cannot_open port ≡ on_port opened s = (rw (open_and_run, n) at e) in
        absurd (cc clash)
    | inr (x, g) ↦
        let same : on_port port (
              run_connect_session u desk.serial desk.close_port desk.write_raises args.message
                args.timeout idle_gap args.stdin x)
            ≡ on_port opened s =
          (rw (open_and_run, g) at e) in
        cc same
  ]

  on_chosen-port :
      (c : Chosen) (w : W) (port : Text) (s : Session W)
      → on_chosen c w ≡ on_port port s
      → c ≡ port_named port
  on_chosen-port (port_named named) w port s e = ap port_named (open_and_run-port named w port s e)
  on_chosen-port key_error w port s e = absurd (cc e)
  on_chosen-port (no_match why) w port s e = absurd (cc e)
  on_chosen-port not_connected w port s e = absurd (cc e)
  on_chosen-port no_serial_port w port s e = absurd (cc e)

  -- A session that `connect` runs on a serial port is without `--remote`. The port is the path that was
  -- given, as it stands, whatever the registry says of it; for any other target it is the live port of
  -- a board that is plugged in and that the target names in the registry, or the port of its entry.
  pub cmd_connect_lem :
      (remote : Bool) (remote_end : Ended) (w : W) (port : Text) (s : Session W)
      → cmd_connect remote remote_end w ≡ on_port port s
      → (remote ≡ false)
        × (((is_path args.target ≡ true) × (port ≡ args.target))
            ⊎ (is_path args.target ≡ false)
              × LiveMatch u args.target (load_devices desk.registry_file) desk.hardware port)
  unfolding cmd_connect
  cmd_connect_lem true remote_end w port s e = elim (Bool-cases (is_path args.target)) [
    | inl y ↦
        let clash : path_with_remote ≡ on_port port s = sym (if_true _ _ y) ∙ e in absurd (cc clash)
    | inr n ↦
        let clash : over_network remote_end ≡ on_port port s = sym (if_false _ _ n) ∙ e in
        absurd (cc clash)
  ]
  cmd_connect_lem false remote_end w port s e = (
    refl,
    connect_port_lem u args.target (load_devices desk.registry_file) desk.hardware port (
        on_chosen-port (connect_port u args.target (load_devices desk.registry_file) desk.hardware)
          w port s e),
  )
