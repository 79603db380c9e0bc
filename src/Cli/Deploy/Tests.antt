-- ===== src/Cli/Deploy/Tests.antt =====
-- `mbdeploy deploy /dev/ttyACM0 --build`, where the registry remembers that port for another board.
use mbdeploy.Base.{
  ◌≡◌, refl, ap, true, false, not, ◌&&◌, none, some, List, [], ◌∷◌, pos, arith, map,
}
use mbdeploy.Text.{Text, codes, ascii_only, same, starts_with}
use mbdeploy.Text.Dict.{get, put}
use mbdeploy.Flash.{Process, parsed}
use mbdeploy.Devices.Announce.{is_relay}
use mbdeploy.Devices.Hardware.{Hardware, member, port_serial_map}
use mbdeploy.Devices.Registry.{Entry, no_entry, Registry}
use mbdeploy.Devices.Probe.{load_devices}
use mbdeploy.Devices.Resolve.{is_path}
use mbdeploy.Remote.Deploy.{os_error}
use mbdeploy.Cli.Builder.{run, flags}
use mbdeploy.Cli.Deploy.{
  Args, Machine, Done, cmd_deploy, choose_entry, deploy_entry, entry_on_port, by_port, guard_relay,
  after_build, flash_entry, target_of,
}
use mbdeploy.Cli.Deploy.Guards.{Chosen, BuildOk, cmd_deploy-flashed}

abbrev World : Type 0
World = List Process

abbrev uid_a : Text
uid_a = codes "a1"

abbrev uid_b : Text
uid_b = codes "b2"

abbrev acm0 : Text
acm0 = codes "/dev/ttyACM0"

abbrev usb : Hardware ascii_only
usb = record {
  probes = uid_a ∷ uid_b ∷ [];
  comports = record { vid = 0x0d28; pid = 0x0204; serial_number = some uid_b; device = acm0 } ∷ [];
  port_at = λ p. record { installed = true; opens = true; reads = [] };
  attach = λ uid override. none;
}

abbrev stale : Registry
stale =
    (uid_a, record no_entry { uid = some uid_a; enum = some 1; port = some acm0 })
    ∷ (
      uid_b,
      record no_entry { uid = some uid_b; enum = some 2; device_name = some (codes "vevov") },
    )
    ∷ []

abbrev machine : Machine ascii_only World
machine = record {
  hardware = λ w. usb;
  saved = λ w. some stale;
  tools = record {
    python = codes "python3";
    build_py = λ w. true;
    run_command = λ cmd w. (pos 0, w);
  };
  spawn = λ cmd w. (record { exit = pos 0; output = [] }, w);
  load = λ path w. parsed;
  network = λ w. record {
    results = [];
    read_bytes = λ path. os_error (codes "unused");
    sha256 = λ payload. [];
    connect = λ host port. os_error (codes "unused");
  };
}

abbrev args : Args
args = record {
  target = some acm0;
  build = true;
  clean = false;
  jobs = none;
  force_relay = false;
  hex = none;
  target_mcu = none;
  remote = false;
}

abbrev deployed : Done World
deployed = cmd_deploy ascii_only machine args []

deployed-uids : map (λ t. t.uid) deployed.flashed ≡ uid_b ∷ []
unfolding cmd_deploy choose_entry deploy_entry is_path starts_with entry_on_port port_serial_map
    same get put by_port guard_relay after_build run flags flash_entry is_relay
deployed-uids = refl

cmd_deploy-flashed_example :
    (e : Entry) × (uid : Text) × (args.remote ≡ false)
    × Chosen ascii_only (load_devices (machine.saved [])) (machine.hardware []) args.target e
    × ((is_relay ascii_only e.role && not args.force_relay) ≡ false)
    × (e.uid ≡ some uid)
    × (member uid (machine.hardware []).probes ≡ true)
    × BuildOk ascii_only machine args []
    × (deployed.flashed ≡ target_of ascii_only machine args e uid ∷ [])
cmd_deploy-flashed_example =
    cmd_deploy-flashed ascii_only machine args []
      (λ e. ground (arith, ap (map (λ t. t.uid)) e, deployed-uids))
