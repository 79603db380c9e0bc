-- ===== src/Devices/Tests.antt =====
-- Two boards on a bench, one known and one new, run through the model of src/mbdeploy/devices.py.
use mbdeploy.Base.{◌≡◌, refl, true, false, Option, none, some, List, [], ◌∷◌, arith, if◌then◌else◌}
use mbdeploy.Text.{
  Text, codes, ascii_only, is_space, same, decode_ignore, starts_with, contains, lower, is_digit,
}
use mbdeploy.Text.Strip.{strip}
use mbdeploy.Text.Split.{split}
use mbdeploy.Text.Dict.{get, put, values}
use mbdeploy.Devices.Name.{friendly_name}
use mbdeploy.Devices.Announce.{line, parse_announcement, probe_type}
use mbdeploy.Devices.Hardware.{Hardware, port_serial_map, read_device_id}
use mbdeploy.Devices.Registry.{Entry, no_entry, Registry, Distinct, assign_enum}
use mbdeploy.Devices.Probe.{probe_all, narrow, refreshed, probe_each}
use mbdeploy.Devices.Probe.Laws
use mbdeploy.Devices.Resolve.{found, refused, no_such_name, resolve_target, is_path, is_uid, first}
use mbdeploy.Devices.Resolve.Laws.{Among, Names, resolve_target-Names}
use mbdeploy.Text.Equality.{same_iff}

abbrev vevov : Text
vevov = codes "vevov"

-- Board a is known as number 4; board b is new, has no serial port and is named over SWD.
abbrev uid_a : Text
uid_a = codes "a1"

abbrev uid_b : Text
uid_b = codes "b2"

abbrev tty : Text
tty = codes "/dev/ttyACM0"

abbrev bench : Hardware ascii_only
bench = record {
  probes = uid_a ∷ uid_b ∷ [];
  comports =
      record { vid = 0x0d28; pid = 0x0204; serial_number = some uid_a; device = tty }
      ∷ record {
        vid = 0x2341;
        pid = 0x43;
        serial_number = some uid_b;
        device = codes "/dev/ttyUSB0";
      }
      ∷ [];
  port_at = λ p. record {
    installed = true;
    opens = true;
    reads = line 100 [] ∷ line 100 (codes "device NEZHA2 robot vevov 1198504156\r\n") ∷ [];
  };
  attach = λ uid override. if same uid uid_b then some 2314287040 else none;
}

abbrev known : Registry
known =
    (
      uid_a,
      record no_entry {
        uid = some uid_a;
        enum = some 4;
        role = some (codes "RADIOBRIDGE");
        port = some (codes "/dev/old");
      },
    )
    ∷ []

abbrev probed : Option Registry
probed = probe_all ascii_only (codes "nrf52833") bench (some known) false none

abbrev registry_after : Registry
registry_after =
    (
      uid_a,
      record {
        uid = some uid_a;
        port = some tty;
        enum = some 4;
        announcement = some (codes "device NEZHA2 robot vevov 1198504156");
        role = some (codes "NEZHA2");
        common_name = some (codes "robot");
        device_name = some vevov;
        serial = some (codes "1198504156");
        device_id = none;
        board_name = none;
      },
    )
    ∷ (
      uid_b,
      record no_entry {
        uid = some uid_b;
        enum = some 5;
        device_id = some 2314287040;
        board_name = some (codes "tovez");
      },
    )
    ∷ []

probed_bench : probed ≡ some registry_after
unfolding probe_all narrow port_serial_map same get put probe_each refreshed probe_type
    parse_announcement is_space decode_ignore strip starts_with split assign_enum read_device_id
    friendly_name
probed_bench = refl

known-Distinct : Distinct known
unfolding get
known-Distinct j k e f n gj gk ej fk = ground (arith, same_iff uid_a j, same_iff uid_a k)

abbrev nrf : Text
nrf = codes "nrf52833"

probe_all-Distinct_example : Distinct registry_after
probe_all-Distinct_example =
    Laws.probe_all-Distinct ascii_only nrf bench (some known) none probed_bench known-Distinct

-- only board b is probed
abbrev only_b : List Text
only_b = uid_b ∷ []

abbrev registry_scoped : Registry
registry_scoped =
    (
      uid_a,
      record no_entry {
        uid = some uid_a;
        enum = some 4;
        role = some (codes "RADIOBRIDGE");
        port = some (codes "/dev/old");
      },
    )
    ∷ (
      uid_b,
      record no_entry {
        uid = some uid_b;
        enum = some 5;
        device_id = some 2314287040;
        board_name = some (codes "tovez");
      },
    )
    ∷ []

probed_scoped :
    probe_all ascii_only nrf bench (some known) false (some only_b) ≡ some registry_scoped
unfolding probe_all narrow port_serial_map same get put probe_each refreshed probe_type
    parse_announcement is_space decode_ignore strip starts_with split assign_enum read_device_id
    friendly_name
probed_scoped = refl

abbrev registry_entry : Registry → Entry
registry_entry [] = no_entry
registry_entry ((k, e) ∷ d) = e

-- targets, on the registry after the probe
resolve_target-vevov :
    resolve_target ascii_only (codes "VEVOV") registry_after ≡ found (registry_entry registry_after)
unfolding resolve_target is_digit is_path is_uid first contains starts_with same lower
resolve_target-vevov = refl

resolve_target-Names_example :
    Among (registry_entry registry_after) (values registry_after)
    × Names ascii_only (codes "VEVOV") (registry_entry registry_after)
unfolding lower
resolve_target-Names_example =
    resolve_target-Names ascii_only (codes "VEVOV") registry_after (registry_entry registry_after)
      (λ e. cc e) resolve_target-vevov

-- An empty token finds an entry that has no name.
abbrev nameless : Registry
nameless = (codes "a1", record no_entry { uid = some (codes "a1") }) ∷ []

resolve_target-empty :
    resolve_target ascii_only [] nameless ≡ found (record no_entry { uid = some (codes "a1") })
unfolding resolve_target is_digit is_path is_uid first contains starts_with same lower
resolve_target-empty = refl

-- a common name is not a target
resolve_target-robot :
    resolve_target ascii_only (codes "robot") registry_after ≡ refused no_such_name
unfolding resolve_target is_digit is_path is_uid first contains starts_with same lower
resolve_target-robot = refl
