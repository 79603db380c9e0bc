-- ===== src/Server/Supervisor/Tests.antt =====
-- One board is plugged into a host with `--base-port 4000`.
use mbdeploy.Base.{is_some, ℕ, ◌+◌, ◌≡◌, refl, true, false, false, Option, none, some, [], ◌∷◌}
use mbdeploy.Text.{Text, codes, ascii_only}
use mbdeploy.Text.Dict.{put}
use mbdeploy.Devices.Hardware.{Hardware, port_serial_map}
use mbdeploy.Devices.Registry.{Registry}
use mbdeploy.Devices.Probe.{probe_all, narrow, probe_each}
use mbdeploy.Mdns.{new_advertiser, service_at}
use mbdeploy.Server.Serve.{returned}
use mbdeploy.Server.Supervisor.{
  Env, Settings, Supervisor, tick, set_of, minus, depart_all, arrive_all, on_arrival, bind_both,
  alloc_ports, set_up, completed,
}

abbrev pub uid_a : Text
uid_a = codes "a1"

abbrev pub usb : Hardware ascii_only
usb = record {
  probes = uid_a ∷ [];
  comports = [];
  port_at = λ p. record { installed = true; opens = true; reads = [] };
  attach = λ uid override. some 2314287040;
}

-- The world is the registry file and the next socket.
abbrev pub World : Type 0
World = Option Registry × ℕ

abbrev pub host : Env ascii_only World
host = record {
  hardware = λ w. usb;
  saved = λ w. w.0;
  save = λ r w. (some r, w.1);
  bind = λ port w. elim port [
    | none ↦ (some (w.1, 50000 + w.1), (w.0, w.1 + 1))
    | some p ↦ (some (w.1, p), (w.0, w.1 + 1))
  ];
  advertise = λ type port w. (false, w);
}

abbrev pub settings : Settings
settings = record {
  base_port = 4000;
  target_mcu = codes "nrf52833";
  token = none;
  no_flash = false;
  service_name = none;
}

abbrev pub empty_host : Supervisor World
empty_host = record {
  boards = [];
  departed = [];
  known = [];
  next_port = 4000;
  port_freelist = [];
  board_ports = [];
  advertiser = new_advertiser;
  watched = [];
  closed_sockets = [];
  terminated = [];
  world = (none, 3);
}

abbrev plugged : Supervisor World
plugged = (tick ascii_only host settings (uid_a ∷ []) empty_host).1

plugged-tick : tick ascii_only host settings (uid_a ∷ []) empty_host ≡ (returned, plugged)
unfolding tick set_of minus depart_all arrive_all on_arrival bind_both alloc_ports set_up completed
    probe_all narrow port_serial_map probe_each
plugged-tick = refl

plugged-ports : plugged.board_ports ≡ (uid_a, (4000, 4001)) ∷ []
unfolding tick set_of minus depart_all arrive_all on_arrival bind_both alloc_ports set_up completed
    probe_all narrow port_serial_map probe_each put
plugged-ports = refl

-- the same arrival on its own, and the serial service that it registers
abbrev arrived : Supervisor World
arrived = (on_arrival ascii_only host settings uid_a empty_host).1

arrived-service : is_some (service_at 1 arrived.advertiser.handles) ≡ true
unfolding on_arrival bind_both alloc_ports set_up completed probe_all narrow port_serial_map
    probe_each service_at
arrived-service = refl
