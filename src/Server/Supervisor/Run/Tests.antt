-- ===== src/Server/Supervisor/Run/Tests.antt =====
-- Two boards on a host with `--base-port 4000`: they come, one leaves, another comes.
use mbdeploy.Base.{
  ℕ, ◌+◌, ◌<◌, ◌≡◌, ◌⊎◌, refl, ◌≢◌, true, false, none, some, List, [], ◌∷◌, arith, is_some, ◌==◌,
  if◌then◌else◌,
}
use mbdeploy.Text.{Text, same, codes, ascii_only}
use mbdeploy.Text.Dict.{get, put, remove, has}
use mbdeploy.Devices.Hardware.{member, port_serial_map}
use mbdeploy.Devices.Registry.{no_entry}
use mbdeploy.Devices.Probe.{probe_all, narrow, probe_each}
use mbdeploy.Mdns.{service_at, unregister, without_handle}
use mbdeploy.Server.Serve.{returned, raised}
use mbdeploy.Server.Board.{Board, new_board, take_occupant}
use mbdeploy.Server.Supervisor.{
  Env, Supervisor, tick, set_of, minus, depart_all, arrive_all, on_arrival, on_departure, bind_both,
  alloc_ports, set_up, completed, flash_service_type, tear_down, reclaim, unwatch,
}
use mbdeploy.Server.Supervisor.Tests.{uid_a, World, host, settings}
use mbdeploy.Server.Supervisor.Listeners.{watching}
use mbdeploy.Server.Supervisor.Run.{run, new_supervisor}
use mbdeploy.Server.Supervisor.Run.Safety.{run_advertises, run_ports_apart, run_follows, last_poll}

abbrev uid_b : Text
uid_b = codes "b2"

abbrev uid_c : Text
uid_c = codes "c3"

abbrev polls : List (List Text)
polls = (uid_a ∷ uid_b ∷ []) ∷ (uid_b ∷ []) ∷ (uid_b ∷ uid_c ∷ []) ∷ []

abbrev start : Supervisor World
start = new_supervisor settings (none, 3)

abbrev after : Supervisor World
after = (run ascii_only host settings polls start).1

abbrev live : Text → Board
live uid = elim (get uid after.boards) [ none ↦ new_board [] [] no_entry none none | some b ↦ b ]

-- The ports of the first board are handed out again, and its services and listeners are gone.
after_lem :
    (after.board_ports ≡ (uid_b, (4002, 4003)) ∷ (uid_c, (4000, 4001)) ∷ [])
    × (run ascii_only host settings polls start ≡ (returned, after))
    × (get uid_b after.boards ≡ some (live uid_b))
    × (get uid_c after.boards ≡ some (live uid_c))
    × (is_some (service_at 1 after.advertiser.handles) ≡ false)
    × (is_some (service_at 5 after.advertiser.handles) ≡ true)
    × (watching 3 uid_a after.watched ≡ false)
    × (watching 5 uid_b after.watched ≡ true)
unfolding run tick set_of minus depart_all arrive_all on_arrival on_departure bind_both alloc_ports
    set_up completed probe_all narrow port_serial_map probe_each put tear_down reclaim take_occupant
    unregister without_handle service_at unwatch remove get same
after_lem = (refl, refl, refl, refl, refl, refl, refl, refl)

run_advertises_example :
    (uid : Text) × (b : Board) × (get uid after.boards ≡ some b)
    × ((b.serial_mdns_handle ≡ some 5) ⊎ (b.flash_mdns_handle ≡ some 5))
run_advertises_example =
    run_advertises ascii_only host settings polls (none, 3) after 5 after_lem.1 after_lem.5

host_exact : (p : ℕ) (w : World) (l q : ℕ) → p ≢ 0 → (host.bind (some p) w).0 ≡ some (l, q) → q ≡ p
host_exact p w l q n h = cc h

b_differs : uid_b ≢ uid_c
b_differs e = ground (arith, e)

run_ports_apart_example :
    (x : ℕ × ℕ) × (w : ℕ × ℕ) × (get uid_b after.board_ports ≡ some x)
    × (get uid_c after.board_ports ≡ some w)
    × (x.1 ≡ x.0 + 1)
    × (w.1 ≡ w.0 + 1)
    × ((x.1 < w.0) ⊎ (w.1 < x.0))
run_ports_apart_example =
    run_ports_apart ascii_only host settings polls (none, 3) uid_b uid_c (live uid_b) (live uid_c)
      (omega arith) host_exact b_differs after_lem.2 after_lem.3

run_follows_example : has uid_c after.boards ≡ member uid_c (last_poll [] polls)
run_follows_example = run_follows ascii_only host settings polls (none, 3) after uid_c after_lem.1

-- The port after the base port is taken.
abbrev busy_host : Env ascii_only World
busy_host = record host {
  bind = λ port w. elim port [
    | none ↦ (none, w)
    | some p ↦ if p == 4001 then (none, w) else (some (w.1, p), (w.0, w.1 + 1))
  ];
}

-- The polling ends at such an arrival.
failed_run : (run ascii_only busy_host settings polls start).0 ≡ raised
unfolding run tick set_of minus depart_all arrive_all on_arrival bind_both alloc_ports probe_all
    narrow port_serial_map probe_each same
failed_run = refl

-- The registration of a flash service is refused.
abbrev refusing_host : Env ascii_only World
refusing_host = record host { advertise = λ type port w. (same type flash_service_type, w) }

abbrev refused : Supervisor World
refused = (run ascii_only refusing_host settings polls start).1

-- The polling ends with the serial service of a board that is not there.
refused_lem :
    ((run ascii_only refusing_host settings polls start).0 ≡ raised)
    × (refused.boards ≡ [])
    × (is_some (service_at 1 refused.advertiser.handles) ≡ true)
unfolding run tick set_of minus depart_all arrive_all on_arrival bind_both alloc_ports set_up
    probe_all narrow port_serial_map probe_each same service_at
refused_lem = (refl, refl, refl)
