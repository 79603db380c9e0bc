-- ===== src/Console/Relay/Tests.antt =====
-- Runs of `relay_socket` of src/mbdeploy/console.py.
use mbdeploy.Base.{◌+◌, ◌≤◌, ◌≡◌, refl, true, [], ◌⊎◌}
use mbdeploy.Text.{codes}
use mbdeploy.Console.Relay.{
  Relay, new_relay, Step, pump_goes_on, pump_hears, pump_sent, pump_sends, pump_tests,
  main_returned, main_goes_on, main_loses_conn, main_sets_stop, main_gives_up, Run, here, next,
}
use mbdeploy.Console.Relay.Flow.{PumpFlow, MainFlow, relay-flow}
use mbdeploy.Console.Relay.Ending.{IsOver, steps_left, relay-ends}

-- the board says "hi", of which the first byte is read when the client goes away
abbrev start : Relay
start = new_relay (codes "hi") []

-- the caller's thread has returned while the reader thread still holds that byte
abbrev gone : Relay
gone = record {
  from_port = codes "i";
  to_conn = [];
  from_conn = [];
  to_port = [];
  stop = true;
  pump = pump_sends (codes "h");
  main = main_returned;
}

goes_away : Run start 6 gone
goes_away =
    next
      (next
        (next
          (next
            (next (next here (pump_goes_on refl refl)) (pump_hears b'h' [] (codes "i") refl refl))
            (main_goes_on refl refl))
          (main_loses_conn refl))
        (main_sets_stop refl))
      (main_gives_up refl)

-- the byte may then still arrive
abbrev late : Relay
late = record gone { to_conn = codes "h"; pump = pump_tests }

arrives_late : Run gone 1 late
arrives_late = next here (pump_sent (codes "h") refl)

relay-flow_example : PumpFlow (codes "hi") gone × MainFlow [] gone
relay-flow_example = relay-flow (codes "hi") [] goes_away

relay-ends_example :
    (late.stop ≡ true) × (1 + steps_left late ≤ 8) × (IsOver late ⊎ ((z : Relay) × Step late z))
relay-ends_example = relay-ends refl arrives_late
