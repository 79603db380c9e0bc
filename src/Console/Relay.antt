-- ===== src/Console/Relay.antt =====
-- `relay_socket` of src/mbdeploy/console.py: its two threads, interleaved in any order. A step is one
-- test of the stop event, one call on the port or on the socket, or one end of a thread.
pub mod Flow
pub mod Ending
pub mod Tests
use mbdeploy.Base.{ℕ, suc, ◌+◌, ◌≡◌, Bool, true, false, List, [], ◌∷◌, ◌++◌}
use mbdeploy.Text.{Text}

-- where the reader thread, `_pump`, is
pub data Pump : Type 0 where
  pump_tests pump_reads : Pump
  pump_sends : Text → Pump
  pump_ended : Pump

-- where the caller's thread is; it leaves its loop for the `finally`
pub data Main : Type 0 where
  main_tests main_receives : Main
  main_writes : Text → Main
  main_leaves main_joins main_returned : Main

-- The bytes that are still to come from either side, those that went to the other side, the event
-- and the threads.
pub record Relay : Type 0 where
  pub from_port : Text
  pub to_conn : Text
  pub from_conn : Text
  pub to_port : Text
  pub stop : Bool
  pub pump : Pump
  pub main : Main

abbrev pub new_relay : Text → Text → Relay
new_relay port_bytes conn_bytes = record {
  from_port = port_bytes;
  to_conn = [];
  from_conn = conn_bytes;
  to_port = [];
  stop = false;
  pump = pump_tests;
  main = main_tests;
}

pub data Step (x : Relay) : Relay → Type 0 where
  -- `while not stop.is_set()` of the pump
  pump_stops : x.pump ≡ pump_tests → x.stop ≡ true → Step x (record x { pump = pump_ended })
  pump_goes_on : x.pump ≡ pump_tests → x.stop ≡ false → Step x (record x { pump = pump_reads })
  -- `ser.read`: no byte in its time, some bytes, or an error
  pump_hears_nothing : x.pump ≡ pump_reads → Step x (record x { pump = pump_tests })
  pump_hears :
      (b : ℕ) (more rest : Text)
      → x.pump ≡ pump_reads
      → x.from_port ≡ (b ∷ more) ++ rest
      → Step x (record x { pump = pump_sends (b ∷ more); from_port = rest })
  pump_loses_port : x.pump ≡ pump_reads → Step x (record x { pump = pump_ended; stop = true })
  -- `conn.sendall`: all of the bytes, or an error after the first of them
  pump_sent :
      (bytes : Text)
      → x.pump ≡ pump_sends bytes
      → Step x (record x { pump = pump_tests; to_conn = x.to_conn ++ bytes })
  pump_loses_conn :
      (bytes front lost : Text)
      → x.pump ≡ pump_sends bytes
      → bytes ≡ front ++ lost
      → Step x (record x { pump = pump_ended; stop = true; to_conn = x.to_conn ++ front })
  -- `while not stop.is_set()` of the caller
  main_stops : x.main ≡ main_tests → x.stop ≡ true → Step x (record x { main = main_leaves })
  main_goes_on : x.main ≡ main_tests → x.stop ≡ false → Step x (record x { main = main_receives })
  -- `conn.recv`: a timeout, some bytes, and an error or the end
  main_hears_nothing : x.main ≡ main_receives → Step x (record x { main = main_tests })
  main_hears :
      (b : ℕ) (more rest : Text)
      → x.main ≡ main_receives
      → x.from_conn ≡ (b ∷ more) ++ rest
      → Step x (record x { main = main_writes (b ∷ more); from_conn = rest })
  main_loses_conn : x.main ≡ main_receives → Step x (record x { main = main_leaves })
  -- `ser.write`
  main_wrote :
      (bytes : Text)
      → x.main ≡ main_writes bytes
      → Step x (record x { main = main_tests; to_port = x.to_port ++ bytes })
  main_loses_port :
      (bytes front lost : Text)
      → x.main ≡ main_writes bytes
      → bytes ≡ front ++ lost
      → Step x (record x { main = main_leaves; to_port = x.to_port ++ front })
  -- the `finally`: the event is set, and the pump is waited for, a second at most
  main_sets_stop : x.main ≡ main_leaves → Step x (record x { main = main_joins; stop = true })
  main_joined :
      x.main ≡ main_joins → x.pump ≡ pump_ended → Step x (record x { main = main_returned })
  main_gives_up : x.main ≡ main_joins → Step x (record x { main = main_returned })
  -- another thread sets the event, as `serve_flash` does
  stopped_elsewhere : x.stop ≡ false → Step x (record x { stop = true })

-- `n` steps
pub data Run (x : Relay) : ℕ → Relay → Type 0 where
  here : Run x 0 x
  next : {n : ℕ} {y z : Relay} → Run x n y → Step y z → Run x (suc n) z
