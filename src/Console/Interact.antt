-- ===== src/Console/Interact.antt =====
-- `interact` of src/mbdeploy/console.py: the thread that prints what the port says, and the caller's
-- thread with stdin, interleaved in any order. `open_port`, as the calls that it makes of pyserial.
pub mod Flow
mod Tests
use mbdeploy.Base.{
  ℕ, ◌≡◌, Bool, true, false, Option, none, some, List, [], ◌∷◌, ◌++◌, if◌then◌else◌,
}
use mbdeploy.Text.{Text, Unicode, decode_replace}

-- where the reader thread, `_pump`, is
pub data Pump : Type 0 where
  tests reads : Pump
  prints : Text → Pump
  ended : Pump

-- what ends the caller's loop: the end of stdin, Ctrl-C, or an error of stdin or of the port
pub data End : Type 0 where
  at_eof interrupted failed : End

-- where the caller's thread is; `over` is its return with 0, or by that error
pub data Main : Type 0 where
  asks : Main
  writes : Text → Main
  flushes drains : Main
  leaves joins over : End → Main

-- The bytes that the port will say and the lines that stdin will give, what went to either side, the
-- event and the threads.
pub record Talk : Type 0 where
  pub from_port : Text
  pub printed : Text
  pub from_stdin : List Text
  pub to_port : Text
  pub stop : Bool
  pub pump : Pump
  pub main : Main

abbrev pub new_talk : Text → List Text → Talk
new_talk port_bytes lines = record {
  from_port = port_bytes;
  printed = [];
  from_stdin = lines;
  to_port = [];
  stop = false;
  pump = tests;
  main = asks;
}

-- Ctrl-C reaches the caller's thread in its loop or in the sleep after it.
abbrev pub InLoop : Main → Type 0
InLoop asks = Unit
InLoop (writes line) = Unit
InLoop flushes = Unit
InLoop drains = Unit
InLoop (leaves e) = ⊥
InLoop (joins e) = ⊥
InLoop (over e) = ⊥

pub data Step (u : Unicode) (x : Talk) : Talk → Type 0 where
  -- `while not stop.is_set()`
  pump_stops : x.pump ≡ tests → x.stop ≡ true → Step u x (record x { pump = ended })
  pump_goes_on : x.pump ≡ tests → x.stop ≡ false → Step u x (record x { pump = reads })
  -- `ser.read`: nothing in its time, some bytes, or an error
  pump_hears_nothing : x.pump ≡ reads → Step u x (record x { pump = tests })
  pump_hears :
      (bytes rest : Text)
      → x.pump ≡ reads
      → x.from_port ≡ bytes ++ rest
      → Step u x (record x { pump = prints bytes; from_port = rest })
  pump_loses_port : x.pump ≡ reads → Step u x (record x { pump = ended })
  -- the bytes of one read are decoded and printed, or stdout is closed
  pump_prints :
      (bytes : Text)
      → x.pump ≡ prints bytes
      → Step u x (record x { pump = tests; printed = x.printed ++ decode_replace u bytes })
  pump_loses_stdout : (bytes : Text) → x.pump ≡ prints bytes → Step u x (record x { pump = ended })
  -- `sys.stdin.readline`, which gives no empty line before the end; the lines are their UTF-8 bytes
  main_reads :
      (b : ℕ) (line : Text) (lines : List Text)
      → x.main ≡ asks
      → x.from_stdin ≡ (b ∷ line) ∷ lines
      → Step u x (record x { main = writes (b ∷ line); from_stdin = lines })
  main_read_fails : x.main ≡ asks → Step u x (record x { main = leaves failed })
  main_at_eof : x.main ≡ asks → x.from_stdin ≡ [] → Step u x (record x { main = drains })
  -- `ser.write` and `ser.flush`, or an error after some of the bytes
  main_writes :
      (line : Text)
      → x.main ≡ writes line
      → Step u x (record x { main = flushes; to_port = x.to_port ++ line })
  main_write_fails :
      (line front lost : Text)
      → x.main ≡ writes line
      → line ≡ front ++ lost
      → Step u x (record x { main = leaves failed; to_port = x.to_port ++ front })
  main_flushes : x.main ≡ flushes → Step u x (record x { main = asks })
  main_flush_fails : x.main ≡ flushes → Step u x (record x { main = leaves failed })
  -- the grace period at the end of stdin
  main_drains : x.main ≡ drains → Step u x (record x { main = leaves at_eof })
  main_interrupted : InLoop x.main → Step u x (record x { main = leaves interrupted })
  -- the `finally`: the event is set, and the reader is waited for, a second at most
  main_sets_stop :
      (e : End) → x.main ≡ leaves e → Step u x (record x { main = joins e; stop = true })
  main_returns : (e : End) → x.main ≡ joins e → Step u x (record x { main = over e })

pub data Reach (u : Unicode) (x : Talk) : Talk → Type 0 where
  start : Reach u x x
  next_step : {y z : Talk} → Reach u x y → Step u y z → Reach u x z
