-- ===== src/Server/Accept.antt =====
-- `AcceptLoop` of src/mbdeploy/server.py: one selector for the listeners of all boards, and a thread
-- for each connection. Listeners and connections are known by numbers.
pub mod Dispatch
pub mod Stopping
mod Tests
use mbdeploy.Base.{
  ℕ, Bool, true, false, Option, none, some, List, [], ◌∷◌, ◌++◌, ◌==◌, if◌then◌else◌, ◌||◌, is_some,
}
use mbdeploy.Server.Wire.{close}
use mbdeploy.Server.Serve.{Outcome, State, returned}

-- What the loop's thread is about to do; `broken` is its end by an exception.
pub data Phase : Type 0 where
  checking selecting ended broken : Phase

-- The loop with its thread, and the connections whose handlers were started: the listener that
-- accepted each one, the connection, and the handler.
pub record Loop (H : Type 0) : Type 0 where
  pub listeners : List (ℕ × H)
  pub is_stopped : Bool
  pub is_closed : Bool
  pub phase : Phase
  pub started : List (ℕ × ℕ × H)

-- What `select` does: it returns the listeners that are ready, with what `accept` answers for each,
-- or raises.
pub data Selected : Type 0 where
  ready : List (ℕ × Option ℕ) → Selected
  os_error other_error : Selected

-- A call by some thread, or a step of the loop's own: the test of its `while`, and a `select` with
-- the connections that it starts.
pub data Event (H : Type 0) : Type 0 where
  registers : ℕ → H → Event H
  unregisters : ℕ → Event H
  stops closes checks : Event H
  selects : Selected → Event H

-- `_run_handler`, by what its handler leaves: an exception of the handler is logged, and an `OSError`
-- of the close is ignored.
unfoldable pub run_handler : {W : Type 0} → Outcome × State W → Outcome × State W
run_handler (o, y) = (returned, record y { conn = close y.conn })

-- `while not self._stop.is_set()`
abbrev pub check : Phase → Bool → Phase
check checking stopped = if stopped then ended else selecting
check selecting stopped = selecting
check ended stopped = ended
check broken stopped = broken

abbrev pub selecting_now : Phase → Bool
selecting_now checking = false
selecting_now selecting = true
selecting_now ended = false
selecting_now broken = false

module _ {H : Type 0} where
  -- `AcceptLoop.__init__`, with the thread at the start of `run`
  abbrev pub new_loop : Loop H
  new_loop = record {
    listeners = [];
    is_stopped = false;
    is_closed = false;
    phase = checking;
    started = [];
  }

  -- the key's data, for a listener that is registered
  unfoldable pub handler_of : ℕ → List (ℕ × H) → Option H
  handler_of l [] = none
  handler_of l ((m, h) ∷ ms) = if m == l then some h else handler_of l ms

  -- a no-op if it is not registered
  unfoldable pub without_listener : ℕ → List (ℕ × H) → List (ℕ × H)
  without_listener l [] = []
  without_listener l ((m, h) ∷ ms) =
      let rest = without_listener l ms in if m == l then rest else (m, h) ∷ rest

  -- Each ready listener accepts one connection and starts one thread, or is skipped.
  unfoldable pub dispatch : List (ℕ × H) → List (ℕ × Option ℕ) → List (ℕ × ℕ × H)
  dispatch keys [] = []
  dispatch keys ((l, none) ∷ events) = dispatch keys events
  dispatch keys ((l, some conn) ∷ events) =
      let rest = dispatch keys events in
      elim (handler_of l keys) [ none ↦ rest | some h ↦ (l, conn, h) ∷ rest ]

  abbrev pub after_select : Selected → Loop H → Loop H
  after_select (ready events) y = record y {
    phase = checking;
    started = y.started ++ dispatch y.listeners events;
  }
  after_select os_error y = record y { phase = ended }
  after_select other_error y = record y { phase = broken }

  -- The selector refuses a socket that it has, and any once it is closed, by an exception of the caller.
  unfoldable pub step : Event H → Loop H → Loop H
  step (registers l h) y =
      if y.is_closed || is_some (handler_of l y.listeners)
      then y
      else record y { listeners = (l, h) ∷ y.listeners }
  step (unregisters l) y = record y { listeners = without_listener l y.listeners }
  step stops y = record y { is_stopped = true }
  step closes y = record y { is_stopped = true; is_closed = true; listeners = [] }
  step checks y = record y { phase = check y.phase y.is_stopped }
  step (selects s) y = if selecting_now y.phase then after_select s y else y

  unfoldable pub run : List (Event H) → Loop H → Loop H
  run [] y = y
  run (e ∷ es) y = run es (step e y)
