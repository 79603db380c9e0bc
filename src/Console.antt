-- ===== src/Console.antt =====
-- Sessions with a serial port: src/mbdeploy/console.py.
pub mod Bounds
pub mod Open
pub mod OverSocket
pub mod Reply
pub mod Interact
pub mod Relay
pub mod Tests
use mbdeploy.Base.{
  ℕ, zero, suc, ◌+◌, Bool, true, false, not, ◌&&◌, ◌||◌, Option, none, some, List, [], ◌∷◌, ◌++◌,
  if◌then◌else◌, leb, ◌==◌, is_nil,
}
use mbdeploy.Text.{Text, Unicode, decode_replace}
use mbdeploy.Text.Strip.{rstrip}

-- The members of a port that `send_command` calls, on a world `W` that holds the port, and the
-- clock that it reads.
pub record Port (W : Type 0) : Type 0 where
  pub clock : W → ℕ
  pub readline : W → Text × W
  pub reset_input_buffer : W → W
  pub write : Text → W → W
  pub flush : W → W

abbrev is_line_end : ℕ → Bool
is_line_end c = c == b'\r' || c == b'\n'

-- `lines.append(text)`, when there is text
abbrev pub keep_line : Text → List Text → List Text
keep_line [] lines = lines
keep_line (c ∷ text) lines = lines ++ (c ∷ text) ∷ []

-- whether the exchange is at its end
abbrev pub is_over : ℕ → ℕ → List Text → ℕ → Bool
is_over deadline quiet_after lines now =
    leb deadline now || (not (is_nil lines) && leb quiet_after now)

module _ {W : Type 0} (u : Unicode) (port : Port W) where
  abbrev pub text_of : Text → Text
  text_of raw = rstrip is_line_end (decode_replace u raw)

  -- a round, by what `readline` returned; `again` is the next one
  abbrev pub on_raw :
      (List Text → ℕ → W → List Text × W) → ℕ → List Text → ℕ → Text × W → List Text × W
  on_raw again idle_gap lines quiet_after ([], w) = again lines quiet_after w
  on_raw again idle_gap lines quiet_after (b ∷ raw, w) =
      again (keep_line (text_of (b ∷ raw)) lines) (port.clock w + idle_gap) w

  abbrev pub unless_over :
      (List Text → ℕ → W → List Text × W) → ℕ → List Text → ℕ → W → Bool → List Text × W
  unless_over again idle_gap lines quiet_after w true = (lines, w)
  unless_over again idle_gap lines quiet_after w false =
      on_raw again idle_gap lines quiet_after (port.readline w)

  -- The loop of `send_command`. The clock goes on in each read: the fuel is above what is left of it.
  unfoldable pub collect : ℕ → ℕ → ℕ → List Text → ℕ → W → List Text × W
  collect zero deadline idle_gap lines quiet_after w = (lines, w)
  collect (suc fuel) deadline idle_gap lines quiet_after w =
      unless_over (collect fuel deadline idle_gap) idle_gap lines quiet_after w
        (is_over deadline quiet_after lines (port.clock w))

  -- the message on its way
  abbrev pub sent : Text → W → W
  sent message w = port.flush (port.write (message ++ b'\n' ∷ []) (port.reset_input_buffer w))

  -- `message` is its UTF-8 bytes.
  unfoldable pub send_command : Text → ℕ → ℕ → W → List Text × W
  send_command message timeout idle_gap w =
      let asked = sent message w in
      let deadline = port.clock asked + timeout in
      collect (suc timeout) deadline idle_gap [] deadline asked

  -- The caller's thread of `interact`: the lines that come on stdin until it ends or Ctrl-C, which
  -- both end the session with 0. The reader thread, which prints what the port says, is left out.
  -- `write_raises` says where a write raises, which leaves the loop: `none`.
  unfoldable pub interact : (Text → W → Bool) → List Text → W → Option ℕ × W
  interact write_raises [] w = (some 0, w)
  interact write_raises (line ∷ lines) w =
      let rest = interact write_raises lines (port.flush (port.write line w)) in
      if write_raises line w then (none, w) else rest
