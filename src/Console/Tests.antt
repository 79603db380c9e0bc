-- ===== src/Console/Tests.antt =====
-- One-shot exchanges of src/mbdeploy/console.py on concrete ports.
use mbdeploy.Base.{ℕ, ◌+◌, ◌≤◌, ◌<◌, ◌≡◌, refl, false, List, [], ◌∷◌, ◌⊎◌, is_nil}
use mbdeploy.Text.{Text, codes, ascii_only, decode_replace}
use mbdeploy.Text.Strip.{rstrip}
use mbdeploy.Server.Wire.{byte, idle, recv, take_run}
use mbdeploy.Remote.Socket.{
  Adapter, new_adapter, readline, readline_loop, cut_line, reset_input_buffer, drain, drain_loop,
}
use mbdeploy.Console.{Port, sent, collect, send_command}
use mbdeploy.Console.Reply.{LeastReads, reads, send_command_lem}
use mbdeploy.Console.Bounds.{send_command-bounds}
use mbdeploy.Console.OverSocket.{socket_port, socket_port-advances}

-- a port that says these lines, one in each read of three units, and then is silent
abbrev script_port : Port (List Text × ℕ)
script_port = record {
  clock = λ (lines, now). now;
  readline = λ (lines, now). elim lines [
    | [] ↦ ([], ([], now + 3))
    | line ∷ rest ↦ (line, (rest, now + 3))
  ];
  reset_input_buffer = λ w. w;
  write = λ message w. w;
  flush = λ w. w;
}

abbrev script : List Text × ℕ
script = (codes "ok\r\n" ∷ codes "7\n" ∷ [], 10)

-- the two lines, and the four units of silence after the second
script_reply :
    send_command ascii_only script_port (codes "get") 50 4 script
    ≡ (codes "ok" ∷ codes "7" ∷ [], ([], 22))
unfolding send_command collect rstrip decode_replace
script_reply = refl

abbrev socket_script : Adapter × ℕ
socket_script =
    (new_adapter (idle 1 ∷ byte b'o' ∷ byte b'k' ∷ byte b'\n' ∷ idle 5 ∷ idle 5 ∷ []), 0)

-- a line that comes in two pieces arrives as one, and blank lines are left out
socket_reply :
    (send_command ascii_only socket_port (codes "get") 50 4 socket_script).0 ≡ codes "ok" ∷ []
unfolding send_command collect rstrip decode_replace readline readline_loop cut_line
    reset_input_buffer drain drain_loop recv take_run
socket_reply = refl

send_command_lem_example :
    LeastReads ascii_only socket_port 50 4 [] 50
      (sent ascii_only socket_port (codes "get") socket_script)
      (send_command ascii_only socket_port (codes "get") 50 4 socket_script)
unfolding reset_input_buffer drain drain_loop recv take_run
send_command_lem_example =
    send_command_lem ascii_only socket_port socket_port-advances (codes "get") 50 4 socket_script

send_command-bounds_example :
    let asked = sent ascii_only socket_port (codes "get") socket_script in
    let (lines, last) = send_command ascii_only socket_port (codes "get") 50 4 socket_script in
    ((last ≡ asked)
      ⊎ ((k : ℕ) × (last ≡ (socket_port.readline (reads ascii_only socket_port k asked).1).1)
          × (socket_port.clock (reads ascii_only socket_port k asked).1
              < socket_port.clock asked + 50)))
    × ((is_nil lines ≡ false) ⊎ (socket_port.clock asked + 50 ≤ socket_port.clock last))
send_command-bounds_example =
    send_command-bounds ascii_only socket_port socket_port-advances (codes "get") 50 4 socket_script
