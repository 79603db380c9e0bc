-- ===== src/Console/OverSocket.antt =====
-- `SocketSerial` of src/mbdeploy/remote.py as the port of src/mbdeploy/console.py.
use mbdeploy.Base.{ℕ, zero, suc, ◌+◌, ◌-◌, ◌<◌, List, [], ◌∷◌, arith}
use mbdeploy.Server.Wire.{Item, byte, idle, broken}
use mbdeploy.Remote.Socket.{Adapter, readline, reset_input_buffer, write}
use mbdeploy.Console.{Port}

-- the time that its `recv`s wait
abbrev waits : List Item → ℕ
waits [] = zero
waits (byte b ∷ items) = waits items
waits (idle d ∷ items) = d + waits items
waits (broken ∷ items) = waits items

-- The adapter and the clock. A read takes one unit, and the waits among the items that it takes.
abbrev pub socket_port : Port (Adapter × ℕ)
socket_port = record {
  clock = λ (a, now). now;
  readline =
      λ (a, now). let (line, b) = readline a in (line, (b, suc now + (waits a.rx - waits b.rx)));
  reset_input_buffer = λ (a, now). (reset_input_buffer a, now);
  write = λ message (a, now). (write message a, now);
  flush = λ w. w;
}

-- each read moves the clock
pub socket_port-advances :
    (w : Adapter × ℕ) → socket_port.clock w < socket_port.clock (socket_port.readline w).1
socket_port-advances (a, now) = omega arith
