-- ===== src/Remote/Socket.antt =====
-- `SocketSerial` of src/mbdeploy/remote.py: a connected socket behind the methods of a serial port.
-- The peer is a list of items as it is for the server; an `idle` is one `recv` that times out, and
-- where a read would block.
pub mod Blocks
pub mod Bytes
pub mod Lines
pub mod Tests
use mbdeploy.Base.{
  ℕ, zero, suc, ◌+◌, Bool, true, false, not, ◌&&◌, Option, none, some, List, [], ◌∷◌, ◌++◌, ◌==◌,
  ltb, if◌then◌else◌, length, take, drop, is_nil,
}
use mbdeploy.Text.{Text}
use mbdeploy.Server.Wire.{Item, byte, idle, broken, Received, chunk, timed_out, failed, recv}

pub record Adapter : Type 0 where
  pub buf : Text
  pub eof : Bool
  pub rx : List Item
  pub sent : Text
  pub sock_closed : Bool

-- `SocketSerial.__init__`
abbrev pub new_adapter : List Item → Adapter
new_adapter items = record { buf = []; eof = false; rx = items; sent = []; sock_closed = false }

-- the bytes up to and with the first newline, and those after it
unfoldable pub cut_line : Text → Option (Text × Text)
cut_line [] = none
cut_line (b ∷ bs) =
    if b == b'\n'
    then some (b ∷ [], bs)
    else elim (cut_line bs) [ none ↦ none | some (line, rest) ↦ some (b ∷ line, rest) ]

-- all of the buffer, which is empty after it
abbrev pub give_all : Adapter → Text × Adapter
give_all a = (a.buf, record a { buf = [] })

-- what `readline` does with one `recv`; `again` is the next round
abbrev pub on_recv : (Adapter → Text × Adapter) → Adapter → List Item → Received → Text × Adapter
on_recv again a rest (timed_out d) = give_all (record a { rx = rest })
on_recv again a rest failed = give_all (record a { rx = rest; eof = true })
on_recv again a rest (chunk []) = again (record a { rx = rest; eof = true })
on_recv again a rest (chunk (b ∷ more)) = again (record a { rx = rest; buf = a.buf ++ b ∷ more })

abbrev pub on_eof : (Adapter → Text × Adapter) → Adapter → Bool → Text × Adapter
on_eof again a true = give_all a
on_eof again a false = let (r, rest) = recv 4096 a.rx in on_recv again a rest r

abbrev pub on_cut : (Adapter → Text × Adapter) → Adapter → Option (Text × Text) → Text × Adapter
on_cut again a (some (line, rest)) = (line, record a { buf = rest })
on_cut again a none = on_eof again a a.eof

-- The loop of `readline`. A round but the last two takes an item: the fuel is above their number.
unfoldable pub readline_loop : ℕ → Adapter → Text × Adapter
readline_loop zero a = give_all a
readline_loop (suc fuel) a = on_cut (readline_loop fuel) a (cut_line a.buf)

unfoldable pub readline : Adapter → Text × Adapter
readline a = readline_loop (suc (suc (length a.rx))) a

-- what `read` does with one `recv`
abbrev pub take_in : (Adapter → Adapter) → Adapter → List Item → Received → Adapter
take_in again a rest (timed_out d) = record a { rx = rest }
take_in again a rest failed = record a { rx = rest; eof = true }
take_in again a rest (chunk []) = record a { rx = rest; eof = true }
take_in again a rest (chunk (b ∷ more)) = again (record a { rx = rest; buf = a.buf ++ b ∷ more })

-- The loop of `read`, by whether it goes on.
abbrev pub fill_more : (Adapter → Adapter) → Adapter → Bool → Adapter
fill_more again a false = a
fill_more again a true = let (r, rest) = recv 65536 a.rx in take_in again a rest r

unfoldable pub fill : ℕ → ℕ → Adapter → Adapter
fill zero size a = a
fill (suc fuel) size a = fill_more (fill fuel size) a (ltb (length a.buf) size && not a.eof)

abbrev pub slice : ℕ → Adapter → Text × Adapter
slice size a = (take size a.buf, record a { buf = drop size a.buf })

unfoldable pub read : ℕ → Adapter → Text × Adapter
read size a = if size == 0 then ([], a) else slice size (fill (suc (length a.rx)) size a)

-- The loop of `_drain_nonblocking`. At an `idle` nothing is there, and the call does not wait.
abbrev pub drain_in : (Adapter → Adapter) → Adapter → List Item → Received → Adapter
drain_in again a rest (timed_out d) = a
drain_in again a rest failed = record a { rx = rest; eof = true }
drain_in again a rest (chunk []) = record a { rx = rest; eof = true }
drain_in again a rest (chunk (b ∷ more)) = again (record a { rx = rest; buf = a.buf ++ b ∷ more })

unfoldable pub drain_loop : ℕ → Adapter → Adapter
drain_loop zero a = a
drain_loop (suc fuel) a = let (r, rest) = recv 65536 a.rx in drain_in (drain_loop fuel) a rest r

-- the guard of `_drain_nonblocking`
abbrev pub drain_unless : Adapter → Bool → Adapter
drain_unless a true = a
drain_unless a false = drain_loop (suc (length a.rx)) a

unfoldable pub drain : Adapter → Adapter
drain a = drain_unless a a.eof

unfoldable pub reset_input_buffer : Adapter → Adapter
reset_input_buffer a = record (drain a) { buf = [] }

unfoldable pub in_waiting : Adapter → ℕ × Adapter
in_waiting a = let b = drain a in (length b.buf, b)

-- `write`, where `sendall` raises nothing, and `flush`, which does nothing. Where it raises, nothing
-- more is done with the adapter but to close it, and the sessions of Cli.Connect say so.
abbrev pub write : Text → Adapter → Adapter
write data_sent a = record a { sent = a.sent ++ data_sent }

abbrev pub close_socket : Adapter → Adapter
close_socket a = record a { sock_closed = true }
