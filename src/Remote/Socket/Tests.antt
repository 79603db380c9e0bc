-- ===== src/Remote/Socket/Tests.antt =====
-- `SocketSerial` of src/mbdeploy/remote.py on concrete bytes.
use mbdeploy.Base.{◌≡◌, refl, [], ◌∷◌, ◌++◌}
use mbdeploy.Server.Wire.{byte, idle, recv, take_run}
use mbdeploy.Remote.Socket.{
  Adapter, new_adapter, readline, readline_loop, cut_line, in_waiting, drain, drain_loop,
}
use mbdeploy.Remote.Socket.Bytes.{unread}
use mbdeploy.Remote.Socket.Lines.{Reads, readline_lem}

-- "a\nb", a pause, then "c"
abbrev split_line : Adapter
split_line = new_adapter (byte b'a' ∷ byte b'\n' ∷ byte b'b' ∷ idle 1 ∷ byte b'c' ∷ [])

readline_first : (readline split_line).0 ≡ b'a' ∷ b'\n' ∷ []
unfolding readline readline_loop cut_line recv take_run
readline_first = refl

-- what was read with the first line waits in the buffer, and a pause gives it as it is
readline_second : (readline (readline split_line).1).0 ≡ b'b' ∷ []
unfolding readline readline_loop cut_line recv take_run
readline_second = refl

waiting_count : (in_waiting split_line).0 ≡ 3
unfolding in_waiting drain drain_loop recv take_run
waiting_count = refl

readline_lem_example :
    ((readline split_line).0 ++ unread (readline split_line).1 ≡ unread split_line)
    × Reads split_line.rx (readline split_line)
readline_lem_example = readline_lem split_line
