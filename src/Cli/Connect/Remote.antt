-- ===== src/Cli/Connect/Remote.antt =====
-- `_peek_remote_err` and `_cmd_connect_remote` of src/mbdeploy/cli.py.
use mbdeploy.Base.{ℕ, Bool, Option, none, some, List, [], ◌∷◌, if◌then◌else◌, drop}
use mbdeploy.Text.{Text, Unicode, codes, starts_with, decode_replace}
use mbdeploy.Text.Split.{split_on}
use mbdeploy.Server.Wire.{Item, Received, chunk, timed_out, failed, recv}
use mbdeploy.Remote.Resolve.{Found, Resolution, board, refused, resolve_board}
use mbdeploy.Remote.Deploy.{Try, got, os_error}
use mbdeploy.Remote.Socket.{Adapter, new_adapter, close_socket}
use mbdeploy.Server.Supervisor.{serial_service_type}
use mbdeploy.Console.OverSocket.{socket_port}
use mbdeploy.Cli.Connect.{Session, run_connect_session}

-- `--message` as words, `--timeout`, and what comes on stdin
pub record ConnectArgs : Type 0 where
  pub target : Text
  pub message : List Text
  pub timeout : ℕ
  pub stdin : List Text

-- what goes to stderr
pub data Complaint : Type 0 where
  no_board no_connection refused_by : Text → Complaint
  silent traceback : Complaint

-- the exit code, stdout and stderr, and the socket, if one was opened
pub record Ended : Type 0 where
  pub code : ℕ
  pub out : List Text
  pub complaint : Option Complaint
  pub sock : Option Adapter

module _ (u : Unicode) where
  -- `peek.split(b"\n", 1)[0]`
  abbrev first_line : List Text → Text
  first_line [] = []
  first_line (line ∷ lines) = line

  unfoldable pub err_of : Text → Option Text
  err_of peek =
      if starts_with peek (codes "ERR ")
      then some (decode_replace u (drop 4 (first_line (split_on b'\n' peek))))
      else none

  -- by what `recv` would return, and what it would leave
  abbrev pub of_peek : List Item → Received × List Item → Option Text × List Item
  of_peek items (timed_out d, rest) = (none, rest)
  of_peek items (failed, rest) = (none, items)
  of_peek items (chunk peek, rest) = (err_of peek, items)

  -- what the peek finds, and what is still to come; a peek takes no byte, but it may wait
  unfoldable pub peek_remote_err : List Item → Option Text × List Item
  peek_remote_err items = of_peek items (recv 4096 items)

  abbrev pub failed_with : Complaint → Option Adapter → Ended
  failed_with c sock = record { code = 1; out = []; complaint = some c; sock = sock }

  abbrev pub of_session : Session (Adapter × ℕ) → Ended
  of_session s = record {
    code = s.code;
    out = s.out;
    complaint = if s.is_broken then some traceback else if s.no_response then some silent else none;
    sock = some s.world.0;
  }

  abbrev pub close_world : Adapter × ℕ → Adapter × ℕ
  close_world (a, now) = (close_socket a, now)

  -- `idle_gap` is `IDLE_GAP` of console.py; `write_raises` is where `sendall` raises.
  abbrev pub on_connection :
      ConnectArgs → ℕ → (Text → Adapter × ℕ → Bool) → Option Text × List Item → Ended
  on_connection args idle_gap write_raises (some err, rest) =
      failed_with (refused_by err) (some (close_socket (new_adapter rest)))
  on_connection args idle_gap write_raises (none, rest) = of_session (
      run_connect_session u socket_port close_world write_raises args.message args.timeout idle_gap
        args.stdin (new_adapter rest, 0))

  abbrev pub on_connect : ConnectArgs → ℕ → (Text → Adapter × ℕ → Bool) → Try (List Item) → Ended
  on_connect args idle_gap write_raises (os_error why) = failed_with (no_connection why) none
  on_connect args idle_gap write_raises (got items) =
      on_connection args idle_gap write_raises (peek_remote_err items)

  abbrev pub on_resolution :
      ConnectArgs
      → ℕ
      → (Text → Adapter × ℕ → Bool)
      → (Text → ℕ → Try (List Item))
      → Resolution
      → Ended
  on_resolution args idle_gap write_raises connect (refused why) = failed_with (no_board why) none
  on_resolution args idle_gap write_raises connect (board b) =
      on_connect args idle_gap write_raises (connect b.host b.port)

  unfoldable pub cmd_connect_remote :
      ConnectArgs
      → ℕ
      → (Text → Adapter × ℕ → Bool)
      → List Found
      → (Text → ℕ → Try (List Item))
      → Ended
  cmd_connect_remote args idle_gap write_raises results connect =
      on_resolution args idle_gap write_raises connect
        (resolve_board u args.target serial_service_type results)
