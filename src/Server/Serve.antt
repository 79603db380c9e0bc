-- ===== src/Server/Serve.antt =====
-- `serve_serial` and `serve_flash` of src/mbdeploy/server.py, each as one run of a handler. What the
-- handler calls outside the repository is the record `Host`; what other threads do to the board
-- while it waits is the function `meanwhile`.
pub mod Guards
pub mod Ends
pub mod Preemption
use mbdeploy.Base.{
  ℕ, suc, Bool, true, false, not, ◌&&◌, Option, none, some, List, [], ◌∷◌, ◌++◌, map, ltb,
  if◌then◌else◌, length, ℤ, nonzero, is_nil,
}
use mbdeploy.Text.{Text, Unicode, codes, same, lower, is_space, decode_replace}
use mbdeploy.Text.Strip.{strip}
use mbdeploy.Text.Split.{split}
use mbdeploy.Text.Decimal.{show_int}
use mbdeploy.Flash.{Argv, Process, Loaded, Attempt, Shell, Target, start, flash_hex}
use mbdeploy.Devices.Announce.{is_relay}
use mbdeploy.Server.Board.{Session, Board, is_serial, claim_serial, claim_flash, release}
use mbdeploy.Server.Header.{Header, Parsed, header, malformed, value_error, parse_flash_header}
use mbdeploy.Server.Wire.{
  Conn, send_line, close, read_line, read_exact, compare_digest, Auth, accepted, rejected,
  type_error, authenticate,
}

-- the fields of the `INFO` reply
pub record Info : Type 0 where
  pub uid : Text
  pub board_name : Text
  pub role : Option Text
  pub port : Option Text
  pub connected : Bool

-- pyocd, intelhex, temporary files, `hashlib`, `json` and the serial port. `relay` is the whole of
-- `console.relay_socket` on an open port; `open_port` gives the message of a `ConsoleError`.
-- `write_file` says whether `_write_temp_hex` raises, and `load_raises` whether the validation of the
-- hex file does, by an exception that `validate_hex` does not catch, as for bytes that are not UTF-8.
pub record Host (W : Type 0) : Type 0 where
  pub python : Text
  pub spawn : Argv → W → Process × W
  pub load : Text → W → Loaded
  pub temp_path : W → Text
  pub load_raises : Text → W → Bool
  pub write_file : Text → Text → W → Bool × W
  pub unlink : Text → W → W
  pub sha256 : Text → Text
  pub dumps : Info → Text
  pub open_port : Option Text → W → Option Text
  pub relay : Option Text → W → W

pub record Options : Type 0 where
  pub token : Option Text
  pub no_flash : Bool
  pub mcu : Text
  pub auth_timeout : ℕ
  pub command_timeout : ℕ
  pub payload_timeout : ℕ

-- What a handler reads and changes: the board, its connection, the world, the sessions that it has
-- terminated, and the pyocd commands that it has run.
pub record State (W : Type 0) : Type 0 where
  pub board : Board
  pub conn : Conn
  pub world : W
  pub terminated : List Session
  pub ran : List Attempt

-- A handler returns, or an exception leaves it, which `_run_handler` logs.
pub data Outcome : Type 0 where
  returned raised : Outcome

module _ {W : Type 0} where
  abbrev pub reply : Text → State W → State W
  reply text st = record st { conn = send_line text st.conn }

  abbrev pub say_and_return : Text → State W → Outcome × State W
  say_and_return text st = (returned, reply text st)

  -- the outer `finally`
  abbrev pub closing : Outcome × State W → Outcome × State W
  closing (o, st) = (o, record st { conn = close st.conn })

  -- the inner `finally`, which releases the board as the other threads have left it
  unfoldable pub releasing : Session → (Board → Board) → Outcome × State W → Outcome × State W
  releasing s meanwhile (o, st) = (o, record st { board = release s (meanwhile st.board) })

  -- `_terminate_displaced`, if the displaced session is a serial one
  unfoldable pub preempt : Option Session → State W → State W
  preempt none st = st
  preempt (some s) st =
      if is_serial (some s) then record st { terminated = st.terminated ++ s ∷ [] } else st

module _ {W : Type 0} (u : Unicode) (host : Host W) (opts : Options) where
  abbrev pub flash_target : Board → Text → Target
  flash_target b path = record {
    python = host.python;
    uid = b.uid;
    hex_path = path;
    mcu = opts.mcu;
    board_name = some b.name;
  }

  -- `flash_hex` on the payload in a temporary file; its log goes to the client as `LOG` lines. An
  -- exception leaves no temporary file, and the client gets no line.
  unfoldable pub flash_payload : Text → State W → Outcome × State W
  flash_payload payload st =
      let path = host.temp_path st.world in
      let (unwritten, w) = host.write_file path payload st.world in
      let (rc, sh) = flash_hex u host.spawn host.load (flash_target st.board path) (start w) in
      let logged = record st {
        conn = record st.conn { tx = st.conn.tx ++ map (λ m. codes "LOG " ++ m) sh.log };
        world = host.unlink path sh.world;
        ran = st.ran ++ sh.ran;
      } in
      if unwritten
      then (raised, record st { world = w })
      else if host.load_raises path w
      then (raised, record st { world = host.unlink path w })
      else if nonzero rc
      then say_and_return (codes "ERR flash failed (exit " ++ (show_int rc ++ codes ")")) logged
      else say_and_return (codes "OK flashed") logged

  -- the optional digest: `none` is the `TypeError` of `compare_digest`
  unfoldable pub digest_matches : Option Text → Text → Option Bool
  unfolding compare_digest
  digest_matches none payload = some true
  digest_matches (some declared) payload = compare_digest (host.sha256 payload) (lower u declared)

  unfoldable pub after_payload : Header → Text → State W → Outcome × State W
  after_payload h payload st =
      if ltb (length payload) h.nbytes
      then say_and_return (codes "ERR short payload") st
      else elim (digest_matches h.sha256 payload) [
        | none ↦ (raised, st)
        | some ok ↦
            if ok then flash_payload payload st else say_and_return (codes "ERR sha256 mismatch") st
      ]

  -- `serve_flash` once the board is claimed
  unfoldable pub flash_claimed : Header → Option Session → State W → Outcome × State W
  unfolding preempt
  flash_claimed h previous st =
      let asked = reply (codes "OK send") (preempt previous st) in
      let (payload, rest) =
        read_exact (suc (length asked.conn.rx)) h.nbytes opts.payload_timeout [] asked.conn.rx in
      after_payload h payload (record asked { conn = record asked.conn { rx = rest } })

  unfoldable pub claim_and_flash : Session → (Board → Board) → Header → State W → Outcome × State W
  claim_and_flash s meanwhile h st =
      let (claimed, previous, b) = claim_flash s st.board in
      if not claimed
      then say_and_return (codes "ERR busy") st
      else releasing s meanwhile (flash_claimed h previous (record st { board = b }))

  -- a `FLASH`, by what its header parses to
  unfoldable pub flash_command : Session → (Board → Board) → Parsed → State W → Outcome × State W
  flash_command s meanwhile malformed st = say_and_return (codes "ERR bad header") st
  flash_command s meanwhile value_error st = (raised, st)
  flash_command s meanwhile (header h) st =
      if is_relay u st.board.entry.role && not h.force_relay
      then say_and_return (codes "ERR relay refused — send force-relay") st
      else claim_and_flash s meanwhile h st

  -- `_handle_info`, which does not look at the occupant
  unfoldable pub handle_info : State W → State W
  handle_info st =
      reply
        (codes "OK "
          ++ host.dumps (record {
            uid = st.board.uid;
            board_name = st.board.name;
            role = st.board.entry.role;
            port = st.board.entry.port;
            connected = st.board.connected;
          }))
        st

  -- the command line, and its words
  unfoldable pub run_command :
      Session → (Board → Board) → Text → List Text → State W → Outcome × State W
  run_command s meanwhile text [] st = (returned, st)
  run_command s meanwhile text (command ∷ _) st =
      if same command (codes "INFO")
      then (returned, handle_info st)
      else if not (same command (codes "FLASH"))
      then say_and_return (codes "ERR unknown command") st
      else if opts.no_flash
      then say_and_return (codes "ERR flash disabled") st
      else flash_command s meanwhile (parse_flash_header u text) st

  -- a connection that sends no line, or a blank one, is closed without a reply
  unfoldable pub after_line : Session → (Board → Board) → Option Text → State W → Outcome × State W
  after_line s meanwhile none st = (returned, st)
  after_line s meanwhile (some bytes) st =
      let text = strip (is_space u) (decode_replace u bytes) in
      run_command s meanwhile text (split (is_space u) text) st

  unfoldable pub read_command : Session → (Board → Board) → State W → Outcome × State W
  read_command s meanwhile st =
      let (line, rest) = read_line opts.command_timeout [] st.conn.rx in
      after_line s meanwhile line (record st { conn = record st.conn { rx = rest } })

  abbrev pub after_auth : (State W → Outcome × State W) → Auth → State W → Outcome × State W
  after_auth k accepted st = k st
  after_auth k rejected st = say_and_return (codes "ERR auth required") st
  after_auth k type_error st = (raised, st)

  unfoldable pub serve_flash : Session → (Board → Board) → State W → Outcome × State W
  serve_flash s meanwhile st =
      let (a, c) = authenticate u opts.token opts.auth_timeout st.conn in
      closing (after_auth (read_command s meanwhile) a (record st { conn = c }))

  -- `serve_serial` once the board is claimed
  unfoldable pub serial_claimed : State W → Outcome × State W
  serial_claimed st = elim (host.open_port st.board.entry.port st.world) [
    | some message ↦ say_and_return (codes "ERR " ++ message) st
    | none ↦ (returned, record st { world = host.relay st.board.entry.port st.world })
  ]

  unfoldable pub claim_and_relay : Session → (Board → Board) → State W → Outcome × State W
  claim_and_relay s meanwhile st =
      let (claimed, b) = claim_serial s st.board in
      if not claimed
      then say_and_return (codes "ERR busy") st
      else releasing s meanwhile (serial_claimed (record st { board = b }))

  unfoldable pub serve_serial : Session → (Board → Board) → State W → Outcome × State W
  serve_serial s meanwhile st =
      let (a, c) = authenticate u opts.token opts.auth_timeout st.conn in
      closing (after_auth (claim_and_relay s meanwhile) a (record st { conn = c }))
