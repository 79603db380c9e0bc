-- ===== src/Server/Tests.antt =====
-- One board with a serial session and a flash, and a client that flashes three bytes.
use mbdeploy.Base.{
  ◌≡◌, ◌≢◌, ◌↔◌, refl, ap, none, some, List, [], ◌∷◌, ◌++◌, true, false, arith, pos, length, ◌⊎◌,
  inl, all,
}
use mbdeploy.Text.{
  codes, ascii_only, is_space, is_digit, decimal_value, is_ascii, decode_replace, same, starts_with,
  lower, join,
}
use mbdeploy.Flash.{
  Argv, Process, parsed, flash_hex, run_streamed, relay_output, looks_transient, looks_locked,
}
use mbdeploy.Devices.Announce.{is_relay}
use mbdeploy.Devices.Registry.{no_entry}
use mbdeploy.Server.Board.{
  Session, Board, serial, flash, new_board, claim_flash, occupies, is_serial,
}
use mbdeploy.Server.Sessions.{System, Reach, Inside, start, next_step, flash_claims}
use mbdeploy.Server.Sessions.Exclusion.{one_flash, departure_races}
use mbdeploy.Text.Split.{split}
use mbdeploy.Text.Strip.{strip}
use mbdeploy.Text.Decimal.{int_of}
use mbdeploy.Server.Header.{parse_flash_header}
use mbdeploy.Server.Wire.{
  authenticate, compare_digest, Item, read_line, read_exact, recv, accepted, check_token,
}
use mbdeploy.Server.Wire.Reading.{bytes}
use mbdeploy.Server.Wire.Handshake.{check_token-accepted_iff}
use mbdeploy.Server.Serve.{
  Host, Options, State, serve_flash, read_command, after_line, run_command, flash_command,
  claim_and_flash, releasing, flash_claimed, preempt, after_payload, digest_matches, flash_payload,
}
use mbdeploy.Server.Serve.Guards.{CommandAllowed, serve_flash-CommandAllowed}
use mbdeploy.Server.Serve.Ends.{serve_flash_ends}
use mbdeploy.Server.Serve.Preemption.{serve_flash_displaces}

abbrev tovez : Board
tovez = new_board (codes "9906") (codes "tovez") no_entry (some 4) (some 5)

abbrev idle_board : System
idle_board = record { board = tovez; inside = []; next = 7 }

abbrev flash_7 : Session
flash_7 = record { id = 7; kind = flash }

abbrev serial_3 : Session
serial_3 = record { id = 3; kind = serial }

abbrev flashing : System
flashing = record {
  board = record tovez { occupant = some flash_7 };
  inside = flash_7 ∷ [];
  next = 8;
}

one_flash_example : (flash_7 ≡ flash_7) × (flashing.board.occupant ≡ some flash_7)
unfolding claim_flash
one_flash_example =
    one_flash {y = idle_board} {w = flashing} flash_7 flash_7 refl
      (next_step start (flash_claims idle_board none flashing.board refl) (λ e. cc)) (inl refl)
      (inl refl) refl refl

departure_races_example :
    (w : System) × (s : Session) × (f : Session) × Reach idle_board true w
    × Inside s w.inside
    × Inside f w.inside
    × (s.kind ≡ flash)
    × (f.kind ≡ flash)
    × (s.id ≢ f.id)
departure_races_example = departure_races idle_board refl

check_token-accepted_iff_example :
    (check_token ascii_only (codes "s3cret") (some (codes "AUTH s3cret")) ≡ accepted) ↔ (
      (decode_replace ascii_only (codes "AUTH s3cret") ≡ codes "AUTH " ++ codes "s3cret")
      × (all is_ascii (codes "s3cret") ≡ true))
check_token-accepted_iff_example =
    check_token-accepted_iff ascii_only (codes "s3cret") (codes "AUTH s3cret")

-- The world is the list of outcomes to come, as each pyocd command ends.
abbrev World : Type 0
World = List Process

abbrev pyocd_of : Argv → World → Process × World
pyocd_of cmd [] = (record { exit = pos 0; output = [] }, [])
pyocd_of cmd (p ∷ w) = (p, w)

abbrev bench : Host World
bench = record {
  python = codes "python3";
  spawn = pyocd_of;
  load = λ path w. parsed;
  temp_path = λ w. codes "/tmp/a.hex";
  load_raises = λ path w. false;
  write_file = λ path text w. (false, w);
  unlink = λ path w. w;
  sha256 = λ payload. codes "ab12";
  dumps = λ info. codes "{}";
  open_port = λ port w. none;
  relay = λ port w. w;
}

abbrev options : Options
options = record {
  token = some (codes "t");
  no_flash = false;
  mcu = codes "nrf52833";
  auth_timeout = 5;
  command_timeout = 10;
  payload_timeout = 60;
}

abbrev client : List Item
client = bytes (codes "AUTH t\nFLASH 3 sha256=AB12\nhex")

-- the serial session 3 holds the board
abbrev before : State World
before = record {
  board = record tovez { occupant = some serial_3 };
  conn = record { rx = client; tx = []; closed = false };
  world = [];
  terminated = [];
  ran = [];
}

serve_flash_ends_example :
    let out = serve_flash ascii_only bench options flash_7 (λ b. b) before in
    (out.1.conn.closed ≡ true) × (occupies flash_7 out.1.board.occupant ≡ false)
serve_flash_ends_example = serve_flash_ends ascii_only bench options flash_7 (λ b. b) before refl

serve_flash_displaces_example :
    let after = (serve_flash ascii_only bench options flash_7 (λ b. b) before).1 in
    (after.terminated ≡ before.terminated)
    ⊎ ((o : Session) × (before.board.occupant ≡ some o)
        × (is_serial (some o) ≡ true)
        × (after.terminated ≡ before.terminated ++ o ∷ []))
serve_flash_displaces_example =
    serve_flash_displaces ascii_only bench options flash_7 (λ b. b) before

abbrev flashed : State World
flashed = (serve_flash ascii_only bench options flash_7 (λ b. b) before).1

flashed-tx : flashed.conn.tx ≡ codes "OK" ∷ codes "OK send" ∷ codes "OK flashed" ∷ []
unfolding serve_flash authenticate read_line check_token decode_replace starts_with same
    compare_digest read_command after_line run_command split is_space strip flash_command
    parse_flash_header is_digit int_of claim_and_flash claim_flash releasing flash_claimed preempt
    read_exact after_payload digest_matches flash_payload flash_hex run_streamed relay_output lower
    looks_transient looks_locked join decimal_value is_relay recv
flashed-tx = refl

flashed-ran : length flashed.ran ≡ 2
unfolding serve_flash authenticate read_line check_token decode_replace starts_with same
    compare_digest read_command after_line run_command split is_space strip flash_command
    parse_flash_header is_digit int_of claim_and_flash claim_flash releasing flash_claimed preempt
    read_exact after_payload digest_matches flash_payload flash_hex run_streamed relay_output lower
    looks_transient looks_locked join decimal_value is_relay recv
flashed-ran = refl

serve_flash-CommandAllowed_example :
    let (a, c) = authenticate ascii_only options.token options.auth_timeout before.conn in
    CommandAllowed ascii_only bench options a (record before { conn = c })
serve_flash-CommandAllowed_example =
    serve_flash-CommandAllowed ascii_only bench options flash_7 (λ b. b) before (λ e. ran_none e)
  where
    ran_none : flashed.ran ≢ []
    ran_none e = let n = flashed-ran in let m = ap length e in ground (arith, n, m)
