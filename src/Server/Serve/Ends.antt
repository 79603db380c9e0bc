-- ===== src/Server/Serve/Ends.antt =====
-- How the handlers of src/mbdeploy/server.py end: the connection is closed and the board is free of
-- the session whatever happens; and what a serial session and a flash do to the session before them.
use mbdeploy.Base.{
  ◌≡◌, refl, true, false, not, ◌&&◌, Option, none, some, List, [], ◌∷◌, arith, Bool-cases,
  Option-cases, inl, inr, ◌⊎◌, ap, ◌∙◌,
}
use mbdeploy.Text.{Text, Unicode}
use mbdeploy.Devices.Announce.{is_relay}
use mbdeploy.Server.Board.{Session, Board, is_flash, occupies, claim_flash, claim_serial, release}
use mbdeploy.Server.Header.{Header, Parsed, header, malformed, value_error, parse_flash_header}
use mbdeploy.Server.Wire.{Auth, accepted, rejected, type_error, authenticate}
use mbdeploy.Server.Serve.{
  Host, Options, State, Outcome, claim_and_flash, flash_command, handle_info, run_command,
  after_line, read_command, after_auth, serve_flash, releasing, claim_and_relay, serve_serial,
}

release-free : (s : Session) (b : Board) → occupies s (release s b).occupant ≡ false
unfolding release
release-free s b = ground arith

module _ {W : Type 0} (u : Unicode) (host : Host W) (opts : Options) where
  -- The handler kept the board as it was, or released it.
  abbrev Ended : Session → State W → Outcome × State W → Type 0
  Ended s st out = (out.1.board ≡ st.board) ⊎ (occupies s out.1.board.occupant ≡ false)

  claim_and_flash-Ended :
      (s : Session) (meanwhile : Board → Board) (h : Header) (st : State W)
      → Ended s st (claim_and_flash u host opts s meanwhile h st)
  unfolding claim_and_flash claim_flash releasing
  claim_and_flash-Ended s meanwhile h st = elim (Bool-cases (is_flash st.board.occupant)) [
    | inl y ↦ inl (rw (y, claim_and_flash, claim_flash) refl)
    | inr n ↦ inr (rw (n, claim_and_flash, claim_flash) (release-free s _))
  ]

  flash_command-Ended :
      (s : Session) (meanwhile : Board → Board) (p : Parsed) (st : State W)
      → Ended s st (flash_command u host opts s meanwhile p st)
  unfolding flash_command
  flash_command-Ended s meanwhile malformed st = inl refl
  flash_command-Ended s meanwhile value_error st = inl refl
  flash_command-Ended s meanwhile (header h) st =
      elim (Bool-cases (is_relay u st.board.entry.role && not h.force_relay)) [
        | inl y ↦ inl (rw (y, flash_command) refl)
        | inr n ↦ rw (n, flash_command) (claim_and_flash-Ended s meanwhile h st)
      ]

  run_command-Ended :
      (s : Session) (meanwhile : Board → Board) (text : Text) (ws : List Text) (st : State W)
      → Ended s st (run_command u host opts s meanwhile text ws st)
  unfolding run_command handle_info
  run_command-Ended s meanwhile text [] st = inl refl
  run_command-Ended s meanwhile text (w ∷ ws) st =
      let e = flash_command-Ended s meanwhile (parse_flash_header u text) st in ground (arith, e)

  after_line-Ended :
      (s : Session) (meanwhile : Board → Board) (line : Option Text) (st : State W)
      → Ended s st (after_line u host opts s meanwhile line st)
  unfolding after_line
  after_line-Ended s meanwhile none st = inl refl
  after_line-Ended s meanwhile (some bytes) st = run_command-Ended s meanwhile _ _ st

  after_auth-Ended :
      (s : Session) (meanwhile : Board → Board) (a : Auth) (st : State W)
      → Ended s st (after_auth u host opts (read_command u host opts s meanwhile) a st)
  unfolding read_command
  after_auth-Ended s meanwhile rejected st = inl refl
  after_auth-Ended s meanwhile type_error st = inl refl
  after_auth-Ended s meanwhile accepted st = after_line-Ended s meanwhile _ _

  claim_and_relay-Ended :
      (s : Session) (meanwhile : Board → Board) (st : State W)
      → Ended s st (claim_and_relay u host opts s meanwhile st)
  unfolding claim_and_relay claim_serial releasing
  claim_and_relay-Ended s meanwhile st = elim (Option-cases st.board.occupant) [
    | inl n ↦ inr (rw (n, claim_and_relay, claim_serial) (release-free s _))
    | inr (o, y) ↦ inl (rw (y, claim_and_relay, claim_serial) refl)
  ]

  free :
      (s : Session) (st : State W) (out : Outcome × State W)
      → occupies s st.board.occupant ≡ false
      → Ended s st out
      → occupies s out.1.board.occupant ≡ false
  free s st out f (inl e) = ap (λ (b : Board). occupies s b.occupant) e ∙ f
  free s st out f (inr e) = e

  -- However `serve_flash` ends, by a return or an exception, at any guard and whatever other
  -- threads did to the board before the release: if its session did not hold the board at the
  -- start, then at the end the connection is closed and its session does not hold the board.
  pub serve_flash_ends :
      (s : Session) (meanwhile : Board → Board) (st : State W)
      → occupies s st.board.occupant ≡ false
      → let out = serve_flash u host opts s meanwhile st in
        (out.1.conn.closed ≡ true) × (occupies s out.1.board.occupant ≡ false)
  unfolding serve_flash
  serve_flash_ends s meanwhile st f =
      let (a, c) = authenticate u opts.token opts.auth_timeout st.conn in
      let st' = record st { conn = c } in
      (
        refl,
        free s st' (after_auth u host opts (read_command u host opts s meanwhile) a st') f
            (after_auth-Ended s meanwhile a st'),
      )

  after_auth_serial-Ended :
      (s : Session) (meanwhile : Board → Board) (a : Auth) (st : State W)
      → Ended s st (after_auth u host opts (claim_and_relay u host opts s meanwhile) a st)
  after_auth_serial-Ended s meanwhile rejected st = inl refl
  after_auth_serial-Ended s meanwhile type_error st = inl refl
  after_auth_serial-Ended s meanwhile accepted st = claim_and_relay-Ended s meanwhile st

  -- However `serve_serial` ends, and whatever other threads did to the board before the release:
  -- if its session did not hold the board at the start, then at the end the connection is closed
  -- and its session does not hold the board.
  pub serve_serial_ends :
      (s : Session) (meanwhile : Board → Board) (st : State W)
      → occupies s st.board.occupant ≡ false
      → let out = serve_serial u host opts s meanwhile st in
        (out.1.conn.closed ≡ true) × (occupies s out.1.board.occupant ≡ false)
  unfolding serve_serial
  serve_serial_ends s meanwhile st f =
      let (a, c) = authenticate u opts.token opts.auth_timeout st.conn in
      let st' = record st { conn = c } in
      (
        refl,
        free s st' (after_auth u host opts (claim_and_relay u host opts s meanwhile) a st') f
            (after_auth_serial-Ended s meanwhile a st'),
      )

  relay_refused :
      (s o : Session) (meanwhile : Board → Board) (a : Auth) (st : State W)
      → st.board.occupant ≡ some o
      → let out = after_auth u host opts (claim_and_relay u host opts s meanwhile) a st in
        (out.1.board ≡ st.board) × (out.1.world ≡ st.world) × (out.1.terminated ≡ st.terminated)
  unfolding claim_and_relay claim_serial
  relay_refused s o meanwhile rejected st h = (refl, refl, refl)
  relay_refused s o meanwhile type_error st h = (refl, refl, refl)
  relay_refused s o meanwhile accepted st h = ground (arith, h)

  -- A serial connection never displaces anyone: on an occupied board `serve_serial` changes neither
  -- the board nor the world (the serial port is not opened), terminates no session, and closes the
  -- connection.
  pub serve_serial_busy :
      (s o : Session) (meanwhile : Board → Board) (st : State W)
      → st.board.occupant ≡ some o
      → let out = serve_serial u host opts s meanwhile st in
        (out.1.board ≡ st.board)
        × (out.1.world ≡ st.world)
        × (out.1.terminated ≡ st.terminated)
        × (out.1.conn.closed ≡ true)
  unfolding serve_serial
  serve_serial_busy s o meanwhile st h =
      let (a, c) = authenticate u opts.token opts.auth_timeout st.conn in
      let (b, w, t) = relay_refused s o meanwhile a (record st { conn = c }) h in (b, w, t, refl)
