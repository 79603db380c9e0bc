-- ===== src/Server/Serve/Preemption.antt =====
-- Which sessions `serve_flash` of src/mbdeploy/server.py terminates.
use mbdeploy.Base.{
  ◌≡◌, refl, true, not, ◌&&◌, Option, none, some, List, [], ◌∷◌, ◌++◌, arith, Bool-cases, inl, inr,
  ◌⊎◌,
}
use mbdeploy.Text.{Text, Unicode}
use mbdeploy.Devices.Announce.{is_relay}
use mbdeploy.Server.Board.{Session, Board, is_flash, is_serial, claim_flash}
use mbdeploy.Server.Header.{Header, Parsed, header, malformed, value_error, parse_flash_header}
use mbdeploy.Server.Wire.{Auth, accepted, rejected, type_error, authenticate}
use mbdeploy.Server.Serve.{
  Host, Options, State, preempt, flash_payload, after_payload, flash_claimed, claim_and_flash,
  flash_command, handle_info, run_command, after_line, read_command, after_auth, serve_flash,
  releasing,
}

-- No session was terminated, or one: the board's occupant, if that is a serial session.
abbrev Displaces : {W : Type 0} → Option Session → State W → State W → Type 0
Displaces occupant st after =
    (after.terminated ≡ st.terminated)
    ⊎ ((o : Session) × (occupant ≡ some o)
        × (is_serial (some o) ≡ true)
        × (after.terminated ≡ st.terminated ++ o ∷ []))

preempt-Displaces :
    {W : Type 0} (previous : Option Session) (st : State W)
    → Displaces previous st (preempt previous st)
unfolding preempt
preempt-Displaces none st = inl refl
preempt-Displaces (some o) st = elim (Bool-cases (is_serial (some o))) [
  | inl y ↦ inr (o, refl, y, rw (y, preempt) refl)
  | inr n ↦ inl (rw (n, preempt) refl)
]

module _ {W : Type 0} (u : Unicode) (host : Host W) (opts : Options) where
  after_payload-terminated :
      (h : Header) (payload : Text) (st : State W)
      → (after_payload u host opts h payload st).1.terminated ≡ st.terminated
  unfolding after_payload flash_payload
  after_payload-terminated h payload st = ground arith

  flash_claimed-Displaces :
      (h : Header) (previous : Option Session) (st : State W)
      → Displaces previous st (flash_claimed u host opts h previous st).1
  unfolding flash_claimed
  flash_claimed-Displaces h previous st =
      rw (after_payload-terminated h _ _) (preempt-Displaces previous st)

  claim_and_flash-Displaces :
      (s : Session) (meanwhile : Board → Board) (h : Header) (st : State W)
      → Displaces st.board.occupant st (claim_and_flash u host opts s meanwhile h st).1
  unfolding claim_and_flash claim_flash releasing
  claim_and_flash-Displaces s meanwhile h st = elim (Bool-cases (is_flash st.board.occupant)) [
    | inl y ↦ inl (rw (y, claim_and_flash, claim_flash) refl)
    | inr n ↦ rw (n, claim_and_flash, claim_flash) (flash_claimed-Displaces h st.board.occupant _)
  ]

  flash_command-Displaces :
      (s : Session) (meanwhile : Board → Board) (p : Parsed) (st : State W)
      → Displaces st.board.occupant st (flash_command u host opts s meanwhile p st).1
  unfolding flash_command
  flash_command-Displaces s meanwhile malformed st = inl refl
  flash_command-Displaces s meanwhile value_error st = inl refl
  flash_command-Displaces s meanwhile (header h) st =
      elim (Bool-cases (is_relay u st.board.entry.role && not h.force_relay)) [
        | inl y ↦ inl (rw (y, flash_command) refl)
        | inr n ↦ rw (n, flash_command) (claim_and_flash-Displaces s meanwhile h st)
      ]

  run_command-Displaces :
      (s : Session) (meanwhile : Board → Board) (text : Text) (ws : List Text) (st : State W)
      → Displaces st.board.occupant st (run_command u host opts s meanwhile text ws st).1
  unfolding run_command handle_info
  run_command-Displaces s meanwhile text [] st = inl refl
  run_command-Displaces s meanwhile text (w ∷ ws) st =
      let e = flash_command-Displaces s meanwhile (parse_flash_header u text) st in
      ground (arith, e)

  after_line-Displaces :
      (s : Session) (meanwhile : Board → Board) (line : Option Text) (st : State W)
      → Displaces st.board.occupant st (after_line u host opts s meanwhile line st).1
  unfolding after_line
  after_line-Displaces s meanwhile none st = inl refl
  after_line-Displaces s meanwhile (some bytes) st = run_command-Displaces s meanwhile _ _ st

  after_auth-Displaces :
      (s : Session) (meanwhile : Board → Board) (a : Auth) (st : State W)
      → Displaces st.board.occupant st
          (after_auth u host opts (read_command u host opts s meanwhile) a st).1
  unfolding read_command
  after_auth-Displaces s meanwhile rejected st = inl refl
  after_auth-Displaces s meanwhile type_error st = inl refl
  after_auth-Displaces s meanwhile accepted st = after_line-Displaces s meanwhile _ _

  -- `serve_flash` terminates no session, or one: the session that held the board, and that only if
  -- it is a serial session.
  pub serve_flash_displaces :
      (s : Session) (meanwhile : Board → Board) (st : State W)
      → let after = (serve_flash u host opts s meanwhile st).1 in
        (after.terminated ≡ st.terminated)
        ⊎ ((o : Session) × (st.board.occupant ≡ some o)
            × (is_serial (some o) ≡ true)
            × (after.terminated ≡ st.terminated ++ o ∷ []))
  unfolding serve_flash
  serve_flash_displaces s meanwhile st =
      let (a, c) = authenticate u opts.token opts.auth_timeout st.conn in
      after_auth-Displaces s meanwhile a (record st { conn = c })
