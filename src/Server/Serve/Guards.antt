-- ===== src/Server/Serve/Guards.antt =====
-- When `serve_flash` of src/mbdeploy/server.py runs pyocd, and what it leaves alone otherwise.
use mbdeploy.Base.{
  suc, ◌≤◌, ◌≡◌, ◌≢◌, refl, true, false, not, ◌&&◌, Option, none, some, List, [], ◌∷◌, arith,
  length, Bool-cases, inl, inr, ◌∙◌,
}
use mbdeploy.Text.{Text, Unicode, codes, same, is_space, decode_replace}
use mbdeploy.Text.Strip.{strip}
use mbdeploy.Devices.Announce.{is_relay}
use mbdeploy.Server.Board.{Session, Board, is_flash, claim_flash}
use mbdeploy.Server.Header.{Header, Parsed, header, malformed, value_error, parse_flash_header}
use mbdeploy.Server.Wire.{
  Item, Auth, accepted, rejected, type_error, authenticate, read_line, read_exact,
}
use mbdeploy.Server.Wire.Reading.{gather, read_exact_lem}
use mbdeploy.Server.Serve.{
  Host, Options, State, preempt, digest_matches, after_payload, flash_claimed, claim_and_flash,
  flash_command, handle_info, run_command, after_line, after_auth, read_command, serve_flash,
  releasing,
}

preempt-keeps :
    {W : Type 0} (previous : Option Session) (st : State W)
    → ((preempt previous st).conn ≡ st.conn) × ((preempt previous st).ran ≡ st.ran)
unfolding preempt
preempt-keeps none st = (refl, refl)
preempt-keeps (some o) st = (ground arith, ground arith)

module _ {W : Type 0} (u : Unicode) (host : Host W) (opts : Options) where
  -- the payload passes the checks on its length and its digest
  abbrev pub PayloadOk : Header → Text → Type 0
  PayloadOk h payload =
      (h.nbytes ≤ length payload) × (digest_matches u host opts h.sha256 payload ≡ some true)

  -- the command is a `FLASH` that the server's options and the board's role and occupant allow
  abbrev pub Allowed : Text → Header → Board → Type 0
  Allowed text h b =
      (opts.no_flash ≡ false)
      × (parse_flash_header u text ≡ header h)
      × ((is_relay u b.entry.role && not h.force_relay) ≡ false)
      × (is_flash b.occupant ≡ false)

  after_payload-PayloadOk :
      (h : Header) (payload : Text) (st : State W)
      → (after_payload u host opts h payload st).1.ran ≢ st.ran
      → PayloadOk h payload
  unfolding after_payload
  after_payload-PayloadOk h payload st d = ground arith

  flash_claimed-PayloadOk :
      (h : Header) (previous : Option Session) (st : State W)
      → (flash_claimed u host opts h previous st).1.ran ≢ st.ran
      → PayloadOk h (gather h.nbytes opts.payload_timeout st.conn.rx).0
  unfolding flash_claimed
  flash_claimed-PayloadOk h previous st d =
      let (c, r) = preempt-keeps previous st in
      let rx = (preempt previous st).conn.rx in
      let e = read_exact_lem h.nbytes opts.payload_timeout rx in
      let ok : PayloadOk h (read_exact (suc (length rx)) h.nbytes opts.payload_timeout [] rx).0 =
        after_payload-PayloadOk h _ _ (λ e. d (e ∙ r)) in
      rw (← c, ← e) ok

  claim_and_flash-PayloadOk :
      (s : Session) (meanwhile : Board → Board) (h : Header) (st : State W)
      → (claim_and_flash u host opts s meanwhile h st).1.ran ≢ st.ran
      → (is_flash st.board.occupant ≡ false)
        × PayloadOk h (gather h.nbytes opts.payload_timeout st.conn.rx).0
  unfolding claim_and_flash claim_flash releasing
  claim_and_flash-PayloadOk s meanwhile h st d = elim (Bool-cases (is_flash st.board.occupant)) [
    | inl y ↦ absurd (d (rw (y, claim_and_flash, claim_flash) refl))
    | inr n ↦ (
      n,
      flash_claimed-PayloadOk h st.board.occupant _
          (λ e. d (rw (n, claim_and_flash, claim_flash) e)),
    )
  ]

  flash_command-Allowed :
      (s : Session) (meanwhile : Board → Board) (p : Parsed) (st : State W)
      → (flash_command u host opts s meanwhile p st).1.ran ≢ st.ran
      → (h : Header) × (p ≡ header h)
        × ((is_relay u st.board.entry.role && not h.force_relay) ≡ false)
        × (is_flash st.board.occupant ≡ false)
        × PayloadOk h (gather h.nbytes opts.payload_timeout st.conn.rx).0
  unfolding flash_command
  flash_command-Allowed s meanwhile malformed st d = absurd (d refl)
  flash_command-Allowed s meanwhile value_error st d = absurd (d refl)
  flash_command-Allowed s meanwhile (header h) st d =
      elim (Bool-cases (is_relay u st.board.entry.role && not h.force_relay)) [
        | inl y ↦ absurd (d (rw (y, flash_command) refl))
        | inr n ↦
            (let (f, ok) =
                claim_and_flash-PayloadOk s meanwhile h st (λ e. d (rw (n, flash_command) e)) in
              (h, refl, n, f, ok))
      ]

  run_command-Allowed :
      (s : Session) (meanwhile : Board → Board) (text : Text) (ws : List Text) (st : State W)
      → (run_command u host opts s meanwhile text ws st).1.ran ≢ st.ran
      → (h : Header) × Allowed text h st.board
        × PayloadOk h (gather h.nbytes opts.payload_timeout st.conn.rx).0
  unfolding run_command handle_info
  run_command-Allowed s meanwhile text [] st d = absurd (d refl)
  run_command-Allowed s meanwhile text (w ∷ ws) st d = elim (Bool-cases (same w (codes "INFO"))) [
    | inl y ↦ absurd (d (rw (y, run_command) refl))
    | inr n ↦ elim (Bool-cases (same w (codes "FLASH"))) [
      | inr m ↦ absurd (d (rw (n, m, run_command) refl))
      | inl y ↦ elim (Bool-cases opts.no_flash) [
        | inl off ↦ absurd (d (rw (n, y, off, run_command) refl))
        | inr on ↦
            let (h, p, r, f, ok) =
              flash_command-Allowed s meanwhile (parse_flash_header u text) st
                (λ e. d (simp (n, y, on, run_command, e))) in
            (h, (on, p, r, f), ok)
      ]
    ]
  ]

  -- what `_read_line` leaves of the stream, and the command that it takes from it
  abbrev pub CommandAllowed : Auth → State W → Type 0
  CommandAllowed a st =
      (a ≡ accepted)
      × (line : Text) × (rest : List Item) × (h : Header) × (read_line opts.command_timeout []
            st.conn.rx
          ≡ (some line, rest))
      × Allowed (strip (is_space u) (decode_replace u line)) h st.board
      × PayloadOk h (gather h.nbytes opts.payload_timeout rest).0

  after_line-Allowed :
      (s : Session) (meanwhile : Board → Board) (line : Option Text) (st : State W)
      → (after_line u host opts s meanwhile line st).1.ran ≢ st.ran
      → (bytes : Text) × (h : Header) × (line ≡ some bytes)
        × Allowed (strip (is_space u) (decode_replace u bytes)) h st.board
        × PayloadOk h (gather h.nbytes opts.payload_timeout st.conn.rx).0
  unfolding after_line
  after_line-Allowed s meanwhile none st d = absurd (d refl)
  after_line-Allowed s meanwhile (some bytes) st d =
      let (h, a, ok) = run_command-Allowed s meanwhile _ _ st d in (bytes, h, refl, a, ok)

  after_auth-Allowed :
      (s : Session) (meanwhile : Board → Board) (a : Auth) (st : State W)
      → (after_auth u host opts (read_command u host opts s meanwhile) a st).1.ran ≢ st.ran
      → CommandAllowed a st
  unfolding read_command
  after_auth-Allowed s meanwhile rejected st d = absurd (d refl)
  after_auth-Allowed s meanwhile type_error st d = absurd (d refl)
  after_auth-Allowed s meanwhile accepted st d =
      let read = read_line opts.command_timeout [] st.conn.rx in
      let (bytes, h, e, a, ok) = after_line-Allowed s meanwhile read.0 _ d in
      (refl, bytes, read.1, h, cc, a, ok)

  -- If `serve_flash` runs any pyocd command, then the client was authenticated, flashing is enabled,
  -- the command is a well-formed `FLASH` header, the board is no relay or the header forces it, no
  -- flash occupied the board, and the payload that followed on the connection has at least the
  -- declared length and the declared digest.
  pub serve_flash-CommandAllowed :
      (s : Session) (meanwhile : Board → Board) (st : State W)
      → (serve_flash u host opts s meanwhile st).1.ran ≢ st.ran
      → let (a, c) = authenticate u opts.token opts.auth_timeout st.conn in
        CommandAllowed a (record st { conn = c })
  unfolding serve_flash
  serve_flash-CommandAllowed s meanwhile st d = after_auth-Allowed s meanwhile _ _ d
