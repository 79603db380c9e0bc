-- ===== src/Cli/Connect/Closing.antt =====
-- How `connect --remote` of src/mbdeploy/cli.py ends, and what its peek leaves.
use mbdeploy.Base.{
  ℕ, ◌≡◌, refl, Bool, true, Option, none, some, List, [], ◌∷◌, ◌++◌, arith, if_false, Bool-cases,
  inl, inr, ◌⊎◌, is_some,
}
use mbdeploy.Text.{Text, Unicode, codes, starts_with, join}
use mbdeploy.Server.Wire.{Item, Received, chunk, timed_out, failed, recv}
use mbdeploy.Server.Supervisor.{serial_service_type}
use mbdeploy.Remote.Resolve.{Found, Resolution, board, refused, resolve_board}
use mbdeploy.Remote.Deploy.{Try, got, os_error}
use mbdeploy.Remote.Socket.{Adapter, new_adapter}
use mbdeploy.Remote.Socket.Bytes.{arriving, received, recv-arriving}
use mbdeploy.Console.{interact}
use mbdeploy.Console.OverSocket.{socket_port}
use mbdeploy.Cli.Connect.{Session, run_connect_session, one_shot, interacted}
use mbdeploy.Cli.Connect.Remote.{
  ConnectArgs, Ended, err_of, of_peek, peek_remote_err, on_connection, on_connect, on_resolution,
  close_world, of_session, cmd_connect_remote,
}

starts_with-longer : (s t p : Text) → starts_with s p ≡ true → starts_with (s ++ t) p ≡ true
unfolding starts_with
starts_with-longer s t [] h = nothing (s ++ t)
  where
    nothing : (r : Text) → starts_with r [] ≡ true
    nothing r = refl
starts_with-longer [] t (b ∷ p) h = absurd (ground (arith, h))
starts_with-longer (a ∷ s) t (b ∷ p) h = ground (arith, h, starts_with-longer s t p)

-- no error is found, or the bytes begin with one
abbrev pub ErrFound : Option Text → Text → Type 0
ErrFound err bytes = (err ≡ none) ⊎ (starts_with bytes (codes "ERR ") ≡ true)

module _ (u : Unicode) where
  err_of-ErrFound : (peek rest : Text) → ErrFound (err_of u peek) (peek ++ rest)
  unfolding err_of
  err_of-ErrFound peek rest = elim (Bool-cases (starts_with peek (codes "ERR "))) [
    | inl y ↦ inr (starts_with-longer peek rest (codes "ERR ") y)
    | inr n ↦ inl (if_false _ _ n)
  ]

  of_peek_lem :
      (items : List Item) (r : Received × List Item)
      → received r.0 ++ arriving r.1 ≡ arriving items
      → (arriving (of_peek u items r).1 ≡ arriving items)
        × ErrFound (of_peek u items r).0 (arriving items)
  of_peek_lem items (timed_out d, rest) e = (e, inl refl)
  of_peek_lem items (failed, rest) e = (refl, inl refl)
  of_peek_lem items (chunk peek, rest) e = (refl, rw⁻¹ e (err_of-ErrFound peek (arriving rest)))

  -- The peek for an error takes no byte from the session: what is to arrive after it is what was to
  -- arrive before. It finds an error only where those bytes begin with `ERR `.
  pub peek_remote_err_lem :
      (items : List Item)
      → (arriving (peek_remote_err u items).1 ≡ arriving items)
        × ErrFound (peek_remote_err u items).0 (arriving items)
  unfolding peek_remote_err
  peek_remote_err_lem items = of_peek_lem items (recv 4096 items) (recv-arriving 4096 items)

  -- exit code 0 with nothing on stderr, or exit code 1 with nothing but that
  abbrev pub CodeTells : Ended → Type 0
  CodeTells e =
      ((e.code ≡ 0) × (e.complaint ≡ none))
      ⊎ ((e.code ≡ 1) × (e.out ≡ []) × (is_some e.complaint ≡ true))

  abbrev pub SocketClosed : Ended → Type 0
  SocketClosed e = (e.sock ≡ none) ⊎ ((a : Adapter) × (e.sock ≡ some a) × (a.sock_closed ≡ true))

  -- how a session that the command runs ends
  abbrev SessionTells : Session (Adapter × ℕ) → Type 0
  SessionTells s = CodeTells (of_session u s) × SocketClosed (of_session u s)

  interact-tells :
      (write_raises : Text → Adapter × ℕ → Bool) (stdin : List Text) (w : Adapter × ℕ)
      → SessionTells
          (interacted u socket_port (close_world u) (interact u socket_port write_raises stdin w))
  unfolding interact
  interact-tells write_raises [] w = (inl (refl, refl), inr (_, refl, refl))
  interact-tells write_raises (line ∷ stdin) w = elim (Bool-cases (write_raises line w)) [
    | inl y ↦ rw y (inr (refl, refl, refl), inr (_, refl, refl))
    | inr n ↦ rw n (interact-tells write_raises stdin _)
  ]

  one_shot-tells :
      (r : List Text × (Adapter × ℕ)) → SessionTells (one_shot u socket_port (close_world u) r)
  one_shot-tells ([], (a, now)) = (inr (refl, refl, refl), inr (_, refl, refl))
  one_shot-tells (line ∷ lines, (a, now)) = (inl (refl, refl), inr (_, refl, refl))

  session-tells :
      (write_raises : Text → Adapter × ℕ → Bool) (message : List Text) (timeout idle_gap : ℕ)
      (stdin : List Text) (w : Adapter × ℕ)
      → SessionTells (
          run_connect_session u socket_port
            (close_world u)
            write_raises
            message
            timeout
            idle_gap
            stdin
            w)
  unfolding run_connect_session
  session-tells write_raises [] timeout idle_gap stdin w = interact-tells write_raises stdin w
  session-tells write_raises (word ∷ words) timeout idle_gap stdin w =
      elim (Bool-cases (
        write_raises (join (b' ' ∷ []) (word ∷ words) ++ b'\n' ∷ [])
          (socket_port.reset_input_buffer w))) [
            | inl y ↦ rw y (inr (refl, refl, refl), inr (_, refl, refl))
            | inr n ↦ rw n (one_shot-tells _)
          ]

  on_connection-tells :
      (args : ConnectArgs) (idle_gap : ℕ) (write_raises : Text → Adapter × ℕ → Bool)
      (r : Option Text × List Item)
      → CodeTells (on_connection u args idle_gap write_raises r)
        × SocketClosed (on_connection u args idle_gap write_raises r)
  on_connection-tells args idle_gap write_raises (some err, rest) =
      (inr (refl, refl, refl), inr (_, refl, refl))
  on_connection-tells args idle_gap write_raises (none, rest) =
      session-tells write_raises args.message args.timeout idle_gap args.stdin (new_adapter rest, 0)

  on_connect-tells :
      (args : ConnectArgs) (idle_gap : ℕ) (write_raises : Text → Adapter × ℕ → Bool)
      (t : Try (List Item))
      → CodeTells (on_connect u args idle_gap write_raises t)
        × SocketClosed (on_connect u args idle_gap write_raises t)
  on_connect-tells args idle_gap write_raises (os_error why) = (inr (refl, refl, refl), inl refl)
  on_connect-tells args idle_gap write_raises (got items) =
      on_connection-tells args idle_gap write_raises (peek_remote_err u items)

  on_resolution-tells :
      (args : ConnectArgs) (idle_gap : ℕ) (write_raises : Text → Adapter × ℕ → Bool)
      (connect : Text → ℕ → Try (List Item)) (r : Resolution)
      → CodeTells (on_resolution u args idle_gap write_raises connect r)
        × SocketClosed (on_resolution u args idle_gap write_raises connect r)
  on_resolution-tells args idle_gap write_raises connect (refused why) =
      (inr (refl, refl, refl), inl refl)
  on_resolution-tells args idle_gap write_raises connect (board b) =
      on_connect-tells args idle_gap write_raises (connect b.host b.port)

  -- On every path of `connect --remote`, a `sendall` that raises included, the exit code is 0 and
  -- stderr has no error, or it is 1, there is an error or a traceback on stderr, and a one-shot command
  -- has printed nothing on stdout; and a socket that was opened has been closed. What the reader thread
  -- of an interactive session prints is not looked at.
  pub cmd_connect_remote_lem :
      (args : ConnectArgs) (idle_gap : ℕ) (write_raises : Text → Adapter × ℕ → Bool)
      (results : List Found) (connect : Text → ℕ → Try (List Item))
      → let e = cmd_connect_remote u args idle_gap write_raises results connect in
        CodeTells e × SocketClosed e
  unfolding cmd_connect_remote
  cmd_connect_remote_lem args idle_gap write_raises results connect =
      on_resolution-tells args idle_gap write_raises connect
        (resolve_board u args.target serial_service_type results)
