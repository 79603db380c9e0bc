-- ===== src/Cli/Serve/Process/Stopped.antt =====
-- What `serve` of src/mbdeploy/cli.py leaves behind when it returns.
use mbdeploy.Base.{
  ℕ, ◌≡◌, refl, ap, ◌∙◌, true, false, Option, none, some, List, [], ◌∷◌, arith, Bool-cases, inl,
  inr,
}
use mbdeploy.Text.{Text, Unicode}
use mbdeploy.Text.Dict.{values}
use mbdeploy.Mdns.{Advertiser, close}
use mbdeploy.Mdns.Closing.{close_lem}
use mbdeploy.Mdns.Handles.{IsOpen-Apart}
use mbdeploy.Server.Board.{Board}
use mbdeploy.Server.Supervisor.{Env, Settings, Supervisor, Watched, close_listener}
use mbdeploy.Server.Supervisor.Listeners.{watching, watching-unwatch}
use mbdeploy.Server.Supervisor.Run.{run, new_supervisor}
use mbdeploy.Server.Supervisor.Run.Safety.{run_serves}
use mbdeploy.Server.Supervisor.Run.Tokens.{run-IsOpen}
use mbdeploy.Cli.Serve.{close_listeners, close_boards, shut_down}
use mbdeploy.Cli.Serve.Shutdown.{
  watches, closed_boards, close_boards-closes, close_boards-advertiser, shut_down_first,
  shut_down_once,
}
use mbdeploy.Cli.Serve.Process.{serving, run_serve}

watching-watches :
    (l : ℕ) (uid : Text) (ws : List Watched) → watching l uid ws ≡ true → watches l ws ≡ true
watching-watches l uid [] h = cc h
watching-watches l uid (w ∷ ws) h = ground (arith, watching-watches l uid ws)

module _ {W : Type 0} where
  close_listener-watching :
      (o : Option ℕ) (l : ℕ) (uid : Text) (y : Supervisor W)
      → watching l uid (close_listener o y).watched ≡ true
      → watching l uid y.watched ≡ true
  close_listener-watching none l uid y h = h
  close_listener-watching (some m) l uid y h = ground (arith, watching-unwatch m l uid y.watched)

  close_boards-watching :
      (bs : List Board) (l : ℕ) (uid : Text) (y : Supervisor W)
      → watching l uid (close_boards bs y).watched ≡ true
      → watching l uid y.watched ≡ true
  unfolding close_boards
  close_boards-watching [] l uid y h = h
  close_boards-watching (b ∷ bs) l uid y h = close_listener-watching b.serial_listener l uid y (
      close_listener-watching b.flash_listener l uid (close_listener b.serial_listener y)
        (close_boards-watching bs l uid (close_listeners b y) h))

module _ {W : Type 0} (u : Unicode) (env : Env u W) where
  unwatched :
      (cfg : Settings) (polls : List (List Text)) (world : W) (l : ℕ) (uid : Text)
      → watching l uid (closed_boards (serving u env cfg polls world)).watched ≡ false
  unfolding closed_boards
  unwatched cfg polls world l uid =
      let y = (run u env cfg polls (new_supervisor cfg world)).1 in
      let z = close_boards (values y.boards) y in
      elim (Bool-cases (watching l uid z.watched)) [
        | inr n ↦ n
        | inl h ↦
            let before = close_boards-watching (values y.boards) l uid y h in
            let (b, g, i) = run_serves u env cfg polls world l uid before in
            let gone = close_boards-closes uid y.boards b l y g i in
            let still = watching-watches l uid z.watched h in absurd (ground (arith, gone, still))
      ]

  -- When `serve` returns, after any polls of its supervisor, its exit code is 0; the accept loop is
  -- closed and watches no listener for any board, no mDNS service is registered any more, the stop
  -- event is set, and the shutdown, which ran for the signal and once more at the end, has had its
  -- effect once.
  pub serve_leaves_nothing :
      (cfg : Settings) (polls : List (List Text)) (world : W) (l : ℕ) (uid : Text)
      → let (code, d) = run_serve u env cfg polls world in
        (code ≡ 0)
        × (watching l uid d.supervisor.watched ≡ false)
        × (d.supervisor.advertiser.handles ≡ [])
        × (d.accepting ≡ false)
        × (d.stop_event ≡ true)
        × (d ≡ shut_down true (serving u env cfg polls world))
  unfolding run_serve closed_boards
  serve_leaves_nothing cfg polls world l uid =
      let d = serving u env cfg polls world in
      let a = run-IsOpen u env cfg polls world in
      let y = d.supervisor in
      let once = shut_down_once true true d in
      rw (once, shut_down_first true d refl)
        (
          refl,
          unwatched cfg polls world l uid,
          ap (λ (a : Advertiser). (close a).handles) (close_boards-advertiser (values y.boards) y)
              ∙ ap (λ (a : Advertiser). a.handles)
                  (close_lem y.advertiser a.opened (IsOpen-Apart y.advertiser a)).0,
          refl,
          refl,
          refl,
        )
