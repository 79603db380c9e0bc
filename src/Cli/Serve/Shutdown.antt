-- ===== src/Cli/Serve/Shutdown.antt =====
-- What `_ServeShutdown` of src/mbdeploy/cli.py closes.
use mbdeploy.Base.{
  ℕ, ◌≡◌, refl, sym, ap, ◌∙◌, Bool, true, false, not, ◌||◌, Option, none, some, List, [], ◌∷◌, ◌++◌,
  arith, ◌==◌, if◌then◌else◌, if_true, if_false, Bool-cases, inl, inr,
}
use mbdeploy.Text.{Text, same}
use mbdeploy.Text.Dict.{Dict, get, values}
use mbdeploy.Mdns.{Advertiser, close}
use mbdeploy.Mdns.Closing.{Apart, close_lem}
use mbdeploy.Server.Board.{Board}
use mbdeploy.Server.Supervisor.{Supervisor, Watched, close_listener, unwatch}
use mbdeploy.Server.Supervisor.Listeners.{Listens}
use mbdeploy.Cli.Serve.{Daemon, close_listeners, close_boards, shut_down}

-- whether the accept loop watches a socket
abbrev pub watches : ℕ → List Watched → Bool
watches l [] = false
watches l (w ∷ ws) = w.listener == l || watches l ws

abbrev pub listed : ℕ → List ℕ → Bool
listed l [] = false
listed l (m ∷ ms) = m == l || listed l ms

watches-unwatch :
    (l k : ℕ) (ws : List Watched)
    → watches k (unwatch l ws) ≡ (if l == k then false else watches k ws)
unfolding unwatch
watches-unwatch l k [] = ground arith
watches-unwatch l k (w ∷ ws) = ground (arith, watches-unwatch l k ws)

listed-append : (k : ℕ) (ms : List ℕ) (l : ℕ) → listed k (ms ++ l ∷ []) ≡ (listed k ms || l == k)
listed-append k [] l = ground arith
listed-append k (m ∷ ms) l = ground (arith, listed-append k ms l)

module _ {W : Type 0} where
  -- a socket that is closed for good: no longer watched
  abbrev pub Gone : ℕ → Supervisor W → Type 0
  Gone l y = (watches l y.watched ≡ false) × (listed l y.closed_sockets ≡ true)

  close_listener-closes :
      (o : Option ℕ) (l : ℕ) (y : Supervisor W) → o ≡ some l → Gone l (close_listener o y)
  close_listener-closes none l y e = cc
  close_listener-closes (some m) l y e =
      let q : m ≡ l = cc e in
      (
        ground (arith, watches-unwatch m l y.watched, q),
        ground (arith, listed-append l y.closed_sockets m, q),
      )

  close_listener-Gone :
      (o : Option ℕ) (l : ℕ) (y : Supervisor W) → Gone l y → Gone l (close_listener o y)
  close_listener-Gone none l y g = g
  close_listener-Gone (some m) l y (w, c) = (
    ground (arith, watches-unwatch m l y.watched, w),
    ground (arith, listed-append l y.closed_sockets m, c),
  )

  close_boards-Gone :
      (bs : List Board) (l : ℕ) (y : Supervisor W) → Gone l y → Gone l (close_boards bs y)
  unfolding close_boards
  close_boards-Gone [] l y g = g
  close_boards-Gone (b ∷ bs) l y g = close_boards-Gone bs l (close_listeners b y) (
      close_listener-Gone b.flash_listener l (close_listener b.serial_listener y)
        (close_listener-Gone b.serial_listener l y g))

  close_listeners-closes :
      (b : Board) (l : ℕ) (y : Supervisor W) → Listens b l → Gone l (close_listeners b y)
  close_listeners-closes b l y (inl s) =
      close_listener-Gone b.flash_listener l (close_listener b.serial_listener y)
        (close_listener-closes b.serial_listener l y s)
  close_listeners-closes b l y (inr f) =
      close_listener-closes b.flash_listener l (close_listener b.serial_listener y) f

  pub close_boards-closes :
      (uid : Text) (boards : Dict Board) (b : Board) (l : ℕ) (y : Supervisor W)
      → get uid boards ≡ some b
      → Listens b l
      → Gone l (close_boards (values boards) y)
  unfolding close_boards get
  close_boards-closes uid [] b l y g i = cc
  close_boards-closes uid ((k, c) ∷ boards) b l y g i = elim (Bool-cases (same k uid)) [
    | inl q ↦
        let found : some c ≡ some b = sym (if_true _ _ q) ∙ g in
        let here : c ≡ b = cc found in
        close_boards-Gone (values boards) l (close_listeners c y)
          (close_listeners-closes c l y (rw here i))
    | inr n ↦ close_boards-closes uid boards b l (close_listeners c y) (sym (if_false _ _ n) ∙ g) i
  ]

  close_listener-advertiser :
      (o : Option ℕ) (y : Supervisor W) → (close_listener o y).advertiser ≡ y.advertiser
  close_listener-advertiser none y = refl
  close_listener-advertiser (some l) y = refl

  pub close_boards-advertiser :
      (bs : List Board) (y : Supervisor W) → (close_boards bs y).advertiser ≡ y.advertiser
  unfolding close_boards
  close_boards-advertiser [] y = refl
  close_boards-advertiser (b ∷ bs) y =
      close_boards-advertiser bs (close_listeners b y)
      ∙ close_listener-advertiser b.flash_listener (close_listener b.serial_listener y)
      ∙ close_listener-advertiser b.serial_listener y

  unfoldable pub closed_boards : Daemon W → Supervisor W
  closed_boards d = close_boards (values d.supervisor.boards) d.supervisor

  pub shut_down_first :
      (exits : Bool) (d : Daemon W)
      → d.is_done ≡ false
      → shut_down exits d ≡ record {
        supervisor = record (closed_boards d) { advertiser = close (closed_boards d).advertiser };
        stop_event = true;
        accepting = false;
        warned = not exits;
        is_done = true;
      }
  unfolding shut_down closed_boards
  shut_down_first exits d n = if_false _ _ n

  shut_down_again : (exits : Bool) (d : Daemon W) → d.is_done ≡ true → shut_down exits d ≡ d
  unfolding shut_down
  shut_down_again exits d y = if_true _ _ y

  pub shut_down_once :
      (exits again : Bool) (d : Daemon W) → shut_down again (shut_down exits d) ≡ shut_down exits d
  shut_down_once exits again d = elim (Bool-cases d.is_done) [
    | inl y ↦
        shut_down_again again (shut_down exits d)
          (ap (λ (x : Daemon W). x.is_done) (shut_down_again exits d y) ∙ y)
    | inr n ↦
        shut_down_again again (shut_down exits d)
          (ap (λ (x : Daemon W). x.is_done) (shut_down_first exits d n))
  ]

  -- The first call of the shutdown leaves no listener of any board open: the accept loop watches it
  -- no more and it is closed. With an open advertiser that has no handle twice, no mDNS service stays
  -- registered. The stop event is set and the accept loop is closed. Any later call changes nothing.
  pub shut_down_lem :
      (exits again : Bool) (d : Daemon W) (uid : Text) (b : Board) (l : ℕ)
      → d.is_done ≡ false
      → d.supervisor.advertiser.is_closed ≡ false
      → Apart [] d.supervisor.advertiser.handles
      → get uid d.supervisor.boards ≡ some b
      → Listens b l
      → let after = shut_down exits d in
        Gone l after.supervisor
        × (after.supervisor.advertiser.handles ≡ [])
        × (after.stop_event ≡ true)
        × (after.accepting ≡ false)
        × (shut_down again after ≡ after)
  unfolding closed_boards
  shut_down_lem exits again d uid b l n o apart g i =
      let y = d.supervisor in
      let first = shut_down_first exits d n in
      (
        rw first (close_boards-closes uid y.boards b l y g i),
        rw first (
            ap (λ (a : Advertiser). (close a).handles) (close_boards-advertiser (values y.boards) y)
            ∙ ap (λ (a : Advertiser). a.handles) (close_lem y.advertiser o apart).0),
        rw first refl,
        rw first refl,
        shut_down_once exits again d,
      )
