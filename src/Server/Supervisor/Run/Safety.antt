-- ===== src/Server/Supervisor/Run/Safety.antt =====
-- What holds whenever the polling thread of src/mbdeploy/server.py has handled some polls.
use mbdeploy.Base.{
  ℕ, ◌+◌, ◌<◌, ◌≡◌, ◌≢◌, refl, ap, true, some, List, [], ◌∷◌, ◌++◌, arith, is_some, ◌⊎◌,
  Option-cases, inl, inr,
}
use mbdeploy.Text.{Text, Unicode}
use mbdeploy.Text.Dict.{get, has}
use mbdeploy.Devices.Hardware.{member}
use mbdeploy.Mdns.{service_at}
use mbdeploy.Server.Serve.{returned, raised}
use mbdeploy.Server.Board.{Board}
use mbdeploy.Server.Supervisor.{Env, Settings, Supervisor, tick}
use mbdeploy.Server.Supervisor.Services.{Advertised, on_departure-Advertised, on_arrival-Advertised}
use mbdeploy.Server.Supervisor.Listeners.{Served, watching, on_departure-Served, on_arrival-Served}
use mbdeploy.Server.Supervisor.Ports.Live.{PortsOk, on_departure-PortsOk, on_arrival-PortsOk}
use mbdeploy.Server.Supervisor.Sync.{tick-has}
use mbdeploy.Server.Supervisor.Run.{run, new_supervisor}
use mbdeploy.Server.Supervisor.Run.Keeps.{InSync, tick-InSync, run-keeps}
use mbdeploy.Server.Supervisor.Run.Returned.{run-returned, run-if_returned}

-- the UIDs of the last poll, or those known before
abbrev pub last_poll : List Text → List (List Text) → List Text
last_poll known [] = known
last_poll known (probes ∷ polls) = last_poll probes polls

module _ {W : Type 0} (u : Unicode) (env : Env u W) (cfg : Settings) where
  pub new_supervisor-InSync : (world : W) → InSync (new_supervisor cfg world)
  unfolding get
  new_supervisor-InSync world j = refl

  -- While the thread runs, no service outlives its board: if no exception has ended the thread of a
  -- new supervisor after some polls, every mDNS service that is registered is the serial or the flash
  -- service of a live board.
  pub run_advertises :
      (polls : List (List Text)) (world : W) (z : Supervisor W) (h : ℕ)
      → run u env cfg polls (new_supervisor cfg world) ≡ (returned, z)
      → is_some (service_at h z.advertiser.handles) ≡ true
      → (uid : Text) × (b : Board) × (get uid z.boards ≡ some b)
        × ((b.serial_mdns_handle ≡ some h) ⊎ (b.flash_mdns_handle ≡ some h))
  unfolding service_at
  run_advertises polls world z h e r =
      run-if_returned u env cfg Advertised on_departure-Advertised (on_arrival-Advertised u env cfg)
        (λ uids y a. a) polls _ z (new_supervisor-InSync world) (λ k s. cc s) e h r

  pub run_serves :
      (polls : List (List Text)) (world : W) (l : ℕ) (uid : Text)
      → let z = (run u env cfg polls (new_supervisor cfg world)).1 in
        watching l uid z.watched ≡ true
        → (b : Board) × (get uid z.boards ≡ some b)
          × ((b.serial_listener ≡ some l) ⊎ (b.flash_listener ≡ some l))
  run_serves polls world l uid r =
      run-keeps u env cfg Served on_departure-Served (on_arrival-Served u env cfg) (λ uids y a. a)
        polls _ (new_supervisor-InSync world) (λ k i s. cc s) l uid r

  new_supervisor-PortsOk : (world : W) → cfg.base_port ≢ 0 → PortsOk (new_supervisor cfg world)
  unfolding get
  new_supervisor-PortsOk world based = record {
    allotted = record {
      positive = ground (arith, based);
      used_pair = λ uid x g. cc g;
      used_apart = λ uid k x z n g h. cc g;
      free_pair = λ x m. absurd m;
      free_apart = tt;
      mixed_apart = λ uid x z g m. absurd m;
    };
    in_step = λ k. refl;
  }

  -- With a base port, and if a bind of a port other than 0 that succeeds gives that port, two live
  -- boards of different UIDs after any polls of a new supervisor have recorded port pairs: each is
  -- two consecutive ports, and they have no port in common.
  pub run_ports_apart :
      (polls : List (List Text)) (world : W) (uid k : Text) (b c : Board)
      → cfg.base_port ≢ 0
      → ((p : ℕ) (w : W) (l q : ℕ) → p ≢ 0 → (env.bind (some p) w).0 ≡ some (l, q) → q ≡ p)
      → let z = (run u env cfg polls (new_supervisor cfg world)).1 in
        uid ≢ k
        → get uid z.boards ≡ some b
        → get k z.boards ≡ some c
        → (x : ℕ × ℕ) × (w : ℕ × ℕ) × (get uid z.board_ports ≡ some x)
          × (get k z.board_ports ≡ some w)
          × (x.1 ≡ x.0 + 1)
          × (w.1 ≡ w.0 + 1)
          × ((x.1 < w.0) ⊎ (w.1 < x.0))
  run_ports_apart polls world uid k b c based exact differ g h =
      let z = (run u env cfg polls (new_supervisor cfg world)).1 in
      let ok =
        run-keeps u env cfg PortsOk on_departure-PortsOk
          (λ uid y new p. on_arrival-PortsOk u env cfg exact based uid y p)
          (λ uids y p. record { allotted = p.allotted; in_step = p.in_step }) polls _
          (new_supervisor-InSync world) (new_supervisor-PortsOk world based) in
      let (x, gx) = held z ok uid b g in
      let (w, gw) = held z ok k c h in
      (
        x,
        w,
        gx,
        gw,
        (ok.allotted.used_pair uid x gx).0,
        (ok.allotted.used_pair k w gw).0,
        ok.allotted.used_apart uid k x w differ gx gw,
      )
    where
      held :
          (z : Supervisor W)
          → PortsOk z
          → (i : Text) (a : Board) → get i z.boards ≡ some a
          → (x : ℕ × ℕ) × (get i z.board_ports ≡ some x)
      held z ok i a e = elim (Option-cases (get i z.board_ports)) [
        | inl n ↦ absurd (ground (arith, ok.in_step i, n, e))
        | inr found ↦ found
      ]

  run-has :
      (polls : List (List Text)) (y z : Supervisor W) (uids : List Text) (k : Text)
      → InSync y
      → has k y.boards ≡ member k uids
      → run u env cfg polls y ≡ (returned, z)
      → has k z.boards ≡ member k (last_poll uids polls)
  unfolding run
  run-has [] y z uids k sync h e = rw (← (ap (λ o. o.1.boards) e)) h
  run-has (probes ∷ polls) y z uids k sync h e =
      let v = (tick u env cfg probes y).1 in
      let (t, r) = run-returned u env cfg probes polls y z e in
      run-has polls v z probes k (tick-InSync u env cfg probes y v sync t)
        (tick-has u env cfg k probes y v sync t).0 r

  -- A new supervisor whose thread still runs after some polls has a board for exactly the UIDs of the
  -- last poll.
  pub run_follows :
      (polls : List (List Text)) (world : W) (z : Supervisor W) (k : Text)
      → run u env cfg polls (new_supervisor cfg world) ≡ (returned, z)
      → has k z.boards ≡ member k (last_poll [] polls)
  unfolding get
  run_follows polls world z k e =
      run-has polls (new_supervisor cfg world) z [] k (new_supervisor-InSync world) refl e

  -- An exception of one tick is the end of the thread: with any later polls, the supervisor stays as
  -- that tick left it.
  pub raised_tick_ends_run :
      (polls later : List (List Text)) (probes : List Text) (y v z : Supervisor W)
      → run u env cfg polls y ≡ (returned, v)
      → tick u env cfg probes v ≡ (raised, z)
      → run u env cfg (polls ++ probes ∷ later) y ≡ (raised, z)
  unfolding run
  raised_tick_ends_run [] later probes y v z e t =
      let same_state : y ≡ v = ap (λ o. o.1) e in
      let t : tick u env cfg probes y ≡ (raised, z) = rw same_state t in ground (arith, t)
  raised_tick_ends_run (p ∷ polls) later probes y v z e t =
      let (first, rest) = run-returned u env cfg p polls y v e in
      rw (first, run) (raised_tick_ends_run polls later probes _ v z rest t)
