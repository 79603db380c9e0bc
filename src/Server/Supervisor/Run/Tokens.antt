-- ===== src/Server/Supervisor/Run/Tokens.antt =====
-- The handlers that a `Supervisor` of src/mbdeploy/server.py registers, and its advertiser.
use mbdeploy.Base.{
  ℕ, ◌≡◌, refl, Option, none, some, List, [], ◌∷◌, ◌==◌, All, inl, inr, ◌⊎◌, Bool-cases,
  Option-cases,
}
use mathlib.Core.Path.{subst, sym}
use mbdeploy.Text.{Text, Unicode}
use mbdeploy.Text.Dict.{get}
use mbdeploy.Devices.Registry.{Entry}
use mbdeploy.Mdns.{Advertiser}
use mbdeploy.Mdns.Handles.{IsOpen, registered-IsOpen, unregister-IsOpen}
use mbdeploy.Server.Supervisor.{
  Env, Settings, Supervisor, serial_handler, flash_handler, Watched, completed, on_departure,
  alloc_ports, unwatch, withdraw,
}
use mbdeploy.Server.Supervisor.Arrival.{installation, serial_registered, on_arrival-keeps}
use mbdeploy.Server.Supervisor.Services.{tear_down-parts, alloc_ports-parts}
use mbdeploy.Server.Supervisor.Listeners.{unwatch_one, tear_down-watched, alloc_ports-watched}
use mbdeploy.Server.Supervisor.Run.{run, new_supervisor}
use mbdeploy.Server.Supervisor.Run.Keeps.{run-keeps}
use mbdeploy.Server.Supervisor.Run.Safety.{new_supervisor-InSync}

-- a listener's handler with the settings' token, and for a flash their other options
abbrev pub Configured : Settings → Watched → Type 0
Configured cfg w =
    (w.handler ≡ serial_handler cfg.token)
    ⊎ (w.handler ≡ flash_handler cfg.token cfg.no_flash cfg.target_mcu)

unwatch-Configured :
    (cfg : Settings) (l : ℕ) (ws : List Watched)
    → All (Configured cfg) ws
    → All (Configured cfg) (unwatch l ws)
unfolding unwatch
unwatch-Configured cfg l [] a = tt
unwatch-Configured cfg l (w ∷ ws) (c, a) = elim (Bool-cases (w.listener == l)) [
  | inl q ↦ rw (q, unwatch) (unwatch-Configured cfg l ws a)
  | inr q ↦ rw (q, unwatch) (c, unwatch-Configured cfg l ws a)
]

unwatch_one-Configured :
    (cfg : Settings) (o : Option ℕ) (ws : List Watched)
    → All (Configured cfg) ws
    → All (Configured cfg) (unwatch_one o ws)
unwatch_one-Configured cfg none ws a = a
unwatch_one-Configured cfg (some l) ws a = unwatch-Configured cfg l ws a

withdraw-IsOpen : (o : Option ℕ) (a : Advertiser) → IsOpen a → IsOpen (withdraw o a)
withdraw-IsOpen none a p = p
withdraw-IsOpen (some h) a p = unregister-IsOpen h a p

module _ {W : Type 0} (u : Unicode) (env : Env u W) (cfg : Settings) where
  -- Every handler has the settings, and the advertiser is open.
  pub record Ready (y : Supervisor W) : Type 0 where
    pub configured : All (Configured cfg) y.watched
    pub opened : IsOpen y.advertiser

  on_departure-Ready : (uid : Text) (y : Supervisor W) → Ready y → Ready (on_departure uid y)
  unfolding on_departure
  on_departure-Ready uid y r = elim (Option-cases (get uid y.boards)) [
    | inl n ↦ rw (n, on_departure) r
    | inr (b, e) ↦
        rw (e, on_departure)
          (record {
            configured = subst (All (Configured cfg)) (sym (tear_down-watched uid b y).1) (
                unwatch_one-Configured cfg b.flash_listener _
                  (unwatch_one-Configured cfg b.serial_listener y.watched r.configured));
            opened = subst IsOpen (sym (tear_down-parts uid b y).1) (
                withdraw-IsOpen b.flash_mdns_handle _
                  (withdraw-IsOpen b.serial_mdns_handle y.advertiser r.opened));
          })
  ]

  installation-Ready :
      (uid : Text) (e : Entry) (first second : ℕ × ℕ) (y : Supervisor W)
      → get uid y.boards ≡ none
      → Ready y
      → Ready (installation u env cfg uid e first second y)
  unfolding installation completed serial_registered
  installation-Ready uid e first second y new r = record {
    configured = (inl refl, (inr refl, r.configured));
    opened = registered-IsOpen _ _ _ _ _ (registered-IsOpen _ _ _ _ y.advertiser r.opened);
  }

  registers-Ready :
      (uid : Text) (e : Entry) (p : ℕ) (y : Supervisor W)
      → Ready y
      → Ready (record y { advertiser = serial_registered u env cfg uid e p y.advertiser })
  unfolding serial_registered
  registers-Ready uid e p y r = record {
    configured = r.configured;
    opened = registered-IsOpen _ _ _ _ y.advertiser r.opened;
  }

  alloc_ports-Ready : (y : Supervisor W) → Ready y → Ready (alloc_ports cfg y).2
  alloc_ports-Ready y r = record {
    configured =
        subst (All (Configured cfg)) (sym (alloc_ports-watched u env cfg y).1) r.configured;
    opened = subst IsOpen (sym (alloc_ports-parts u env cfg y).1) r.opened;
  }

  run-Ready :
      (polls : List (List Text)) (world : W)
      → Ready (run u env cfg polls (new_supervisor cfg world)).1
  run-Ready polls world =
      run-keeps u env cfg Ready on_departure-Ready
        (on_arrival-keeps u env cfg Ready alloc_ports-Ready
          (λ y w r. record { configured = r.configured; opened = r.opened }) registers-Ready
          installation-Ready)
        (λ uids y r. record { configured = r.configured; opened = r.opened }) polls _
        (new_supervisor-InSync u env cfg world)
        (record { configured = tt; opened = record { opened = refl; falling = tt } })

  -- Whatever polls a new supervisor handled, every listener that the accept loop watches has a handler
  -- with the token of the settings, and each flash handler has their --no-flash and --mcu.
  pub run_configures :
      (polls : List (List Text)) (world : W)
      → All
          (λ w.
            (w.handler ≡ serial_handler cfg.token)
            ⊎ (w.handler ≡ flash_handler cfg.token cfg.no_flash cfg.target_mcu))
          (run u env cfg polls (new_supervisor cfg world)).1.watched
  run_configures polls world = (run-Ready polls world).configured

  -- Whatever polls a new supervisor handled, its advertiser is open and has no handle twice.
  pub run-IsOpen :
      (polls : List (List Text)) (world : W)
      → IsOpen (run u env cfg polls (new_supervisor cfg world)).1.advertiser
  run-IsOpen polls world = (run-Ready polls world).opened
