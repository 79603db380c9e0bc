-- ===== src/Server/Supervisor/Run.antt =====
-- The life of a `Supervisor` of src/mbdeploy/server.py: how it is made, and the thread that polls.
pub mod Keeps
pub mod Returned
pub mod Safety
pub mod Tokens
mod Tests
use mbdeploy.Base.{ℕ, Option, none, some, List, [], ◌∷◌}
use mbdeploy.Text.{Text, Unicode}
use mbdeploy.Mdns.{new_advertiser}
use mbdeploy.Server.Serve.{Outcome, returned, raised}
use mbdeploy.Server.Supervisor.{Env, Settings, Supervisor, tick}

-- `Supervisor.__init__`, with a new advertiser and a new accept loop
abbrev pub new_supervisor : {W : Type 0} → Settings → W → Supervisor W
new_supervisor cfg world = record {
  boards = [];
  departed = [];
  known = [];
  next_port = cfg.base_port;
  port_freelist = [];
  board_ports = [];
  advertiser = new_advertiser;
  watched = [];
  closed_sockets = [];
  terminated = [];
  world = world;
}

-- `Supervisor.run`: one list of UIDs for each poll until the stop event is set. An exception of a
-- tick ends the thread.
unfoldable pub run :
    {W : Type 0} (u : Unicode)
    → Env u W
    → Settings
    → List (List Text)
    → Supervisor W
    → Outcome × Supervisor W
run u env cfg [] y = (returned, y)
run u env cfg (probes ∷ polls) y =
    let (o, z) = tick u env cfg probes y in
    elim o [ raised ↦ (raised, z) | returned ↦ run u env cfg polls z ]
