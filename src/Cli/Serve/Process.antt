-- ===== src/Cli/Serve/Process.antt =====
-- The whole of `serve` in src/mbdeploy/cli.py, from its arguments to its exit code.
pub mod Authenticated
pub mod Stopped
mod Tests
use mbdeploy.Base.{
  ℕ, Bool, true, false, Option, none, some, List, ◌||◌, if◌then◌else◌, ℤ, pos, negsuc,
}
use mbdeploy.Text.{Text, Unicode}
use mbdeploy.Text.Dict.{Dict}
use mbdeploy.Server.Supervisor.{Env, Settings, Supervisor}
use mbdeploy.Server.Supervisor.Run.{run, new_supervisor}
use mbdeploy.Cli.Service.{System, ServeArgs, File, Ran, cmd_serve_service}
use mbdeploy.Cli.Serve.{
  Reading, Secret, secret, unreadable, is_empty, undecodable, resolve_serve_token, Daemon,
  shut_down,
}

-- How `serve` ends: it prints or installs the unit, it refuses the token, or
-- it serves until a signal, with an exit code.
pub data Served (W : Type 0) : Type 0 where
  serviced : Ran → Served W
  refused : ℕ → Served W
  stopped : ℕ → Daemon W → Served W
  negative_port : Served W

-- `_build_serve_runtime`: the settings of the supervisor; `--bind` goes to the environment
abbrev pub build_serve_runtime : ServeArgs → ℕ → Option Text → Settings
build_serve_runtime args base_port token = record {
  base_port = base_port;
  target_mcu = args.target_mcu;
  token = token;
  no_flash = args.no_flash;
  service_name = args.service_name;
}

module _ {W : Type 0} (u : Unicode) (env : Env u W) where
  -- the daemon when the signal comes, after these polls
  abbrev pub serving : Settings → List (List Text) → W → Daemon W
  serving cfg polls world = record {
    supervisor = (run u env cfg polls (new_supervisor cfg world)).1;
    stop_event = false;
    accepting = true;
    warned = false;
    is_done = false;
  }

  -- `_run_serve`: the signal runs the shutdown, which waits for the tick in flight, and the call at
  -- the end runs it again.
  unfoldable pub run_serve : Settings → List (List Text) → W → ℕ × Daemon W
  run_serve cfg polls world = (0, shut_down true (shut_down true (serving cfg polls world)))

  abbrev pub served_with : ServeArgs → ℕ → List (List Text) → W → Secret → Served W
  served_with args base_port polls world (secret token) =
      let (code, d) = run_serve (build_serve_runtime args base_port token) polls world in
      stopped code d
  served_with args base_port polls world unreadable = refused 1
  served_with args base_port polls world is_empty = refused 1
  served_with args base_port polls world undecodable = refused 1

  -- `_cmd_serve`. A negative `--base-port` is left out, since no port can be bound then.
  unfoldable pub cmd_serve :
      System → Dict File → (Text → Reading) → ServeArgs → List (List Text) → W → Served W
  cmd_serve sys files read args polls world =
      if args.print_service || args.install_service
      then serviced (cmd_serve_service sys args files)
      else elim args.base_port [
        | pos base_port ↦
            served_with args base_port polls world
              (resolve_serve_token u read args.token args.token_file)
        | negsuc n ↦ negative_port
      ]
