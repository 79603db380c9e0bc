-- ===== src/Cli/Service.antt =====
-- `serve --print-service` and `serve --install-service` of src/mbdeploy/cli.py. A path is its text.
pub mod Machine
pub mod Words
pub mod ExecStart
pub mod Install
pub mod Print
pub mod Tests
pub use Machine.*
use mbdeploy.Base.{
  ℕ, Bool, true, false, not, ◌&&◌, ◌||◌, Option, none, some, List, [], ◌∷◌, ◌++◌, map,
  if◌then◌else◌, is_nil, ◌==◌, leb, all, ℤ, pos,
}
use mbdeploy.Text.{Text, codes, join}
use mbdeploy.Text.Dict.{Dict, get, put}
use mbdeploy.Text.Decimal.{show_int}
use mbdeploy.Cli.Deploy.{or_default}

-- `shlex.quote`
unfoldable pub is_plain : ℕ → Bool
is_plain c =
    (leb b'a' c && leb c b'z')
    || (leb b'A' c && leb c b'Z')
    || (leb b'0' c && leb c b'9')
    || c == b'_'
    || c == b'@'
    || c == b'%'
    || c == b'+'
    || c == b'='
    || c == b':'
    || c == b','
    || c == b'.'
    || c == b'/'
    || c == b'-'

abbrev pub escaped : Text → Text
escaped [] = []
escaped (c ∷ s) = if c == b'\'' then codes "'\"'\"'" ++ escaped s else c ∷ escaped s

unfoldable pub quote : Text → Text
quote [] = codes "''"
quote (c ∷ s) = if all is_plain (c ∷ s) then c ∷ s else b'\'' ∷ (escaped (c ∷ s) ++ b'\'' ∷ [])

-- `a / b` of paths
abbrev pub under : Text → Text → Text
under dir name = dir ++ b'/' ∷ name

module _ (sys : System) where
  abbrev pub unit_install_dir : Scope → Text
  unit_install_dir user = sys.expand_user (codes "~/.config/systemd/user")
  unit_install_dir system = sys.expand_user (codes "/etc/systemd/system")

  abbrev pub token_install_dir : Scope → Text
  token_install_dir user = sys.expand_user (codes "~/.config/mbdeploy")
  token_install_dir system = sys.expand_user (codes "/etc/mbdeploy")

  abbrev pub resolve_mbdeploy_executable : List Text
  resolve_mbdeploy_executable = elim sys.which [
    | none ↦ sys.python ∷ codes "-m" ∷ codes "mbdeploy.cli" ∷ []
    | some found ↦ found ∷ []
  ]

  -- the token file that `ExecStart` names and the secret to write into it; `none` is the `ValueError`
  abbrev pub resolve_install_token : ServeArgs → Scope → Bool → Option (Option Text × Option Text)
  resolve_install_token args scope allow_write = elim args.token_file [
    | some path ↦ some (some (sys.resolve (sys.expand_user path)), none)
    | none ↦ elim args.token [
      | none ↦ some (none, none)
      | some secret ↦
          if allow_write
          then some (some (under (token_install_dir scope) (codes "token")), some secret)
          else none
    ]
  ]

  abbrev pub flag : Text → Option Text → List Text
  flag name none = []
  flag name (some value) = name ∷ quote value ∷ []

  -- a flag that an empty text leaves out
  abbrev pub flag_if : Text → Option Text → List Text
  flag_if name none = []
  flag_if name (some []) = []
  flag_if name (some (c ∷ value)) = name ∷ quote (c ∷ value) ∷ []

  unfoldable pub build_exec_start : ServeArgs → Text → Option Text → Text
  build_exec_start args config_path token_file = join (b' ' ∷ []) (
      map quote resolve_mbdeploy_executable
      ++ codes "serve"
        ∷ codes "--config"
        ∷ quote config_path
        ∷ codes "--poll-interval"
        ∷ args.poll_interval
        ∷ codes "--base-port"
        ∷ show_int args.base_port
        ∷ (flag_if (codes "--bind") args.bind
            ++ flag (codes "--token-file") token_file
            ++ (if args.no_flash then codes "--no-flash" ∷ [] else [])
            ++ codes "--target-mcu"
              ∷ quote args.target_mcu
              ∷ flag_if (codes "--service-name") args.service_name))

  abbrev pub wanted_by : Scope → Text
  wanted_by user = codes "default.target"
  wanted_by system = codes "multi-user.target"

  abbrev pub token_comment : Option Text → Text
  token_comment none = []
  token_comment (some path) =
      codes "# A secret was configured for this daemon. It is written to "
      ++ path
      ++ codes
          " (mode 0600) and referenced below via --token-file -- never as a literal --token, which would be readable by anyone via `systemctl cat`.\n"

  -- the bundled template, filled in
  abbrev pub render_service_unit : Scope → Text → Text → Option Text → Text
  render_service_unit scope working_directory exec_start token_file =
      codes
        "# Generated by `mbdeploy serve --print-service` / `--install-service`.\n# WorkingDirectory and ExecStart are baked in for the exact invocation that\n# generated this file -- `serve` is CWD-relative like every other mbdeploy\n# subcommand, and a service manager gives a process no useful CWD of its\n# own. Regenerate (don't hand-edit) if the invocation changes.\n"
      ++ token_comment token_file
      ++ codes
          "[Unit]\nDescription=mbdeploy fleet daemon: watches USB for micro:bit boards and advertises each one's serial/flash services over mDNS.\nAfter=network-online.target\nWants=network-online.target\n\n[Service]\nType=simple\nWorkingDirectory="
      ++ working_directory
      ++ codes "\nExecStart="
      ++ exec_start
      ++ codes "\nRestart=on-failure\nRestartSec=2\n\n[Install]\nWantedBy="
      ++ wanted_by scope
      ++ codes "\n"

  abbrev pub config_path_of : ServeArgs → Text
  config_path_of args =
      let path = or_default args.config (codes "config/devices.json") in
      if sys.is_absolute path then path else sys.resolve (under sys.cwd path)

  -- one call; a file that is there keeps its mode when it is written
  abbrev pub applied : Op → Dict File → Dict File
  applied (make_dir path) files = files
  applied (write_text path content) files = elim (get path files) [
    | none ↦ put path (record { content = content; mode = sys.new_mode }) files
    | some file ↦ put path (record file { content = content }) files
  ]
  applied (chmod path mode) files = elim (get path files) [
    | none ↦ files
    | some file ↦ put path (record file { mode = mode }) files
  ]

  -- the calls of the `try`, up to the first `OSError`; whether there was none
  unfoldable pub run_ops : List Op → Dict File → Bool × Dict File
  run_ops [] files = (true, files)
  run_ops (op ∷ ops) files =
      let rest = run_ops ops (applied op files) in if sys.refuses op then (false, files) else rest

  -- the secret is written first, and its mode is set after that
  abbrev pub token_ops : Scope → Option Text → Option Text → List Op
  token_ops scope (some path) (some secret) =
      make_dir (token_install_dir scope)
      ∷ write_text path (secret ++ b'\n' ∷ [])
      ∷ chmod path 0o600
      ∷ []
  token_ops scope _ _ = []

  abbrev pub unit_path : Scope → Text
  unit_path scope = under (unit_install_dir scope) (codes "mbdeploy.service")

  abbrev pub install_ops : Scope → Text → Option Text → Option Text → List Op
  install_ops scope unit_text token_file secret =
      make_dir (unit_install_dir scope)
      ∷ (token_ops scope token_file secret ++ write_text (unit_path scope) unit_text ∷ [])

  abbrev pub installed : Scope → Bool × Dict File → Ran
  installed scope (true, files) = record {
    code = 0;
    out = codes "mbdeploy: installed " ++ unit_path scope ++ codes "\n";
    complaint = none;
    files = files;
  }
  installed scope (false, files) = record {
    code = 1;
    out = [];
    complaint = some (cannot_install (unit_path scope));
    files = files;
  }

  abbrev pub scope_of : ServeArgs → Scope
  scope_of args = elim args.service_scope [ none ↦ system | some scope ↦ scope ]

  abbrev pub unit_text_of : ServeArgs → Option Text → Text
  unit_text_of args token_file =
      render_service_unit (scope_of args) sys.cwd
        (build_exec_start args (config_path_of args) token_file) token_file

  -- The notice for a user unit, which goes to stderr as well, is left out.
  abbrev pub with_token : ServeArgs → Dict File → Option (Option Text × Option Text) → Ran
  with_token args files none = record {
    code = 1;
    out = [];
    complaint = some token_with_print_service;
    files = files;
  }
  with_token args files (some (token_file, secret)) =
      let unit_text = unit_text_of args token_file in
      if args.print_service
      then record { code = 0; out = unit_text; complaint = none; files = files }
      else installed (scope_of args)
          (run_ops (install_ops (scope_of args) unit_text token_file secret) files)

  unfoldable pub cmd_serve_service : ServeArgs → Dict File → Ran
  cmd_serve_service args files =
      with_token args files (resolve_install_token args (scope_of args) args.install_service)
