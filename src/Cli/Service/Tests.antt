-- ===== src/Cli/Service/Tests.antt =====
-- The service commands of src/mbdeploy/cli.py on one machine.
use mbdeploy.Base.{ℕ, ◌≡◌, ◌≢◌, refl, true, false, none, some, [], ◌∷◌, pos}
use mbdeploy.Text.{Text, codes, same}
use mbdeploy.Text.Equality.{eq→same}
use mbdeploy.Text.Decimal.{show, show_int}
use mbdeploy.Text.Dict.{get}
use mbdeploy.Cli.Service.{
  system, ServeArgs, make_dir, write_text, chmod, System, is_plain, quote, build_exec_start,
  unit_path, cmd_serve_service,
}
use mbdeploy.Cli.Service.Words.{between, shell_words}
use mbdeploy.Cli.Service.ExecStart.{serve_argv, exec_start-words}
use mbdeploy.Cli.Service.Install.{token_path, with_secret, install_secret, install_secret-exposed}

abbrev pub machine : System
machine = record {
  which = some (codes "/opt/my tools/mbdeploy");
  python = codes "/usr/bin/python3";
  cwd = codes "/srv";
  is_absolute = λ p. false;
  resolve = λ p. p;
  expand_user = λ p. p;
  new_mode = 0o644;
  refuses = λ op. false;
}

-- one whose file system has no modes
abbrev no_chmod : System
no_chmod = record machine {
  refuses = λ op. elim op [
    | make_dir path ↦ false
    | write_text path text ↦ false
    | chmod path mode ↦ true
  ];
}

abbrev pub args : ServeArgs
args = record {
  config = none;
  poll_interval = codes "2";
  base_port = pos 9000;
  bind = none;
  token = some (codes "s3cret");
  token_file = none;
  no_flash = true;
  target_mcu = codes "nrf52833";
  service_name = some (codes "it's");
  print_service = false;
  install_service = true;
  service_scope = none;
}

abbrev print_args : ServeArgs
print_args = record args { print_service = true; install_service = false }

quoted : quote (codes "it's") ≡ codes "'it'\"'\"'s'"
unfolding quote is_plain
quoted = refl

exec_start-words_example :
    shell_words between (build_exec_start machine args (codes "/srv/c.json") none)
    ≡ some (serve_argv machine args (codes "/srv/c.json") none)
unfolding is_plain
exec_start-words_example = exec_start-words machine args (codes "/srv/c.json") none (λ e. cc) refl

-- that command has thirteen words
argv_ends :
    serve_argv machine args (codes "/srv/c.json") none
    ≡ codes "/opt/my tools/mbdeploy"
      ∷ codes "serve"
      ∷ codes "--config"
      ∷ codes "/srv/c.json"
      ∷ codes "--poll-interval"
      ∷ codes "2"
      ∷ codes "--base-port"
      ∷ codes "9000"
      ∷ codes "--no-flash"
      ∷ codes "--target-mcu"
      ∷ codes "nrf52833"
      ∷ codes "--service-name"
      ∷ codes "it's"
      ∷ []
unfolding show_int show
argv_ends = refl

pub paths_differ : unit_path machine system ≢ token_path machine system
unfolding same
paths_differ e = let t : false ≡ true = eq→same e in cc

install_secret_example :
    let ran = cmd_serve_service machine args [] in
    let ran_other = cmd_serve_service machine (with_secret machine args (codes "hunter2")) [] in
    (ran.code ≡ 0)
    × (get (token_path machine system) ran.files
        ≡ some (record { content = codes "s3cret\n"; mode = 0o600 }))
    × (ran.out ≡ ran_other.out)
    × ((text : Text) × (m : ℕ) × (n : ℕ) × (get (unit_path machine system) ran.files
          ≡ some (record { content = text; mode = m }))
        × (get (unit_path machine system) ran_other.files
            ≡ some (record { content = text; mode = n })))
install_secret_example =
    install_secret machine args (codes "s3cret") (codes "hunter2") [] refl refl refl refl
      (λ op. refl) paths_differ

install_secret-exposed_example :
    let ran = cmd_serve_service no_chmod args [] in
    (ran.code ≡ 1)
    × (get (token_path no_chmod system) ran.files
        ≡ some (record { content = codes "s3cret\n"; mode = 0o644 }))
unfolding get
install_secret-exposed_example =
    install_secret-exposed no_chmod args (codes "s3cret") [] refl refl refl refl refl (λ path. refl)
      (λ path text. refl) (λ path mode. refl)
