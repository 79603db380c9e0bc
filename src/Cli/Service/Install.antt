-- ===== src/Cli/Service/Install.antt =====
-- What `--install-service` and `--print-service` of src/mbdeploy/cli.py leave on the disk.
use mbdeploy.Base.{
  if_false, ℕ, ◌≡◌, ◌≢◌, refl, sym, ap, ◌∙◌, true, false, none, some, List, [], ◌∷◌, ◌++◌, arith,
  Option-cases, inl, inr, All,
}
use mbdeploy.Text.{Text, codes}
use mbdeploy.Text.Equality.{same_iff}
use mbdeploy.Text.Dict.{Dict, get, get-put, get-put_self}
use mbdeploy.Cli.Service.{
  Scope, ServeArgs, File, Op, make_dir, write_text, chmod, System, under, token_install_dir,
  resolve_install_token, applied, run_ops, unit_path, unit_install_dir, install_ops, installed,
  scope_of, unit_text_of, with_token, build_exec_start, cmd_serve_service,
}

module _ (sys : System) where
  abbrev pub token_path : Scope → Text
  token_path scope = under (token_install_dir sys scope) (codes "token")

  resolve_install_token-secret :
      (args : ServeArgs) (scope : Scope) (secret : Text)
      → args.token_file ≡ none
      → args.token ≡ some secret
      → resolve_install_token sys args scope true ≡ some (some (token_path scope), some secret)
  resolve_install_token-secret args scope secret f t = rw (f, t) refl

  applied-write_text :
      (path content : Text) (files : Dict File)
      → ((m : ℕ) × (get path (applied sys (write_text path content) files)
            ≡ some (record { content = content; mode = m })))
  applied-write_text path content files = elim (Option-cases (get path files)) [
    | inl e ↦ (sys.new_mode, rw (e, applied) (get-put_self path _ files))
    | inr (file, e) ↦ (file.mode, rw (e, applied) (get-put_self path _ files))
  ]

  applied-chmod :
      (path : Text) (mode : ℕ) (files : Dict File) (file : File)
      → get path files ≡ some file
      → get path (applied sys (chmod path mode) files) ≡ some (record file { mode = mode })
  applied-chmod path mode files file e = rw (e, applied) (get-put_self path _ files)

  applied-other :
      (path other content : Text) (files : Dict File)
      → path ≢ other
      → get other (applied sys (write_text path content) files) ≡ get other files
  applied-other path other content files n = elim (Option-cases (get path files)) [
    | inl e ↦
        rw (e, applied)
          (ground (
            arith,
            get-put path other (record { content = content; mode = sys.new_mode }) files,
            same_iff path other,
            n,
          ))
    | inr (file, e) ↦
        rw (e, applied)
          (ground (
            arith,
            get-put path other (record { content = content; mode = file.mode }) files,
            same_iff path other,
            n,
          ))
  ]

  all_applied : List Op → Dict File → Dict File
  all_applied [] files = files
  all_applied (op ∷ ops) files = all_applied ops (applied sys op files)

  run_ops-all :
      (ops : List Op) (files : Dict File)
      → ((op : Op) → sys.refuses op ≡ false)
      → run_ops sys ops files ≡ (true, all_applied ops files)
  unfolding run_ops all_applied
  run_ops-all [] files ok = refl
  run_ops-all (op ∷ ops) files ok = rw (ok op, run_ops-all ops (applied sys op files) ok) refl

  -- the calls up to one that is refused
  run_ops-until :
      (ops : List Op) (op : Op) (later : List Op) (files : Dict File)
      → All (λ o. sys.refuses o ≡ false) ops
      → sys.refuses op ≡ true
      → run_ops sys (ops ++ op ∷ later) files ≡ (false, all_applied ops files)
  unfolding run_ops all_applied
  run_ops-until [] op later files ok stop = rw stop refl
  run_ops-until (o ∷ ops) op later files (k, ok) stop =
      rw (k, run_ops-until ops op later (applied sys o files) ok stop) refl

  module _ (args : ServeArgs) (secret : Text) (files : Dict File) (no_file : args.token_file ≡ none)
      (given : args.token ≡ some secret) (install : args.install_service ≡ true)
      (no_print : args.print_service ≡ false) where
    cmd_serve_service-secret :
        cmd_serve_service sys args files
        ≡ installed sys (scope_of sys args) (
            run_ops sys
              (install_ops sys
                (scope_of sys args)
                (unit_text_of sys args (some (token_path (scope_of sys args))))
                (some (token_path (scope_of sys args)))
                (some secret))
              files)
    unfolding cmd_serve_service
    cmd_serve_service-secret =
        ap (λ b. with_token sys args files (resolve_install_token sys args (scope_of sys args) b))
          install
        ∙ ap (with_token sys args files)
            (resolve_install_token-secret args (scope_of sys args) secret no_file given)
        ∙ if_false _ _ no_print

  -- the files after the secret is written, after its mode is set, and after the unit is written
  abbrev secret_written : ServeArgs → Text → Dict File → Dict File
  secret_written args secret files =
      applied sys (write_text (token_path (scope_of sys args)) (secret ++ b'\n' ∷ [])) files

  abbrev secret_closed : ServeArgs → Text → Dict File → Dict File
  secret_closed args secret files =
      applied sys (chmod (token_path (scope_of sys args)) 0o600) (secret_written args secret files)

  abbrev pub unit_file_text : ServeArgs → Text
  unit_file_text args = unit_text_of sys args (some (token_path (scope_of sys args)))

  abbrev unit_written : ServeArgs → Text → Dict File → Dict File
  unit_written args secret files =
      applied sys (write_text (unit_path sys (scope_of sys args)) (unit_file_text args))
        (secret_closed args secret files)

  abbrev secret_ops : ServeArgs → Text → List Op
  secret_ops args secret =
      install_ops sys (scope_of sys args) (unit_file_text args)
        (some (token_path (scope_of sys args))) (some secret)

  run_ops-secret :
      (args : ServeArgs) (secret : Text) (files : Dict File)
      → ((op : Op) → sys.refuses op ≡ false)
      → run_ops sys (secret_ops args secret) files ≡ (true, unit_written args secret files)
  unfolding all_applied
  run_ops-secret args secret files ok = run_ops-all (secret_ops args secret) files ok

  get-secret_closed :
      (args : ServeArgs) (secret : Text) (files : Dict File)
      → get (token_path (scope_of sys args)) (secret_closed args secret files)
        ≡ some (record { content = secret ++ b'\n' ∷ []; mode = 0o600 })
  get-secret_closed args secret files =
      let path = token_path (scope_of sys args) in
      let (m, e) = applied-write_text path (secret ++ b'\n' ∷ []) files in
      applied-chmod path 0o600 (secret_written args secret files)
        (record { content = secret ++ b'\n' ∷ []; mode = m }) e

  pub install_files :
      (args : ServeArgs) (secret : Text) (files : Dict File)
      → args.token_file ≡ none
      → args.token ≡ some secret
      → args.install_service ≡ true
      → args.print_service ≡ false
      → ((op : Op) → sys.refuses op ≡ false)
      → unit_path sys (scope_of sys args) ≢ token_path (scope_of sys args)
      → let ran = cmd_serve_service sys args files in
        (ran.code ≡ 0)
        × (ran.out
            ≡ codes "mbdeploy: installed " ++ unit_path sys (scope_of sys args) ++ codes "\n")
        × (get (token_path (scope_of sys args)) ran.files
            ≡ some (record { content = secret ++ b'\n' ∷ []; mode = 0o600 }))
        × ((m : ℕ) × (get (unit_path sys (scope_of sys args)) ran.files
              ≡ some (record { content = unit_file_text args; mode = m })))
  install_files args secret files no_file given install no_print ok differ =
      rw
        (
          cmd_serve_service-secret args secret files no_file given install no_print,
          run_ops-secret args secret files ok,
        )
        (
          refl,
          refl,
          applied-other (unit_path sys (scope_of sys args)) (token_path (scope_of sys args))
                (unit_file_text args) (secret_closed args secret files) differ
              ∙ get-secret_closed args secret files,
          applied-write_text (unit_path sys (scope_of sys args)) (unit_file_text args)
              (secret_closed args secret files),
        )

  -- the arguments with another secret
  abbrev pub with_secret : ServeArgs → Text → ServeArgs
  with_secret args other = record args { token = some other }

  unit_file_text-with_secret :
      (args : ServeArgs) (other : Text)
      → unit_file_text (with_secret args other) ≡ unit_file_text args
  unfolding build_exec_start
  unit_file_text-with_secret args other = refl

  -- With `--install-service --token`, where no call raises `OSError` and the two files have
  -- different paths, the command exits with 0, and the token file holds the secret and a newline,
  -- with mode 0600. Neither the output nor the unit file is made from the secret: any other secret
  -- gives the same output and the same text of the unit file.
  pub install_secret :
      (args : ServeArgs) (secret other : Text) (files : Dict File)
      → args.token_file ≡ none
      → args.token ≡ some secret
      → args.install_service ≡ true
      → args.print_service ≡ false
      → ((op : Op) → sys.refuses op ≡ false)
      → unit_path sys (scope_of sys args) ≢ token_path (scope_of sys args)
      → let ran = cmd_serve_service sys args files in
        let ran_other = cmd_serve_service sys (with_secret args other) files in
        (ran.code ≡ 0)
        × (get (token_path (scope_of sys args)) ran.files
            ≡ some (record { content = secret ++ b'\n' ∷ []; mode = 0o600 }))
        × (ran.out ≡ ran_other.out)
        × ((text : Text) × (m : ℕ) × (n : ℕ) × (get (unit_path sys (scope_of sys args)) ran.files
              ≡ some (record { content = text; mode = m }))
            × (get (unit_path sys (scope_of sys args)) ran_other.files
                ≡ some (record { content = text; mode = n })))
  install_secret args secret other files no_file given install no_print ok differ =
      let (code, out, token, (m, unit)) =
        install_files args secret files no_file given install no_print ok differ in
      let (c, o, t, (n, unit_other)) =
        install_files (with_secret args other) other files no_file refl install no_print ok
          differ in
      (
        code,
        token,
        out ∙ sym o,
        (
          unit_file_text args,
          m,
          n,
          unit,
          unit_other
              ∙ ap (λ text. some (record { content = text; mode = n }))
                  (unit_file_text-with_secret args other),
        ),
      )

  -- Where the token file is new and `chmod` raises `OSError`, but no call before it, the command
  -- exits with 1 and leaves the secret in the token file, with the mode of any new file.
  pub install_secret-exposed :
      (args : ServeArgs) (secret : Text) (files : Dict File)
      → args.token_file ≡ none
      → args.token ≡ some secret
      → args.install_service ≡ true
      → args.print_service ≡ false
      → get (token_path (scope_of sys args)) files ≡ none
      → ((path : Text) → sys.refuses (make_dir path) ≡ false)
      → ((path content : Text) → sys.refuses (write_text path content) ≡ false)
      → ((path : Text) (mode : ℕ) → sys.refuses (chmod path mode) ≡ true)
      → let ran = cmd_serve_service sys args files in
        (ran.code ≡ 1)
        × (get (token_path (scope_of sys args)) ran.files
            ≡ some (record { content = secret ++ b'\n' ∷ []; mode = sys.new_mode }))
  unfolding all_applied
  install_secret-exposed args secret files no_file given install no_print new dirs writes chmods =
      let path = token_path (scope_of sys args) in
      let scope = scope_of sys args in
      let stopped : run_ops sys (secret_ops args secret) files
          ≡ (false, secret_written args secret files) =
        run_ops-until
          (make_dir (unit_install_dir sys scope)
            ∷ make_dir (token_install_dir sys scope)
            ∷ write_text path (secret ++ b'\n' ∷ [])
            ∷ [])
          (chmod path 0o600) (write_text (unit_path sys scope) (unit_file_text args) ∷ []) files
          (
            dirs (unit_install_dir sys scope),
            (dirs (token_install_dir sys scope), (writes path (secret ++ b'\n' ∷ []), tt)),
          )
          (chmods path 0o600) in
      rw (cmd_serve_service-secret args secret files no_file given install no_print, stopped)
        (refl, rw (new, applied) (get-put_self path _ files))
