-- ===== src/Cli/Serve/Process/Authenticated.antt =====
-- A token that `serve` of src/mbdeploy/cli.py is given is required by the daemon.
use mbdeploy.Base.{
  ℕ, ◌≡◌, sym, ◌∙◌, true, ◌||◌, Option, none, some, List, [], ◌∷◌, is_some, All, if_true, if_false,
  Bool-cases, inl, inr, ◌⊎◌, ℤ, pos, negsuc,
}
use mbdeploy.Text.{Text, Unicode, is_space}
use mbdeploy.Text.Strip.{rstrip}
use mbdeploy.Text.Dict.{Dict}
use mbdeploy.Server.Supervisor.{Env, serial_handler, flash_handler}
use mbdeploy.Server.Supervisor.Run.Tokens.{run_configures}
use mbdeploy.Cli.Service.{System, ServeArgs, File}
use mbdeploy.Cli.Serve.{
  Reading, content, os_error, not_utf8, Secret, secret, unreadable, is_empty, undecodable, of_token,
  universal_newlines, resolve_serve_token, Daemon,
}
use mbdeploy.Cli.Serve.Process.{
  stopped, negative_port, build_serve_runtime, serving, run_serve, served_with, cmd_serve,
}

-- The result is an error, or it holds a token.
abbrev NotOpen : Secret → Type 0
NotOpen (secret none) = ⊥
NotOpen (secret (some t)) = Unit
NotOpen unreadable = Unit
NotOpen is_empty = Unit
NotOpen undecodable = Unit

of_token-NotOpen : (t : Text) → NotOpen (of_token t)
of_token-NotOpen [] = tt
of_token-NotOpen (c ∷ t) = tt

resolve_serve_token-NotOpen :
    (u : Unicode) (read : Text → Reading) (token token_file : Option Text)
    → (is_some token || is_some token_file) ≡ true
    → NotOpen (resolve_serve_token u read token token_file)
resolve_serve_token-NotOpen u read (some t) file h = tt
resolve_serve_token-NotOpen u read none none h = cc h
resolve_serve_token-NotOpen u read none (some path) h = of_reading (read path)
  where
    of_reading :
        (r : Reading)
        → NotOpen (elim r [
          | content text ↦ of_token (rstrip (is_space u) (universal_newlines text))
          | os_error ↦ unreadable
          | not_utf8 ↦ undecodable
        ])
    of_reading (content text) = of_token-NotOpen (rstrip (is_space u) (universal_newlines text))
    of_reading os_error = tt
    of_reading not_utf8 = tt

module _ {W : Type 0} (u : Unicode) (env : Env u W) where
  served_with-token :
      (args : ServeArgs) (n : ℕ) (polls : List (List Text)) (world : W) (s : Secret) (code : ℕ)
      (d : Daemon W)
      → NotOpen s
      → served_with u env args n polls world s ≡ stopped code d
      → (t : Text) × (d ≡ (run_serve u env (build_serve_runtime args n (some t)) polls world).1)
  served_with-token args n polls world (secret none) code d o e = absurd o
  served_with-token args n polls world (secret (some t)) code d o e = (t, cc e)
  served_with-token args n polls world unreadable code d o e = cc e
  served_with-token args n polls world is_empty code d o e = cc e
  served_with-token args n polls world undecodable code d o e = cc e

  -- Given --token or --token-file, `serve` runs the daemon only with a token: it is the run for some
  -- secret, and while it serves every listener that is watched has a handler with that secret.
  pub token_is_required :
      (sys : System) (files : Dict File) (read : Text → Reading) (args : ServeArgs)
      (polls : List (List Text)) (world : W) (code : ℕ) (d : Daemon W)
      → (is_some args.token || is_some args.token_file) ≡ true
      → cmd_serve u env sys files read args polls world ≡ stopped code d
      → (t : Text) × (n : ℕ) × (d
          ≡ (run_serve u env (build_serve_runtime args n (some t)) polls world).1)
        × All
            (λ w.
              (w.handler ≡ serial_handler (some t))
              ⊎ (w.handler ≡ flash_handler (some t) args.no_flash args.target_mcu))
            (serving u env (build_serve_runtime args n (some t)) polls world).supervisor.watched
  unfolding cmd_serve
  token_is_required sys files read args polls world code d given e =
      elim (Bool-cases (args.print_service || args.install_service)) [
        | inl q ↦ absurd (cc (sym (if_true _ _ q) ∙ e))
        | inr q ↦ at_port args.base_port (sym (if_false _ _ q) ∙ e)
      ]
    where
      s : Secret
      s = resolve_serve_token u read args.token args.token_file

      at_port :
          (p : ℤ)
          → (elim p [ pos n ↦ served_with u env args n polls world s | negsuc n ↦ negative_port ])
            ≡ stopped code d
          → (t : Text) × (n : ℕ) × (d
              ≡ (run_serve u env (build_serve_runtime args n (some t)) polls world).1)
            × All
                (λ w.
                  (w.handler ≡ serial_handler (some t))
                  ⊎ (w.handler ≡ flash_handler (some t) args.no_flash args.target_mcu))
                (serving u env (build_serve_runtime args n (some t)) polls world).supervisor.watched
      at_port (negsuc n) h = absurd (cc h)
      at_port (pos n) h =
          let (t, same_run) =
            served_with-token args n polls world s code d
              (resolve_serve_token-NotOpen u read args.token args.token_file given) h in
          (t, n, same_run, run_configures u env (build_serve_runtime args n (some t)) polls world)
