-- ===== src/Cli/Service/Print.antt =====
-- What `--print-service` of src/mbdeploy/cli.py prints.
use mbdeploy.Base.{
  if_true, ◌≡◌, refl, ap, ◌∙◌, true, false, Option, none, some, [], Option-cases, inl, inr, ◌⊎◌,
}
use mbdeploy.Text.{Text}
use mbdeploy.Text.Dict.{Dict}
use mbdeploy.Cli.Service.{
  Scope, ServeArgs, File, System, token_with_print_service, resolve_install_token, scope_of,
  unit_text_of, with_token, cmd_serve_service,
}

module _ (sys : System) where
  -- what `--print-service` gets of the token
  resolve_install_token-print :
      (args : ServeArgs) (scope : Scope)
      → ((secret : Text) × (args.token ≡ some secret)
          × (resolve_install_token sys args scope false ≡ none))
        ⊎ ((token_file : Option Text) × (secret : Option Text) × (resolve_install_token sys args
                scope false
              ≡ some (token_file, secret)))
  resolve_install_token-print args scope = elim (Option-cases args.token_file) [
    | inr (path, e) ↦
        inr (some (sys.resolve (sys.expand_user path)), none, simp (e, resolve_install_token) refl)
    | inl e ↦ elim (Option-cases args.token) [
      | inr (secret, g) ↦ inl (secret, g, simp (e, g, resolve_install_token) refl)
      | inl g ↦ inr (none, none, simp (e, g, resolve_install_token) refl)
    ]
  ]

  -- `--print-service` changes no file, whatever the other arguments are. It prints the unit and
  -- exits with 0, or refuses a secret that it could only print, with nothing on stdout.
  pub print_service-pure :
      (args : ServeArgs) (files : Dict File)
      → args.print_service ≡ true
      → args.install_service ≡ false
      → let ran = cmd_serve_service sys args files in
        (ran.files ≡ files)
        × (((token_file : Option Text) × (ran.code ≡ 0)
              × (ran.complaint ≡ none)
              × (ran.out ≡ unit_text_of sys args token_file))
            ⊎ ((secret : Text) × (args.token ≡ some secret)
                × (ran.code ≡ 1)
                × (ran.out ≡ [])
                × (ran.complaint ≡ some token_with_print_service)))
  unfolding cmd_serve_service
  print_service-pure args files p i =
      let scope = scope_of sys args in
      let gets : cmd_serve_service sys args files
          ≡ with_token sys args files (resolve_install_token sys args scope false) =
        ap (λ b. with_token sys args files (resolve_install_token sys args scope b)) i in
      elim (resolve_install_token-print args scope) [
        | inl (secret, g, e) ↦
            rw (gets ∙ ap (with_token sys args files) e) (refl, inr (secret, g, refl, refl, refl))
        | inr (token_file, secret, e) ↦
            rw (gets ∙ ap (with_token sys args files) e ∙ if_true _ _ p)
              (refl, inl (token_file, refl, refl, refl))
      ]
