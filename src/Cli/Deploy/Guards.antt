-- ===== src/Cli/Deploy/Guards.antt =====
-- Which board `mbdeploy deploy` of src/mbdeploy/cli.py flashes, and when.
use mbdeploy.Base.{
  ◌≡◌, ◌≢◌, refl, ap, ◌∙◌, true, false, not, ◌&&◌, ◌||◌, Option, none, some, List, [], ◌∷◌, arith,
  is_nil, pos, nonzero, nonzero_iff, Bool-cases, inl, inr, ◌⊎◌,
}
use mbdeploy.Text.{Text, Unicode, same}
use mbdeploy.Text.Equality.{same_iff}
use mbdeploy.Text.Dict.{Dict, get, put, values, get-put}
use mbdeploy.Devices.Announce.{is_relay}
use mbdeploy.Devices.Hardware.{Hardware, member, port_serial_map}
use mbdeploy.Devices.Registry.{Entry, Registry}
use mbdeploy.Devices.Probe.{load_devices}
use mbdeploy.Devices.Resolve.{Resolved, found, refused, is_path, resolve_target}
use mbdeploy.Cli.Builder.{run}
use mbdeploy.Cli.Deploy.{
  Args, Choice, chosen, refusal, by_port, entry_on_port, on_port, registered, deploy_entry,
  of_resolved, non_relays, only, choose_entry, Machine, Done, after_build, flash_entry, target_of,
  confirm, guard_relay, deploy_chosen, deploy_remote, send_remote, cmd_deploy, request,
}

-- The map has the board `uid` on `port`.
abbrev pub Maps : Text → Text → Dict Text → Type 0
Maps uid port [] = ⊥
Maps uid port ((k, p) ∷ d) = ((k ≡ uid) × (p ≡ port)) ⊎ Maps uid port d

by_port-Maps :
    (d out : Dict Text) (port uid : Text)
    → get port (by_port d out) ≡ some uid
    → Maps uid port d ⊎ (get port out ≡ some uid)
unfolding by_port
by_port-Maps [] out port uid h = inr h
by_port-Maps ((k, p) ∷ d) out port uid h = elim (by_port-Maps d (put p k out) port uid h) [
  | inl m ↦ inl (inr m)
  | inr g ↦ elim (Bool-cases (same p port)) [
    | inl y ↦
        let here : some k ≡ some uid = rw (get-put, y) at g in
        inl (inl (cc here, (same_iff p port).0 y))
    | inr n ↦ inr (rw (get-put, n) at g)
  ]
]

module _ (u : Unicode) where
  -- The entry that a target stands for: that of the board on a port right now, the one that the
  -- token names, or without a target the only one that is no relay.
  pub data Chosen (registry : Registry) (hw : Hardware u) : Option Text → Entry → Type 0 where
    on_path :
        {target : Text} {e : Entry} (uid : Text)
        → is_path target ≡ true
        → Maps uid target (port_serial_map (some hw.probes) hw.comports)
        → get uid registry ≡ some e
        → Chosen registry hw (some target) e
    by_token :
        {target : Text} {e : Entry}
        → is_path target ≡ false
        → resolve_target u target registry ≡ found e
        → Chosen registry hw (some target) e
    unique :
        {target : Option Text} {e : Entry}
        → (target ≡ none) ⊎ (target ≡ some [])
        → non_relays u (values registry) ≡ e ∷ []
        → Chosen registry hw target e

  only-chosen : (es : List Entry) (e : Entry) → only u es ≡ chosen e → es ≡ e ∷ []
  only-chosen [] e h = absurd (cc h)
  only-chosen (f ∷ []) e h = cc h
  only-chosen (f ∷ g ∷ es) e h = absurd (cc h)

  registered-chosen :
      (target uid : Text) (o : Option Entry) (e : Entry)
      → registered u target uid o ≡ chosen e
      → o ≡ some e
  registered-chosen target uid none e h = absurd (cc h)
  registered-chosen target uid (some f) e h = cc h

  on_port-chosen :
      (target : Text) (registry : Registry) (uids : Dict Text) (o : Option Text) (e : Entry)
      → on_port u target registry uids o ≡ chosen e
      → (uid : Text) × (o ≡ some uid) × (get uid registry ≡ some e)
  on_port-chosen target registry uids none e h = absurd (cc h)
  on_port-chosen target registry uids (some uid) e h =
      (uid, refl, registered-chosen target uid _ e h)

  of_resolved-chosen : (r : Resolved) (e : Entry) → of_resolved u r ≡ chosen e → r ≡ found e
  of_resolved-chosen (found f) e h = cc h
  of_resolved-chosen (refused why) e h = absurd (cc h)

  entry_on_port-chosen :
      (target : Text) (registry : Registry) (hw : Hardware u) (e : Entry)
      → entry_on_port u target registry hw ≡ chosen e
      → (uid : Text) × Maps uid target (port_serial_map (some hw.probes) hw.comports)
        × (get uid registry ≡ some e)
  unfolding entry_on_port
  entry_on_port-chosen target registry hw e h =
      let live = port_serial_map (some hw.probes) hw.comports in
      elim (Bool-cases (is_nil live)) [
        | inl y ↦ absurd (ground (arith, y))
        | inr n ↦
            let found_on =
              on_port-chosen target registry (by_port live []) _ e (rw (n, entry_on_port) at h) in
            let (uid, g, r) = found_on in
            elim (by_port-Maps live [] target uid g) [
              | inl p ↦ (uid, p, r)
              | inr p ↦ absurd (unfold get in cc p)
            ]
      ]

  choose_entry-Chosen :
      (target : Option Text) (registry : Registry) (hw : Hardware u) (e : Entry)
      → choose_entry u target registry hw ≡ chosen e
      → Chosen registry hw target e
  unfolding choose_entry deploy_entry
  choose_entry-Chosen none registry hw e h = unique (inl refl) (only-chosen _ e h)
  choose_entry-Chosen (some []) registry hw e h = unique (inr refl) (only-chosen _ e h)
  choose_entry-Chosen (some (c ∷ s)) registry hw e h = elim (Bool-cases (is_path (c ∷ s))) [
    | inl y ↦
        let (uid, m, r) =
          entry_on_port-chosen (c ∷ s) registry hw e (rw (y, choose_entry, deploy_entry) at h) in
        on_path uid y m r
    | inr n ↦ by_token n (of_resolved-chosen _ e (rw (n, choose_entry, deploy_entry) at h))
  ]

module _ {W : Type 0} (u : Unicode) (m : Machine u W) (args : Args) (w : W) where
  -- No build was asked for, or it succeeded.
  abbrev pub BuildOk : Type 0
  BuildOk =
      ((args.build || args.clean) ≡ false) ⊎ ((run u m.tools (request u m args) w).code ≡ pos 0)

  after_build-BuildOk :
      (e : Entry) (uid : Text)
      → (after_build u m args (flash_entry u m args e uid) w).flashed ≢ []
      → BuildOk
        × ((after_build u m args (flash_entry u m args e uid) w).flashed
            ≡ target_of u m args e uid ∷ [])
  unfolding after_build flash_entry
  after_build-BuildOk e uid h = elim (Bool-cases (args.build || args.clean)) [
    | inr n ↦ (inl n, ground (arith, n))
    | inl y ↦ elim (Bool-cases (nonzero (run u m.tools (request u m args) w).code)) [
      | inl bad ↦ absurd (h (ground (arith, y, bad)))
      | inr good ↦ (
        inr ((nonzero_iff (run u m.tools (request u m args) w).code).0 good),
        ground (arith, y, good),
      )
    ]
  ]

  confirm-flashed :
      (e : Entry) (o : Option Text)
      → (confirm u m args e o w).flashed ≢ []
      → (uid : Text) × (o ≡ some uid)
        × (member uid (m.hardware w).probes ≡ true)
        × BuildOk
        × ((confirm u m args e o w).flashed ≡ target_of u m args e uid ∷ [])
  confirm-flashed e none h = absurd (h refl)
  confirm-flashed e (some uid) h = elim (Bool-cases (member uid (m.hardware w).probes)) [
    | inr n ↦ absurd (h (rw n refl))
    | inl y ↦
        let same_done : confirm u m args e (some uid) w
            ≡ after_build u m args (flash_entry u m args e uid) w =
          rw y refl in
        let (ok, t) =
          after_build-BuildOk e uid (λ q. h (ap (λ (d : Done W). d.flashed) same_done ∙ q)) in
        (uid, refl, y, ok, ap (λ (d : Done W). d.flashed) same_done ∙ t)
  ]

  guard_relay-flashed :
      (e : Entry)
      → (guard_relay u m args e w).flashed ≢ []
      → ((is_relay u e.role && not args.force_relay) ≡ false)
        × ((confirm u m args e e.uid w).flashed ≢ [])
        × (guard_relay u m args e w ≡ confirm u m args e e.uid w)
  unfolding guard_relay
  guard_relay-flashed e h = elim (Bool-cases (is_relay u e.role && not args.force_relay)) [
    | inl y ↦ absurd (h (rw (y, guard_relay) refl))
    | inr n ↦
        let same_done : guard_relay u m args e w ≡ confirm u m args e e.uid w =
          rw (n, guard_relay) refl in
        (n, λ q. h (ap (λ (d : Done W). d.flashed) same_done ∙ q), same_done)
  ]

  deploy_chosen-flashed :
      (c : Choice)
      → (deploy_chosen u m args c w).flashed ≢ []
      → (e : Entry) × (c ≡ chosen e) × ((guard_relay u m args e w).flashed ≢ [])
  deploy_chosen-flashed (refusal f) h = absurd (h refl)
  deploy_chosen-flashed (chosen e) h = (e, refl, h)

  deploy_remote-flashed : (t : Option Text) → (deploy_remote u m args t w).flashed ≡ []
  unfolding deploy_remote after_build send_remote
  deploy_remote-flashed none = refl
  deploy_remote-flashed (some []) = refl
  deploy_remote-flashed (some (c ∷ s)) = ground arith

  -- If `mbdeploy deploy` gives a board to `flash_hex`, then it does so for one board only and
  -- locally: the board that the target stands for, which is no relay unless the relay is forced,
  -- which is connected, and after a build that succeeded if one was asked for.
  pub cmd_deploy-flashed :
      (cmd_deploy u m args w).flashed ≢ []
      → (e : Entry) × (uid : Text) × (args.remote ≡ false)
        × Chosen u (load_devices (m.saved w)) (m.hardware w) args.target e
        × ((is_relay u e.role && not args.force_relay) ≡ false)
        × (e.uid ≡ some uid)
        × (member uid (m.hardware w).probes ≡ true)
        × BuildOk
        × ((cmd_deploy u m args w).flashed ≡ target_of u m args e uid ∷ [])
  unfolding cmd_deploy
  cmd_deploy-flashed h = elim (Bool-cases args.remote) [
    | inl y ↦ absurd (h (simp (y, cmd_deploy, deploy_remote-flashed args.target)))
    | inr n ↦
        let registry = load_devices (m.saved w) in
        let choice = choose_entry u args.target registry (m.hardware w) in
        let local : cmd_deploy u m args w ≡ deploy_chosen u m args choice w =
          simp (n, cmd_deploy) in
        let (e, c, g) =
          deploy_chosen-flashed choice (λ q. h (ap (λ (d : Done W). d.flashed) local ∙ q)) in
        let (guard, k, same_done) = guard_relay-flashed e g in
        let (uid, i, live, ok, t) = confirm-flashed e e.uid k in
        let whole : cmd_deploy u m args w ≡ guard_relay u m args e w =
          local ∙ ap (λ x. deploy_chosen u m args x w) c in
        (
          e,
          uid,
          n,
          choose_entry-Chosen u args.target registry (m.hardware w) e c,
          guard,
          i,
          live,
          ok,
          ap (λ (d : Done W). d.flashed) (whole ∙ same_done) ∙ t,
        )
  ]
