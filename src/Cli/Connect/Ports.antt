-- ===== src/Cli/Connect/Ports.antt =====
-- Which serial port `connect` of src/mbdeploy/cli.py opens.
use mbdeploy.Base.{
  ◌≡◌, refl, sym, ◌∙◌, true, false, Option, none, some, [], ◌∷◌, if_true, if_false, Bool-cases,
  Option-cases, inl, inr, ◌⊎◌,
}
use mbdeploy.Text.{Text, Unicode}
use mbdeploy.Text.Dict.{get}
use mbdeploy.Devices.Hardware.{Hardware, member, port_serial_map}
use mbdeploy.Devices.Registry.{Entry, Registry}
use mbdeploy.Devices.Resolve.{Resolved, found, refused, is_path, resolve_target}
use mbdeploy.Cli.Deploy.{or_default}
use mbdeploy.Cli.Connect.{port_named, not_connected, connect_port, named_port, live_port, port_of}

-- the port of a live board, and what the registry says where no port is live
abbrev pub PortOf : {u : Unicode} → Hardware u → Entry → Text → Text → Type 0
PortOf hw e uid port =
    (get uid (port_serial_map (some (uid ∷ [])) hw.comports) ≡ some port) ⊎ (e.port ≡ some port)

or_default-cases :
    (a b : Option Text) (port : Text)
    → named_port (or_default a (or_default b [])) ≡ port_named port
    → (a ≡ some port) ⊎ (b ≡ some port)
or_default-cases none none port e = absurd (cc e)
or_default-cases none (some []) port e = absurd (cc e)
or_default-cases none (some (c ∷ s)) port e = inr (cc e)
or_default-cases (some []) none port e = absurd (cc e)
or_default-cases (some []) (some []) port e = absurd (cc e)
or_default-cases (some []) (some (c ∷ s)) port e = inr (cc e)
or_default-cases (some (c ∷ s)) b port e = inl (cc e)

module _ (u : Unicode) where
  -- a board that the target names and that is plugged in
  abbrev pub LiveMatch : Text → Registry → Hardware u → Text → Type 0
  LiveMatch target registry hw port =
      (e : Entry) × (uid : Text) × (resolve_target u target registry ≡ found e)
      × (e.uid ≡ some uid)
      × (member uid hw.probes ≡ true)
      × PortOf hw e uid port

  live_port-PortOf :
      (hw : Hardware u) (e : Entry) (uid port : Text)
      → live_port u hw e uid ≡ port_named port
      → (member uid hw.probes ≡ true) × PortOf hw e uid port
  live_port-PortOf hw e uid port h = elim (Bool-cases (member uid hw.probes)) [
    | inl y ↦ (y, or_default-cases _ e.port port (sym (if_true _ _ y) ∙ h))
    | inr n ↦ absurd (no_clash (sym (if_false _ _ n) ∙ h))
  ]
    where
      no_clash : {port : Text} → not_connected ≡ port_named port → ⊥
      no_clash e = cc e

  port_of-LiveMatch :
      (hw : Hardware u) (r : Resolved) (port : Text)
      → port_of u hw r ≡ port_named port
      → (e : Entry) × (uid : Text) × (r ≡ found e)
        × (e.uid ≡ some uid)
        × (member uid hw.probes ≡ true)
        × PortOf hw e uid port
  port_of-LiveMatch hw (refused why) port h = absurd (cc h)
  port_of-LiveMatch hw (found e) port h = elim (Option-cases e.uid) [
    | inl n ↦ absurd (cc (n, h))
    | inr (uid, g) ↦
        let (live, p) = live_port-PortOf hw e uid port (simp (g) at h) in (e, uid, refl, g, live, p)
  ]

  -- `connect` opens a path that it is given as it stands, whatever the registry says of it. For
  -- any other target that it opens a port for, the target names an entry of the registry whose
  -- board is plugged in, and the port is that board's live one, or the one of the entry.
  pub connect_port_lem :
      (target : Text) (registry : Registry) (hw : Hardware u) (port : Text)
      → connect_port u target registry hw ≡ port_named port
      → ((is_path target ≡ true) × (port ≡ target))
        ⊎ (is_path target ≡ false) × LiveMatch target registry hw port
  unfolding connect_port
  connect_port_lem target registry hw port h = elim (Bool-cases (is_path target)) [
    | inl y ↦
        let same_port : port_named target ≡ port_named port = sym (if_true _ _ y) ∙ h in
        inl (y, cc same_port)
    | inr n ↦
        inr (
          n,
          port_of-LiveMatch hw (resolve_target u target registry) port (sym (if_false _ _ n) ∙ h),
        )
  ]
