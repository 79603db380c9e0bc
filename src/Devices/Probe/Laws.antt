-- ===== src/Devices/Probe/Laws.antt =====
-- The invariants of the registry that the header of src/mbdeploy/devices.py lists, for `probe_all`.
use mbdeploy.Base.{
  ℕ, ◌≡◌, refl, true, false, Option, none, some, List, [], ◌∷◌, arith, Bool-cases, inl, inr, All,
}
use mbdeploy.Text.{Text, Unicode}
use mbdeploy.Text.Equality.{same_iff}
use mbdeploy.Text.Dict.{Dict, get, has}
use mbdeploy.Devices.Hardware.{Hardware, member, port_serial_map}
use mbdeploy.Devices.Registry.{Registry, enum_of, Distinct}
use mbdeploy.Devices.Probe.{
  Call, hello, swd, entry_of, narrow, probe_all, probe_each, probe_calls, refreshed, load_devices,
  announced,
}
use mbdeploy.Devices.Probe.Loop.{
  probe_each-enum, probe_each-has, probe_each-other, probe_each-Distinct, probe_each-IsFresh,
  IsFresh, About, probe_calls-About,
}

-- A UID outside `only_uids` is not among the probes that are left.
pub member-narrow :
    (only uids : List Text) (k : Text)
    → member k only ≡ false
    → member k (narrow (some only) uids) ≡ false
unfolding narrow
member-narrow only [] k h = refl
member-narrow only (uid ∷ uids) k h = ground (arith, member-narrow only uids k h, same_iff uid k)

module _ (u : Unicode) (mcu : Text) (hw : Hardware u) where
  -- the ports that `probe_all` passes to its loop
  abbrev pub ports_for : Option (List Text) → Dict Text
  ports_for only = port_serial_map (some (narrow only hw.probes)) hw.comports

  run_is :
      (file : Option Registry) (only : Option (List Text)) {d : Registry}
      → probe_all u mcu hw file false only ≡ some d
      → d ≡ probe_each u mcu hw (ports_for only) (narrow only hw.probes) (load_devices file)
  unfolding probe_all
  run_is file only e = ground arith

  -- A probe without `clear` never deletes an entry.
  pub probe_all-has :
      (file : Option Registry) (only : Option (List Text)) {d : Registry} (k : Text)
      → probe_all u mcu hw file false only ≡ some d
      → has k (load_devices file) ≡ true
      → has k d ≡ true
  probe_all-has file only k e h =
      rw (run_is file only e)
        (probe_each-has u mcu hw (ports_for only) (narrow only hw.probes) _ k h)

  -- A probe without `clear` keeps the number of every board that has one.
  pub probe_all-enum :
      (file : Option Registry) (only : Option (List Text)) {d : Registry} (k : Text) (n : ℕ)
      → probe_all u mcu hw file false only ≡ some d
      → enum_of (get k (load_devices file)) ≡ some n
      → enum_of (get k d) ≡ some n
  probe_all-enum file only k n e h =
      rw (run_is file only e)
        (probe_each-enum u mcu hw (ports_for only) (narrow only hw.probes) _ k n h)

  -- If no two boards of the registry share a number, then none do after a probe without `clear`.
  pub probe_all-Distinct :
      (file : Option Registry) (only : Option (List Text)) {d : Registry}
      → probe_all u mcu hw file false only ≡ some d
      → Distinct (load_devices file)
      → Distinct d
  probe_all-Distinct file only e h =
      rw (run_is file only e)
        (probe_each-Distinct u mcu hw (ports_for only) (narrow only hw.probes) _ h)

  -- With `only_uids`, the entry of a board that is not in the set stays as it was.
  pub probe_all-scoped :
      (file : Option Registry) (only : List Text) {d : Registry} (k : Text)
      → probe_all u mcu hw file false (some only) ≡ some d
      → member k only ≡ false
      → get k d ≡ get k (load_devices file)
  probe_all-scoped file only k e h = rw (run_is file (some only) e) (
      probe_each-other u mcu hw (ports_for (some only)) (narrow (some only) hw.probes) _ k
        (member-narrow only hw.probes k h))

  -- After a probe without `clear`, every board that was probed has an entry with its UID, a number,
  -- and the port that the scan of the serial ports gives for it now, or none.
  pub probe_all-IsFresh :
      (file : Option Registry) (only : Option (List Text)) {d : Registry} (k : Text)
      → probe_all u mcu hw file false only ≡ some d
      → member k (narrow only hw.probes) ≡ true
      → IsFresh (ports_for only) k (get k d)
  probe_all-IsFresh file only k e h =
      rw (run_is file only e)
        (probe_each-IsFresh u mcu hw (ports_for only) (narrow only hw.probes) _ k h)

  -- The boards that a probe narrowed to `only` writes HELLO to, or attaches to, are in `only`.
  abbrev pub Within : List Text → Call → Type 0
  Within only (swd k) = member k only ≡ true
  Within only (hello p) =
      (k : Text) × (member k only ≡ true) × (get k (ports_for (some only)) ≡ some p)

  narrow-member :
      (only uids : List Text) (k : Text)
      → member k (narrow (some only) uids) ≡ true
      → member k only ≡ true
  narrow-member only uids k h = elim (Bool-cases (member k only)) [
    | inl m ↦ m
    | inr n ↦ cc (member-narrow only uids k n)
  ]

  About-Within :
      (only : List Text) (cs : List Call)
      → All (About (ports_for (some only)) (narrow (some only) hw.probes)) cs
      → All (Within only) cs
  About-Within only [] h = tt
  About-Within only (swd k ∷ cs) h = (narrow-member only _ k h.0, About-Within only cs h.1)
  About-Within only (hello p ∷ cs) ((k, m, g), h) =
      ((k, narrow-member only _ k m, g), About-Within only cs h)

  -- With `only_uids`, no board outside the set is touched: each HELLO goes to the port of a UID in
  -- the set, and each read over SWD to a UID in the set.
  pub probe_calls-Within :
      (file : Option Registry) (only : List Text)
      → All (Within only) (
          probe_calls u mcu hw
            (ports_for (some only))
            (narrow (some only) hw.probes)
            (load_devices file))
  probe_calls-Within file only = About-Within only _ (
      probe_calls-About u mcu hw (ports_for (some only)) (narrow (some only) hw.probes)
        (load_devices file))

  -- A board that does not announce itself keeps the announcement fields that the registry has.
  pub refreshed_silent :
      (ports : Dict Text) (d : Registry) (uid : Text)
      → announced u mcu hw (get uid ports) ≡ none
      → let e = refreshed u mcu hw ports d uid in
        (e.announcement ≡ (entry_of d uid).announcement)
        × (e.role ≡ (entry_of d uid).role)
        × (e.common_name ≡ (entry_of d uid).common_name)
        × (e.device_name ≡ (entry_of d uid).device_name)
        × (e.serial ≡ (entry_of d uid).serial)
  unfolding refreshed
  refreshed_silent ports d uid h = ground arith
