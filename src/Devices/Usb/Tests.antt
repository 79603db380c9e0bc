-- ===== src/Devices/Usb/Tests.antt =====
-- A line of `pyocd list`.
use mbdeploy.Base.{◌≡◌, refl, false, none, some, [], ◌∷◌, ◌++◌}
use mbdeploy.Text.{Text, codes, ascii_only, is_space}
use mbdeploy.Text.Strip.{strip}
use mbdeploy.Devices.Usb.{
  hex_run, lines_from, with_uids, search_uid, probes_of, flashable_probes_cli, flashable_probes,
}
use mbdeploy.Devices.Usb.Search.{Finds, search_uid_lem}

abbrev uid : Text
uid = codes "9906360200052820a8fdb5e413abb276000000006e052820"

abbrev row : Text
row = codes "  0   Arm BBC micro:bit CMSIS-DAP   " ++ (uid ++ codes "   n/a ")

-- An empty line and a heading have no UID.
listed :
    flashable_probes ascii_only (λ c. false) none (some (codes "  #   Probe\r\n" ++ row))
    ≡ record { uid = uid; description = strip (is_space ascii_only) row } ∷ []
unfolding flashable_probes flashable_probes_cli lines_from probes_of search_uid hex_run strip
    is_space
listed = refl

-- The API is asked first; a probe with no UID is left out.
asked :
    flashable_probes ascii_only
      (λ c. false)
      (some ((none, some (codes "x")) ∷ (some uid, none) ∷ []))
      none
    ≡ record { uid = uid; description = [] } ∷ []
unfolding flashable_probes with_uids
asked = refl

search_uid_lem_example :
    Finds ascii_only (λ c. false) row (search_uid ascii_only (λ c. false) false row)
search_uid_lem_example = search_uid_lem ascii_only (λ c. false) row
