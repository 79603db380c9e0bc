-- ===== src/Remote/Header.antt =====
-- The header line that `deploy_over_network` of src/mbdeploy/remote.py sends.
use mbdeploy.Base.{ℕ, Bool, ◌∷◌, ◌++◌, if◌then◌else◌}
use mbdeploy.Text.{Text, codes}
use mbdeploy.Text.Decimal.{show}

unfoldable pub flash_header : ℕ → Text → Bool → Text
flash_header nbytes digest force_relay =
    let line = codes "FLASH" ++ b' ' ∷ (show nbytes ++ b' ' ∷ (codes "sha256=" ++ digest)) in
    if force_relay then line ++ codes " force-relay" else line
