-- ===== src/Cli/Listing/Tests.antt =====
-- The table of src/mbdeploy/cli.py for three boards.
use mbdeploy.Base.{◌≡◌, refl, true, some, List, [], ◌∷◌, arith, map}
use mbdeploy.Text.{Text, codes, same}
use mbdeploy.Text.Dict.{get}
use mbdeploy.Devices.Registry.{no_entry, Registry}
use mbdeploy.Remote.Listing.{text_le}
use mbdeploy.Cli.Listing.{Row, device_rows, unlisted, sort, insert, comes_first}
use mbdeploy.Cli.Listing.Boards.{shown_times, IsSorted, device_rows_lem}

abbrev registry : Registry
registry =
    (codes "a1", record no_entry { enum = some 1; device_name = some (codes "zap") })
    ∷ (codes "b2", record no_entry { enum = some 2; port = some (codes "/dev/x") })
    ∷ []

abbrev live : List Text
live = codes "c3" ∷ codes "b2" ∷ []

abbrev rows : List Row
rows = device_rows (λ uid. some (codes "vuzuz")) live [] true registry

-- the connected boards first, with and without a number, and then the one that is away
uids_in_order : map (λ (r : Row). r.uid) rows ≡ codes "b2" ∷ codes "c3" ∷ codes "a1" ∷ []
unfolding device_rows unlisted sort insert comes_first get same text_le
uids_in_order = refl

device_rows_lem_example : (shown_times (codes "c3") rows ≡ 1) × IsSorted rows
unfolding get same
device_rows_lem_example =
    device_rows_lem (λ uid. some (codes "vuzuz")) live [] true (codes "c3") registry (omega arith)
      (omega arith)
