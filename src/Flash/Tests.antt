-- ===== src/Flash/Tests.antt =====
-- `flash_hex` run against a scripted pyocd: the commands end as the script says, in turn.
use mbdeploy.Base.{◌≡◌, refl, none, some, List, [], ◌∷◌, ℤ, pos}
use mbdeploy.Text.{Text, codes, ascii_only, join, lower, contains}
use mbdeploy.Flash.{
  Argv, Process, Loaded, parsed, Shell, Target, start, flash_hex, run_streamed, strip_newline,
  relay_output, looks_transient, looks_locked,
}
use mbdeploy.Flash.Recovery.{Ends, fresh, flash_hex-Ends}
use mbdeploy.Flash.Laws.{Justified, flash_hex_erases_only_locked}

-- The world is the list of outcomes to come.
abbrev World : Type 0
World = List Process

abbrev pyocd_of : Argv → World → Process × World
pyocd_of cmd [] = (record { exit = pos 0; output = [] }, [])
pyocd_of cmd (p ∷ w) = (p, w)

abbrev good_hex : Text → World → Loaded
good_hex path w = parsed

abbrev board : Target
board = record {
  python = codes "python3";
  uid = codes "9906";
  hex_path = codes "MICROBIT.hex";
  mcu = codes "nrf52833";
  board_name = some (codes "tovez");
}

abbrev locked_then_wiped : World
locked_then_wiped =
    record { exit = pos 1; output = codes "Probe timeout\n" ∷ [] }
    ∷ record { exit = pos 1; output = codes "E: APPROTECT enabled\n" ∷ [] }
    ∷ record { exit = pos 0; output = codes "Erasing\n" ∷ [] }
    ∷ record { exit = pos 3; output = [] }
    ∷ []

abbrev run : World → ℤ × Shell World
run w = flash_hex ascii_only pyocd_of good_hex board (start w)

run-wiped : (run locked_then_wiped).0 ≡ pos 3
unfolding flash_hex run_streamed relay_output strip_newline join looks_transient looks_locked lower
    contains
run-wiped = refl

run-passes : (run []).0 ≡ pos 0
unfolding flash_hex run_streamed relay_output strip_newline join looks_transient looks_locked lower
    contains
run-passes = refl

flash_hex-Ends_example :
    Ends ascii_only board fresh (start locked_then_wiped) (run locked_then_wiped)
flash_hex-Ends_example =
    flash_hex-Ends ascii_only pyocd_of good_hex board (start locked_then_wiped) refl

flash_hex_erases_only_locked_example : Justified ascii_only board none (run locked_then_wiped).1.ran
flash_hex_erases_only_locked_example =
    flash_hex_erases_only_locked ascii_only pyocd_of good_hex board locked_then_wiped
