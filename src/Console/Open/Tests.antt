-- ===== src/Console/Open/Tests.antt =====
-- A port at 115200 baud.
use mbdeploy.Base.{◌≡◌, refl, true, false, [], ◌∷◌}
use mbdeploy.Text.{codes}
use mbdeploy.Console.Open.{create, set_port, set_dtr, set_rts, open_it, sleep, opened, open_port}

tty_opened : open_port true true (codes "tty") 115200 3 ≡ (
  opened,
  create 115200 1 ∷ set_port (codes "tty") ∷ set_dtr false ∷ set_rts false ∷ open_it ∷ sleep 3 ∷ [],
)
unfolding open_port
tty_opened = refl
