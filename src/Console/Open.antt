-- ===== src/Console/Open.antt =====
-- `open_port` of src/mbdeploy/console.py, as the calls that it makes of pyserial, in their order.
mod Tests
use mbdeploy.Base.{
  ℕ, zero, suc, ◌≡◌, refl, Bool, true, false, ◌&&◌, not, List, [], ◌∷◌, ◌++◌, if◌then◌else◌, ◌==◌,
  All, arith,
}
use mbdeploy.Text.{Text}

-- Creating the port object does not open it. Times are in ticks.
pub data Call : Type 0 where
  create : ℕ → ℕ → Call
  set_port : Text → Call
  set_dtr set_rts : Bool → Call
  open_it : Call
  sleep : ℕ → Call

pub data Opening : Type 0 where
  opened not_installed cannot_open : Opening

abbrev read_timeout : ℕ
read_timeout = 1

-- the calls before the port is opened
abbrev preparing : Text → ℕ → List Call
preparing port baud =
    create baud read_timeout ∷ set_port port ∷ set_dtr false ∷ set_rts false ∷ open_it ∷ []

-- by whether pyserial is there, and whether the opening succeeds
unfoldable pub open_port : Bool → Bool → Text → ℕ → ℕ → Opening × List Call
open_port installed opens port baud settle =
    if not installed
    then (not_installed, [])
    else if not opens
    then (cannot_open, preparing port baud)
    else (opened, preparing port baud ++ (if settle == 0 then [] else sleep settle ∷ []))

-- the levels of DTR and RTS each time that the port is opened, by those that were asked for last
abbrev pub levels_at_opening : Bool → Bool → List Call → List (Bool × Bool)
levels_at_opening dtr rts [] = []
levels_at_opening dtr rts (create baud timeout ∷ calls) = levels_at_opening dtr rts calls
levels_at_opening dtr rts (set_port port ∷ calls) = levels_at_opening dtr rts calls
levels_at_opening dtr rts (set_dtr level ∷ calls) = levels_at_opening level rts calls
levels_at_opening dtr rts (set_rts level ∷ calls) = levels_at_opening dtr level calls
levels_at_opening dtr rts (open_it ∷ calls) = (dtr, rts) ∷ levels_at_opening dtr rts calls
levels_at_opening dtr rts (sleep ticks ∷ calls) = levels_at_opening dtr rts calls

-- Whatever levels DTR and RTS have by default, `open_port` opens a port only with both low, which does
-- not reset the board.
pub open_port-low :
    (installed opens dtr rts : Bool) (port : Text) (baud settle : ℕ)
    → All
        (λ levels. levels ≡ (false, false))
        (levels_at_opening dtr rts (open_port installed opens port baud settle).1)
unfolding open_port
open_port-low false opens dtr rts port baud settle = tt
open_port-low true false dtr rts port baud settle = (refl, tt)
open_port-low true true dtr rts port baud zero = (refl, tt)
open_port-low true true dtr rts port baud (suc settle) = ground arith
