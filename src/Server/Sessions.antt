-- ===== src/Server/Sessions.antt =====
-- The sessions of one board, interleaved: every handler thread of src/mbdeploy/server.py claims the
-- board, runs, and releases it; the watcher may take the occupant when the board departs.
pub mod Ending
pub mod Exclusion
use mbdeploy.Base.{
  ℕ, suc, ◌+◌, ◌<◌, ◌≤◌, ◌≡◌, ◌≢◌, refl, sym, ap, ◌∙◌, Bool, true, false, Option, none, some, List,
  [], ◌∷◌, arith, ◌==◌, if◌then◌else◌, ==_iff, ◌⊎◌, inl, inr, All, Bool-cases,
}
use mbdeploy.Server.Board.{
  Kind, serial, flash, Session, Board, is_flash, occupies, claim_serial, claim_flash, release,
  take_occupant,
}

-- The board, the sessions between a successful claim and their release, and the next id.
pub record System : Type 0 where
  pub board : Board
  pub inside : List Session
  pub next : ℕ

abbrev pub new_session : System → Kind → Session
new_session y k = record { id = y.next; kind = k }

-- the sessions other than `s`
pub without : Session → List Session → List Session
without s [] = []
without s (x ∷ xs) = let rest = without s xs in if x.id == s.id then rest else x ∷ rest

-- The thread of `s` is between its claim and its release.
abbrev pub Inside : Session → List Session → Type 0
Inside s [] = ⊥
Inside s (x ∷ xs) = (x ≡ s) ⊎ Inside s xs

-- One step of some thread. The flag says whether the watcher took the occupant.
pub data Step : System → Bool → System → Type 0 where
  serial_claims :
      (y : System) (b : Board)
      → claim_serial (new_session y serial) y.board ≡ (true, b)
      → Step y false
          (record { board = b; inside = new_session y serial ∷ y.inside; next = y.next + 1 })
  serial_refused :
      (y : System) (b : Board)
      → claim_serial (new_session y serial) y.board ≡ (false, b)
      → Step y false (record { board = b; inside = y.inside; next = y.next + 1 })
  flash_claims :
      (y : System) (displaced : Option Session) (b : Board)
      → claim_flash (new_session y flash) y.board ≡ (true, displaced, b)
      → Step y false
          (record { board = b; inside = new_session y flash ∷ y.inside; next = y.next + 1 })
  flash_refused :
      (y : System) (displaced : Option Session) (b : Board)
      → claim_flash (new_session y flash) y.board ≡ (false, displaced, b)
      → Step y false (record { board = b; inside = y.inside; next = y.next + 1 })
  releases :
      (y : System) (s : Session)
      → Inside s y.inside
      → Step y false (record y { board = release s y.board; inside = without s y.inside })
  departs : (y : System) → Step y true (record y { board = (take_occupant y.board).1 })

-- The systems that threads reach from `y`; the flag says whether the occupant may be taken.
pub data Reach (y : System) (departures : Bool) : System → Type 0 where
  start : Reach y departures y
  next_step :
      {v w : System} {taken : Bool}
      → Reach y departures v
      → Step v taken w
      → (taken ≡ true → departures ≡ true)
      → Reach y departures w

-- Every flash that is running is the occupant.
abbrev pub Exclusive : System → Type 0
Exclusive y = All (λ s. s.kind ≡ flash → y.board.occupant ≡ some s) y.inside
