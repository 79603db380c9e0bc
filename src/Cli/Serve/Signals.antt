-- ===== src/Cli/Serve/Signals.antt =====
-- The calls of one `_ServeShutdown` of src/mbdeploy/cli.py on the main thread: the handler of SIGINT
-- and SIGTERM, which interrupts whatever that thread does, and the call at the end of `_run_serve`.
-- Its `threading.Lock` is not reentrant.
pub mod Once
use mbdeploy.Base.{ℕ, ◌+◌, ◌≡◌, Bool, true, false, List, [], ◌∷◌}

-- where a call stands: before its `with`, inside it, and at the closing that follows
pub data Frame : Type 0 where
  enters holds closes : Frame

-- The calls in progress, the one that runs first; the lock; and how often a closing has ended.
pub record MainThread : Type 0 where
  pub frames : List Frame
  pub is_locked : Bool
  pub is_done : Bool
  pub closings : ℕ

-- One step of the main thread. A call that finds the lock taken has no step.
pub data Step : MainThread → MainThread → Type 0 where
  begins : (y : MainThread) → Step y (record y { frames = enters ∷ y.frames })
  acquires :
      (y : MainThread) (rest : List Frame)
      → y.frames ≡ enters ∷ rest
      → y.is_locked ≡ false
      → Step y (record y { frames = holds ∷ rest; is_locked = true })
  returns_early :
      (y : MainThread) (rest : List Frame)
      → y.frames ≡ holds ∷ rest
      → y.is_done ≡ true
      → Step y (record y { frames = rest; is_locked = false })
  claims :
      (y : MainThread) (rest : List Frame)
      → y.frames ≡ holds ∷ rest
      → y.is_done ≡ false
      → Step y (record y { frames = closes ∷ rest; is_locked = false; is_done = true })
  finishes :
      (y : MainThread) (rest : List Frame)
      → y.frames ≡ closes ∷ rest
      → Step y (record y { frames = rest; closings = y.closings + 1 })

-- `_ServeShutdown.__init__`, with no call yet
abbrev pub idle : MainThread
idle = record { frames = []; is_locked = false; is_done = false; closings = 0 }

pub data Reach (y : MainThread) : MainThread → Type 0 where
  start : Reach y y
  next_step : {v w : MainThread} → Reach y v → Step v w → Reach y w
