-- ===== src/Cli/Serve/Signals/Once.antt =====
-- The shutdown of src/mbdeploy/cli.py runs at most once, and a signal at the wrong moment hangs it.
use mbdeploy.Base.{ℕ, ◌+◌, ◌≡◌, ◌≤◌, refl, true, List, [], ◌∷◌, arith, if◌then◌else◌, inr, ◌⊎◌}
use mbdeploy.Cli.Serve.Signals.{
  Frame, enters, holds, closes, MainThread, Step, begins, acquires, returns_early, claims, finishes,
  Reach, start, next_step, idle,
}

-- the calls that are closing
unfoldable pub closing_frames : List Frame → ℕ
closing_frames [] = 0
closing_frames (enters ∷ fs) = closing_frames fs
closing_frames (holds ∷ fs) = closing_frames fs
closing_frames (closes ∷ fs) = closing_frames fs + 1

-- A closing is in progress or has ended exactly if the flag is set, and then one.
abbrev Counted : MainThread → Type 0
Counted y = y.closings + closing_frames y.frames ≡ (if y.is_done then 1 else 0)

step-Counted : {y z : MainThread} → Step y z → Counted y → Counted z
unfolding closing_frames
step-Counted (begins y) c = ground arith
step-Counted (acquires y rest e l) c = ground arith
step-Counted (returns_early y rest e d) c = ground arith
step-Counted (claims y rest e d) c = ground arith
step-Counted (finishes y rest e) c = ground arith

Reach-Counted : {y z : MainThread} → Reach y z → Counted y → Counted z
Reach-Counted start c = c
Reach-Counted (next_step r s) c = step-Counted s (Reach-Counted r c)

-- However signals interrupt the main thread, and one another, the closing of `_ServeShutdown` runs at
-- most once; while it has not ended, at most one call is closing.
pub closing_at_most_once :
    {z : MainThread} → Reach idle z → (z.closings ≤ 1) × (z.closings + closing_frames z.frames ≤ 1)
unfolding closing_frames
closing_at_most_once r = ground (arith, Reach-Counted r refl)

-- calls before their `with`, above a call inside it
abbrev Waiting : List Frame → Type 0
Waiting [] = ⊥
Waiting (enters ∷ []) = ⊥
Waiting (enters ∷ f ∷ fs) = (f ≡ holds) ⊎ Waiting (f ∷ fs)
Waiting (holds ∷ fs) = ⊥
Waiting (closes ∷ fs) = ⊥

-- the lock is taken by a call that waits for the one above it
record Hung (n : ℕ) (y : MainThread) : Type 0 where
  locked : y.is_locked ≡ true
  waiting : Waiting y.frames
  closings : y.closings ≡ n

step-Hung : {y z : MainThread} (n : ℕ) → Step y z → Hung n y → Hung n z
step-Hung n (begins y) h = record {
  locked = h.locked;
  waiting = above y.frames h.waiting;
  closings = h.closings;
}
  where
    above : (fs : List Frame) → Waiting fs → Waiting (enters ∷ fs)
    above [] w = absurd w
    above (f ∷ fs) w = inr w
step-Hung n (acquires y rest e l) h = absurd (ground (arith, h.locked, l))
step-Hung n (returns_early y rest e d) h = absurd (ground (arith, h.waiting, e))
step-Hung n (claims y rest e d) h = absurd (ground (arith, h.waiting, e))
step-Hung n (finishes y rest e) h = absurd (ground (arith, h.waiting, e))

Reach-Hung : {y z : MainThread} (n : ℕ) → Reach y z → Hung n y → Hung n z
Reach-Hung n start h = h
Reach-Hung n (next_step r s) h = step-Hung n s (Reach-Hung n r h)

-- A signal that comes while the main thread is inside the `with` hangs it for good: from then on the
-- lock stays taken, some call is in progress, and no closing ends.
pub signal_in_lock_hangs :
    {y z : MainThread} (rest : List Frame)
    → y.frames ≡ holds ∷ rest
    → y.is_locked ≡ true
    → Reach (record y { frames = enters ∷ y.frames }) z
    → (z.is_locked ≡ true)
      × (z.closings ≡ y.closings)
      × ((f : Frame) × (fs : List Frame) × (z.frames ≡ f ∷ fs))
signal_in_lock_hangs {y} {z} rest e l r =
    let h =
      Reach-Hung y.closings r
        (record { locked = l; waiting = ground (arith, e); closings = refl }) in
    (h.locked, h.closings, some_frame z.frames h.waiting)
  where
    some_frame : (fs : List Frame) → Waiting fs → (f : Frame) × (gs : List Frame) × (fs ≡ f ∷ gs)
    some_frame [] w = absurd w
    some_frame (f ∷ fs) w = (f, fs, refl)
