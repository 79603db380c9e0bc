-- ===== src/Server/Sessions/Ending.antt =====
-- `Session.terminate`, `Session.join` and `_terminate_displaced` of src/mbdeploy/server.py.
use mbdeploy.Base.{
  ℕ, ◌≤◌, ◌≡◌, Bool, true, false, not, ◌||◌, Option, none, some, arith, ltb, if◌then◌else◌, min,
}

-- A session object with its socket. `ends_after` is the time that its thread goes on after the
-- session is terminated; `none` is a thread that was never started.
pub record LiveSession : Type 0 where
  pub stop : Bool
  pub is_shut : Bool
  pub is_closed : Bool
  pub ends_after : Option ℕ

-- `terminate`, by whether `shutdown` and `close` raise an `OSError`, which is ignored
unfoldable pub terminate : Bool → Bool → LiveSession → LiveSession
terminate shutdown_fails close_fails s =
    let signalled = record s { stop = true } in
    let shut = if shutdown_fails then signalled else record signalled { is_shut = true } in
    if close_fails then shut else record shut { is_closed = true }

-- `join`: how long it takes, and whether it warns
unfoldable pub join : ℕ → LiveSession → ℕ × Bool
join timeout s = elim s.ends_after [
  | none ↦ (0, false)
  | some rest ↦ (min rest timeout, ltb timeout rest)
]

unfoldable pub terminate_displaced : Bool → Bool → ℕ → LiveSession → LiveSession × ℕ × Bool
terminate_displaced shutdown_fails close_fails timeout s =
    let gone = terminate shutdown_fails close_fails s in
    let (took, warns) = join timeout gone in (gone, took, warns)

-- `_terminate_displaced` sets the stop event whatever the socket's calls raise, closes the socket
-- unless its close raises, takes at most the timeout, and warns exactly if the thread goes on for
-- longer than that.
pub terminate_displaced_lem :
    (shutdown_fails close_fails : Bool) (timeout rest : ℕ) (s : LiveSession)
    → s.ends_after ≡ some rest
    → let (gone, took, warns) = terminate_displaced shutdown_fails close_fails timeout s in
      (gone.stop ≡ true)
      × (gone.is_closed ≡ (not close_fails || s.is_closed))
      × (took ≤ timeout)
      × (warns ≡ ltb timeout rest)
unfolding terminate_displaced terminate join
terminate_displaced_lem shutdown_fails close_fails timeout rest s e =
    (ground arith, ground arith, ground (arith, e), ground (arith, e))
