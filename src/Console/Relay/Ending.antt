-- ===== src/Console/Relay/Ending.antt =====
-- How `relay_socket` of src/mbdeploy/console.py ends.
use mbdeploy.Base.{ℕ, suc, ◌+◌, ◌≤◌, ◌≡◌, refl, Bool, true, false, arith, inl, inr, ◌⊎◌}
use mbdeploy.Text.{Text}
use mbdeploy.Console.Relay.{
  Pump, pump_tests, pump_reads, pump_sends, pump_ended, Main, main_tests, main_receives,
  main_writes, main_leaves, main_joins, main_returned, Relay, new_relay, Step, pump_stops,
  pump_goes_on, pump_hears_nothing, pump_hears, pump_loses_port, pump_sent, pump_loses_conn,
  main_stops, main_goes_on, main_hears_nothing, main_hears, main_loses_conn, main_wrote,
  main_loses_port, main_sets_stop, main_joined, main_gives_up, stopped_elsewhere, Run, here, next,
}

-- the steps that a thread may still take once the event is set
abbrev pump_left : Pump → ℕ
pump_left pump_reads = 3
pump_left (pump_sends bytes) = 2
pump_left pump_tests = 1
pump_left pump_ended = 0

abbrev main_left : Main → ℕ
main_left main_receives = 5
main_left (main_writes bytes) = 4
main_left main_tests = 3
main_left main_leaves = 2
main_left main_joins = 1
main_left main_returned = 0

abbrev pub steps_left : Relay → ℕ
steps_left x = pump_left x.pump + main_left x.main

pump_left_le : (p : Pump) → pump_left p ≤ 3
pump_left_le pump_reads = omega arith
pump_left_le (pump_sends bytes) = omega arith
pump_left_le pump_tests = omega arith
pump_left_le pump_ended = omega arith

main_left_le : (m : Main) → main_left m ≤ 5
main_left_le main_receives = omega arith
main_left_le (main_writes bytes) = omega arith
main_left_le main_tests = omega arith
main_left_le main_leaves = omega arith
main_left_le main_joins = omega arith
main_left_le main_returned = omega arith

-- a step of a stopped relay keeps the event set, and is one of those that were left
Step-stopped :
    {x y : Relay} → x.stop ≡ true → Step x y → (y.stop ≡ true) × (suc (steps_left y) ≤ steps_left x)
Step-stopped t (pump_stops p s) = (t, rw p (omega arith))
Step-stopped t (pump_goes_on p s) = absurd (ground (arith, t, s))
Step-stopped t (pump_hears_nothing p) = (t, rw p (omega arith))
Step-stopped t (pump_hears b more rest p f) = (t, rw p (omega arith))
Step-stopped t (pump_loses_port p) = (refl, rw p (omega arith))
Step-stopped t (pump_sent d p) = (t, rw p (omega arith))
Step-stopped t (pump_loses_conn d front lost p f) = (refl, rw p (omega arith))
Step-stopped t (main_stops m s) = (t, rw m (omega arith))
Step-stopped t (main_goes_on m s) = absurd (ground (arith, t, s))
Step-stopped t (main_hears_nothing m) = (t, rw m (omega arith))
Step-stopped t (main_hears b more rest m f) = (t, rw m (omega arith))
Step-stopped t (main_loses_conn m) = (t, rw m (omega arith))
Step-stopped t (main_wrote d m) = (t, rw m (omega arith))
Step-stopped t (main_loses_port d front lost m f) = (t, rw m (omega arith))
Step-stopped t (main_sets_stop m) = (refl, rw m (omega arith))
Step-stopped t (main_joined m p) = (t, rw m (omega arith))
Step-stopped t (main_gives_up m) = (t, rw m (omega arith))
Step-stopped t (stopped_elsewhere s) = absurd (ground (arith, t, s))

abbrev pub IsOver : Relay → Type 0
IsOver x = (x.pump ≡ pump_ended) × (x.main ≡ main_returned)

abbrev CanStep : Relay → Type 0
CanStep x = (y : Relay) × Step x y

main-CanStep :
    (x : Relay) (m : Main) → x.main ≡ m → x.stop ≡ true → x.pump ≡ pump_ended → IsOver x ⊎ CanStep x
main-CanStep x main_tests e t p = inr (_, main_stops e t)
main-CanStep x main_receives e t p = inr (_, main_hears_nothing e)
main-CanStep x (main_writes bytes) e t p = inr (_, main_wrote bytes e)
main-CanStep x main_leaves e t p = inr (_, main_sets_stop e)
main-CanStep x main_joins e t p = inr (_, main_joined e p)
main-CanStep x main_returned e t p = inl (p, e)

pump-CanStep : (x : Relay) (p : Pump) → x.pump ≡ p → x.stop ≡ true → IsOver x ⊎ CanStep x
pump-CanStep x pump_tests e t = inr (_, pump_stops e t)
pump-CanStep x pump_reads e t = inr (_, pump_hears_nothing e)
pump-CanStep x (pump_sends bytes) e t = inr (_, pump_sent bytes e)
pump-CanStep x pump_ended e t = main-CanStep x x.main refl t e

Run-stopped :
    {x y : Relay} {n : ℕ}
    → x.stop ≡ true
    → Run x n y
    → (y.stop ≡ true) × (n + steps_left y ≤ steps_left x)
Run-stopped t here = (t, omega arith)
Run-stopped t (next r s) =
    let (stopped, le) = Run-stopped t r in
    let (still, less) = Step-stopped stopped s in (still, omega (arith, le, less))

-- Once the stop event is set, `relay_socket` winds down, however its threads interleave: the event
-- stays set, no run takes more than eight steps, and a run can go on until both threads are over.
pub relay-ends :
    {x y : Relay} {n : ℕ}
    → x.stop ≡ true
    → Run x n y
    → (y.stop ≡ true) × (n + steps_left y ≤ 8) × (IsOver y ⊎ ((z : Relay) × Step y z))
relay-ends {x} {y} t r =
    let (stopped, le) = Run-stopped t r in
    (
      stopped,
      omega (arith, le, pump_left_le x.pump, main_left_le x.main),
      pump-CanStep y y.pump refl stopped,
    )

-- the event is set once the caller has left its loop by the `finally`
abbrev is_past : Main → Bool
is_past main_joins = true
is_past main_returned = true
is_past _ = false

abbrev Sets : Relay → Type 0
Sets x = (is_past x.main ≡ false) ⊎ (x.stop ≡ true)

joined_stop : (x : Relay) → x.main ≡ main_joins → Sets x → x.stop ≡ true
joined_stop x m (inl n) = absurd (ground (arith, (rw m at n)))
joined_stop x m (inr t) = t

Step-Sets : {x y : Relay} → Step x y → Sets x → Sets y
Step-Sets (pump_stops p s) i = i
Step-Sets (pump_goes_on p s) i = i
Step-Sets (pump_hears_nothing p) i = i
Step-Sets (pump_hears b more rest p f) i = i
Step-Sets (pump_loses_port p) i = inr refl
Step-Sets (pump_sent d p) i = i
Step-Sets (pump_loses_conn d front lost p f) i = inr refl
Step-Sets (main_stops m s) i = inl refl
Step-Sets (main_goes_on m s) i = inl refl
Step-Sets (main_hears_nothing m) i = inl refl
Step-Sets (main_hears b more rest m f) i = inl refl
Step-Sets (main_loses_conn m) i = inl refl
Step-Sets (main_wrote d m) i = inl refl
Step-Sets (main_loses_port d front lost m f) i = inl refl
Step-Sets (main_sets_stop m) i = inr refl
Step-Sets {x} (main_joined m p) i = inr (joined_stop x m i)
Step-Sets {x} (main_gives_up m) i = inr (joined_stop x m i)
Step-Sets (stopped_elsewhere s) i = inr refl

Run-Sets :
    (port_bytes conn_bytes : Text) {n : ℕ} {x : Relay}
    → Run (new_relay port_bytes conn_bytes) n x
    → Sets x
Run-Sets port_bytes conn_bytes here = inl refl
Run-Sets port_bytes conn_bytes (next r s) = Step-Sets s (Run-Sets port_bytes conn_bytes r)

-- When `relay_socket` has returned, its stop event is set, whichever of its ends was taken and also
-- when the wait for the reader thread has timed out.
pub relay-returned :
    (port_bytes conn_bytes : Text) {n : ℕ} {x : Relay}
    → Run (new_relay port_bytes conn_bytes) n x
    → x.main ≡ main_returned
    → x.stop ≡ true
relay-returned port_bytes conn_bytes r m = elim (Run-Sets port_bytes conn_bytes r) [
  | inl n ↦ absurd (ground (arith, (rw m at n)))
  | inr t ↦ t
]
