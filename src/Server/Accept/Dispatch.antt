-- ===== src/Server/Accept/Dispatch.antt =====
-- Which connections the accept loop of src/mbdeploy/server.py starts a handler for, and until when.
use mbdeploy.Base.{
  ◌||◌, is_some, ℕ, ◌≡◌, refl, ap, Option, none, some, List, [], ◌∷◌, ◌++◌, arith, ◌==◌,
  if◌then◌else◌, Bool-cases, Option-cases, inl, inr, ◌⊎◌,
}
use mbdeploy.Server.Accept.{
  checking, selecting, Loop, Selected, ready, os_error, other_error, Event, registers, unregisters,
  stops, closes, checks, selects, new_loop, handler_of, without_listener, dispatch, after_select,
  selecting_now, step, run,
}

-- what the ready listeners accepted, each with its connection
abbrev pub accepted : List (ℕ × Option ℕ) → List (ℕ × ℕ)
accepted [] = []
accepted ((l, none) ∷ events) = accepted events
accepted ((l, some conn) ∷ events) = (l, conn) ∷ accepted events

module _ {H : Type 0} where
  -- A handler was registered for a listener by one of the calls.
  abbrev pub Registers : ℕ → H → List (Event H) → Type 0
  Registers l h [] = ⊥
  Registers l h (e ∷ es) = (e ≡ registers l h) ⊎ Registers l h es

  abbrev pub Started : ℕ → ℕ → H → List (ℕ × ℕ × H) → Type 0
  Started l conn h [] = ⊥
  Started l conn h (s ∷ ss) = (s ≡ (l, conn, h)) ⊎ Started l conn h ss

  -- Every handler that is registered, or was started, satisfies `P` with its listener.
  record Sourced (P : ℕ → H → Type 0) (y : Loop H) : Type 0 where
    keys : (l : ℕ) (h : H) → handler_of l y.listeners ≡ some h → P l h
    threads : (l conn : ℕ) (h : H) → Started l conn h y.started → P l h

  handler_of-without :
      (m l : ℕ) (keys : List (ℕ × H))
      → handler_of l (without_listener m keys) ≡ (if m == l then none else handler_of l keys)
  unfolding handler_of without_listener
  handler_of-without m l [] = ground arith
  handler_of-without m l ((k, h) ∷ keys) = ground (arith, handler_of-without m l keys)

  Started-append :
      (l conn : ℕ) (h : H) (a b : List (ℕ × ℕ × H))
      → Started l conn h (a ++ b)
      → Started l conn h a ⊎ Started l conn h b
  Started-append l conn h [] b s = inr s
  Started-append l conn h (x ∷ a) b (inl e) = inl (inl e)
  Started-append l conn h (x ∷ a) b (inr s) = elim (Started-append l conn h a b s) [
    | inl s ↦ inl (inr s)
    | inr s ↦ inr s
  ]

  Started-dispatch :
      (l conn : ℕ) (h : H) (keys : List (ℕ × H)) (events : List (ℕ × Option ℕ))
      → Started l conn h (dispatch keys events)
      → handler_of l keys ≡ some h
  unfolding dispatch
  Started-dispatch l conn h keys [] s = absurd s
  Started-dispatch l conn h keys ((m, none) ∷ events) s = Started-dispatch l conn h keys events s
  Started-dispatch l conn h keys ((m, some c) ∷ events) s =
      elim (Option-cases (handler_of m keys)) [
        | inl n ↦ Started-dispatch l conn h keys events (rw (n, dispatch) at s)
        | inr (k, e) ↦ elim (rw (e, dispatch) at s) [
          | inl q ↦
              let same_listener : m ≡ l = ap (λ t. t.0) q in
              let same_handler : k ≡ h = ap (λ t. t.2) q in cc (e, same_listener, same_handler)
          | inr q ↦ Started-dispatch l conn h keys events q
        ]
      ]

  module _ (P : ℕ → H → Type 0) where
    step-Sourced :
        (e : Event H) (y : Loop H)
        → ((l : ℕ) (h : H) → e ≡ registers l h → P l h)
        → Sourced P y
        → Sourced P (step e y)
    unfolding step handler_of
    step-Sourced (registers m g) y p s =
        elim (Bool-cases (y.is_closed || is_some (handler_of m y.listeners))) [
          | inl q ↦ rw (q, step) s
          | inr q ↦
              rw (q, step)
                (record {
                  keys = λ l h e. elim (Bool-cases (m == l)) [
                    | inl same_listener ↦ p l h (ground (arith, e, same_listener))
                    | inr other ↦ s.keys l h (ground (arith, e, other))
                  ];
                  threads = s.threads;
                })
        ]
    step-Sourced (unregisters m) y p s = record {
      keys = λ l h e. s.keys l h (ground (arith, e, handler_of-without m l y.listeners));
      threads = s.threads;
    }
    step-Sourced stops y p s = record { keys = s.keys; threads = s.threads }
    step-Sourced closes y p s = record { keys = λ l h e. cc e; threads = s.threads }
    step-Sourced checks y p s = record { keys = s.keys; threads = s.threads }
    step-Sourced (selects r) y p s = elim (Bool-cases (selecting_now y.phase)) [
      | inl q ↦ rw (q, step) (select-Sourced r)
      | inr q ↦ rw (q, step) s
    ]
      where
        select-Sourced : (r : Selected) → Sourced P (after_select r y)
        select-Sourced (ready events) = record {
          keys = s.keys;
          threads = λ l conn h t.
              elim (Started-append l conn h y.started (dispatch y.listeners events) t) [
                | inl t ↦ s.threads l conn h t
                | inr t ↦ s.keys l h (Started-dispatch l conn h y.listeners events t)
              ];
        }
        select-Sourced os_error = record { keys = s.keys; threads = s.threads }
        select-Sourced other_error = record { keys = s.keys; threads = s.threads }

    run-Sourced :
        (es : List (Event H)) (y : Loop H)
        → ((l : ℕ) (h : H) → Registers l h es → P l h)
        → Sourced P y
        → Sourced P (run es y)
    unfolding run
    run-Sourced [] y p s = s
    run-Sourced (e ∷ es) y p s =
        run-Sourced es (step e y) (λ l h r. p l h (inr r))
          (step-Sourced e y (λ l h q. p l h (inl q)) s)

  -- A handler that the loop started on a connection of a listener was registered for that listener,
  -- whatever the order of the calls of all threads and of what `select` reported.
  pub started_was_registered :
      (es : List (Event H)) (l conn : ℕ) (h : H)
      → Started l conn h (run es new_loop).started
      → Registers l h es
  unfolding handler_of
  started_was_registered es l conn h =
      let s =
        run-Sourced (λ l h. Registers l h es) es new_loop (λ l h r. r)
          (record { keys = λ l h e. cc e; threads = λ l conn h t. absurd t }) in
      s.threads l conn h

  abbrev pub connections : List (ℕ × ℕ × H) → List (ℕ × ℕ)
  connections [] = []
  connections ((l, conn, h) ∷ ss) = (l, conn) ∷ connections ss

  abbrev pub AllRegistered : List (ℕ × H) → List (ℕ × Option ℕ) → Type 0
  AllRegistered keys [] = Unit
  AllRegistered keys ((l, o) ∷ events) =
      ((h : H) × (handler_of l keys ≡ some h)) × AllRegistered keys events

  connections-append :
      (a b : List (ℕ × ℕ × H)) → connections (a ++ b) ≡ connections a ++ connections b
  connections-append [] b = refl
  connections-append ((l, c, h) ∷ a) b = ap (λ t. (l, c) ∷ t) (connections-append a b)

  connections-dispatch :
      (keys : List (ℕ × H)) (events : List (ℕ × Option ℕ))
      → AllRegistered keys events
      → connections (dispatch keys events) ≡ accepted events
  unfolding dispatch
  connections-dispatch keys [] a = refl
  connections-dispatch keys ((l, none) ∷ events) (r, a) = connections-dispatch keys events a
  connections-dispatch keys ((l, some c) ∷ events) ((h, e), a) =
      rw (e, dispatch) (ap (λ t. (l, c) ∷ t) (connections-dispatch keys events a))

  -- When `select` reports listeners that are registered, the loop starts exactly one handler for each
  -- connection that they accept, in their order, after those it started before, and goes on to the
  -- test of its stop event; a listener whose `accept` fails is skipped.
  pub one_handler_each :
      (y : Loop H) (events : List (ℕ × Option ℕ))
      → y.phase ≡ selecting
      → AllRegistered y.listeners events
      → let z = step (selects (ready events)) y in
        (connections z.started ≡ connections y.started ++ accepted events) × (z.phase ≡ checking)
  unfolding step
  one_handler_each y events p a =
      rw (p, step, connections-append y.started, connections-dispatch y.listeners events a)
        (refl, refl)
