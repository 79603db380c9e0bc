-- ===== src/Server/Accept/Stopping.antt =====
-- How the accept loop of src/mbdeploy/server.py ends once it is asked to.
use mbdeploy.Base.{
  ℕ, ◌≡◌, refl, ap, ◌∙◌, true, false, Option, List, [], ◌∷◌, ◌++◌, arith, inl, inr, ◌⊎◌,
}
use mbdeploy.Server.Accept.{
  Phase, checking, selecting, ended, broken, Loop, Event, registers, unregisters, stops, closes,
  checks, selects, ready, os_error, other_error, check, selecting_now, dispatch, step, run,
}

check-stopped : (p : Phase) → selecting_now p ≡ false → selecting_now (check p true) ≡ false
check-stopped checking h = refl
check-stopped selecting h = h
check-stopped ended h = h
check-stopped broken h = h

module _ {H : Type 0} where
  -- stopped, and not in a `select`
  record Leaving (started : List (ℕ × ℕ × H)) (y : Loop H) : Type 0 where
    is_stopped : y.is_stopped ≡ true
    phase : (y.phase ≡ checking) ⊎ (y.phase ≡ ended)
    started_before : y.started ≡ started

  step-Leaving :
      (s : List (ℕ × ℕ × H)) (e : Event H) (y : Loop H) → Leaving s y → Leaving s (step e y)
  unfolding step
  step-Leaving s e y v = ground arith

  run-Leaving :
      (s : List (ℕ × ℕ × H)) (es : List (Event H)) (y : Loop H) → Leaving s y → Leaving s (run es y)
  unfolding run
  run-Leaving s [] y v = v
  run-Leaving s (e ∷ es) y v = run-Leaving s es (step e y) (step-Leaving s e y v)

  run-append : (a b : List (Event H)) (y : Loop H) → run (a ++ b) y ≡ run b (run a y)
  unfolding run
  run-append [] b y = refl
  run-append (e ∷ a) b y = run-append a b (step e y)

  step-ended : (e : Event H) (y : Loop H) → y.phase ≡ ended → (step e y).phase ≡ ended
  unfolding step
  step-ended e y h = ground arith

  run-ended : (es : List (Event H)) (y : Loop H) → y.phase ≡ ended → (run es y).phase ≡ ended
  unfolding run
  run-ended [] y h = h
  run-ended (e ∷ es) y h = run-ended es (step e y) (step-ended e y h)

  checks-ended : (s : List (ℕ × ℕ × H)) (y : Loop H) → Leaving s y → (step checks y).phase ≡ ended
  unfolding step
  checks-ended s y v = ground arith

  stopped_ends :
      (before later : List (Event H)) (y : Loop H) (s : List (ℕ × ℕ × H))
      → Leaving s y
      → let z = run (before ++ checks ∷ later) y in (z.phase ≡ ended) × (z.started ≡ s)
  unfolding run
  stopped_ends before later y s leaving =
      let v = run before y in
      let left = run-Leaving s before y leaving in
      rw (run-append before (checks ∷ later) y) (
        run-ended later (step checks v) (checks-ended s v left),
        (run-Leaving s (checks ∷ later) v left).started_before,
      )

  step-asked :
      (ask : Event H) (y : Loop H)
      → (ask ≡ stops) ⊎ (ask ≡ closes)
      → ((step ask y).is_stopped ≡ true)
        × ((step ask y).phase ≡ y.phase)
        × ((step ask y).started ≡ y.started)
  unfolding step
  step-asked ask y (inl e) = rw e (refl, refl, refl)
  step-asked ask y (inr e) = rw e (refl, refl, refl)

  -- A call of `stop` or `close` before the loop's thread makes its test ends the loop at that test,
  -- whatever the other threads call between the two and later: no handler is started after the call.
  pub stop_ends_run :
      (ask : Event H) (before later : List (Event H)) (y : Loop H)
      → (ask ≡ stops) ⊎ (ask ≡ closes)
      → y.phase ≡ checking
      → let z = run (ask ∷ before ++ checks ∷ later) y in
        (z.phase ≡ ended) × (z.started ≡ y.started)
  unfolding run
  stop_ends_run ask before later y asked p =
      let (s, phase, started) = step-asked ask y asked in
      stopped_ends before later (step ask y) y.started
        (record { is_stopped = s; phase = inl (phase ∙ p); started_before = started })

  -- stopped, and no `select` will be entered
  record Left (started : List (ℕ × ℕ × H)) (y : Loop H) : Type 0 where
    is_stopped : y.is_stopped ≡ true
    not_selecting : selecting_now y.phase ≡ false
    started_before : y.started ≡ started

  step-Left : (s : List (ℕ × ℕ × H)) (e : Event H) (y : Loop H) → Left s y → Left s (step e y)
  unfolding step
  step-Left s (registers l h) y v = ground arith
  step-Left s (unregisters l) y v = record {
    is_stopped = v.is_stopped;
    not_selecting = v.not_selecting;
    started_before = v.started_before;
  }
  step-Left s stops y v = record {
    is_stopped = refl;
    not_selecting = v.not_selecting;
    started_before = v.started_before;
  }
  step-Left s closes y v = record {
    is_stopped = refl;
    not_selecting = v.not_selecting;
    started_before = v.started_before;
  }
  step-Left s checks y v = record {
    is_stopped = v.is_stopped;
    not_selecting =
        ap (λ b. selecting_now (check y.phase b)) v.is_stopped
        ∙ check-stopped y.phase v.not_selecting;
    started_before = v.started_before;
  }
  step-Left s (selects sel) y v = rw v.not_selecting v

  run-Left :
      (s : List (ℕ × ℕ × H)) (es : List (Event H)) (y : Loop H) → Left s y → Left s (run es y)
  unfolding run
  run-Left s [] y v = v
  run-Left s (e ∷ es) y v = run-Left s es (step e y) (step-Left s e y v)

  -- From `y` on the events start no handler, or those of one `select` among them, by the listeners of
  -- its time.
  abbrev pub AtMostOne : List (Event H) → Loop H → Loop H → Type 0
  AtMostOne es y z =
      (z.started ≡ y.started)
      ⊎ ((before : List (Event H)) × (after : List (Event H)) × (accepting : List (ℕ × Option ℕ))
          × (es ≡ before ++ selects (ready accepting) ∷ after)
          × (z.started ≡ y.started ++ dispatch (run before y).listeners accepting))

  AtMostOne-after :
      (e : Event H) (es : List (Event H)) (y z : Loop H)
      → (step e y).started ≡ y.started
      → AtMostOne es (step e y) z
      → AtMostOne (e ∷ es) y z
  unfolding run
  AtMostOne-after e es y z same (inl none_started) = inl (none_started ∙ same)
  AtMostOne-after e es y z same (inr (before, after, accepting, split, t)) = inr (
    e ∷ before,
    after,
    accepting,
    ap (λ l. e ∷ l) split,
    t ∙ ap (λ l. l ++ dispatch (run before (step e y)).listeners accepting) same,
  )

  run-AtMostOne :
      (es : List (Event H)) (y : Loop H)
      → y.is_stopped ≡ true
      → y.phase ≡ selecting
      → AtMostOne es y (run es y)
  unfolding run step
  run-AtMostOne [] y s p = inl refl
  run-AtMostOne (selects (ready accepting) ∷ es) y s p =
      let z = step (selects (ready accepting)) y in
      let left : Left (y.started ++ dispatch y.listeners accepting) z =
        rw p (record { is_stopped = s; not_selecting = refl; started_before = refl }) in
      inr ([], es, accepting, refl, (run-Left _ es z left).started_before)
  run-AtMostOne (selects os_error ∷ es) y s p =
      let z = step (selects os_error) y in
      let left : Left y.started z =
        rw p (record { is_stopped = s; not_selecting = refl; started_before = refl }) in
      inl (run-Left _ es z left).started_before
  run-AtMostOne (selects other_error ∷ es) y s p =
      let z = step (selects other_error) y in
      let left : Left y.started z =
        rw p (record { is_stopped = s; not_selecting = refl; started_before = refl }) in
      inl (run-Left _ es z left).started_before
  run-AtMostOne (registers l h ∷ es) y s p =
      AtMostOne-after (registers l h) es y (run es (step (registers l h) y)) (ground arith)
        (run-AtMostOne es (step (registers l h) y) (ground (arith, s)) (ground (arith, p)))
  run-AtMostOne (unregisters l ∷ es) y s p =
      AtMostOne-after (unregisters l) es y (run es (step (unregisters l) y)) refl
        (run-AtMostOne es (step (unregisters l) y) s p)
  run-AtMostOne (stops ∷ es) y s p =
      AtMostOne-after stops es y (run es (step stops y)) refl
        (run-AtMostOne es (step stops y) refl p)
  run-AtMostOne (closes ∷ es) y s p =
      AtMostOne-after closes es y (run es (step closes y)) refl
        (run-AtMostOne es (step closes y) refl p)
  run-AtMostOne (checks ∷ es) y s p =
      AtMostOne-after checks es y (run es (step checks y)) refl
        (run-AtMostOne es (step checks y) s (ap (λ q. check q y.is_stopped) p))

  -- A call of `stop` or `close` while the loop's thread is in `select`: whatever events follow, in
  -- any number, no handler is started any more, or those of one `select` among these events only, one
  -- for each connection that it accepts on a listener that is registered at its time.
  pub stop_in_select :
      (ask : Event H) (later : List (Event H)) (y : Loop H)
      → (ask ≡ stops) ⊎ (ask ≡ closes)
      → y.phase ≡ selecting
      → let asked = step ask y in
        let z = run (ask ∷ later) y in
        (z.started ≡ y.started)
        ⊎ ((before : List (Event H)) × (after : List (Event H)) × (accepting : List (ℕ × Option ℕ))
            × (later ≡ before ++ selects (ready accepting) ∷ after)
            × (z.started ≡ y.started ++ dispatch (run before asked).listeners accepting))
  unfolding run
  stop_in_select ask later y asked p =
      let (s, phase, started) = step-asked ask y asked in
      elim (run-AtMostOne later (step ask y) s (phase ∙ p)) [
        | inl t ↦ inl (t ∙ started)
        | inr (before, after, accepting, split, t) ↦ inr (
          before,
          after,
          accepting,
          split,
          t ∙ ap (λ l. l ++ dispatch (run before (step ask y)).listeners accepting) started,
        )
      ]
