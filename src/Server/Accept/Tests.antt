-- ===== src/Server/Accept/Tests.antt =====
-- A loop with two listeners, whose handlers are the numbers 100 and 200.
use mbdeploy.Base.{ℕ, ◌≡◌, refl, false, Option, none, some, List, [], ◌∷◌, ◌++◌, inl, ◌⊎◌}
use mbdeploy.Server.Accept.{
  checking, selecting, ended, Loop, ready, Event, registers, unregisters, stops, closes, checks,
  selects, new_loop, handler_of, without_listener, dispatch, step, run,
}
use mbdeploy.Server.Accept.Dispatch.{connections, accepted, one_handler_each}
use mbdeploy.Server.Accept.Stopping.{stop_ends_run, stop_in_select}

abbrev busy : List (Event ℕ)
busy =
    registers 3 100
    ∷ registers 4 200
    ∷ checks
    ∷ selects (ready ((3, some 7) ∷ (4, some 8) ∷ []))
    ∷ checks
    ∷ unregisters 3
    ∷ selects (ready ((4, none) ∷ []))
    ∷ []

busy-started : (run busy new_loop).started ≡ (3, 7, 100) ∷ (4, 8, 200) ∷ []
unfolding run step dispatch handler_of without_listener
busy-started = refl

abbrev two_listeners : Loop ℕ
two_listeners = record {
  listeners = (4, 200) ∷ (3, 100) ∷ [];
  is_stopped = false;
  is_closed = false;
  phase = selecting;
  started = [];
}

one_handler_each_example :
    let z = step (selects (ready ((3, some 7) ∷ (4, none) ∷ []))) two_listeners in
    (connections z.started ≡ [] ++ accepted ((3, some 7) ∷ (4, none) ∷ [])) × (z.phase ≡ checking)
unfolding handler_of
one_handler_each_example =
    one_handler_each two_listeners ((3, some 7) ∷ (4, none) ∷ []) refl
      ((100, refl), ((200, refl), tt))

abbrev about_to_check : Loop ℕ
about_to_check = record two_listeners { phase = checking }

stop_ends_run_example :
    let z =
      run
        (stops ∷ (unregisters 3 ∷ []) ++ checks ∷ selects (ready ((4, some 9) ∷ [])) ∷ closes ∷ [])
        about_to_check in
    (z.phase ≡ ended) × (z.started ≡ [])
stop_ends_run_example =
    stop_ends_run stops (unregisters 3 ∷ []) (selects (ready ((4, some 9) ∷ [])) ∷ closes ∷ [])
      about_to_check (inl refl) refl

stop_in_select_example :
    let later = selects (ready ((3, some 7) ∷ [])) ∷ checks ∷ [] in
    let asked = step stops two_listeners in
    let z = run (stops ∷ later) two_listeners in
    (z.started ≡ [])
    ⊎ ((before : List (Event ℕ)) × (after : List (Event ℕ)) × (accepting : List (ℕ × Option ℕ))
        × (later ≡ before ++ selects (ready accepting) ∷ after)
        × (z.started ≡ [] ++ dispatch (run before asked).listeners accepting))
stop_in_select_example =
    stop_in_select stops (selects (ready ((3, some 7) ∷ [])) ∷ checks ∷ []) two_listeners (inl refl)
      refl
