-- ===== src/Console/Interact/Tests.antt =====
-- A board that says "ok" to a line.
use mbdeploy.Base.{◌≡◌, refl, sym, true, List, [], ◌∷◌, ◌++◌, append-nil}
use mbdeploy.Text.{Text, Unicode, codes, ascii_only, decode_replace}
use mbdeploy.Console.Interact.{
  tests, at_eof, over, Talk, new_talk, pump_goes_on, pump_hears, pump_prints, main_reads,
  main_at_eof, main_writes, main_flushes, main_drains, main_sets_stop, main_returns, Reach, start,
  next_step,
}
use mbdeploy.Console.Interact.Flow.{concat, Settled, interact_lem}

abbrev typed : List Text
typed = codes "ID\n" ∷ []

abbrev asked : Talk
asked = new_talk (codes "ok") typed

abbrev finished : Talk
finished = record {
  from_port = [];
  printed = codes "ok";
  from_stdin = [];
  to_port = codes "ID\n";
  stop = true;
  pump = tests;
  main = over at_eof;
}

asked-finished : Reach ascii_only asked finished
unfolding decode_replace
asked-finished =
    let sent =
      next_step
        (next_step (next_step start (main_reads b'I' (codes "D\n") [] refl refl))
          (main_writes (codes "ID\n") refl))
        (main_flushes refl) in
    let heard =
      next_step
        (next_step (next_step sent (pump_goes_on refl refl)) (pump_hears (codes "ok") [] refl refl))
        (pump_prints (codes "ok") refl) in
    next_step
      (next_step (next_step (next_step heard (main_at_eof refl refl)) (main_drains refl))
        (main_sets_stop at_eof refl))
      (main_returns at_eof refl)

interact_lem_example :
    ((rest : Text) × (codes "ok" ++ rest ≡ codes "ok"))
    × ((rest : Text) × (codes "ID\n" ++ rest ≡ concat typed))
    × Settled (over at_eof) true (codes "ID\n") (concat typed)
interact_lem_example = interact_lem ascii_only (codes "ok") typed refl asked-finished

-- Bytes that come in two reads are decoded apart, also where a character is cut.
decoded_apart :
    (u : Unicode) (a b : Text)
    → (x : Talk) × Reach u (new_talk (a ++ b) []) x
      × (x.from_port ≡ [])
      × (x.printed ≡ decode_replace u a ++ decode_replace u b)
decoded_apart u a b =
    let first =
      next_step (next_step (next_step start (pump_goes_on refl refl)) (pump_hears a b refl refl))
        (pump_prints a refl) in
    (
      _,
      next_step
          (next_step (next_step first (pump_goes_on refl refl))
            (pump_hears b [] refl (sym (append-nil b))))
          (pump_prints b refl),
      refl,
      refl,
    )
