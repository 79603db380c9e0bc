-- ===== src/Console/Interact/Flow.antt =====
-- What `interact` of src/mbdeploy/console.py passes on.
use mbdeploy.Base.{
  ℕ, ◌≡◌, refl, sym, ap, ◌∙◌, Bool, true, ◌&&◌, List, [], ◌∷◌, ◌++◌, arith, all, append-nil,
  if_true,
}
use mbdeploy.Text.{Text, Unicode, is_ascii, decode_replace}
use mbdeploy.Console.Relay.Flow.{flow_heard, flow_passed, flow_lost}
use mbdeploy.Console.Interact.{
  Pump, tests, reads, prints, ended, End, at_eof, interrupted, failed, Main, asks, writes, flushes,
  drains, leaves, joins, over, Talk, new_talk, Step, pump_stops, pump_goes_on, pump_hears_nothing,
  pump_hears, pump_loses_port, pump_prints, pump_loses_stdout, main_reads, main_read_fails,
  main_at_eof, main_writes, main_write_fails, main_flushes, main_flush_fails, main_drains,
  main_interrupted, main_sets_stop, main_returns, Reach, start, next_step,
}

-- the lines one after the other
abbrev pub concat : List Text → Text
concat [] = []
concat (line ∷ lines) = line ++ concat lines

-- the bytes that the reader thread holds; once it has ended, those that it did not print
abbrev PumpHolds : Pump → Text → Type 0
PumpHolds tests held = held ≡ []
PumpHolds reads held = held ≡ []
PumpHolds (prints bytes) held = held ≡ bytes
PumpHolds ended held = Unit

abbrev AtEnd : End → List Text → Text → Type 0
AtEnd at_eof lines held = (held ≡ []) × (lines ≡ [])
AtEnd interrupted lines held = Unit
AtEnd failed lines held = Unit

-- what the caller's thread holds of a line, with the lines that it has not read
abbrev MainHolds : Main → List Text → Text → Type 0
MainHolds asks lines held = held ≡ []
MainHolds (writes line) lines held = held ≡ line
MainHolds flushes lines held = held ≡ []
MainHolds drains lines held = (held ≡ []) × (lines ≡ [])
MainHolds (leaves e) lines held = AtEnd e lines held
MainHolds (joins e) lines held = AtEnd e lines held
MainHolds (over e) lines held = AtEnd e lines held

abbrev Stops : Main → Bool → Type 0
Stops (joins e) stop = stop ≡ true
Stops (over e) stop = stop ≡ true
Stops _ stop = Unit

-- a session that is over: it has set the event, and at the end of stdin all was written
abbrev pub Settled : Main → Bool → Text → Text → Type 0
Settled (over at_eof) stop written whole = (stop ≡ true) × (written ≡ whole)
Settled (over interrupted) stop written whole = stop ≡ true
Settled (over failed) stop written whole = stop ≡ true
Settled _ stop written whole = Unit

settled :
    (m : Main) (lines : List Text) (kept : Text) (stop : Bool) (written whole : Text)
    → MainHolds m lines kept
    → written ++ (kept ++ concat lines) ≡ whole
    → Stops m stop
    → Settled m stop written whole
settled (over at_eof) lines kept stop written whole (k, l) e s =
    (s, sym (append-nil written) ∙ (rw (k, l) at e))
settled (over interrupted) lines kept stop written whole h e s = s
settled (over failed) lines kept stop written whole h e s = s
settled asks lines kept stop written whole h e s = tt
settled (writes line) lines kept stop written whole h e s = tt
settled flushes lines kept stop written whole h e s = tt
settled drains lines kept stop written whole h e s = tt
settled (leaves g) lines kept stop written whole h e s = tt
settled (joins g) lines kept stop written whole h e s = tt

all-append : (p : ℕ → Bool) (a b : Text) → all p (a ++ b) ≡ (all p a && all p b)
all-append p [] b = refl
all-append p (c ∷ a) b = ground (arith, all-append p a b)

-- ASCII bytes are printed as they are.
decoded :
    (u : Unicode) (front held rest whole : Text)
    → all is_ascii whole ≡ true
    → front ++ (held ++ rest) ≡ whole
    → decode_replace u held ≡ held
unfolding decode_replace
decoded u front held rest whole a e =
    let parts : all is_ascii held ≡ true = ground (
      arith,
      ap (all is_ascii) e,
      all-append is_ascii front (held ++ rest),
      all-append is_ascii held rest,
      a,
    ) in
    if_true _ _ parts

module _ (u : Unicode) (said : Text) (typed : List Text) (ascii : all is_ascii said ≡ true) where
  -- What the port said is what was printed, what the reader holds and what is still to come.
  abbrev Out : Talk → Type 0
  Out x = (held : Text) × PumpHolds x.pump held × (x.printed ++ (held ++ x.from_port) ≡ said)

  -- What was typed is what was written, what the caller's thread holds and the lines still to come.
  abbrev In : Talk → Type 0
  In x =
      (kept : Text) × MainHolds x.main x.from_stdin kept
      × (x.to_port ++ (kept ++ concat x.from_stdin) ≡ concat typed)
      × Stops x.main x.stop

  Step-Out : {x y : Talk} → Step u x y → Out x → Out y
  Step-Out (pump_stops p s) (held, h, e) = (held, tt, e)
  Step-Out (pump_goes_on p s) (held, h, e) = (held, rw p at h, e)
  Step-Out (pump_hears_nothing p) (held, h, e) = (held, rw p at h, e)
  Step-Out {x} (pump_hears bytes rest p f) (held, h, e) =
      (bytes, refl, flow_heard said x.printed held x.from_port bytes rest (rw p at h) f e)
  Step-Out (pump_loses_port p) (held, h, e) = (held, tt, e)
  Step-Out {x} (pump_prints bytes p) (held, h, e) =
      let here : held ≡ bytes = rw p at h in
      let same_text = decoded u x.printed held x.from_port said ascii e in
      let given : held ≡ decode_replace u bytes = sym same_text ∙ ap (decode_replace u) here in
      ([], refl, flow_passed said x.printed held x.from_port (decode_replace u bytes) given e)
  Step-Out (pump_loses_stdout bytes p) (held, h, e) = (held, tt, e)
  Step-Out (main_reads b line lines m f) o = o
  Step-Out (main_read_fails m) o = o
  Step-Out (main_at_eof m f) o = o
  Step-Out (main_writes line m) o = o
  Step-Out (main_write_fails line front lost m f) o = o
  Step-Out (main_flushes m) o = o
  Step-Out (main_flush_fails m) o = o
  Step-Out (main_drains m) o = o
  Step-Out (main_interrupted i) o = o
  Step-Out (main_sets_stop e m) o = o
  Step-Out (main_returns e m) o = o

  Step-In : {x y : Talk} → Step u x y → In x → In y
  Step-In (pump_stops p s) i = i
  Step-In (pump_goes_on p s) i = i
  Step-In (pump_hears_nothing p) i = i
  Step-In (pump_hears bytes rest p f) i = i
  Step-In (pump_loses_port p) i = i
  Step-In (pump_prints bytes p) i = i
  Step-In (pump_loses_stdout bytes p) i = i
  Step-In {x} (main_reads b line lines m f) (kept, h, e, s) = (
    b ∷ line,
    refl,
    flow_heard (concat typed) x.to_port kept (concat x.from_stdin) (b ∷ line) (concat lines)
        (rw m at h) (ap concat f) e,
    tt,
  )
  Step-In (main_read_fails m) (kept, h, e, s) = (kept, tt, e, tt)
  Step-In (main_at_eof m f) (kept, h, e, s) = (kept, (rw m at h, f), e, tt)
  Step-In {x} (main_writes line m) (kept, h, e, s) = (
    [],
    refl,
    flow_passed (concat typed) x.to_port kept (concat x.from_stdin) line (rw m at h) e,
    tt,
  )
  Step-In {x} (main_write_fails line front lost m f) (kept, h, e, s) = (
    lost,
    tt,
    flow_lost (concat typed) x.to_port kept (concat x.from_stdin) line front lost (rw m at h) f e,
    tt,
  )
  Step-In (main_flushes m) (kept, h, e, s) = (kept, rw m at h, e, tt)
  Step-In (main_flush_fails m) (kept, h, e, s) = (kept, tt, e, tt)
  Step-In (main_drains m) (kept, h, e, s) = (kept, rw m at h, e, tt)
  Step-In (main_interrupted i) (kept, h, e, s) = (kept, tt, e, tt)
  Step-In (main_sets_stop g m) (kept, h, e, s) = (kept, rw m at h, e, refl)
  Step-In (main_returns g m) (kept, h, e, s) = (kept, rw m at h, e, rw m at s)

  Reach-flows : {x y : Talk} → Reach u x y → Out x × In x → Out y × In y
  Reach-flows start f = f
  Reach-flows (next_step r s) f = let (o, i) = Reach-flows r f in (Step-Out s o, Step-In s i)

  -- Whatever the order of the two threads, and wherever Ctrl-C or an error ends them: if the port says
  -- ASCII only, what `interact` has printed is the first part of that, and what it has written to the
  -- port is the first part of the lines that were typed. Once it is over the stop event is set, and
  -- all the lines were written if stdin came to its end.
  pub interact_lem :
      {x : Talk}
      → Reach u (new_talk said typed) x
      → ((rest : Text) × (x.printed ++ rest ≡ said))
        × ((rest : Text) × (x.to_port ++ rest ≡ concat typed))
        × Settled x.main x.stop x.to_port (concat typed)
  interact_lem {x} r =
      let (o, i) = Reach-flows r (([], refl, refl), ([], refl, refl, tt)) in
      (
        (o.0 ++ x.from_port, o.2),
        (i.0 ++ concat x.from_stdin, i.2),
        settled x.main x.from_stdin i.0 x.stop x.to_port (concat typed) i.1 i.2 i.3,
      )
