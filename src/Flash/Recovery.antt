-- ===== src/Flash/Recovery.antt =====
-- The recovery protocol of `flash_hex` (src/mbdeploy/flash.py) as a step relation on what the
-- finished commands show, and the proof that `flash_hex` follows it.
use mbdeploy.Base.{
  ◌≡◌, refl, sym, ◌∙◌, true, false, List, [], ◌∷◌, ◌++◌, append-nil, append_assoc, ℤ, nonzero,
  Bool-cases, inl, inr,
}
use mbdeploy.Text.{Text, Unicode}
use mbdeploy.Flash.{
  Argv, Process, Loaded, parsed, Attempt, Shell, Target, say, flash_cmd, erase_cmd, reset_cmd,
  run_streamed, looks_transient, looks_locked, reset, after_reflash, after_erase, after_flash,
  retry_transient, flash_hex, validate_hex, locked_message, erase_message, wiped_message,
  unrecognized_message, transient_message,
}
use mbdeploy.Flash.Streaming.{attempt, run_streamed_lem}

-- Why no further command is run.
pub data Ending : Type 0 where
  unrecognized erase_failed wiped reset_done : Ending

-- What is known of the board between two commands.
pub data Phase : Type 0 where
  fresh retried locked erased flashed : Phase
  stopped : Ending → ℤ → Phase

abbrev pub Failed : Attempt → Type 0
Failed a = nonzero a.exit ≡ true

abbrev pub Passed : Attempt → Type 0
Passed a = nonzero a.exit ≡ false

module _ (u : Unicode) (t : Target) where
  -- One command, by its argument list, its exit code and its output. Only a failed flash whose
  -- output looks locked leads to `locked`, and only there is the mass erase run.
  pub data Step : Phase → Attempt → Phase → Type 0 where
    first_passes : {a : Attempt} → a.argv ≡ flash_cmd t → Passed a → Step fresh a flashed
    retry :
        {a : Attempt}
        → a.argv ≡ flash_cmd t
        → Failed a
        → looks_transient u a.output ≡ true
        → Step fresh a retried
    first_locked :
        {a : Attempt}
        → a.argv ≡ flash_cmd t
        → Failed a
        → looks_transient u a.output ≡ false
        → looks_locked u a.output ≡ true
        → Step fresh a locked
    first_fails :
        {a : Attempt}
        → a.argv ≡ flash_cmd t
        → Failed a
        → looks_transient u a.output ≡ false
        → looks_locked u a.output ≡ false
        → Step fresh a (stopped unrecognized a.exit)
    retry_passes : {a : Attempt} → a.argv ≡ flash_cmd t → Passed a → Step retried a flashed
    retry_locked :
        {a : Attempt}
        → a.argv ≡ flash_cmd t
        → Failed a
        → looks_locked u a.output ≡ true
        → Step retried a locked
    retry_fails :
        {a : Attempt}
        → a.argv ≡ flash_cmd t
        → Failed a
        → looks_locked u a.output ≡ false
        → Step retried a (stopped unrecognized a.exit)
    erase_passes : {a : Attempt} → a.argv ≡ erase_cmd t → Passed a → Step locked a erased
    erase_fails :
        {a : Attempt}
        → a.argv ≡ erase_cmd t
        → Failed a
        → Step locked a (stopped erase_failed a.exit)
    reflash_passes : {a : Attempt} → a.argv ≡ flash_cmd t → Passed a → Step erased a flashed
    reflash_fails :
        {a : Attempt} → a.argv ≡ flash_cmd t → Failed a → Step erased a (stopped wiped a.exit)
    resets : {a : Attempt} → a.argv ≡ reset_cmd t → Step flashed a (stopped reset_done a.exit)

  pub data Steps : Phase → List Attempt → Phase → Type 0 where
    done : {p : Phase} → Steps p [] p
    then_step :
        {p q r : Phase} {a : Attempt} {h : List Attempt}
        → Step p a q
        → Steps q h r
        → Steps p (a ∷ h) r

  -- the last line of the log, for the endings that report one
  abbrev pub Reports : Ending → ℤ → List Text → Type 0
  Reports unrecognized rc log = (l : List Text) × (log ≡ l ++ unrecognized_message rc ∷ [])
  Reports erase_failed rc log = (l : List Text) × (log ≡ l ++ erase_message rc ∷ [])
  Reports wiped rc log = (l : List Text) × (log ≡ l ++ wiped_message t rc ∷ [])
  Reports reset_done rc log = Unit

  module _ {W : Type 0} where
    -- From phase `p` and the shell `sh`, the commands run since lead to the end that `r` reports.
    pub record Ends (p : Phase) (sh : Shell W) (r : ℤ × Shell W) : Type 0 where
      pub new : List Attempt
      pub ending : Ending
      pub ran : r.1.ran ≡ sh.ran ++ new
      pub steps : Steps p new (stopped ending r.0)
      pub reports : Reports ending r.0 r.1.log

module _ {W : Type 0} (u : Unicode) (spawn : Argv → W → Process × W) (load : Text → W → Loaded)
    (t : Target) where
  abbrev run : Argv → Shell W → Attempt × Shell W
  run = run_streamed u spawn load

  -- `a` has been run in phase `p`, and `r` is how it ends from `sh`.
  abbrev Leads : Phase → Attempt → Shell W → ℤ × Shell W → Type 0
  Leads p a sh r = (q : Phase) × Step u t p a q × Ends u t q sh r

  Ends-run :
      {p : Phase} (cmd : Argv) (sh : Shell W) (k : Attempt × Shell W → ℤ × Shell W)
      → ((a : Attempt) (sh' : Shell W) → a.argv ≡ cmd → Leads p a sh' (k (a, sh')))
      → Ends u t p sh (k (run cmd sh))
  Ends-run cmd sh k leads =
      let (q, s, e) = leads _ _ refl in
      rw run_streamed_lem (record {
        new = attempt u spawn load cmd sh.world ∷ e.new;
        ending = e.ending;
        ran = e.ran ∙ append_assoc sh.ran _ e.new;
        steps = then_step s e.steps;
        reports = e.reports;
      })

  Ends-say :
      {p : Phase} (m : Text) (sh : Shell W) (r : ℤ × Shell W)
      → Ends u t p (say m sh) r
      → Ends u t p sh r
  Ends-say m sh r e = record {
    new = e.new;
    ending = e.ending;
    ran = e.ran;
    steps = e.steps;
    reports = e.reports;
  }

  stop_here :
      {e : Ending} {rc : ℤ} (sh sh' : Shell W)
      → sh'.ran ≡ sh.ran
      → Reports u t e rc sh'.log
      → Ends u t (stopped e rc) sh (rc, sh')
  stop_here {e} sh sh' same_ran reports = record {
    new = [];
    ending = e;
    ran = same_ran ∙ sym (append-nil sh.ran);
    steps = done;
    reports = reports;
  }

  reset-Ends : (sh : Shell W) → Ends u t flashed sh (reset u spawn load t sh)
  unfolding reset
  reset-Ends sh =
      Ends-run (reset_cmd t) sh (λ (a, sh'). (a.exit, sh'))
        (λ a sh' e. (stopped reset_done a.exit, resets e, stop_here sh' sh' refl tt))

  after_reflash-Leads :
      (b : Attempt) (sh : Shell W)
      → b.argv ≡ flash_cmd t
      → Leads erased b sh (after_reflash u spawn load t (b, sh))
  unfolding after_reflash
  after_reflash-Leads b sh e = elim (Bool-cases (nonzero b.exit)) [
    | inl f ↦ rw f (_, reflash_fails e f, stop_here sh (say _ sh) refl (sh.log, refl))
    | inr p ↦ rw p (_, reflash_passes e p, reset-Ends sh)
  ]

  after_erase-Leads :
      (a : Attempt) (sh : Shell W)
      → a.argv ≡ erase_cmd t
      → Leads locked a sh (after_erase u spawn load t (a, sh))
  unfolding after_erase
  after_erase-Leads a sh e = elim (Bool-cases (nonzero a.exit)) [
    | inl f ↦ rw f (_, erase_fails e f, stop_here sh (say _ sh) refl (sh.log, refl))
    | inr p ↦ rw p (
      _,
      erase_passes e p,
      Ends-run (flash_cmd t) sh (after_reflash u spawn load t) after_reflash-Leads,
    )
  ]

  -- the phases in which a flash may be found locked
  data Decides : Phase → Attempt → Type 0 where
    once : {a : Attempt} → (Failed a → looks_transient u a.output ≡ false) → Decides fresh a
    twice : {a : Attempt} → Decides retried a

  locks :
      {p : Phase} {a : Attempt}
      → Decides p a
      → a.argv ≡ flash_cmd t
      → Failed a
      → looks_locked u a.output ≡ true
      → Step u t p a locked
  locks (once n) e f l = first_locked e f (n f) l
  locks twice e f l = retry_locked e f l

  fails :
      {p : Phase} {a : Attempt}
      → Decides p a
      → a.argv ≡ flash_cmd t
      → Failed a
      → looks_locked u a.output ≡ false
      → Step u t p a (stopped unrecognized a.exit)
  fails (once n) e f l = first_fails e f (n f) l
  fails twice e f l = retry_fails e f l

  passes :
      {p : Phase} {a : Attempt}
      → Decides p a
      → a.argv ≡ flash_cmd t
      → Passed a
      → Step u t p a flashed
  passes (once n) e p = first_passes e p
  passes twice e p = retry_passes e p

  after_flash-Leads :
      {p : Phase} (a : Attempt) (sh : Shell W)
      → Decides p a
      → a.argv ≡ flash_cmd t
      → Leads p a sh (after_flash u spawn load t (a, sh))
  unfolding after_flash
  after_flash-Leads a sh d e = elim (Bool-cases (nonzero a.exit)) [
    | inr p ↦ rw p (_, passes d e p, reset-Ends sh)
    | inl f ↦ elim (Bool-cases (looks_locked u a.output)) [
      | inl l ↦
          rw (f, l)
            (
              _,
              locks d e f l,
              Ends-say locked_message sh _ (
                  Ends-run (erase_cmd t) (say locked_message sh) (after_erase u spawn load t)
                    after_erase-Leads),
            )
      | inr l ↦ rw (f, l) (_, fails d e f l, stop_here sh (say _ sh) refl (sh.log, refl))
    ]
  ]

  retry_transient-Leads :
      (a : Attempt) (sh : Shell W)
      → a.argv ≡ flash_cmd t
      → Leads fresh a sh (after_flash u spawn load t (retry_transient u spawn load t (a, sh)))
  unfolding retry_transient
  retry_transient-Leads a sh e = elim (Bool-cases (nonzero a.exit)) [
    | inr p ↦ rw p (after_flash-Leads a sh (once (λ f. cc)) e)
    | inl f ↦ elim (Bool-cases (looks_transient u a.output)) [
      | inl r ↦
          rw (f, r)
            (
              _,
              retry e f r,
              Ends-say transient_message sh _ (
                  Ends-run (flash_cmd t) (say transient_message sh) (after_flash u spawn load t)
                    (λ b sh' e'. after_flash-Leads b sh' twice e')),
            )
      | inr r ↦ rw (f, r) (after_flash-Leads a sh (once (λ _. r)) e)
    ]
  ]

  -- With a hex file that parses, the commands that `flash_hex` runs follow the protocol `Step` from
  -- the start to an end, its result is the exit code of the last command, and an end other than
  -- the reset is reported by the last line of the log: an unrecognized failure, a failed mass
  -- erase, or a board that was erased and has no firmware, which the line names.
  pub flash_hex-Ends :
      (sh : Shell W)
      → load t.hex_path sh.world ≡ parsed
      → Ends u t fresh sh (flash_hex u spawn load t sh)
  unfolding flash_hex validate_hex
  flash_hex-Ends sh h =
      rw (h, flash_hex, validate_hex)
        (Ends-run (flash_cmd t) sh
          (λ r. after_flash u spawn load t (retry_transient u spawn load t r))
          retry_transient-Leads)
