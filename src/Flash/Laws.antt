-- ===== src/Flash/Laws.antt =====
-- What the recovery protocol of `flash_hex` (src/mbdeploy/flash.py) guarantees.
use mbdeploy.Base.{
  ℕ, ◌+◌, ◌≤◌, ◌≡◌, ◌≢◌, refl, sym, ◌∙◌, ap, true, Option, none, some, List, [], ◌∷◌, ◌++◌, arith,
  pos, nonzero_iff, length, ◌⊎◌, inl, inr,
}
use mathlib.Core.Path.{subst}
use mbdeploy.Text.{Text, Unicode, codes}
use mbdeploy.Flash.{
  Argv, Process, Loaded, parsed, os_error, hex_error, Attempt, Shell, Target, start, flash_cmd,
  erase_cmd, reset_cmd, looks_locked, flash_hex, validate_hex,
}
use mbdeploy.Flash.Recovery.{
  Ending, Phase, fresh, retried, locked, erased, flashed, stopped, Failed, Passed, Step,
  first_passes, retry, first_locked, first_fails, retry_passes, retry_locked, retry_fails,
  erase_passes, erase_fails, reflash_passes, reflash_fails, resets, Steps, done, then_step, Ends,
  flash_hex-Ends,
}

module _ (u : Unicode) (t : Target) where
  -- the command before: a flash that failed, and whose output looks locked
  abbrev pub WasLocked : Option Attempt → Type 0
  WasLocked none = ⊥
  WasLocked (some b) = (b.argv ≡ flash_cmd t) × (b.exit ≢ pos 0) × (looks_locked u b.output ≡ true)

  -- Every mass erase in the history comes directly after such a command.
  abbrev pub Justified : Option Attempt → List Attempt → Type 0
  Justified before [] = Unit
  Justified before (a ∷ h) = (a.argv ≡ erase_cmd t → WasLocked before) × Justified (some a) h

  abbrev Before : Phase → Option Attempt → Type 0
  Before locked before = WasLocked before
  Before _ before = Unit

  Failed-ne : (a : Attempt) → Failed a → a.exit ≢ pos 0
  Failed-ne a f e = ground (arith, f, e)

  -- the first character of pyocd's subcommand
  abbrev verb : Argv → ℕ
  verb (_ ∷ _ ∷ _ ∷ (c ∷ _) ∷ _) = c
  verb _ = 0

  flash-ne-erase : {c : Argv} → c ≡ flash_cmd t → c ≢ erase_cmd t
  unfolding flash_cmd erase_cmd
  flash-ne-erase e e' = absurd (omega (arith, ap verb (sym e ∙ e')))

  reset-ne-erase : {c : Argv} → c ≡ reset_cmd t → c ≢ erase_cmd t
  unfolding reset_cmd erase_cmd
  reset-ne-erase e e' = absurd (omega (arith, ap verb (sym e ∙ e')))

  Step-Justified :
      {p q : Phase} {a : Attempt} (before : Option Attempt)
      → Step u t p a q
      → Before p before
      → (a.argv ≡ erase_cmd t → WasLocked before) × Before q (some a)
  Step-Justified before (first_passes e _) b = (λ x. absurd (flash-ne-erase e x), tt)
  Step-Justified before (retry e _ _) b = (λ x. absurd (flash-ne-erase e x), tt)
  Step-Justified before (first_locked {a} e f _ l) b =
      (λ x. absurd (flash-ne-erase e x), (e, Failed-ne a f, l))
  Step-Justified before (first_fails e _ _ _) b = (λ x. absurd (flash-ne-erase e x), tt)
  Step-Justified before (retry_passes e _) b = (λ x. absurd (flash-ne-erase e x), tt)
  Step-Justified before (retry_locked {a} e f l) b =
      (λ x. absurd (flash-ne-erase e x), (e, Failed-ne a f, l))
  Step-Justified before (retry_fails e _ _) b = (λ x. absurd (flash-ne-erase e x), tt)
  Step-Justified before (erase_passes _ _) b = (λ x. b, tt)
  Step-Justified before (erase_fails _ _) b = (λ x. b, tt)
  Step-Justified before (reflash_passes e _) b = (λ x. absurd (flash-ne-erase e x), tt)
  Step-Justified before (reflash_fails e _) b = (λ x. absurd (flash-ne-erase e x), tt)
  Step-Justified before (resets e) b = (λ x. absurd (reset-ne-erase e x), tt)

  Steps-Justified :
      {p q : Phase} {h : List Attempt} (before : Option Attempt)
      → Steps u t p h q
      → Before p before
      → Justified before h
  Steps-Justified before done b = tt
  Steps-Justified before (then_step {a} s ss) b =
      let (here, after) = Step-Justified before s b in (here, Steps-Justified (some a) ss after)

  -- how many commands may follow
  abbrev room : Phase → ℕ
  room fresh = 5
  room retried = 4
  room locked = 3
  room erased = 2
  room flashed = 1
  room (stopped _ _) = 0

  Step-room : {p q : Phase} {a : Attempt} → Step u t p a q → room q + 1 ≤ room p
  Step-room (first_passes _ _) = omega arith
  Step-room (retry _ _ _) = omega arith
  Step-room (first_locked _ _ _ _) = omega arith
  Step-room (first_fails _ _ _ _) = omega arith
  Step-room (retry_passes _ _) = omega arith
  Step-room (retry_locked _ _ _) = omega arith
  Step-room (retry_fails _ _ _) = omega arith
  Step-room (erase_passes _ _) = omega arith
  Step-room (erase_fails _ _) = omega arith
  Step-room (reflash_passes _ _) = omega arith
  Step-room (reflash_fails _ _) = omega arith
  Step-room (resets _) = omega arith

  Steps-room : {p q : Phase} {h : List Attempt} → Steps u t p h q → length h ≤ room p
  Steps-room done = omega arith
  Steps-room (then_step s ss) = omega (arith, Step-room s, Steps-room ss)

  -- A flash that passed and, as the very last command, a reset that passed.
  abbrev pub EndsWell : List Attempt → Type 0
  EndsWell h =
      (pre : List Attempt) × (f : Attempt) × (r : Attempt) × (h ≡ pre ++ f ∷ r ∷ [])
      × (f.argv ≡ flash_cmd t)
      × (f.exit ≡ pos 0)
      × (r.argv ≡ reset_cmd t)
      × (r.exit ≡ pos 0)

  EndsWell-cons : (a : Attempt) {h : List Attempt} → EndsWell h → EndsWell (a ∷ h)
  EndsWell-cons a (pre, f, r, e, fs, fe, rs, re) = (a ∷ pre, f, r, ap (◌∷◌ a) e, fs, fe, rs, re)

  -- what a history from phase `p` looks like if the result is 0
  abbrev Well : Phase → List Attempt → Type 0
  Well (stopped e rc) h = (h ≡ []) × (rc ≡ pos 0)
  Well flashed h = (r : Attempt) × (h ≡ r ∷ []) × (r.argv ≡ reset_cmd t) × (r.exit ≡ pos 0)
  Well _ h = EndsWell h

  Passed-eq : (a : Attempt) → Passed a → a.exit ≡ pos 0
  Passed-eq a p = (nonzero_iff a.exit).0 p

  flashed-Well :
      (a : Attempt) {h : List Attempt}
      → a.argv ≡ flash_cmd t
      → Passed a
      → Well flashed h
      → EndsWell (a ∷ h)
  flashed-Well a e p (r, hr, rs, re) = ([], a, r, ap (◌∷◌ a) hr, e, Passed-eq a p, rs, re)

  Step-Well :
      {p q : Phase} {a : Attempt} (h : List Attempt) → Step u t p a q → Well q h → Well p (a ∷ h)
  Step-Well h (first_passes {a} e p) w = flashed-Well a e p w
  Step-Well h (retry {a} _ _ _) w = EndsWell-cons a w
  Step-Well h (first_locked {a} _ _ _ _) w = EndsWell-cons a w
  Step-Well h (first_fails {a} _ f _ _) w = absurd (Failed-ne a f w.1)
  Step-Well h (retry_passes {a} e p) w = flashed-Well a e p w
  Step-Well h (retry_locked {a} _ _ _) w = EndsWell-cons a w
  Step-Well h (retry_fails {a} _ f _) w = absurd (Failed-ne a f w.1)
  Step-Well h (erase_passes {a} _ _) w = EndsWell-cons a w
  Step-Well h (erase_fails {a} _ f) w = absurd (Failed-ne a f w.1)
  Step-Well h (reflash_passes {a} e p) w = flashed-Well a e p w
  Step-Well h (reflash_fails {a} _ f) w = absurd (Failed-ne a f w.1)
  Step-Well h (resets {a} e) w = (a, ap (◌∷◌ a) w.0, e, w.1)

  Steps-Well :
      {p q : Phase} {h : List Attempt} {e : Ending}
      → Steps u t p h q
      → q ≡ stopped e (pos 0)
      → Well p h
  Steps-Well done e = subst (λ x. Well x []) (sym e) (refl, refl)
  Steps-Well (then_step {h = h} s ss) e = Step-Well h s (Steps-Well ss e)

module _ {W : Type 0} (u : Unicode) (spawn : Argv → W → Process × W) (load : Text → W → Loaded)
    (t : Target) where
  -- With a hex file that does not parse, nothing is run and the world stays as it was: the result
  -- is 1, and one line that begins with "Error: " is logged.
  pub flash_hex_unreadable :
      (sh : Shell W)
      → load t.hex_path sh.world ≢ parsed
      → (m : Text) × (flash_hex u spawn load t sh
          ≡ (pos 1, record sh { log = sh.log ++ (codes "Error: " ++ m) ∷ [] }))
  unfolding flash_hex validate_hex
  flash_hex_unreadable sh h = go (load t.hex_path sh.world) refl
    where
      go :
          (l : Loaded)
          → load t.hex_path sh.world ≡ l
          → (m : Text) × (flash_hex u spawn load t sh
              ≡ (pos 1, record sh { log = sh.log ++ (codes "Error: " ++ m) ∷ [] }))
      go parsed e = absurd (h e)
      go (os_error m) e = (
        codes "cannot read hex file " ++ (u.repr t.hex_path ++ (codes ": " ++ m)),
        rw (e, flash_hex, validate_hex),
      )
      go (hex_error m) e = (
        codes "invalid hex file " ++ (u.repr t.hex_path ++ (codes ": " ++ m)),
        rw (e, flash_hex, validate_hex),
      )

  ran-cases :
      (w : W)
      → (flash_hex u spawn load t (start w)).1.ran ≡ []
        ⊎ Ends u t fresh (start w) (flash_hex u spawn load t (start w))
  ran-cases w = go (load t.hex_path w) refl
    where
      go :
          (l : Loaded)
          → load t.hex_path w ≡ l
          → (flash_hex u spawn load t (start w)).1.ran ≡ []
            ⊎ Ends u t fresh (start w) (flash_hex u spawn load t (start w))
      go parsed e = inr (flash_hex-Ends u spawn load t (start w) e)
      go (os_error m) e = inl (ap (λ r. r.1.ran) (flash_hex_unreadable (start w) (λ x. cc)).1)
      go (hex_error m) e = inl (ap (λ r. r.1.ran) (flash_hex_unreadable (start w) (λ x. cc)).1)

  -- Whatever pyocd does, a mass erase is only ever run directly after a flash that failed with
  -- output that looks locked: a failure that is not recognized never erases a board.
  pub flash_hex_erases_only_locked :
      (w : W) → Justified u t none (flash_hex u spawn load t (start w)).1.ran
  flash_hex_erases_only_locked w = elim (ran-cases w) [
    | inl e ↦ rw e tt
    | inr e ↦ rw e.ran (Steps-Justified u t none e.steps tt)
  ]

  -- At most five pyocd commands are run.
  pub flash_hex_at_most_five : (w : W) → length (flash_hex u spawn load t (start w)).1.ran ≤ 5
  flash_hex_at_most_five w = elim (ran-cases w) [
    | inl e ↦ rw e (omega arith)
    | inr e ↦ rw e.ran (Steps-room u t e.steps)
  ]

  -- The result 0 means that the board was flashed: the last command but one is a flash that passed,
  -- and the last a reset that passed.
  pub flash_hex_success :
      (w : W)
      → load t.hex_path w ≡ parsed
      → (flash_hex u spawn load t (start w)).0 ≡ pos 0
      → EndsWell u t (flash_hex u spawn load t (start w)).1.ran
  flash_hex_success w p z =
      let e = flash_hex-Ends u spawn load t (start w) p in
      rw e.ran (Steps-Well u t e.steps (ap (stopped e.ending) z))
