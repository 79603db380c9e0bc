-- ===== src/Console/Reply.antt =====
-- When `send_command` of src/mbdeploy/console.py returns, and with which lines.
use mbdeploy.Base.{
  leb, ◌||◌, ℕ, zero, suc, ◌+◌, ◌<◌, ◌≡◌, refl, sym, ap, ◌∙◌, Bool, true, false, not, ◌&&◌, List,
  [], ◌∷◌, ◌++◌, arith, is_nil, append-nil, append_assoc, Bool-cases, inl, inr, if◌then◌else◌,
}
use mbdeploy.Text.{Text, Unicode, decode_replace}
use mbdeploy.Text.Strip.{rstrip}
use mbdeploy.Console.{Port, keep_line, is_over, text_of, on_raw, collect, sent, send_command}

-- what came back: the bytes of each read, and the clock after it
abbrev pub Heard : Type 0
Heard = List (Text × ℕ)

-- Whether `f` holds below `n`.
abbrev pub all_below : ℕ → (ℕ → Bool) → Bool
all_below zero f = true
all_below (suc n) f = f zero && all_below n (λ k. f (suc k))

all_below-cong : (n : ℕ) (f g : ℕ → Bool) → ((k : ℕ) → f k ≡ g k) → all_below n f ≡ all_below n g
all_below-cong zero f g e = refl
all_below-cong (suc n) f g e =
    rw (e zero, all_below-cong n (λ k. f (suc k)) (λ k. g (suc k)) (λ k. e (suc k))) refl

module _ {W : Type 0} (u : Unicode) (port : Port W) where
  -- `n` reads from a world: what they returned, and the world after them
  abbrev pub reads : ℕ → W → Heard × W
  reads zero w = ([], w)
  reads (suc n) w =
      let (raw, after) = port.readline w in
      let (heard, last) = reads n after in ((raw, port.clock after) ∷ heard, last)

  -- the texts of those that are not blank
  abbrev pub reply_lines : Heard → List Text
  reply_lines [] = []
  reply_lines ((raw, t) ∷ heard) =
      if is_nil (text_of u port raw)
      then reply_lines heard
      else text_of u port raw ∷ reply_lines heard

  -- `idle_gap` after the last read that returned a byte, and `quiet` where none did
  abbrev pub quiet_from : ℕ → ℕ → Heard → ℕ
  quiet_from idle_gap quiet [] = quiet
  quiet_from idle_gap quiet (([], t) ∷ heard) = quiet_from idle_gap quiet heard
  quiet_from idle_gap quiet ((b ∷ raw, t) ∷ heard) = quiet_from idle_gap (t + idle_gap) heard

  -- Whether the reply is complete after `n` reads: the deadline is past, or there is a line and
  -- the port has been silent for `idle_gap`.
  abbrev pub complete_from : ℕ → ℕ → List Text → ℕ → W → ℕ → Bool
  complete_from deadline idle_gap lines quiet w n =
      let (heard, last) = reads n w in
      let is_late = leb deadline (port.clock last) in
      let is_answered = not (is_nil (lines ++ reply_lines heard)) in
      let is_quiet = leb (quiet_from idle_gap quiet heard) (port.clock last) in
      is_late || (is_answered && is_quiet)

  -- the lines after `n` reads, and the world
  abbrev pub gathered : List Text → W → ℕ → List Text × W
  gathered lines w n = (lines ++ reply_lines (reads n w).0, (reads n w).1)

  -- `n` is the least number of reads after which the reply is complete, and `r` is that reply.
  abbrev pub LeastReads : ℕ → ℕ → List Text → ℕ → W → List Text × W → Type 0
  LeastReads deadline idle_gap lines quiet w r =
      (n : ℕ) × (r ≡ gathered lines w n)
      × (complete_from deadline idle_gap lines quiet w n ≡ true)
      × (all_below n (λ k. not (complete_from deadline idle_gap lines quiet w k)) ≡ true)

  keep_line-append :
      (text : Text) (lines : List Text) (more : List Text)
      → keep_line text lines ++ more ≡ lines ++ (if is_nil text then more else text ∷ more)
  keep_line-append [] lines more = refl
  keep_line-append (c ∷ text) lines more = append_assoc lines ((c ∷ text) ∷ []) more

  text_of-nil : text_of u port [] ≡ []
  unfolding rstrip decode_replace
  text_of-nil = refl

  -- one read first, then `n`: the same as `n` from where that read leaves the exchange
  complete_from-shift :
      (deadline idle_gap : ℕ) (lines : List Text) (quiet : ℕ) (w : W) (b : ℕ) (raw : Text)
      (after : W) (n : ℕ)
      → port.readline w ≡ (b ∷ raw, after)
      → complete_from deadline idle_gap lines quiet w (suc n)
        ≡ complete_from deadline idle_gap
            (keep_line (text_of u port (b ∷ raw)) lines)
            (port.clock after + idle_gap)
            after
            n
  complete_from-shift deadline idle_gap lines quiet w b raw after n e =
      rw (e, keep_line-append (text_of u port (b ∷ raw)) lines (reply_lines (reads n after).0)) refl

  complete_from-silent :
      (deadline idle_gap : ℕ) (lines : List Text) (quiet : ℕ) (w : W) (after : W) (n : ℕ)
      → port.readline w ≡ ([], after)
      → complete_from deadline idle_gap lines quiet w (suc n)
        ≡ complete_from deadline idle_gap lines quiet after n
  unfolding rstrip decode_replace
  complete_from-silent deadline idle_gap lines quiet w after n e = rw e refl

  -- no read at all
  LeastReads-none :
      (deadline idle_gap : ℕ) (lines : List Text) (quiet : ℕ) (w : W)
      → is_over deadline quiet lines (port.clock w) ≡ true
      → LeastReads deadline idle_gap lines quiet w (lines, w)
  LeastReads-none deadline idle_gap lines quiet w o =
      (zero, ap (λ l. (l, w)) (sym (append-nil lines)), rw (append-nil lines) o, refl)

  complete_from-none :
      (deadline idle_gap : ℕ) (lines : List Text) (quiet : ℕ) (w : W)
      → complete_from deadline idle_gap lines quiet w zero
        ≡ is_over deadline quiet lines (port.clock w)
  complete_from-none deadline idle_gap lines quiet w = rw (append-nil lines) refl

  -- what is gathered from `w` in one read more is what is gathered from `after`
  LeastReads-next :
      (deadline idle_gap : ℕ) (lines next : List Text) (quiet later : ℕ) (w after : W)
      (r : List Text × W)
      → is_over deadline quiet lines (port.clock w) ≡ false
      → ((n : ℕ)
          → complete_from deadline idle_gap lines quiet w (suc n)
            ≡ complete_from deadline idle_gap next later after n)
      → ((n : ℕ) → gathered next after n ≡ gathered lines w (suc n))
      → LeastReads deadline idle_gap next later after r
      → LeastReads deadline idle_gap lines quiet w r
  LeastReads-next deadline idle_gap lines next quiet later w after r o shift same
        (n, eq, c, below) =
      (
        suc n,
        eq ∙ same n,
        shift n ∙ c,
        rw
            (
              complete_from-none deadline idle_gap lines quiet w,
              o,
              all_below-cong n (λ k. not (complete_from deadline idle_gap lines quiet w (suc k)))
                  (λ k. not (complete_from deadline idle_gap next later after k))
                  (λ k. ap not (shift k)),
            )
            below,
      )

  -- With the fuel above what is left until the deadline, each round follows.
  abbrev Finishes : ℕ → ℕ → ℕ → (List Text → ℕ → W → List Text × W) → Type 0
  Finishes fuel deadline idle_gap again =
      (lines : List Text) (quiet : ℕ) (w : W)
      → deadline < fuel + port.clock w
      → LeastReads deadline idle_gap lines quiet w (again lines quiet w)

  on_raw-Least :
      (fuel deadline idle_gap : ℕ) (again : List Text → ℕ → W → List Text × W) (lines : List Text)
      (quiet : ℕ) (w : W) (r : Text × W)
      → Finishes fuel deadline idle_gap again
      → port.readline w ≡ r
      → deadline < fuel + port.clock r.1
      → is_over deadline quiet lines (port.clock w) ≡ false
      → LeastReads deadline idle_gap lines quiet w (on_raw u port again idle_gap lines quiet r)
  unfolding rstrip decode_replace
  on_raw-Least fuel deadline idle_gap again lines quiet w ([], after) f e lt o =
      LeastReads-next deadline idle_gap lines lines quiet quiet w after (again lines quiet after) o
        (λ n. complete_from-silent deadline idle_gap lines quiet w after n e) (λ n. rw e refl)
        (f lines quiet after lt)
  on_raw-Least fuel deadline idle_gap again lines quiet w (b ∷ raw, after) f e lt o =
      let next = keep_line (text_of u port (b ∷ raw)) lines in
      let later = port.clock after + idle_gap in
      LeastReads-next deadline idle_gap lines next quiet later w after (again next later after) o
        (λ n. complete_from-shift deadline idle_gap lines quiet w b raw after n e)
        (λ n.
          rw (e, keep_line-append (text_of u port (b ∷ raw)) lines (reply_lines (reads n after).0))
            refl)
        (f next later after lt)

  -- the clock goes on in each read
  module _ (advances : (w : W) → port.clock w < port.clock (port.readline w).1) where
    collect-Finishes :
        (fuel deadline idle_gap : ℕ)
        → Finishes fuel deadline idle_gap (collect u port fuel deadline idle_gap)
    unfolding collect
    collect-Finishes zero deadline idle_gap lines quiet w lt =
        LeastReads-none deadline idle_gap lines quiet w (ground (arith, lt))
    collect-Finishes (suc fuel) deadline idle_gap lines quiet w lt =
        elim (Bool-cases (is_over deadline quiet lines (port.clock w))) [
          | inl y ↦ rw (y, collect) (LeastReads-none deadline idle_gap lines quiet w y)
          | inr n ↦
              rw (n, collect)
                (on_raw-Least fuel deadline idle_gap (collect u port fuel deadline idle_gap) lines
                  quiet w (port.readline w) (collect-Finishes fuel deadline idle_gap) refl
                  (omega (arith, lt, advances w)) n)
        ]

    -- When the clock goes on in each read, `send_command` returns after the least number of reads
    -- that make the reply complete: the deadline is past, or there is a line and no byte came in
    -- the last `idle_gap`. Its lines are the texts of those reads that are not blank, in order, and
    -- nothing is read after them.
    pub send_command_lem :
        (message : Text) (timeout idle_gap : ℕ) (w : W)
        → let asked = sent u port message w in
          let deadline = port.clock asked + timeout in
          LeastReads deadline idle_gap [] deadline asked
            (send_command u port message timeout idle_gap w)
    unfolding send_command
    send_command_lem message timeout idle_gap w =
        let asked = sent u port message w in
        let deadline = port.clock asked + timeout in
        collect-Finishes (suc timeout) deadline idle_gap [] deadline asked (omega arith)
