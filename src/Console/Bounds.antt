-- ===== src/Console/Bounds.antt =====
-- How long `send_command` of src/mbdeploy/console.py takes.
use mbdeploy.Base.{
  ℕ, zero, suc, ◌+◌, ◌≤◌, ◌<◌, ◌≡◌, refl, Bool, true, false, not, List, [], ◌∷◌, arith, is_nil, inl,
  inr, ◌⊎◌,
}
use mbdeploy.Text.{Text, Unicode}
use mbdeploy.Console.{Port, is_over, sent, send_command}
use mbdeploy.Console.Reply.{
  all_below, reads, reply_lines, quiet_from, complete_from, send_command_lem,
}

all_below-last : (n : ℕ) (f : ℕ → Bool) → all_below (suc n) f ≡ true → f n ≡ true
all_below-last zero f h = ground (arith, h)
all_below-last (suc n) f h = all_below-last n (λ k. f (suc k)) (ground (arith, h))

over_silent :
    (deadline quiet : ℕ) (lines : List Text) (now : ℕ)
    → is_over deadline quiet lines now ≡ true
    → (is_nil lines ≡ false) ⊎ (deadline ≤ now)
over_silent deadline quiet [] now o = inr (ground (arith, o))
over_silent deadline quiet (line ∷ lines) now o = inl refl

module _ {W : Type 0} (u : Unicode) (port : Port W) where
  -- the last of the reads
  reads-last : (n : ℕ) (w : W) → (reads u port (suc n) w).1 ≡ (port.readline (reads u port n w).1).1
  reads-last zero w = refl
  reads-last (suc n) w = reads-last n (port.readline w).1

  -- time that does not stand still
  module _ (advances : (w : W) → port.clock w < port.clock (port.readline w).1) where
    LeastReads-ends :
        (timeout idle_gap : ℕ) (w : W) (n : ℕ)
        → all_below n (λ k.
          not (
            complete_from u port (port.clock w + timeout) idle_gap [] (port.clock w + timeout) w k))
          ≡ true
        → ((reads u port n w).1 ≡ w)
          ⊎ ((k : ℕ) × ((reads u port n w).1 ≡ (port.readline (reads u port k w).1).1)
              × (port.clock (reads u port k w).1 < port.clock w + timeout))
    LeastReads-ends timeout idle_gap w zero below = inl refl
    LeastReads-ends timeout idle_gap w (suc n) below =
        let deadline = port.clock w + timeout in
        let open_yet =
          all_below-last n (λ k. not (complete_from u port deadline idle_gap [] deadline w k))
            below in
        inr (n, reads-last n w, ground (arith, open_yet))

    -- When the clock goes on in each read, `send_command` begins no read at or after its deadline: it
    -- returns at once, or after a read that began before the deadline. Where it returns no line, the
    -- deadline is past.
    pub send_command-bounds :
        (message : Text) (timeout idle_gap : ℕ) (w : W)
        → let asked = sent u port message w in
          let (lines, last) = send_command u port message timeout idle_gap w in
          ((last ≡ asked)
            ⊎ ((k : ℕ) × (last ≡ (port.readline (reads u port k asked).1).1)
                × (port.clock (reads u port k asked).1 < port.clock asked + timeout)))
          × ((is_nil lines ≡ false) ⊎ (port.clock asked + timeout ≤ port.clock last))
    send_command-bounds message timeout idle_gap w =
        let (n, eq, c, below) = send_command_lem u port advances message timeout idle_gap w in
        let asked = sent u port message w in
        let deadline = port.clock asked + timeout in
        let (heard, last) = reads u port n asked in
        rw eq (
          LeastReads-ends timeout idle_gap asked n below,
          over_silent deadline (quiet_from u port idle_gap deadline heard)
              (reply_lines u port heard) (port.clock last) c,
        )
