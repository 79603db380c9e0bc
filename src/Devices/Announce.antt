-- ===== src/Devices/Announce.antt =====
-- `probe_type` and `is_relay` of src/mbdeploy/devices.py: what a board says of itself after HELLO.
-- The serial port is a parameter: the results of its reads, each with the time that it took. Times
-- are natural numbers of ticks.
use mbdeploy.Base.{
  not, ℕ, ◌-◌, ◌≡◌, ◌≢◌, refl, ◌∙◌, Bool, true, false, ◌||◌, Option, none, some, List, [], ◌∷◌,
  ◌++◌, arith, ◌==◌, if◌then◌else◌, All, is_nil,
}
use mbdeploy.Text.{
  Text, Unicode, codes, starts_with, is_space, join, contains, upper, decode_ignore,
}
use mbdeploy.Text.Split.{
  split, split_on, IsWord, split-cons, split-word, Lacks, split_on-cons, split_on-ne-nil,
  join-split_on,
}
use mbdeploy.Text.Strip.{strip}

pub record Announcement : Type 0 where
  pub role : Text
  pub common_name : Text
  pub device_name : Text
  pub serial : Text
  pub raw : Text

-- the colon dialect: the serial takes all that is left
colon_fields : Text → List Text → Option Announcement
colon_fields text (_ ∷ r ∷ c ∷ d ∷ s ∷ rest) = some (record {
  role = r;
  common_name = c;
  device_name = d;
  serial = join (codes ":") (s ∷ rest);
  raw = text;
})
colon_fields text _ = none

-- the blank dialect: later words are ignored
word_fields : Text → List Text → Option Announcement
word_fields text (_ ∷ r ∷ c ∷ d ∷ s ∷ rest) =
    some (record { role = r; common_name = c; device_name = d; serial = s; raw = text })
word_fields text _ = none

module _ (u : Unicode) where
  -- the two dialects of one stripped line
  unfoldable pub parse_announcement : Text → Option Announcement
  unfolding colon_fields word_fields
  parse_announcement text =
      if starts_with text (codes "DEVICE:")
      then colon_fields text (split_on b':' text)
      else if starts_with text (codes "device ")
      then word_fields text (split (is_space u) text)
      else none

  -- A read of the port, after some time: the bytes of a line, none at a timeout, or an exception.
  pub data Read : Type 0 where
    line : ℕ → Text → Read
    raised : Read

  -- the loop up to the deadline; a port with no more reads stays silent
  unfoldable pub await_announcement : ℕ → List Read → Option Announcement
  await_announcement budget [] = none
  await_announcement budget (raised ∷ reads) = none
  await_announcement budget (line dt raw ∷ reads) =
      let later = await_announcement (budget - dt) reads in
      let found = parse_announcement (strip (is_space u) (decode_ignore u raw)) in
      if budget == 0
      then none
      else if is_nil raw
      then later
      else elim found [ some a ↦ some a | none ↦ later ]

  -- `is_relay`
  unfoldable pub is_relay : Option Text → Bool
  is_relay none = false
  is_relay (some []) = false
  is_relay (some (c ∷ s)) =
      let r = upper u (c ∷ s) in contains (codes "RELAY") r || contains (codes "BRIDGE") r

  -- What `probe_type` finds when it opens the port.
  pub record Port : Type 0 where
    pub installed : Bool
    pub opens : Bool
    pub reads : List Read

  unfoldable pub probe_type : ℕ → Port → Option Announcement
  unfolding await_announcement
  probe_type timeout p =
      if not p.installed
      then none
      else if not p.opens
      then none
      else await_announcement timeout p.reads

-- the line of a relay and the line of a robot
abbrev pub relay_line : Text → Text → Text → Text → Text
relay_line r c d s = codes "DEVICE" ++ (b':' ∷ (r ++ b':' ∷ (c ++ b':' ∷ (d ++ b':' ∷ s))))

abbrev pub robot_line : Text → Text → Text → Text → Text
robot_line r c d s = codes "device" ++ (b' ' ∷ (r ++ b' ' ∷ (c ++ b' ' ∷ (d ++ b' ' ∷ s))))

module _ (u : Unicode) where
  -- A relay's line is read field by field. The role and the two names hold no colon; the serial may.
  pub parse_announcement-relay :
      (r c d s : Text)
      → Lacks b':' r
      → Lacks b':' c
      → Lacks b':' d
      → parse_announcement u (relay_line r c d s)
        ≡ some (record {
          role = r;
          common_name = c;
          device_name = d;
          serial = s;
          raw = relay_line r c d s;
        })
  unfolding parse_announcement starts_with
  parse_announcement-relay r c d s hr hc hd =
      let (x, xs, e) = split_on-ne-nil b':' s in
      let fields : split_on b':' (relay_line r c d s) ≡ codes "DEVICE" ∷ r ∷ c ∷ d ∷ x ∷ xs =
        split_on-cons b':' (codes "DEVICE") _ (ground arith)
        ∙ rw (split_on-cons b':' r _ hr, split_on-cons b':' c _ hc, split_on-cons b':' d s hd, e)
            refl in
      let serial : join (codes ":") (x ∷ xs) ≡ s = rw e at (join-split_on b':' s) in
      rw (fields, serial) refl

  -- A robot's line is read field by field. The fields are words: not empty, and with no white space.
  pub parse_announcement-robot :
      (r c d s : Text)
      → All (λ w. IsWord (is_space u) w × (w ≢ [])) (r ∷ c ∷ d ∷ s ∷ [])
      → parse_announcement u (robot_line r c d s)
        ≡ some (record {
          role = r;
          common_name = c;
          device_name = d;
          serial = s;
          raw = robot_line r c d s;
        })
  unfolding parse_announcement starts_with
  parse_announcement-robot r c d s h =
      let blank = is_space u in
      let sp : blank b' ' ≡ true = unfold is_space in refl in
      let device : IsWord blank (codes "device") = unfold is_space in ground arith in
      let fields : split blank (robot_line r c d s) ≡ codes "device" ∷ r ∷ c ∷ d ∷ s ∷ [] =
        split-cons blank (codes "device") b' ' _ device (λ x. cc) sp
        ∙ rw
            (
              split-cons blank r b' ' _ h.0.0 h.0.1 sp,
              split-cons blank c b' ' _ h.1.0.0 h.1.0.1 sp,
              split-cons blank d b' ' s h.1.1.0.0 h.1.1.0.1 sp,
              split-word blank s h.1.1.1.0.0 h.1.1.1.0.1,
            )
            refl in
      rw fields refl
