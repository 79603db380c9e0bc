-- ===== src/Devices/Usb/Search.antt =====
-- What the search for a UID in src/mbdeploy/devices.py finds, described by concatenation.
use mbdeploy.Base.{
  ℕ, ◌≤◌, ◌≡◌, refl, ap, ◌∙◌, Bool, true, false, not, ◌&&◌, Option, none, some, [], ◌∷◌, ◌++◌,
  arith, leb, length, All, Bool-cases, Option-cases, inl, inr,
}
use mbdeploy.Text.{Text, Unicode}
use mbdeploy.Devices.Usb.{is_hex, hex_run, is_word, starts_word, uid_at, search_uid}

-- 40 to 52 hexadecimal digits
abbrev pub IsUid : Text → Type 0
IsUid uid = (40 ≤ length uid) × (length uid ≤ 52) × All (λ c. is_hex c ≡ true) uid

hex_run-append : (s : Text) → s ≡ (hex_run s).0 ++ (hex_run s).1
unfolding hex_run
hex_run-append [] = refl
hex_run-append (c ∷ s) = elim (Bool-cases (is_hex c)) [
  | inl h ↦ rw (h, hex_run) (ap (λ t. c ∷ t) (hex_run-append s))
  | inr h ↦ rw (h, hex_run) refl
]

hex_run-All : (s : Text) → All (λ c. is_hex c ≡ true) (hex_run s).0
unfolding hex_run
hex_run-All [] = tt
hex_run-All (c ∷ s) = elim (Bool-cases (is_hex c)) [
  | inl h ↦ rw (h, hex_run) (h, hex_run-All s)
  | inr h ↦ rw (h, hex_run) tt
]

module _ (u : Unicode) (word : ℕ → Bool) where
  hex_run-stop : (post : Text) → starts_word u word post ≡ false → hex_run post ≡ ([], post)
  unfolding hex_run
  hex_run-stop [] h = refl
  hex_run-stop (c ∷ s) h = ground (arith, h)

  hex_run-uid :
      (uid post : Text)
      → All (λ c. is_hex c ≡ true) uid
      → starts_word u word post ≡ false
      → hex_run (uid ++ post) ≡ (uid, post)
  unfolding hex_run
  hex_run-uid [] post a h = hex_run-stop post h
  hex_run-uid (c ∷ uid) post (b, a) h = let rest = hex_run-uid uid post a h in rw (b, rest) refl

  -- whether a word character is the last of a text that follows another
  abbrev pub ends_word : Bool → Text → Bool
  ends_word before [] = before
  ends_word before (c ∷ s) = ends_word (is_word u word c) s

  -- a UID in a line, with no word character before it or after it
  pub record Occurs (before : Bool) (line uid : Text) : Type 0 where
    pub pre : Text
    pub post : Text
    pub splits : line ≡ pre ++ (uid ++ post)
    pub digits : IsUid uid
    pub starts : ends_word before pre ≡ false
    pub ends : starts_word u word post ≡ false

  uid_at-Occurs : (s uid : Text) → uid_at u word s ≡ some uid → Occurs false s uid
  uid_at-Occurs s uid h =
      let t : (leb 40 (length (hex_run s).0)
            && leb (length (hex_run s).0) 52
            && not (starts_word u word (hex_run s).1))
          ≡ true =
        ground (arith, h) in
      let e : (hex_run s).0 ≡ uid = ground (arith, h) in
      record {
        pre = [];
        post = (hex_run s).1;
        splits = hex_run-append s ∙ ap (λ t. t ++ (hex_run s).1) e;
        digits = rw (← e) (ground (arith, t), ground (arith, t), hex_run-All s);
        starts = refl;
        ends = ground (arith, t);
      }

  later-Occurs :
      (before : Bool) (c : ℕ) (s uid : Text)
      → Occurs (is_word u word c) s uid
      → Occurs before (c ∷ s) uid
  later-Occurs before c s uid o = record {
    pre = c ∷ o.pre;
    post = o.post;
    splits = ap (λ t. c ∷ t) o.splits;
    digits = o.digits;
    starts = o.starts;
    ends = o.ends;
  }

  search_uid-Occurs :
      (before : Bool) (s uid : Text) → search_uid u word before s ≡ some uid → Occurs before s uid
  unfolding search_uid
  search_uid-Occurs before [] uid h = cc h
  search_uid-Occurs true (c ∷ s) uid h =
      later-Occurs true c s uid (search_uid-Occurs (is_word u word c) s uid h)
  search_uid-Occurs false (c ∷ s) uid h = elim (Option-cases (uid_at u word (c ∷ s))) [
    | inl n ↦
        later-Occurs false c s uid
          (search_uid-Occurs (is_word u word c) s uid (ground (arith, h, n)))
    | inr (v, e) ↦
        let found : v ≡ uid = ground (arith, h, e) in uid_at-Occurs (c ∷ s) uid (e ∙ ap some found)
  ]

  uid_at-uid :
      (uid post : Text)
      → IsUid uid
      → starts_word u word post ≡ false
      → uid_at u word (uid ++ post) ≡ some uid
  uid_at-uid uid post (low, high, hex) h =
      let run = hex_run-uid uid post hex h in rw (run, h) (ground (arith, low, high))

  search_uid-finds :
      (before : Bool) (pre uid post : Text)
      → IsUid uid
      → ends_word before pre ≡ false
      → starts_word u word post ≡ false
      → (v : Text) × (search_uid u word before (pre ++ (uid ++ post)) ≡ some v)
  unfolding search_uid
  search_uid-finds before [] [] post i b h = absurd (ground (arith, i))
  search_uid-finds before [] (c ∷ uid) post i b h =
      let found = uid_at-uid (c ∷ uid) post i h in (c ∷ uid, rw (b, found) refl)
  search_uid-finds before (c ∷ pre) uid post i b h =
      let (v, later) = search_uid-finds (is_word u word c) pre uid post i b h in
      elim (Bool-cases before) [
        | inl y ↦ (v, rw (y, search_uid) later)
        | inr y ↦ elim (Option-cases (uid_at u word (c ∷ (pre ++ (uid ++ post))))) [
          | inl n ↦ (v, ground (arith, y, n, later))
          | inr (w, e) ↦ (w, ground (arith, y, e))
        ]
      ]

  -- what the result of a search says of the line
  abbrev pub Finds : Text → Option Text → Type 0
  Finds line none = ¬ ((uid : Text) × Occurs false line uid)
  Finds line (some uid) = Occurs false line uid

  -- What the search returns for a line occurs in it as a UID: 40 to 52 hexadecimal digits with no word
  -- character just before or after them. If it returns nothing, the line has no such UID.
  pub search_uid_lem : (line : Text) → Finds line (search_uid u word false line)
  search_uid_lem line = finds (search_uid u word false line) refl
    where
      finds : (r : Option Text) → search_uid u word false line ≡ r → Finds line r
      finds (some uid) e = search_uid-Occurs false line uid e
      finds none e = λ o.
          let (v, found) =
            search_uid-finds false o.1.pre o.0 o.1.post o.1.digits o.1.starts o.1.ends in
          let there : search_uid u word false line ≡ some v =
            ap (search_uid u word false) o.1.splits ∙ found in
          ground (arith, there, e)
