-- ===== src/Text/Split.antt =====
-- `s.split()` on white space and `s.split(c)` on one character.
use mbdeploy.Base.{
  ◌∙◌, ap, Bool-cases, inl, inr, ==_iff, ℕ, ◌≡◌, refl, ◌≢◌, Bool, true, false, List, [], ◌∷◌, ◌++◌,
  arith, ◌==◌, if◌then◌else◌, All,
}
use mbdeploy.Text.{Text, join}

-- A word that has ended is one more word, unless it is empty.
abbrev emit : Text → List Text → List Text
emit [] ws = ws
emit (c ∷ w) ws = (c ∷ w) ∷ ws

module _ (sp : ℕ → Bool) where
  -- the word that `s` begins with, which may be empty, and the later words
  unfoldable pub scan : Text → Text × List Text
  scan [] = ([], [])
  scan (c ∷ s) = let (w, ws) = scan s in if sp c then ([], emit w ws) else (c ∷ w, ws)

  -- `s.split()`
  unfoldable pub split : Text → List Text
  unfolding scan
  split s = emit (scan s).0 (scan s).1

  abbrev pub IsWord : Text → Type 0
  IsWord w = All (λ c. sp c ≡ false) w

  scan-word : (w : Text) → IsWord w → scan w ≡ (w, [])
  unfolding scan
  scan-word [] h = refl
  scan-word (c ∷ w) h = ground (arith, scan-word w h.1)

  scan-word-append :
      (w : Text) (c : ℕ) (s : Text) → IsWord w → sp c ≡ true → scan (w ++ c ∷ s) ≡ (w, split s)
  unfolding split
  scan-word-append [] c s h b = ground arith
  scan-word-append (d ∷ w) c s h b = ground (arith, scan-word-append w c s h.1 b)

  -- A word, a blank and a text split into the word and the words of the text.
  pub split-cons :
      (w : Text) (c : ℕ) (s : Text)
      → IsWord w
      → w ≢ []
      → sp c ≡ true
      → split (w ++ c ∷ s) ≡ w ∷ split s
  unfolding split
  split-cons [] c s h ne b = absurd (ne refl)
  split-cons (d ∷ w) c s h ne b = ground (arith, scan-word-append (d ∷ w) c s h b)

  pub split-word : (w : Text) → IsWord w → w ≢ [] → split w ≡ w ∷ []
  unfolding split
  split-word [] h ne = absurd (ne refl)
  split-word (d ∷ w) h ne = ground (arith, scan-word (d ∷ w) h)

-- `[first] + rest` with the character put before `first`
abbrev on_head : ℕ → List Text → List Text
on_head c [] = (c ∷ []) ∷ []
on_head c (w ∷ ws) = (c ∷ w) ∷ ws

-- `s.split(k)`
unfoldable pub split_on : ℕ → Text → List Text
split_on k [] = [] ∷ []
split_on k (c ∷ s) = let rest = split_on k s in if c == k then [] ∷ rest else on_head c rest

module _ (k : ℕ) where
  -- `s` has no character `k`.
  abbrev pub Lacks : Text → Type 0
  Lacks w = All (λ c. (c == k) ≡ false) w

  pub split_on-cons : (w s : Text) → Lacks w → split_on k (w ++ k ∷ s) ≡ w ∷ split_on k s
  unfolding split_on
  split_on-cons [] s h = ground arith
  split_on-cons (c ∷ w) s h = rw (split_on-cons w s h.1, h.0) refl

  pub split_on-ne-nil : (s : Text) → (x : Text) × (xs : List Text) × (split_on k s ≡ x ∷ xs)
  unfolding split_on
  split_on-ne-nil [] = ([], [], refl)
  split_on-ne-nil (c ∷ s) =
      let (x, xs, e) = split_on-ne-nil s in
      elim (Bool-cases (c == k)) [
        | inl t ↦ ([], split_on k s, rw t refl)
        | inr f ↦ (c ∷ x, xs, rw (f, e) refl)
      ]

  join-on_head :
      (c : ℕ) (x : Text) (ys : List Text)
      → join (k ∷ []) (on_head c (x ∷ ys)) ≡ c ∷ join (k ∷ []) (x ∷ ys)
  unfolding join
  join-on_head c x [] = refl
  join-on_head c x (y ∷ ys) = refl

  -- Joining the parts of a split gives the text back.
  pub join-split_on : (s : Text) → join (k ∷ []) (split_on k s) ≡ s
  unfolding split_on join
  join-split_on [] = refl
  join-split_on (c ∷ s) =
      let (x, xs, e) = split_on-ne-nil s in
      let ih : join (k ∷ []) (x ∷ xs) ≡ s = rw e at (join-split_on s) in
      elim (Bool-cases (c == k)) [
        | inl t ↦ rw (t, e) (cc (ih, (==_iff c k).0 t))
        | inr f ↦ rw (f, e) (join-on_head c x xs ∙ ap (◌∷◌ c) ih)
      ]
