-- ===== src/Devices/Resolve/Laws.antt =====
-- What `resolve_target` (src/mbdeploy/devices.py) finds, what it refuses, and what it never reads.
use mbdeploy.Base.{
  ℕ, ◌≡◌, ◌≢◌, refl, sym, ap, ◌∙◌, Bool, true, false, none, some, List, [], ◌∷◌, map, arith, all,
  Bool-cases, inl, inr, ◌⊎◌, Option, Option-cases,
}
use mbdeploy.Text.{Text, Unicode, codes, is_digit, is_digit_char, starts_with, contains, lower}
use mbdeploy.Text.Equality.{same_iff}
use mbdeploy.Text.Decimal.{int_of}
use mbdeploy.Text.Dict.{values}
use mbdeploy.Devices.Registry.{Entry, Registry}
use mbdeploy.Devices.Resolve.{
  Refusal, no_such_enum, port_path, no_such_uid, no_such_name, Resolved, found, refused, first,
  has_enum, has_uid, or_empty, is_uid, is_path, otherwise, named, by_name, by_enum, resolve_target,
}

-- `e` is one of the entries.
abbrev pub Among : Entry → List Entry → Type 0
Among e [] = ⊥
Among e (f ∷ es) = (f ≡ e) ⊎ Among e es

first_sound :
    (p : Entry → Bool) (why : Refusal) (es : List Entry) (e : Entry)
    → first p why es ≡ found e
    → Among e es × (p e ≡ true)
unfolding first
first_sound p why [] e h = cc
first_sound p why (f ∷ es) e h = elim (Bool-cases (p f)) [
  | inl y ↦ let same_entry : f ≡ e = ground arith in (inl same_entry, ap p (sym same_entry) ∙ y)
  | inr n ↦ let (m, q) = first_sound p why es e (rw n at h) in (inr m, q)
]

first_complete :
    (p : Entry → Bool) (why : Refusal) (es : List Entry) (e : Entry) (r : Refusal)
    → first p why es ≡ refused r
    → Among e es
    → p e ≡ false
unfolding first
first_complete p why [] e r h m = absurd m
first_complete p why (f ∷ es) e r h m = elim (Bool-cases (p f)) [
  | inl y ↦ let absurd_found : found f ≡ refused r = ground arith in cc
  | inr n ↦ elim m [
    | inl same_entry ↦ ap p (sym same_entry) ∙ n
    | inr later ↦ first_complete p why es e r (rw n at h) later
  ]
]

enum-ne-name : no_such_enum ≢ no_such_name
enum-ne-name e = cc

uid-ne-name : no_such_uid ≢ no_such_name
uid-ne-name e = cc

first-refused :
    (p : Entry → Bool) (why : Refusal) (es : List Entry) {r : Refusal}
    → why ≢ r
    → first p why es ≢ refused r
unfolding first
first-refused p why [] ne h = ne (ground arith)
first-refused p why (e ∷ es) ne h = elim (Bool-cases (p e)) [
  | inl y ↦ ground arith
  | inr n ↦ first-refused p why es ne (rw n at h)
]

otherwise-found :
    (a b : Resolved) (e : Entry) → otherwise a b ≡ found e → (a ≡ found e) ⊎ (b ≡ found e)
unfolding otherwise
otherwise-found (found f) b e h = inl h
otherwise-found (refused why) b e h = inr h

otherwise-refused :
    (a b : Resolved) (r : Refusal)
    → otherwise a b ≡ refused r
    → ((s : Refusal) × (a ≡ refused s)) × (b ≡ refused r)
unfolding otherwise
otherwise-refused (found f) b r h = cc
otherwise-refused (refused why) b r h = ((why, refl), h)

module _ (u : Unicode) where
  -- the ways in which a token names an entry
  pub data Names (token : Text) (e : Entry) : Type 0 where
    by_number : (n : ℕ) → int_of u token ≡ some n → e.enum ≡ some n → Names token e
    by_uid : e.uid ≡ some token → Names token e
    by_device_name :
        (name : Text) → e.device_name ≡ some name → lower u name ≡ lower u token → Names token e
    by_board_name :
        (name : Text) → e.board_name ≡ some name → lower u name ≡ lower u token → Names token e

  -- a name that an empty text cannot stand for is there
  or_empty-some :
      (token : Text) (o : Option Text)
      → lower u token ≢ []
      → lower u (or_empty o) ≡ lower u token
      → (name : Text) × (o ≡ some name) × (lower u name ≡ lower u token)
  unfolding lower
  or_empty-some token none ne h = absurd (ne (sym h))
  or_empty-some token (some name) ne h = (name, refl, h)

  has_enum-eq : (n : ℕ) (e : Entry) → has_enum n e ≡ true → e.enum ≡ some n
  has_enum-eq n e h = ground arith

  has_uid-eq : (token : Text) (e : Entry) → has_uid token e ≡ true → e.uid ≡ some token
  has_uid-eq token e h = elim (Option-cases e.uid) [
    | inl n ↦ ground arith
    | inr (x, q) ↦ q ∙ ap some ((same_iff x token).0 (ground arith))
  ]

  by_enum-Names :
      (token : Text) (es : List Entry) (e : Entry)
      → by_enum u token es ≡ found e
      → Among e es × Names token e
  unfolding by_enum
  by_enum-Names token es e h = elim (Option-cases (int_of u token)) [
    | inl n ↦ ground arith
    | inr (n, q) ↦
        let (m, t) = first_sound (has_enum n) no_such_enum es e (ground arith) in
        (m, by_number n q (has_enum-eq n e t))
  ]

  by_name-Names :
      (token : Text) (es : List Entry) (e : Entry)
      → lower u token ≢ []
      → by_name u token es ≡ found e
      → Among e es × Names token e
  unfolding by_name
  by_name-Names token es e ne h = elim (otherwise-found _ _ e h) [
    | inl x ↦
        let (m, t) = first_sound (named u token (λ f. f.device_name)) no_such_name es e x in
        let (name, q, l) = or_empty-some token e.device_name ne ((same_iff _ _).0 t) in
        (m, by_device_name name q l)
    | inr x ↦
        let (m, t) = first_sound (named u token (λ f. f.board_name)) no_such_name es e x in
        let (name, q, l) = or_empty-some token e.board_name ne ((same_iff _ _).0 t) in
        (m, by_board_name name q l)
  ]

  -- An entry that is found for a token whose lower case is not empty is one of the registry, and the
  -- token names it: by its number, its UID, or the announced or silicon name that it has, up to case.
  pub resolve_target-Names :
      (token : Text) (d : Registry) (e : Entry)
      → lower u token ≢ []
      → resolve_target u token d ≡ found e
      → Among e (values d) × Names token e
  unfolding resolve_target
  resolve_target-Names token d e ne h = elim (Bool-cases (is_digit u token)) [
    | inl y ↦ by_enum-Names token (values d) e (rw y at h)
    | inr n ↦ elim (Bool-cases (is_path token)) [
      | inl y ↦ ground arith
      | inr n' ↦ elim (Bool-cases (is_uid token)) [
        | inl y ↦
            let (m, t) = first_sound (has_uid token) no_such_uid (values d) e (ground arith) in
            (m, by_uid (has_uid-eq token e t))
        | inr n'' ↦ by_name-Names token (values d) e ne (ground arith)
      ]
    ]
  ]

  by_name-none :
      (token : Text) (es : List Entry) (r : Refusal) (e : Entry)
      → by_name u token es ≡ refused r
      → Among e es
      → (lower u (or_empty e.device_name) ≢ lower u token)
        × (lower u (or_empty e.board_name) ≢ lower u token)
  unfolding by_name
  by_name-none token es r e h m =
      let ((s, a), b) = otherwise-refused _ _ r h in
      let no_device = first_complete (named u token (λ f. f.device_name)) no_such_name es e s a m in
      let no_board = first_complete (named u token (λ f. f.board_name)) no_such_name es e r b m in
      (λ q. cc (no_device, (same_iff _ _).1 q), λ q. cc (no_board, (same_iff _ _).1 q))

  by_enum-refused : (token : Text) (es : List Entry) → by_enum u token es ≢ refused no_such_name
  unfolding by_enum
  by_enum-refused token es h = elim (Option-cases (int_of u token)) [
    | inl n ↦ ground arith
    | inr (n, q) ↦ first-refused (has_enum n) no_such_enum es enum-ne-name (ground arith)
  ]

  -- A token refused for want of a name is the name of no entry: it differs, up to case, from every
  -- announced name and from every name read from silicon.
  pub resolve_target-no_such_name :
      (token : Text) (d : Registry) (e : Entry)
      → resolve_target u token d ≡ refused no_such_name
      → Among e (values d)
      → (lower u (or_empty e.device_name) ≢ lower u token)
        × (lower u (or_empty e.board_name) ≢ lower u token)
  unfolding resolve_target
  resolve_target-no_such_name token d e h m = elim (Bool-cases (is_digit u token)) [
    | inl y ↦ absurd (by_enum-refused token (values d) (rw y at h))
    | inr n ↦ elim (Bool-cases (is_path token)) [
      | inl y ↦ ground arith
      | inr n' ↦ elim (Bool-cases (is_uid token)) [
        | inl y ↦
            absurd (first-refused (has_uid token) no_such_uid (values d) uid-ne-name (ground arith))
        | inr n'' ↦ by_name-none token (values d) no_such_name e (ground arith) m
      ]
    ]
  ]

  slash-not-digit : (s : Text) → contains (codes "/") s ≡ true → all (is_digit_char u) s ≡ false
  unfolding contains starts_with is_digit_char
  slash-not-digit [] h = cc
  slash-not-digit (c ∷ s) h = ground (arith, slash-not-digit s)

  -- A token with a slash, such as a port path, is never resolved.
  pub resolve_target-path :
      (token : Text) (d : Registry)
      → contains (codes "/") token ≡ true
      → resolve_target u token d ≡ refused port_path
  unfolding resolve_target is_path is_digit
  resolve_target-path token d h = ground (arith, slash-not-digit token h)

-- an entry without the recorded port and the human label
abbrev pub forget : Entry → Entry
forget e = record e { port = none; common_name = none }

abbrev pub forget_all : Registry → Registry
forget_all [] = []
forget_all ((k, e) ∷ d) = (k, forget e) ∷ forget_all d

abbrev pub forget_found : Resolved → Resolved
forget_found (found e) = found (forget e)
forget_found (refused r) = refused r

values-forget_all : (d : Registry) → values (forget_all d) ≡ map forget (values d)
values-forget_all [] = refl
values-forget_all ((k, e) ∷ d) = rw (values-forget_all d) refl

first-forget :
    (p : Entry → Bool) (why : Refusal) (es : List Entry)
    → ((e : Entry) → p (forget e) ≡ p e)
    → first p why (map forget es) ≡ forget_found (first p why es)
unfolding first
first-forget p why [] h = refl
first-forget p why (e ∷ es) h = ground (arith, h e, first-forget p why es h)

otherwise-forget :
    (a b : Resolved) → otherwise (forget_found a) (forget_found b) ≡ forget_found (otherwise a b)
unfolding otherwise
otherwise-forget (found e) b = refl
otherwise-forget (refused r) b = refl

module _ (u : Unicode) where
  by_enum-forget :
      (token : Text) (es : List Entry)
      → by_enum u token (map forget es) ≡ forget_found (by_enum u token es)
  unfolding by_enum
  by_enum-forget token es = elim (Option-cases (int_of u token)) [
    | inl n ↦ rw (n, by_enum) refl
    | inr (n, q) ↦ rw (q, by_enum) (first-forget (has_enum n) no_such_enum es (λ e. refl))
  ]

  by_name-forget :
      (token : Text) (es : List Entry)
      → by_name u token (map forget es) ≡ forget_found (by_name u token es)
  unfolding by_name
  by_name-forget token es =
      rw
        (
          first-forget (named u token (λ f. f.device_name)) no_such_name es (λ e. refl),
          first-forget (named u token (λ f. f.board_name)) no_such_name es (λ e. refl),
        )
        (otherwise-forget _ _)

  -- The recorded port and the common name are never consulted: without them the same entry is
  -- found, or the token is refused for the same reason.
  pub resolve_target-forget :
      (token : Text) (d : Registry)
      → resolve_target u token (forget_all d) ≡ forget_found (resolve_target u token d)
  unfolding resolve_target
  resolve_target-forget token d = rw values-forget_all (
      ground (
        arith,
        by_enum-forget token (values d),
        by_name-forget token (values d),
        first-forget (has_uid token) no_such_uid (values d) (λ e. refl),
      ))
