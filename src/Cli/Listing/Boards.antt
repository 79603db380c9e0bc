-- ===== src/Cli/Listing/Boards.antt =====
-- Which rows `_device_rows` of src/mbdeploy/cli.py shows, and in which order.
use mbdeploy.Base.{
  ℕ, ◌+◌, ◌<◌, ◌≤◌, ◌≡◌, refl, sym, ap, ◌∙◌, Bool, true, false, ◌||◌, ◌==◌, ltb, Option, none, some,
  List, [], ◌∷◌, ◌++◌, arith, map, if◌then◌else◌, Bool-cases, inl, inr,
}
use mathlib.Core.Path.{subst}
use mbdeploy.Text.{Text, same}
use mbdeploy.Text.Equality.{same_iff}
use mbdeploy.Text.Dict.{Dict, get, has, keys}
use mbdeploy.Devices.Hardware.{member}
use mbdeploy.Devices.Registry.{Registry}
use mbdeploy.Remote.Listing.{text_le}
use mbdeploy.Cli.Listing.{Row, row_for, unlisted, rank, comes_first, insert, sort, device_rows}

-- how often a text is in a list, and a board in the rows
abbrev pub times : Text → List Text → ℕ
times k [] = 0
times k (x ∷ xs) = (if same x k then 1 else 0) + times k xs

abbrev pub shown_times : Text → List Row → ℕ
shown_times k [] = 0
shown_times k (r ∷ rows) = (if same r.uid k then 1 else 0) + shown_times k rows

times-append : (k : Text) (a b : List Text) → times k (a ++ b) ≡ times k a + times k b
times-append k [] b = omega arith
times-append k (x ∷ a) b = omega (arith, times-append k a b)

times-keys : (k : Text) (d : Registry) → has k d ≡ false → times k (keys d) ≡ 0
unfolding get
times-keys k [] n = refl
times-keys k ((j, e) ∷ d) n = ground (arith, n, times-keys k d)

times-keys-has : (k : Text) (d : Registry) → has k d ≡ true → 1 ≤ times k (keys d)
unfolding get
times-keys-has k [] y = ground (arith, y)
times-keys-has k ((j, e) ∷ d) y = ground (arith, y, times-keys-has k d)

shown_times-insert :
    (k : Text) (a : Row) (rows : List Row)
    → shown_times k (insert a rows) ≡ (if same a.uid k then 1 else 0) + shown_times k rows
unfolding insert
shown_times-insert k a [] = refl
shown_times-insert k a (b ∷ rows) = elim (Bool-cases (comes_first a b)) [
  | inl y ↦ rw y refl
  | inr n ↦ rw n (omega (arith, shown_times-insert k a rows))
]

shown_times-sort : (k : Text) (rows : List Row) → shown_times k (sort rows) ≡ shown_times k rows
unfolding sort
shown_times-sort k [] = refl
shown_times-sort k (a ∷ rows) =
    shown_times-insert k a (sort rows)
    ∙ ap (λ n. (if same a.uid k then 1 else 0) + n) (shown_times-sort k rows)

times-unlisted :
    (k : Text) (entries : Registry) (uids : List Text)
    → times k (unlisted entries uids) ≡ (if has k entries then 0 else times k uids)
unfolding unlisted
times-unlisted k entries [] = ground arith
times-unlisted k entries (uid ∷ uids) = elim (Bool-cases (same uid k)) [
  | inl q ↦ let e = (same_iff uid k).0 q in ground (arith, times-unlisted k entries uids, e)
  | inr n ↦ ground (arith, times-unlisted k entries uids, n)
]

times-keys_once :
    (k : Text) (d : Registry) → times k (keys d) ≤ 1 → times k (keys d) ≡ (if has k d then 1 else 0)
times-keys_once k d once = elim (Bool-cases (has k d)) [
  | inl y ↦ rw y (omega (arith, once, times-keys-has k d y))
  | inr n ↦ rw n (times-keys k d n)
]

times-member : (k : Text) (l : List Text) → (if member k l then 1 else 0) ≤ times k l
times-member k [] = omega arith
times-member k (x ∷ l) = ground (arith, times-member k l)

times-not_member : (k : Text) (l : List Text) → member k l ≡ false → times k l ≡ 0
times-not_member k [] n = refl
times-not_member k (x ∷ l) n = ground (arith, n, times-not_member k l)

times-member_once :
    (k : Text) (l : List Text) → times k l ≤ 1 → times k l ≡ (if member k l then 1 else 0)
times-member_once k l once = elim (Bool-cases (member k l)) [
  | inl y ↦
      let more : 1 ≤ times k l = ground (arith, times-member k l, y) in
      rw y (omega (arith, once, more))
  | inr n ↦ rw n (times-not_member k l n)
]

either_once :
    (a b : Bool)
    → (if a then 1 else 0) + (if a then 0 else if b then 1 else 0) ≡ (if a || b then 1 else 0)
either_once true b = refl
either_once false true = refl
either_once false false = refl

text_le-total : (s t : Text) → text_le s t ≡ false → text_le t s ≡ true
unfolding text_le
text_le-total [] t n = ground (arith, n)
text_le-total (c ∷ s) [] n = refl
text_le-total (c ∷ s) (d ∷ t) n = ground (arith, n, text_le-total s t)

comes_first-total : (a b : Row) → comes_first a b ≡ false → comes_first b a ≡ true
unfolding comes_first
comes_first-total a b n = ground (arith, n, text_le-total a.uid b.uid)

-- the number by which a row is put in order
pub data Counts (r : Row) : ℕ → Type 0 where
  numbered : (n : ℕ) → r.enum ≡ some n → Counts r n
  unnumbered : r.enum ≡ none → Counts r 1073741824

-- how a row may stand before another
pub data Before (a b : Row) : Type 0 where
  connected_first : a.conn ≡ true → b.conn ≡ false → Before a b
  lower_number : (m n : ℕ) → a.conn ≡ b.conn → Counts a m → Counts b n → m < n → Before a b
  same_number :
      (n : ℕ) → a.conn ≡ b.conn → Counts a n → Counts b n → text_le a.uid b.uid ≡ true → Before a b

enum-Counts :
    (r : Row) (o : Option ℕ) → r.enum ≡ o → Counts r (elim o [ none ↦ 1073741824 | some n ↦ n ])
enum-Counts r none e = unnumbered e
enum-Counts r (some n) e = numbered n e

rank-Counts : (r : Row) → Counts r (rank r)
rank-Counts r = enum-Counts r r.enum refl

by_rank :
    (a b : Row)
    → a.conn ≡ b.conn
    → (if rank a == rank b then text_le a.uid b.uid else ltb (rank a) (rank b)) ≡ true
    → Before a b
by_rank a b c y = elim (Bool-cases (rank a == rank b)) [
  | inl q ↦
      let eq : rank a ≡ rank b = ground (arith, q) in
      same_number (rank b) c (subst (Counts a) eq (rank-Counts a)) (rank-Counts b)
        (ground (arith, y, q))
  | inr n ↦ lower_number (rank a) (rank b) c (rank-Counts a) (rank-Counts b) (ground (arith, y, n))
]

comes_first-Before : (a b : Row) → comes_first a b ≡ true → Before a b
unfolding comes_first
comes_first-Before a b y = elim (Bool-cases a.conn) [
  | inl p ↦ elim (Bool-cases b.conn) [
    | inl q ↦ by_rank a b (p ∙ sym q) (rw (p, q) at y)
    | inr q ↦ connected_first p q
  ]
  | inr p ↦ elim (Bool-cases b.conn) [
    | inl q ↦ absurd (ground (arith, y, p, q))
    | inr q ↦ by_rank a b (p ∙ sym q) (rw (p, q) at y)
  ]
]

-- Each row may stand before the next.
abbrev pub IsSorted : List Row → Type 0
IsSorted [] = Unit
IsSorted (a ∷ []) = Unit
IsSorted (a ∷ b ∷ rows) = Before a b × IsSorted (b ∷ rows)

insert_between :
    (b a : Row) (rows : List Row)
    → comes_first a b ≡ false
    → IsSorted (b ∷ rows)
    → IsSorted (insert a rows)
    → IsSorted (b ∷ insert a rows)
unfolding insert
insert_between b a [] n s i = (comes_first-Before b a (comes_first-total a b n), tt)
insert_between b a (c ∷ rows) n s i = elim (Bool-cases (comes_first a c)) [
  | inl y ↦
      rw (y, insert)
        (comes_first-Before b a (comes_first-total a b n), (comes_first-Before a c y, s.1))
  | inr f ↦ let j : IsSorted (c ∷ insert a rows) = rw (f, insert) at i in rw (f, insert) (s.0, j)
]

insert-IsSorted : (a : Row) (rows : List Row) → IsSorted rows → IsSorted (insert a rows)
unfolding insert
insert-IsSorted a [] s = tt
insert-IsSorted a (b ∷ []) s = elim (Bool-cases (comes_first a b)) [
  | inl y ↦ rw (y, insert) (comes_first-Before a b y, tt)
  | inr n ↦ rw (n, insert) (comes_first-Before b a (comes_first-total a b n), tt)
]
insert-IsSorted a (b ∷ c ∷ rows) s = elim (Bool-cases (comes_first a b)) [
  | inl y ↦ rw (y, insert) (comes_first-Before a b y, s)
  | inr n ↦ rw (n, insert) (insert_between b a (c ∷ rows) n s (insert-IsSorted a (c ∷ rows) s.1))
]

sort-IsSorted : (rows : List Row) → IsSorted (sort rows)
unfolding sort
sort-IsSorted [] = tt
sort-IsSorted (a ∷ rows) = insert-IsSorted a (sort rows) (sort-IsSorted rows)

module _ (name_of : Text → Option Text) (live : List Text) (ports : Dict Text)
    (read_names : Bool) where
  shown_times-rows :
      (k : Text) (entries : Registry) (uids : List Text)
      → shown_times k (map (row_for name_of live ports read_names entries) uids) ≡ times k uids
  shown_times-rows k entries [] = refl
  shown_times-rows k entries (uid ∷ uids) =
      ap (λ n. (if same uid k then 1 else 0) + n) (shown_times-rows k entries uids)

  -- Where the registry's keys and the live UIDs are without repetition, `_device_rows` shows each
  -- board that is known or live in one row, and no other. The rows are in order: connected boards
  -- before others, then by number, then by UID, where a board without a number counts as 2 ^ 30.
  pub device_rows_lem :
      (k : Text) (entries : Registry)
      → times k (keys entries) ≤ 1
      → times k live ≤ 1
      → (shown_times k (device_rows name_of live ports read_names entries)
          ≡ (if has k entries || member k live then 1 else 0))
        × IsSorted (device_rows name_of live ports read_names entries)
  unfolding device_rows
  device_rows_lem k entries known_once live_once =
      let uids = keys entries ++ unlisted entries live in
      let rows = map (row_for name_of live ports read_names entries) uids in
      (
        shown_times-sort k rows
            ∙ shown_times-rows k entries uids
            ∙ times-append k (keys entries) (unlisted entries live)
            ∙ rw
                (
                  times-keys_once k entries known_once,
                  times-unlisted k entries live,
                  times-member_once k live live_once,
                )
                (either_once (has k entries) (member k live)),
        sort-IsSorted rows,
      )
