-- ===== src/Server/Sessions/Exclusion.antt =====
-- Two flashes never race on a board, as long as it stays connected (src/mbdeploy/server.py).
use mbdeploy.Base.{
  ◌+◌, ◌≡◌, ◌≢◌, refl, Bool, true, false, Option, none, some, List, [], ◌∷◌, arith, ◌==◌, inl, inr,
  All, Bool-cases, All-map,
}
use mathlib.Core.Path.{subst}
use mbdeploy.Server.Board.{
  flash, Session, Board, is_flash, claim_serial, claim_flash, release, take_occupant,
}
use mbdeploy.Server.Sessions.{
  System, new_session, without, Inside, Step, serial_claims, serial_refused, flash_claims,
  flash_refused, releases, departs, Reach, start, next_step, Exclusive,
}

abbrev Owns : Option Session → Session → Type 0
Owns o s = s.kind ≡ flash → o ≡ some s

claim_serial-true :
    (s : Session) (b c : Board)
    → claim_serial s b ≡ (true, c)
    → (b.occupant ≡ none) × (c.occupant ≡ some s)
unfolding claim_serial
claim_serial-true s b c h = ground arith

claim_serial-false : (s : Session) (b c : Board) → claim_serial s b ≡ (false, c) → c ≡ b
unfolding claim_serial
claim_serial-false s b c h = ground arith

claim_flash-true :
    (s : Session) (b c : Board) (d : Option Session)
    → claim_flash s b ≡ (true, d, c)
    → (is_flash b.occupant ≡ false) × (c.occupant ≡ some s)
unfolding claim_flash
claim_flash-true s b c d h = ground arith

claim_flash-false :
    (s : Session) (b c : Board) (d : Option Session) → claim_flash s b ≡ (false, d, c) → c ≡ b
unfolding claim_flash
claim_flash-false s b c d h = ground arith

none-Owns : (o o' : Option Session) (s : Session) → is_flash o ≡ false → Owns o s → Owns o' s
none-Owns o o' s n h k = let e = h k in ground arith

release-Owns :
    (s x : Session) (b : Board)
    → (x.id == s.id) ≡ false
    → Owns b.occupant x
    → Owns (release s b).occupant x
unfolding release
release-Owns s x b n h k = let e = h k in ground arith

All-without :
    {P Q : Session → Type 0} (s : Session) (xs : List Session)
    → ((x : Session) → (x.id == s.id) ≡ false → P x → Q x)
    → All P xs
    → All Q (without s xs)
unfolding without
All-without s [] f h = tt
All-without s (x ∷ xs) f h = elim (Bool-cases (x.id == s.id)) [
  | inl y ↦ rw y (All-without s xs f h.1)
  | inr n ↦ rw n (f x n h.0, All-without s xs f h.1)
]

Step-Exclusive : {y w : System} {t : Bool} → Step y t w → t ≡ false → Exclusive y → Exclusive w
Step-Exclusive (serial_claims y b h) f e =
    let (o, o') = claim_serial-true _ y.board b h in
    (λ k. cc, All-map _ _ y.inside (λ x. none-Owns y.board.occupant b.occupant x (rw o refl)) e)
Step-Exclusive (serial_refused y b h) f e = rw (claim_serial-false _ y.board b h) e
Step-Exclusive (flash_claims y d b h) f e =
    let (o, o') = claim_flash-true _ y.board b d h in
    (λ k. o', All-map _ _ y.inside (λ x. none-Owns y.board.occupant b.occupant x o) e)
Step-Exclusive (flash_refused y d b h) f e = rw (claim_flash-false _ y.board b d h) e
Step-Exclusive (releases y s i) f e = All-without s y.inside (λ x n. release-Owns s x y.board n) e
Step-Exclusive (departs y) f e = cc

Reach-Exclusive :
    {y : System} {d : Bool} {w : System} → d ≡ false → Exclusive y → Reach y d w → Exclusive w
Reach-Exclusive f e start = e
Reach-Exclusive f e (next_step {taken = t} r st only) = elim (Bool-cases t) [
  | inl y ↦ let q = only y in cc
  | inr n ↦ Step-Exclusive st n (Reach-Exclusive f e r)
]

Inside-Owns :
    (o : Option Session) (xs : List Session) (s : Session)
    → All (Owns o) xs
    → Inside s xs
    → Owns o s
Inside-Owns o [] s h i = absurd i
Inside-Owns o (x ∷ xs) s h i = elim i [
  | inl e ↦ subst (Owns o) e h.0
  | inr j ↦ Inside-Owns o xs s h.1 j
]

-- As long as the board stays connected, at most one flash runs on it, and it is the occupant: from
-- a system with no thread inside, any two flash sessions between claim and release are the same.
pub one_flash :
    {y w : System} (s f : Session)
    → y.inside ≡ []
    → Reach y false w
    → Inside s w.inside
    → Inside f w.inside
    → s.kind ≡ flash
    → f.kind ≡ flash
    → (s ≡ f) × (w.board.occupant ≡ some s)
one_flash {y} {w} s f idle r i j ks kf =
    let e = Reach-Exclusive refl (rw idle tt) r in
    let a = Inside-Owns w.board.occupant w.inside s e i ks in
    let b = Inside-Owns w.board.occupant w.inside f e j kf in (cc (a, b), a)

-- After a flash session has claimed the board: any other claim is refused and leaves the board as
-- it is, the release of a session with another id, such as the displaced one, changes nothing, and
-- its own release leaves the board without an occupant.
pub claim_flash_holds :
    (f o g : Session) (b c : Board) (d : Option Session)
    → claim_flash f b ≡ (true, d, c)
    → f.kind ≡ flash
    → o.id ≢ f.id
    → (claim_serial g c ≡ (false, c))
      × (claim_flash g c ≡ (false, none, c))
      × (release o c ≡ c)
      × ((release f c).occupant ≡ none)
unfolding claim_serial claim_flash release
claim_flash_holds f o g b c d h k ne =
    let (n, e) = claim_flash-true f b c d h in
    (ground arith, ground arith, ground arith, ground arith)

-- Two flashes can be between claim and release on one board that was idle, if it departs while the
-- first runs: the departure takes the occupant while its thread is still inside, and then another
-- flash can claim the same board.
pub departure_races :
    (y : System)
    → y.board.occupant ≡ none
    → (w : System) × (s : Session) × (f : Session) × Reach y true w
      × Inside s w.inside
      × Inside f w.inside
      × (s.kind ≡ flash)
      × (f.kind ≡ flash)
      × (s.id ≢ f.id)
unfolding claim_flash take_occupant
departure_races y idle =
    let s = new_session y flash in
    let held = record y.board { occupant = some s } in
    let y1 : System = record { board = held; inside = s ∷ y.inside; next = y.next + 1 } in
    let y2 : System = record y1 { board = (take_occupant held).1 } in
    let f = new_session y2 flash in
    let y3 : System = record {
      board = record held { occupant = some f };
      inside = f ∷ y2.inside;
      next = y2.next + 1;
    } in
    (
      y3,
      s,
      f,
      next_step
          (next_step (next_step start (flash_claims y none held (rw idle refl)) (λ e. refl))
            (departs y1) (λ e. refl))
          (flash_claims y2 none (record held { occupant = some f }) refl) (λ e. refl),
      inr (inl refl),
      inl refl,
      refl,
      refl,
      omega arith,
    )
