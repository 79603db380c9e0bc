-- ===== src/Remote/Socket/Bytes.antt =====
-- No byte is lost, doubled or reordered by `SocketSerial` of src/mbdeploy/remote.py.
use mbdeploy.Base.{
  ◌&&◌, not, ℕ, zero, suc, ◌≡◌, ◌≢◌, refl, sym, ap, ◌∙◌, Bool, true, false, Option, none, some,
  List, [], ◌∷◌, ◌++◌, arith, ◌==◌, ltb, length, append_assoc, Bool-cases, Option-cases, inl, inr,
  All,
}
use mbdeploy.Text.{Text}
use mbdeploy.Server.Wire.{
  Item, byte, idle, broken, Received, chunk, timed_out, failed, recv, take_run,
}
use mbdeploy.Remote.Socket.{
  Adapter, cut_line, readline_loop, fill, on_cut, on_eof, on_recv, take_in, fill_more,
}

-- the bytes that are still to arrive
abbrev pub arriving : List Item → Text
arriving [] = []
arriving (byte b ∷ items) = b ∷ arriving items
arriving (idle d ∷ items) = arriving items
arriving (broken ∷ items) = arriving items

-- the bytes that the adapter has not given to its caller yet
abbrev pub unread : Adapter → Text
unread a = a.buf ++ arriving a.rx

abbrev pub received : Received → Text
received (chunk bs) = bs
received (timed_out d) = []
received failed = []

take_run-arriving :
    (k : ℕ) (items : List Item)
    → (take_run k items).0 ++ arriving (take_run k items).1 ≡ arriving items
unfolding take_run
take_run-arriving zero items = refl
take_run-arriving (suc k) (byte b ∷ items) = ap (λ l. b ∷ l) (take_run-arriving k items)
take_run-arriving (suc k) [] = refl
take_run-arriving (suc k) _ = refl

pub recv-arriving :
    (k : ℕ) (items : List Item)
    → received (recv k items).0 ++ arriving (recv k items).1 ≡ arriving items
unfolding recv
recv-arriving k [] = refl
recv-arriving k (idle d ∷ items) = refl
recv-arriving k (broken ∷ items) = refl
recv-arriving k (byte b ∷ items) = take_run-arriving k (byte b ∷ items)

abbrev rejoined : ℕ → Option (Text × Text) → Option (Text × Text)
rejoined b none = none
rejoined b (some (line, rest)) = some (b ∷ line, rest)

-- A cut line is the text up to its first newline, and rejoins with what follows.
abbrev pub Cuts : Text → Option (Text × Text) → Type 0
Cuts s none = All (λ b. b ≢ b'\n') s
Cuts s (some (line, rest)) =
    (line ++ rest ≡ s) × (front : Text) × (line ≡ front ++ b'\n' ∷ []) × All (λ b. b ≢ b'\n') front

rejoined-Cuts :
    (b : ℕ) (s : Text) (o : Option (Text × Text))
    → b ≢ b'\n'
    → Cuts s o
    → Cuts (b ∷ s) (rejoined b o)
rejoined-Cuts b s none n c = (n, c)
rejoined-Cuts b s (some (line, rest)) n (e, front, f, a) =
    (ap (λ l. b ∷ l) e, b ∷ front, ap (λ l. b ∷ l) f, (n, a))

cut_line-step :
    (b : ℕ) (bs : Text) → (b == b'\n') ≡ false → cut_line (b ∷ bs) ≡ rejoined b (cut_line bs)
unfolding cut_line
cut_line-step b bs n = elim (Option-cases (cut_line bs)) [
  | inl e ↦ rw (n, e) refl
  | inr (p, e) ↦ rw (n, e) refl
]

pub cut_line-Cuts : (s : Text) → Cuts s (cut_line s)
unfolding cut_line
cut_line-Cuts [] = tt
cut_line-Cuts (b ∷ bs) = elim (Bool-cases (b == b'\n')) [
  | inl y ↦ rw (y, cut_line) (refl, [], ground (arith, y), tt)
  | inr n ↦
      rw (cut_line-step b bs n)
        (rejoined-Cuts b bs (cut_line bs) (ground (arith, n)) (cut_line-Cuts bs))
]

abbrev Keeps : (Adapter → Text × Adapter) → Type 0
Keeps f = (a : Adapter) → (f a).0 ++ unread (f a).1 ≡ unread a

on_recv-unread :
    (again : Adapter → Text × Adapter) (a : Adapter) (rest : List Item) (r : Received)
    → Keeps again
    → (on_recv again a rest r).0 ++ unread (on_recv again a rest r).1
      ≡ a.buf ++ (received r ++ arriving rest)
on_recv-unread again a rest (timed_out d) k = refl
on_recv-unread again a rest failed k = refl
on_recv-unread again a rest (chunk []) k = k _
on_recv-unread again a rest (chunk (b ∷ more)) k =
    k _ ∙ append_assoc a.buf (b ∷ more) (arriving rest)

on_eof-unread :
    (again : Adapter → Text × Adapter) (a : Adapter) (e : Bool)
    → Keeps again
    → (on_eof again a e).0 ++ unread (on_eof again a e).1 ≡ unread a
on_eof-unread again a true k = refl
on_eof-unread again a false k =
    on_recv-unread again a (recv 4096 a.rx).1 (recv 4096 a.rx).0 k
    ∙ ap (λ l. a.buf ++ l) (recv-arriving 4096 a.rx)

on_cut-unread :
    (again : Adapter → Text × Adapter) (a : Adapter) (o : Option (Text × Text))
    → Keeps again
    → Cuts a.buf o
    → (on_cut again a o).0 ++ unread (on_cut again a o).1 ≡ unread a
on_cut-unread again a none k c = on_eof-unread again a a.eof k
on_cut-unread again a (some (line, rest)) k c =
    sym (append_assoc line rest (arriving a.rx)) ∙ ap (λ l. l ++ arriving a.rx) c.0

pub readline_loop-unread : (fuel : ℕ) → Keeps (readline_loop fuel)
unfolding readline_loop
readline_loop-unread zero a = refl
readline_loop-unread (suc fuel) a =
    on_cut-unread (readline_loop fuel) a (cut_line a.buf) (readline_loop-unread fuel)
      (cut_line-Cuts a.buf)

abbrev pub Keeps1 : (Adapter → Adapter) → Type 0
Keeps1 f = (a : Adapter) → unread (f a) ≡ unread a

-- what `fill` and `drain_loop` share: the buffer takes what a `recv` returned
grown :
    (a : Adapter) (k : ℕ)
    → a.buf ++ (received (recv k a.rx).0 ++ arriving (recv k a.rx).1) ≡ unread a
grown a k = ap (λ l. a.buf ++ l) (recv-arriving k a.rx)

take_in-unread :
    (again : Adapter → Adapter) (a : Adapter) (rest : List Item) (r : Received)
    → Keeps1 again
    → unread (take_in again a rest r) ≡ a.buf ++ (received r ++ arriving rest)
take_in-unread again a rest (timed_out d) k = refl
take_in-unread again a rest failed k = refl
take_in-unread again a rest (chunk []) k = refl
take_in-unread again a rest (chunk (b ∷ more)) k =
    k _ ∙ append_assoc a.buf (b ∷ more) (arriving rest)

fill_more-unread :
    (again : Adapter → Adapter) (a : Adapter) (t : Bool)
    → Keeps1 again
    → unread (fill_more again a t) ≡ unread a
fill_more-unread again a false k = refl
fill_more-unread again a true k =
    take_in-unread again a (recv 65536 a.rx).1 (recv 65536 a.rx).0 k ∙ grown a 65536

pub fill-unread : (fuel size : ℕ) → Keeps1 (fill fuel size)
unfolding fill
fill-unread zero size a = refl
fill-unread (suc fuel) size a =
    fill_more-unread (fill fuel size) a (ltb (length a.buf) size && not a.eof)
      (fill-unread fuel size)
