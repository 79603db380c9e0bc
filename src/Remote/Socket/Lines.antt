-- ===== src/Remote/Socket/Lines.antt =====
-- `SocketSerial.readline` of src/mbdeploy/remote.py returns whole lines.
use mbdeploy.Base.{
  ℕ, zero, suc, ◌<◌, ◌≡◌, ◌≢◌, refl, sym, ap, ◌∙◌, Bool, true, false, Option, none, some, List, [],
  ◌∷◌, ◌++◌, arith, length, append_assoc, inl, inr, ◌⊎◌, All, length-append,
}
use mbdeploy.Text.{Text}
use mbdeploy.Server.Wire.{
  Item, byte, idle, broken, Received, chunk, timed_out, failed, recv, take_run,
}
use mbdeploy.Remote.Socket.{Adapter, cut_line, readline_loop, readline, on_cut, on_eof, on_recv}
use mbdeploy.Remote.Socket.Bytes.{unread, Cuts, cut_line-Cuts, readline_loop-unread}

-- what one `recv` took of the items
abbrev Took : List Item → Received → List Item → Type 0
Took items (timed_out d) rest = items ≡ idle d ∷ rest
Took items failed rest = items ≡ broken ∷ rest
Took items (chunk []) rest = items ≡ rest
Took items (chunk (b ∷ more)) rest = (x : Item) × (front : List Item) × (items ≡ x ∷ front ++ rest)

take_run-front :
    (k : ℕ) (items : List Item) → (front : List Item) × (items ≡ front ++ (take_run k items).1)
unfolding take_run
take_run-front (suc k) (byte b ∷ items) =
    let (front, e) = take_run-front k items in (byte b ∷ front, ap (λ l. byte b ∷ l) e)
take_run-front zero items = ([], refl)
take_run-front (suc k) [] = ([], refl)
take_run-front (suc k) (idle d ∷ items) = ([], refl)
take_run-front (suc k) (broken ∷ items) = ([], refl)

recv-Took : (k : ℕ) (items : List Item) → Took items (recv (suc k) items).0 (recv (suc k) items).1
unfolding recv take_run
recv-Took k [] = refl
recv-Took k (idle d ∷ items) = refl
recv-Took k (broken ∷ items) = refl
recv-Took k (byte b ∷ items) =
    let (front, e) = take_run-front k items in (byte b, front, ap (λ l. byte b ∷ l) e)

abbrev pub NoNewline : Text → Type 0
NoNewline s = All (λ b. b ≢ b'\n') s

-- one line, to its newline
abbrev pub WholeLine : Text → Type 0
WholeLine s = (front : Text) × (s ≡ front ++ b'\n' ∷ []) × NoNewline front

-- a `recv` between the two states timed out, and was the last
abbrev pub TimedOut : List Item → List Item → Type 0
TimedOut items rest = (front : List Item) × (d : ℕ) × (items ≡ front ++ idle d ∷ rest)

-- What a call of `readline` may return: a line, or, once nothing follows, the whole buffer.
abbrev pub Reads : List Item → Text × Adapter → Type 0
Reads items (line, a) =
    WholeLine line ⊎ NoNewline line × (a.buf ≡ []) × ((a.eof ≡ true) ⊎ TimedOut items a.rx)

Reads-earlier :
    (front items all : List Item) (r : Text × Adapter)
    → all ≡ front ++ items
    → Reads items r
    → Reads all r
Reads-earlier front items all r e (inl whole) = inl whole
Reads-earlier front items all r e (inr (n, b, inl eof)) = inr (n, b, inl eof)
Reads-earlier front items all r e (inr (n, b, inr (f, d, g))) =
    inr (n, b, inr (front ++ f, d, e ∙ ap (λ l. front ++ l) g ∙ sym (append_assoc front f _)))

-- With this fuel `readline` ends by one of its returns.
abbrev Enough : ℕ → Adapter → Type 0
Enough fuel a = (suc (length a.rx) < fuel) ⊎ (a.eof ≡ true) × (0 < fuel)

abbrev Ready : ℕ → (Adapter → Text × Adapter) → Type 0
Ready fuel again = (a : Adapter) → Enough fuel a → Reads a.rx (again a)

on_recv-Reads :
    (fuel : ℕ) (again : Adapter → Text × Adapter) (a : Adapter) (rest : List Item) (r : Received)
    → Ready fuel again
    → suc (length a.rx) < suc fuel
    → NoNewline a.buf
    → Took a.rx r rest
    → Reads a.rx (on_recv again a rest r)
on_recv-Reads fuel again a rest (timed_out d) k le n t = inr (n, refl, inr ([], d, t))
on_recv-Reads fuel again a rest failed k le n t = inr (n, refl, inl refl)
on_recv-Reads fuel again a rest (chunk []) k le n t =
    Reads-earlier [] rest a.rx (again (record a { rx = rest; eof = true })) t
      (k (record a { rx = rest; eof = true }) (inr (refl, omega (arith, le))))
on_recv-Reads fuel again a rest (chunk (b ∷ more)) k le n (x, front, e) =
    Reads-earlier (x ∷ front) rest a.rx (again (record a { rx = rest; buf = a.buf ++ b ∷ more })) e
      (k (record a { rx = rest; buf = a.buf ++ b ∷ more })
        (inl (omega (arith, le, ap length e, length-append front rest))))

on_eof-Reads :
    (fuel : ℕ) (again : Adapter → Text × Adapter) (a : Adapter) (e : Bool)
    → a.eof ≡ e
    → Ready fuel again
    → Enough (suc fuel) a
    → NoNewline a.buf
    → Reads a.rx (on_eof again a e)
on_eof-Reads fuel again a true eq k en n = inr (n, refl, inl eq)
on_eof-Reads fuel again a false eq k (inr (y, p)) n = absurd (ground (arith, sym y ∙ eq))
on_eof-Reads fuel again a false eq k (inl le) n =
    on_recv-Reads fuel again a (recv 4096 a.rx).1 (recv 4096 a.rx).0 k le n (recv-Took 4095 a.rx)

on_cut-Reads :
    (fuel : ℕ) (again : Adapter → Text × Adapter) (a : Adapter) (o : Option (Text × Text))
    → Ready fuel again
    → Enough (suc fuel) a
    → Cuts a.buf o
    → Reads a.rx (on_cut again a o)
on_cut-Reads fuel again a none k en c = on_eof-Reads fuel again a a.eof refl k en c
on_cut-Reads fuel again a (some (line, rest)) k en (e, front, f, n) = inl (front, f, n)

readline_loop-Reads : (fuel : ℕ) → Ready fuel (readline_loop fuel)
unfolding readline_loop
readline_loop-Reads zero a (inl le) = absurd (omega (arith, le))
readline_loop-Reads zero a (inr (y, le)) = absurd (omega (arith, le))
readline_loop-Reads (suc fuel) a en =
    on_cut-Reads fuel (readline_loop fuel) a (cut_line a.buf) (readline_loop-Reads fuel) en
      (cut_line-Cuts a.buf)

-- `readline` splits what is unread: the bytes it returns, followed by those it leaves, are those
-- that were unread before. It returns one line with its newline, or bytes that hold no newline;
-- then the buffer is empty, and the peer has closed or failed, or the last `recv` timed out.
pub readline_lem :
    (a : Adapter) → ((readline a).0 ++ unread (readline a).1 ≡ unread a) × Reads a.rx (readline a)
unfolding readline
readline_lem a = (
  readline_loop-unread (suc (suc (length a.rx))) a,
  readline_loop-Reads (suc (suc (length a.rx))) a (inl (omega arith)),
)
