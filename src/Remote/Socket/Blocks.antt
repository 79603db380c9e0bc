-- ===== src/Remote/Socket/Blocks.antt =====
-- `SocketSerial.read`, `in_waiting` and `reset_input_buffer` of src/mbdeploy/remote.py.
use mbdeploy.Base.{
  ℕ, zero, suc, ◌≤◌, ◌≡◌, ◌≢◌, refl, sym, ap, ◌∙◌, Bool, true, false, List, [], ◌∷◌, ◌++◌, arith,
  ◌==◌, ltb, length, take, drop, append_assoc, Bool-cases, inl, inr,
}
use mbdeploy.Server.Wire.{Item, Received, chunk, timed_out, failed, recv}
use mbdeploy.Remote.Socket.{
  Adapter, fill, read, slice, drain_in, drain_loop, drain, drain_unless, in_waiting,
}
use mbdeploy.Remote.Socket.Bytes.{arriving, unread, received, Keeps1, fill-unread, recv-arriving}

take-drop {ℓ} : {A : Type ℓ} → (n : ℕ) (xs : List A) → take n xs ++ drop n xs ≡ xs
take-drop zero xs = refl
take-drop (suc n) [] = refl
take-drop (suc n) (x ∷ xs) = ap (λ l. x ∷ l) (take-drop n xs)

length-take_le {ℓ} : {A : Type ℓ} → (n : ℕ) (xs : List A) → length (take n xs) ≤ n
length-take_le zero xs = omega arith
length-take_le (suc n) [] = omega arith
length-take_le (suc n) (x ∷ xs) = omega (arith, length-take_le n xs)

take_all {ℓ} :
    {A : Type ℓ} → (xs : List A) → (take (length xs) xs ≡ xs) × (drop (length xs) xs ≡ [])
take_all [] = (refl, refl)
take_all (x ∷ xs) = (ap (λ l. x ∷ l) (take_all xs).0, (take_all xs).1)

slice-unread : (size : ℕ) (a : Adapter) → (slice size a).0 ++ unread (slice size a).1 ≡ unread a
slice-unread size a =
    sym (append_assoc (take size a.buf) (drop size a.buf) (arriving a.rx))
    ∙ ap (λ l. l ++ arriving a.rx) (take-drop size a.buf)

-- `read` splits what is unread: the bytes it returns, followed by those it leaves, are those that
-- were unread before, and it returns no more of them than it was asked for.
pub read_lem :
    (size : ℕ) (a : Adapter)
    → ((read size a).0 ++ unread (read size a).1 ≡ unread a) × (length (read size a).0 ≤ size)
unfolding read
read_lem size a = elim (Bool-cases (size == 0)) [
  | inl y ↦ rw y (refl, omega arith)
  | inr n ↦
      let filled = fill (suc (length a.rx)) size a in
      rw n (
        slice-unread size filled ∙ fill-unread (suc (length a.rx)) size a,
        length-take_le size filled.buf,
      )
]

drain_in-unread :
    (again : Adapter → Adapter) (a : Adapter) (rest : List Item) (r : Received)
    → Keeps1 again
    → received r ++ arriving rest ≡ arriving a.rx
    → unread (drain_in again a rest r) ≡ unread a
drain_in-unread again a rest (timed_out d) k e = refl
drain_in-unread again a rest failed k e = ap (λ l. a.buf ++ l) e
drain_in-unread again a rest (chunk []) k e = ap (λ l. a.buf ++ l) e
drain_in-unread again a rest (chunk (b ∷ more)) k e =
    k (record a { rx = rest; buf = a.buf ++ b ∷ more })
    ∙ append_assoc a.buf (b ∷ more) (arriving rest)
    ∙ ap (λ l. a.buf ++ l) e

drain_loop-unread : (fuel : ℕ) → Keeps1 (drain_loop fuel)
unfolding drain_loop
drain_loop-unread zero a = refl
drain_loop-unread (suc fuel) a =
    drain_in-unread (drain_loop fuel) a (recv 65536 a.rx).1 (recv 65536 a.rx).0
      (drain_loop-unread fuel) (recv-arriving 65536 a.rx)

drain_unless-unread : (a : Adapter) (e : Bool) → unread (drain_unless a e) ≡ unread a
drain_unless-unread a true = refl
drain_unless-unread a false = drain_loop-unread (suc (length a.rx)) a

drain-unread : Keeps1 drain
unfolding drain
drain-unread a = drain_unless-unread a a.eof

ltb_self : (n : ℕ) → ltb n n ≡ false
ltb_self n = ground arith

slice_all : (a : Adapter) → slice (length a.buf) a ≡ (a.buf, record a { buf = [] })
slice_all a = rw ((take_all a.buf).0, (take_all a.buf).1) refl

fill_enough : (fuel : ℕ) (a : Adapter) → fill fuel (length a.buf) a ≡ a
unfolding fill
fill_enough zero a = refl
fill_enough (suc fuel) a = rw (ltb_self (length a.buf)) refl

read_all : (a : Adapter) → length a.buf ≢ 0 → read (length a.buf) a ≡ (a.buf, record a { buf = [] })
unfolding read
read_all a n = elim (Bool-cases (length a.buf == 0)) [
  | inl y ↦ absurd (ground (arith, y, n))
  | inr f ↦ rw (f, fill_enough (suc (length a.rx)) a) (slice_all a)
]

-- `in_waiting` loses nothing that is unread, and a `read` of as many bytes as it counted, when it
-- counted some, returns just those, with no `recv` of its own: what is still to arrive stays as it
-- was and nothing of it waits in the buffer.
pub read-in_waiting :
    (a : Adapter)
    → (in_waiting a).0 ≢ 0
    → (unread (in_waiting a).1 ≡ unread a)
      × (read (in_waiting a).0 (in_waiting a).1
          ≡ ((in_waiting a).1.buf, record (in_waiting a).1 { buf = [] }))
unfolding in_waiting
read-in_waiting a n = (drain-unread a, read_all (drain a) n)
