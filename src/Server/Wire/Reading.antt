-- ===== src/Server/Wire/Reading.antt =====
-- The reads of src/mbdeploy/server.py take what the peer sent: a line up to its newline and not a
-- byte more, and a payload of the declared length however it is cut into chunks.
use mbdeploy.Base.{
  ℕ, zero, suc, ◌+◌, ◌-◌, ◌≤◌, ◌<◌, ◌≡◌, ◌≢◌, refl, ap, ◌∙◌, true, some, List, [], ◌∷◌, ◌++◌, arith,
  ltb, ◌==◌, if◌then◌else◌, length, length-append, min, All, Bool-cases, inl, inr, append-nil,
  append_assoc,
}
use mbdeploy.Text.{Text}
use mbdeploy.Server.Wire.{Item, byte, idle, broken, read_line, recv, take_run, read_exact, max_line}

-- the bytes of a text, arriving at once
abbrev pub bytes : Text → List Item
bytes [] = []
bytes (b ∷ bs) = byte b ∷ bytes bs

read_line-from :
    (line buf : Text) (remaining : ℕ) (rest : List Item)
    → All (λ b. b ≢ b'\n') line
    → length buf + length line ≤ max_line
    → 0 < remaining
    → read_line remaining buf (bytes line ++ byte b'\n' ∷ rest) ≡ (some (buf ++ line), rest)
unfolding read_line
read_line-from [] buf remaining rest h fits pos = ground (arith, append-nil buf)
read_line-from (b ∷ line) buf remaining rest h fits pos = ground (
  arith,
  h.0,
  length-append buf (b ∷ []),
  read_line-from line (buf ++ b ∷ []) remaining rest h.1,
  append_assoc buf (b ∷ []) line,
)

-- A line without a newline of its own that is followed by one and is within the length limit, all
-- of it there before the timeout, is read whole, and nothing after its newline is taken.
pub read_line_whole :
    (line : Text) (timeout : ℕ) (rest : List Item)
    → All (λ b. b ≢ b'\n') line
    → length line ≤ max_line
    → 0 < timeout
    → read_line timeout [] (bytes line ++ byte b'\n' ∷ rest) ≡ (some line, rest)
read_line_whole line timeout rest h fits pos =
    read_line-from line [] timeout rest h (omega arith) pos

-- The payload item by item: at most `n` bytes, while time remains.
pub gather : ℕ → ℕ → List Item → Text × List Item
gather zero remaining items = ([], items)
gather (suc n) remaining [] = ([], [])
gather (suc n) remaining (idle d ∷ items) =
    if remaining == 0 then ([], idle d ∷ items) else gather (suc n) (remaining - d) items
gather (suc n) remaining (broken ∷ items) =
    if remaining == 0 then ([], broken ∷ items) else ([], items)
gather (suc n) remaining (byte b ∷ items) =
    if remaining == 0
    then ([], byte b ∷ items)
    else (let (bs, rest) = gather n remaining items in (b ∷ bs, rest))

take_run-length :
    (j : ℕ) (items : List Item)
    → (length (take_run j items).0 ≤ j) × (length (take_run j items).1 ≤ length items)
unfolding take_run
take_run-length zero items = omega arith
take_run-length (suc j) (byte b ∷ items) = omega (arith, take_run-length j items)
take_run-length (suc j) [] = omega arith
take_run-length (suc j) _ = omega arith

-- The bytes of one chunk are the first of the payload.
gather-take_run :
    (j k r : ℕ) (items : List Item)
    → j ≤ k
    → 0 < r
    → let (bs, rest) = take_run j items in
      gather k r items
      ≡ (bs ++ (gather (k - length bs) r rest).0, (gather (k - length bs) r rest).1)
unfolding take_run gather
gather-take_run zero k r items le pos = ground arith
gather-take_run (suc j) zero r items le pos = absurd (omega arith)
gather-take_run (suc j) (suc k) r [] le pos = ground arith
gather-take_run (suc j) (suc k) r (byte b ∷ items) le pos =
    let ih = gather-take_run j k r items (omega arith) pos in
    let e : suc k - suc (length (take_run j items).0) ≡ k - length (take_run j items).0 =
      omega arith in
    ground (arith, ih, e)
gather-take_run (suc j) (suc k) r (idle d ∷ items) le pos = ground arith
gather-take_run (suc j) (suc k) r (broken ∷ items) le pos = ground arith

read_exact-gather :
    (fuel k n r : ℕ) (buf : Text) (items : List Item)
    → length items < fuel
    → n ≡ length buf + k
    → read_exact fuel n r buf items ≡ (buf ++ (gather k r items).0, (gather k r items).1)
unfolding read_exact gather recv
read_exact-gather zero k n r buf items f e = absurd (omega arith)
read_exact-gather (suc fuel) zero n r buf items f e = ground (arith, append-nil buf)
read_exact-gather (suc fuel) (suc k) n r buf [] f e = ground (arith, append-nil buf)
read_exact-gather (suc fuel) (suc k) n r buf (idle d ∷ items) f e =
    ground
      (arith, append-nil buf, read_exact-gather fuel (suc k) n (r - d) buf items (omega arith) e)
read_exact-gather (suc fuel) (suc k) n r buf (broken ∷ items) f e = ground (arith, append-nil buf)
read_exact-gather (suc fuel) (suc k) n r buf (byte b ∷ items) f e = elim (Bool-cases (r == 0)) [
  | inl late ↦ ground (arith, append-nil buf)
  | inr early ↦
      let j = min 4095 k in
      let run = (take_run j items).0 in
      let rest = (take_run j items).1 in
      let sizes = take_run-length j items in
      let cut : min 4096 (n - length buf) ≡ suc j = omega arith in
      let more : ltb (length buf) n ≡ true = ground arith in
      let ih =
        read_exact-gather fuel (k - length run) n r (buf ++ b ∷ run) rest (omega arith)
          (omega (arith, length-append buf (b ∷ run))) in
      let here = gather-take_run j k r items (omega arith) (ground arith) in
      let read = λ (m : ℕ). read_exact fuel n r (buf ++ b ∷ run) (take_run m (byte b ∷ items)).1 in
      rw (more, early, cut, read_exact, recv, take_run)
        (ap read cut
          ∙ (ih ∙ rw (here, append_assoc buf (b ∷ run) (gather (k - length run) r rest).0) refl))
]

-- Enough fuel is given: the chunked loop of `_read_exact` returns exactly the payload item by item,
-- the first `n` bytes that arrive while time remains, however `recv` cuts them.
pub read_exact_lem :
    (n timeout : ℕ) (items : List Item)
    → read_exact (suc (length items)) n timeout [] items ≡ gather n timeout items
read_exact_lem n timeout items =
    read_exact-gather (suc (length items)) n n timeout [] items (omega arith) (omega arith)

-- A payload that arrives whole is read whole, and what follows it is left.
pub gather-bytes :
    (payload : Text) (timeout : ℕ) (rest : List Item)
    → 0 < timeout
    → gather (length payload) timeout (bytes payload ++ rest) ≡ (payload, rest)
unfolding gather
gather-bytes [] timeout rest pos = refl
gather-bytes (b ∷ bs) timeout rest pos = ground (arith, gather-bytes bs timeout rest pos)

pub length-gather : (n timeout : ℕ) (items : List Item) → length (gather n timeout items).0 ≤ n
unfolding gather
length-gather zero r items = omega arith
length-gather (suc n) r [] = omega arith
length-gather (suc n) r (byte b ∷ items) = ground (arith, length-gather n r items)
length-gather (suc n) r (idle d ∷ items) = ground (arith, length-gather (suc n) (r - d) items)
length-gather (suc n) r (broken ∷ items) = ground arith
