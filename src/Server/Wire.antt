-- ===== src/Server/Wire.antt =====
-- The wire helpers of src/mbdeploy/server.py: `_read_line`, `_read_exact`, `_authenticate`. The peer
-- is a list of what happens on the socket, and times are natural numbers of ticks.
pub mod Reading
pub mod Handshake
use mbdeploy.Base.{
  ℕ, zero, suc, ◌+◌, ◌-◌, ◌≡◌, Bool, true, false, not, Option, none, some, List, [], ◌∷◌, ◌++◌,
  ◌==◌, ltb, if◌then◌else◌, length, drop, min, all,
}
use mbdeploy.Text.{Text, Unicode, codes, same, is_ascii, starts_with, decode_replace}

-- A byte arrives, some time passes with none (a `recv` waits, or times out), or the connection
-- breaks (`recv` raises `OSError`). After the last item the peer has closed. An `idle 0` stands
-- where two reads are needed.
pub data Item : Type 0 where
  byte : ℕ → Item
  idle : ℕ → Item
  broken : Item

-- A connection: what is still to arrive, the lines that were sent, and whether it is closed.
pub record Conn : Type 0 where
  pub rx : List Item
  pub tx : List Text
  pub closed : Bool

-- `_send_line`; a peer that has gone is no error
abbrev pub send_line : Text → Conn → Conn
send_line text c = record c { tx = c.tx ++ text ∷ [] }

-- `_close`
abbrev pub close : Conn → Conn
close c = record c { closed = true }

abbrev pub max_line : ℕ
max_line = 8192

-- The loop of `_read_line`, with the time that remains and the bytes so far: the line without its
-- newline, or `None`, and what is left to read.
unfoldable pub read_line : ℕ → Text → List Item → Option Text × List Item
read_line remaining buf [] = (none, [])
read_line remaining buf (idle d ∷ items) =
    let later = read_line (remaining - d) buf items in
    if remaining == 0 then (none, idle d ∷ items) else later
read_line remaining buf (broken ∷ items) = (none, if remaining == 0 then broken ∷ items else items)
read_line remaining buf (byte b ∷ items) =
    let buf' = buf ++ b ∷ [] in
    let later = read_line remaining buf' items in
    if remaining == 0
    then (none, byte b ∷ items)
    else if b == b'\n'
    then (some buf, items)
    else if ltb max_line (length buf')
    then (none, items)
    else later

-- what one `recv` gives
pub data Received : Type 0 where
  chunk : Text → Received
  timed_out : ℕ → Received
  failed : Received

-- the bytes that are there, at most `k`
unfoldable pub take_run : ℕ → List Item → Text × List Item
take_run (suc k) (byte b ∷ items) = let (bs, rest) = take_run k items in (b ∷ bs, rest)
take_run _ items = ([], items)

unfoldable pub recv : ℕ → List Item → Received × List Item
unfolding take_run
recv k [] = (chunk [], [])
recv k (idle d ∷ items) = (timed_out d, items)
recv k (broken ∷ items) = (failed, items)
recv k (byte b ∷ items) = let (bs, rest) = take_run k (byte b ∷ items) in (chunk bs, rest)

-- The loop of `_read_exact`. Each round but the last takes an item: the fuel is above their number.
unfoldable pub read_exact : ℕ → ℕ → ℕ → Text → List Item → Text × List Item
read_exact zero n remaining buf items = (buf, items)
read_exact (suc fuel) n remaining buf items = elim (ltb (length buf) n) [
  | false ↦ (buf, items)
  | true ↦ elim (remaining == 0) [
    | true ↦ (buf, items)
    | false ↦
        (let (r, rest) = recv (min 4096 (n - length buf)) items in
          elim r [
            | timed_out d ↦ read_exact fuel n (remaining - d) buf rest
            | failed ↦ (buf, rest)
            | chunk bs ↦ (elim bs [
              | [] ↦ (buf, rest)
              | b ∷ more ↦ read_exact fuel n remaining (buf ++ b ∷ more) rest
            ])
          ])
  ]
]

-- `hmac.compare_digest` on two `str`: a `TypeError`, here `none`, unless both are ASCII
unfoldable pub compare_digest : Text → Text → Option Bool
compare_digest a b =
    if all is_ascii a then (if all is_ascii b then some (same a b) else none) else none

pub data Auth : Type 0 where
  accepted rejected type_error : Auth

-- the answer to the line that came in
unfoldable pub check_token : Unicode → Text → Option Text → Auth
unfolding compare_digest
check_token u token none = rejected
check_token u token (some line) =
    let text = decode_replace u line in
    if not (starts_with text (codes "AUTH "))
    then rejected
    else elim (compare_digest (drop 5 text) token) [
      | none ↦ type_error
      | some b ↦ if b then accepted else rejected
    ]

abbrev greet : Auth → Conn → Conn
greet accepted c = send_line (codes "OK") c
greet rejected c = c
greet type_error c = c

-- `_authenticate`, and `token is not None and not` around it: without a token all are accepted
unfoldable pub authenticate : Unicode → Option Text → ℕ → Conn → Auth × Conn
unfolding check_token read_line
authenticate u none timeout c = (accepted, c)
authenticate u (some token) timeout c =
    let (line, rest) = read_line timeout [] c.rx in
    let a = check_token u token line in (a, greet a (record c { rx = rest }))
