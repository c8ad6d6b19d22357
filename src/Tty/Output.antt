-- ===== src/Tty/Output.antt =====
-- kernel/tty_io.c: the inner loop of `tty_write`, which fills the write queue.
pub mod Expand
use rhee_creatives_linux_v.Base.{
  ℕ, zero, suc, ◌+◌, ◌-◌, ◌*◌, Option, none, some, Bool, true, false, ◌&&◌, not, if◌then◌else◌,
  ◌==◌, leb, List, [], ◌∷◌, length,
}
use rhee_creatives_linux_v.Tty.{TtyQueue, full, putch}

-- OPOST, OCRNL, ONLRET, ONLCR and OLCUC.
pub record OutputFlags : Type 0 where
  pub o_post : Bool
  pub o_crnl : Bool
  pub o_nlret : Bool
  pub o_nlcr : Bool
  pub o_lcuc : Bool

abbrev pub toupper : ℕ → ℕ
toupper c = if leb 97 c && leb c 122 then c - 32 else c

abbrev pub map_output : OutputFlags → ℕ → ℕ
map_output o c = if c == 13 && o.o_crnl then 10 else if c == 10 && o.o_nlret then 13 else c

-- One round: the character that is put, and whether the byte is done; a carriage return goes before
-- a new line, and `cr_flag` says that it has been put.
unfoldable pub out_char : OutputFlags → Bool → ℕ → ℕ × Bool
out_char o cr_flag byte =
    let c = map_output o byte in
    if not o.o_post
    then (byte, true)
    else if c == 10 && not cr_flag && o.o_nlcr
    then (13, false)
    else (if o.o_lcuc then toupper c else c, true)

-- The loop, on fuel: `cr_flag`, the bytes left and the queue.
unfoldable pub fill_write :
    ℕ → OutputFlags → Bool → List ℕ → TtyQueue → Option (Bool × List ℕ × TtyQueue)
fill_write zero o cr_flag bytes q = none
fill_write (suc fuel) o cr_flag [] q = some (cr_flag, [], q)
fill_write (suc fuel) o cr_flag (c ∷ bytes) q =
    let (x, done) = out_char o cr_flag c in
    let next = fill_write fuel o false bytes (putch x q) in
    let same = fill_write fuel o true (c ∷ bytes) (putch x q) in
    if full q then some (cr_flag, c ∷ bytes, q) else if done then next else same

-- Two rounds for each byte are enough.
unfoldable pub write_pass :
    OutputFlags → Bool → List ℕ → TtyQueue → Option (Bool × List ℕ × TtyQueue)
write_pass o cr_flag bytes q = fill_write (2 * length bytes + 2) o cr_flag bytes q
