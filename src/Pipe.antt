-- ===== src/Pipe.antt =====
-- fs/pipe.c: reading and writing a pipe, a ring of one page. A call that has to sleep is split
-- there: it goes on with the pipe as it finds it when it is woken.
pub mod Ring
pub mod Fifo
pub mod Open
use rhee_creatives_linux_v.Base.{
  ℕ, zero, suc, ◌+◌, ◌-◌, ◌%◌, ◌^◌, Bool, true, false, List, [], ◌∷◌, not, if◌then◌else◌, ◌==◌,
  update,
}

-- The part of an inode that a pipe uses: the page, PIPE_HEAD, PIPE_TAIL, and `i_count`, the sum of
-- its readers and writers.
pub record Pipe : Type 0 where
  pub page : ℕ → ℕ
  pub head : ℕ
  pub tail : ℕ
  pub i_count : ℕ

-- INC_PIPE, and the macros that test the ring. A mask of 12 ones is the remainder by 4096.
abbrev pub inc_pipe : ℕ → ℕ
inc_pipe x = (x + 1) % 4096

abbrev pub pipe_size : Pipe → ℕ
pipe_size p = (p.head + 2 ^ 32 - p.tail) % 4096

abbrev pub pipe_empty : Pipe → Bool
pipe_empty p = p.head == p.tail

abbrev pub pipe_full : Pipe → Bool
pipe_full p = pipe_size p == 4095

-- `while (count>0 && !(PIPE_EMPTY(*inode)))`: the bytes put into the user's buffer, and the pipe.
unfoldable pub read_loop : ℕ → Pipe → List ℕ × Pipe
read_loop zero p = ([], p)
read_loop (suc count) p =
    let (got, p') = read_loop count (record p { tail = inc_pipe p.tail }) in
    if pipe_empty p then ([], p) else (p.page p.tail ∷ got, p')

pub data Read : Type 0 where
  -- The bytes that were read; their number is the result.
  got : List ℕ → Pipe → Read
  -- No data and no writers: the result is 0.
  eof : Read
  -- No data: the reader sleeps, and starts again.
  waits : Read

pub read_pipe : ℕ → Pipe → Read
read_pipe count p =
    if pipe_empty p
    then (if not (p.i_count == 2) then Read.eof else Read.waits)
    else let (bytes, p') = read_loop count p in Read.got bytes p'

pub data Write : Type 0 where
  -- All bytes were written; the result is their number.
  wrote : Pipe → Write
  -- SIGPIPE: no reader. The number of bytes that were written before.
  broken : ℕ → Pipe → Write
  -- The ring is full: the writer sleeps, with so many bytes written and these left.
  blocks : ℕ → List ℕ → Pipe → Write

abbrev pub put_byte : ℕ → Pipe → Pipe
put_byte x p = record p { page = update p.page p.head x; head = inc_pipe p.head }

-- `while (count-->0)`, with `n` bytes written.
unfoldable pub write_loop : ℕ → List ℕ → Pipe → Write
write_loop n [] p = Write.wrote p
write_loop n (x ∷ xs) p =
    let rest = write_loop (n + 1) xs (put_byte x p) in
    if pipe_full p
    then (if not (p.i_count == 2) then Write.broken n p else Write.blocks n (x ∷ xs) p)
    else rest

-- A broken pipe at the start gives -1, and none of the bytes.
pub write_pipe : List ℕ → Pipe → Write
write_pipe bytes p = if not (p.i_count == 2) then Write.broken 0 p else write_loop 0 bytes p
