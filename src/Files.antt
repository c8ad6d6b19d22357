-- ===== src/Files.antt =====
-- fs/fcntl.c and `sys_close` of fs/open.c: descriptors and the file table.
pub mod Counts
pub mod Flags
pub mod Dup
use rhee_creatives_linux_v.Base.{
  ℕ, zero, suc, ◌+◌, ◌-◌, ◌%◌, ◌^◌, Option, none, some, Bool, true, false, ◌&&◌, ◌||◌, not,
  if◌then◌else◌, ◌==◌, ltb, leb, update, bit_and, bit_or, is_some,
}
use rhee_creatives_linux_v.Base.Int.{ℤ, pos, negsuc, neg}
use rhee_creatives_linux_v.Base.Bits.{bit, with_bit, without_bit}

-- `struct file`; an inode is named by its index, and NULL is `none`.
pub record File : Type 0 where
  pub f_mode : ℕ
  pub f_flags : ℕ
  pub f_count : ℕ
  pub f_inode : Option ℕ
  pub f_pos : ℕ

-- `current->filp`, `current->close_on_exec` and `file_table`.
pub record Files : Type 0 where
  pub filp : ℕ → Option ℕ
  pub close_on_exec : ℕ
  pub table : ℕ → File

abbrev pub nr_open : ℕ
nr_open = 20

abbrev pub nr_file : ℕ
nr_file = 64

-- `-EBADF`, `-EINVAL`, `-EMFILE`, `-ENOSYS`.
abbrev pub ebadf : ℤ
ebadf = neg 9

abbrev pub einval : ℤ
einval = neg 22

abbrev pub emfile : ℤ
emfile = neg 24

abbrev pub enosys : ℤ
enosys = neg 38

abbrev pub set_count : ℕ → ℕ → (ℕ → File) → ℕ → File
set_count f n t = update t f (record (t f) { f_count = n })

-- The file of a descriptor, if it is in range and open.
abbrev pub file_of : ℕ → Files → Option ℕ
file_of fd s = if leb nr_open fd then none else s.filp fd

-- The first free descriptor of the `n` from `fd` on.
unfoldable pub free_fd : ℕ → ℕ → (ℕ → Option ℕ) → Option ℕ
free_fd zero fd filp = none
free_fd (suc n) fd filp = if is_some (filp fd) then free_fd n (fd + 1) filp else some fd

-- The last lines of `dupfd`.
unfoldable pub share_file : ℕ → ℕ → Files → Files
share_file fd f s = record {
  filp = update s.filp fd (some f);
  close_on_exec = without_bit 32 s.close_on_exec fd;
  table = set_count f (((s.table f).f_count + 1) % 2 ^ 16) s.table;
}

unfoldable pub dupfd : ℕ → ℕ → Files → ℤ × Files
dupfd fd arg s = elim (file_of fd s) [
  | none ↦ (ebadf, s)
  | some f ↦ if leb nr_open arg then (einval, s) else elim (free_fd (nr_open - arg) arg s.filp) [
    | none ↦ (emfile, s)
    | some free ↦ (pos free, share_file free f s)
  ]
]

-- The outcome of `sys_close`: its result, the files, and the inode that `iput` is called with.
pub data Closed : Type 0 where
  closed : ℤ → Files → Option (Option ℕ) → Closed
  panicked : Closed

unfoldable pub drop_file : ℕ → ℕ → Files → Closed
drop_file fd f s =
    let s' : Files = record s { filp = update s.filp fd none } in
    if (s.table f).f_count == 0
    then Closed.panicked
    else let s'' : Files = record s' { table = set_count f ((s.table f).f_count - 1) s.table } in
      if not ((s.table f).f_count - 1 == 0)
      then Closed.closed (pos 0) s'' none
      else Closed.closed (pos 0) s'' (some (s.table f).f_inode)

unfoldable pub sys_close : ℕ → Files → Closed
sys_close fd s =
    if leb nr_open fd
    then Closed.closed einval s none
    else let s' : Files = record s { close_on_exec = without_bit 32 s.close_on_exec fd } in
      elim (s.filp fd) [ none ↦ Closed.closed einval s' none | some f ↦ drop_file fd f s' ]

unfoldable pub sys_dup : ℕ → Files → ℤ × Files
sys_dup fildes s = dupfd fildes 0 s

-- The result of `sys_close` is not looked at.
unfoldable pub sys_dup2 : ℕ → ℕ → Files → Closed
sys_dup2 oldfd newfd s = elim (sys_close newfd s) [
  | Closed.closed _ s' put ↦ Closed.closed (dupfd oldfd newfd s').0 (dupfd oldfd newfd s').1 put
  | Closed.panicked ↦ Closed.panicked
]

-- O_APPEND | O_NONBLOCK.
abbrev pub settable : ℕ
settable = 0o6000

-- `cmd` is the number of the command: F_DUPFD 0, F_GETFD 1, F_SETFD 2, F_GETFL 3, F_SETFL 4.
unfoldable pub sys_fcntl : ℕ → ℕ → ℕ → Files → ℤ × Files
sys_fcntl fd cmd arg s = elim (file_of fd s) [
  | none ↦ (ebadf, s)
  | some f ↦
      if cmd == 0
      then dupfd fd arg s
      else if cmd == 1
      then (pos (if bit s.close_on_exec fd then 1 else 0), s)
      else if cmd == 2
      then (
        pos 0,
        record s {
          close_on_exec =
              if arg % 2 == 1
              then with_bit s.close_on_exec fd
              else without_bit 32 s.close_on_exec fd;
        },
      )
      else if cmd == 3
      then (pos (s.table f).f_flags, s)
      else if cmd == 4
      then (
        pos 0,
        record s {
          table = update s.table f (record (s.table f) {
            f_flags =
                bit_or (bit_and (s.table f).f_flags (2 ^ 32 - 1 - settable)) (bit_and arg settable)
                % 2 ^ 16;
          });
        },
      )
      else (negsuc 0, s)
]

-- F_GETLK64, F_SETLK64 and F_SETLKW64 are 12, 13 and 14.
unfoldable pub sys_fcntl64 : ℕ → ℕ → ℕ → Files → ℤ × Files
sys_fcntl64 fd cmd arg s = elim (file_of fd s) [
  | none ↦ (ebadf, s)
  | some f ↦ if cmd == 12 || cmd == 13 || cmd == 14 then (enosys, s) else sys_fcntl fd cmd arg s
]
