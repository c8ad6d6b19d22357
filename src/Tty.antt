-- ===== src/Tty.antt =====
-- kernel/tty_io.c and include/linux/tty.h: the character queues and `copy_to_cooked`. A character is
-- a byte; as a `signed char` it is negative from 128 on.
pub mod Ring
pub mod Keys
pub mod Cooked
pub mod Output
use rhee_creatives_linux_v.Base.{
  ℕ, zero, suc, ◌+◌, ◌-◌, ◌*◌, ◌%◌, ◌^◌, Option, none, some, Bool, true, false, ◌&&◌, ◌||◌, not,
  if◌then◌else◌, ◌==◌, ltb, leb, update,
}
use rhee_creatives_linux_v.Base.Int.{ℤ, pos, ◌==ℤ◌, ltb_ℤ}
use rhee_creatives_linux_v.Base.Bits.{with_bit}
use rhee_creatives_linux_v.Task.{Task, Tasks, nr_tasks}
use rhee_creatives_linux_v.Task.Table.{at_slot}
use rhee_creatives_linux_v.Sched.Queue.{wake_up}

pub record TtyQueue : Type 0 where
  pub data_count : ℕ
  pub head : ℕ
  pub tail : ℕ
  pub proc_list : Option ℕ
  pub buf : ℕ → ℕ

-- INC and DEC of an index, and the macros on a queue.
abbrev pub inc : ℕ → ℕ
inc a = (a + 1) % 1024

abbrev pub dec : ℕ → ℕ
dec a = (a + 2 ^ 32 - 1) % 1024

abbrev pub empty : TtyQueue → Bool
empty q = q.head == q.tail

abbrev pub left : TtyQueue → ℕ
left q = (q.tail + 2 * 2 ^ 32 - (q.head + 1)) % 1024

abbrev pub full : TtyQueue → Bool
full q = left q == 0

abbrev pub last_char : TtyQueue → ℕ
last_char q = q.buf (dec q.head)

abbrev pub chars : TtyQueue → ℕ
chars q = (q.head + 2 ^ 32 - q.tail) % 1024

abbrev pub getch : TtyQueue → ℕ × TtyQueue
getch q = (q.buf q.tail, record q { tail = inc q.tail })

abbrev pub putch : ℕ → TtyQueue → TtyQueue
putch c q = record q { buf = update q.buf q.head c; head = inc q.head }

-- `struct tty_struct`: the flags of its `termios` that are tested, one by one.
pub record Tty : Type 0 where
  pub i_uclc : Bool
  pub i_nlcr : Bool
  pub i_crnl : Bool
  pub i_nocr : Bool
  pub l_canon : Bool
  pub l_isig : Bool
  pub l_echo : Bool
  pub l_echoctl : Bool
  pub c_cc : ℕ → ℕ
  pub pgrp : ℤ
  pub stopped : Bool
  pub read_q : TtyQueue
  pub write_q : TtyQueue
  pub secondary : TtyQueue

-- `c == c_cc[i]`: the right side is an unsigned character.
abbrev pub is_cc : Tty → ℕ → ℕ → Bool
is_cc t i c = ltb c 128 && c == t.c_cc i

-- `c < 32`.
abbrev pub is_control : ℕ → Bool
is_control c = ltb c 32 || leb 128 c

-- `tolower`, where the table of classes ends nothing is a capital.
abbrev pub tolower : ℕ → ℕ
tolower c = if leb 65 c && leb c 90 then (c + (97 + 65)) % 256 else c

unfoldable pub tty_intr : ℤ → ℕ → Tasks → Tasks
tty_intr pgrp signal ts j =
    if not (ltb_ℤ (pos 0) pgrp)
    then ts j
    else if ltb j nr_tasks
    then at_slot
        (λ t. if t.pgrp ==ℤ pgrp then record t { signal = with_bit t.signal (signal - 1) } else t) j
        ts j
    else ts j

-- The first tests on a character: `none` is one that is ignored.
abbrev pub map_input : Tty → ℕ → Option ℕ
map_input t c =
    if c == 13
    then (if t.i_crnl then some 10 else if t.i_nocr then none else some 13)
    else if c == 10 && t.i_nlcr
    then some 13
    else some c

abbrev pub put_write : ℕ → Tty → Tty
put_write c t = record t { write_q = putch c t.write_q }

-- What is put into the write queue for a character that is taken back, and for one that is echoed.
unfoldable pub show_erase : Tty → ℕ → Tty
show_erase t l = put_write 127 (if is_control l then put_write 127 t else t)

unfoldable pub show_char : Tty → ℕ → Tty
show_char t c =
    if c == 10
    then put_write 13 (put_write 10 t)
    else if is_control c
    then (if t.l_echoctl then put_write ((c + 64) % 256) (put_write 94 t) else t)
    else put_write c t

-- `write` is the function of that name in the structure.
module _ (write : Tty → Tty) where
  -- ERASE_CHAR.
  unfoldable pub erase : Tty → Tty
  erase t =
      let l = last_char t.secondary in
      if empty t.secondary || l == 10 || is_cc t 4 l
      then t
      else let t1 : Tty = if t.l_echo then write (show_erase t l) else t in
        record t1 { secondary = record (t1.secondary) { head = dec (t1.secondary.head) } }

  -- The tests under ICANON: the terminal, where one of them takes the character.
  unfoldable pub take_canon : Tty → ℕ → Option Tty
  take_canon t c =
      if not t.l_canon
      then none
      else if is_cc t 2 c
      then some (erase t)
      else if is_cc t 9 c
      then some (record t { stopped = true })
      else if is_cc t 8 c
      then some (record t { stopped = false })
      else none

  unfoldable pub echo : Tty → ℕ → Tty
  echo t c = if t.l_echo then write (show_char t c) else t

  unfoldable pub count_line : Tty → ℕ → Tty
  count_line t c =
      if c == 10 || is_cc t 4 c
      then record t {
        secondary = record (t.secondary) { data_count = (t.secondary.data_count + 1) % 2 ^ 32 };
      }
      else t

  abbrev pub put_secondary : ℕ → Tty → Tty
  put_secondary c t = record t { secondary = putch c t.secondary }

  -- One round, after GETCH. SIGINT is 2.
  unfoldable pub cook : ℕ → Tty → Tasks → Tty × Tasks
  cook raw t ts = elim (map_input t raw) [
    | none ↦ (t, ts)
    | some c0 ↦
        let c = if t.i_uclc then tolower c0 else c0 in
        elim (take_canon t c) [
          | some t' ↦ (t', ts)
          | none ↦
              if not t.l_isig && is_cc t 0 c
              then (t, tty_intr t.pgrp 2 ts)
              else (put_secondary c (echo (count_line t c) c), ts)
        ]
  ]

  -- The loop, on fuel.
  unfoldable pub cook_loop : ℕ → Tty → Tasks → Option (Tty × Tasks)
  cook_loop zero t ts = none
  cook_loop (suc fuel) t ts =
      let (c, q) = getch t.read_q in
      let (t', ts') = cook c (record t { read_q = q }) ts in
      let rest = cook_loop fuel t' ts' in
      if empty t.read_q || full t.secondary then some (t, ts) else rest

  -- The queue holds less than 1024 characters.
  unfoldable pub copy_to_cooked : Tty → Tasks → Option (Tty × Tasks)
  copy_to_cooked t ts = elim (cook_loop 1024 t ts) [
    | none ↦ none
    | some (t', ts') ↦
        let (head, woken) = wake_up t'.secondary.proc_list ts' in
        some (record t' { secondary = record (t'.secondary) { proc_list = head } }, woken)
  ]
