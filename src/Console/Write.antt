-- ===== src/Console/Write.antt =====
-- kernel/console.c: `con_write`, a machine that takes the characters of the write queue one by one.
-- The answer to a query goes through `copy_to_cooked`, which may write to the console: it is a
-- parameter.
use rhee_creatives_linux_v.Base.{
  ℕ, zero, suc, ◌+◌, ◌-◌, ◌*◌, ◌%◌, ◌^◌, Bool, ◌&&◌, ◌||◌, ◌==◌, ltb, leb, if◌then◌else◌, update,
  List, [], ◌∷◌,
}
use rhee_creatives_linux_v.Tty.{Tty, TtyQueue, putch, getch, chars, is_cc}
use rhee_creatives_linux_v.Console.{
  Screen, lines, columns, add32, sub32, gotoxy, lf, ri, cr, del, csi_j, csi_k, csi_m, csi_at, csi_l,
  csi_p, csi_delete, save_cur, restore_cur,
}

-- A printable character in state 0.
abbrev pub wrapped : Screen → Screen
wrapped s =
    if leb columns s.x
    then lf (record s { x = sub32 s.x columns; pos = sub32 s.pos (2 * columns) })
    else s

unfoldable pub put_char : ℕ → Screen → Screen
put_char c s =
    let w = wrapped s in
    record w { cell = update w.cell w.pos (256 * w.attr + c); pos = add32 w.pos 2; x = add32 w.x 1 }

unfoldable pub backspace : Screen → Screen
backspace s = if s.x == 0 then s else record s { x = s.x - 1; pos = sub32 s.pos 2 }

unfoldable pub tab : Screen → Screen
tab s =
    let c = 8 - s.x % 8 in
    let t = record s { x = add32 s.x c; pos = add32 s.pos (2 * c) } in
    if ltb columns t.x
    then lf (record t { x = sub32 t.x columns; pos = sub32 t.pos (2 * columns) })
    else t

-- State 0; `erase` says that `c` is the ERASE character.
unfoldable pub plain : Bool → ℕ → Screen → Screen
plain erase c s =
    if ltb 31 c && ltb c 127
    then put_char c s
    else if c == 27
    then record s { state = 1 }
    else if c == 10 || c == 11 || c == 12
    then lf s
    else if c == 13
    then cr s
    else if erase
    then del s
    else if c == 8
    then backspace s
    else if c == 9
    then tab s
    else s

-- `if (par[i]) par[i]--` and `if (!par[i]) par[i]++`.
abbrev pub less_one : ℕ → Screen → Screen
less_one i s = if s.par i == 0 then s else record s { par = update s.par i (s.par i - 1) }

abbrev pub at_least_one : ℕ → Screen → Screen
at_least_one i s = if s.par i == 0 then record s { par = update s.par i 1 } else s

-- `'r'`.
unfoldable pub set_region : Screen → Screen
set_region s =
    let t = less_one 0 s in
    let u = if t.par 1 == 0 then record t { par = update t.par 1 lines } else t in
    if ltb (u.par 0) (u.par 1) && leb (u.par 1) lines
    then record u { top = u.par 0; bottom = u.par 1 }
    else u

-- The commands of state 4 that move the cursor; the others are in `command`.
unfoldable pub move_cursor : ℕ → Screen → Screen
move_cursor c s =
    let less = less_one 0 s in
    let more = at_least_one 0 s in
    let both = less_one 1 (less_one 0 s) in
    if c == 71 || c == 96
    then gotoxy (less.par 0) less.y less
    else if c == 65
    then gotoxy more.x (sub32 more.y (more.par 0)) more
    else if c == 66 || c == 101
    then gotoxy more.x (add32 more.y (more.par 0)) more
    else if c == 67 || c == 97
    then gotoxy (add32 more.x (more.par 0)) more.y more
    else if c == 68
    then gotoxy (sub32 more.x (more.par 0)) more.y more
    else if c == 69
    then gotoxy 0 (add32 more.y (more.par 0)) more
    else if c == 70
    then gotoxy 0 (sub32 more.y (more.par 0)) more
    else if c == 100
    then gotoxy less.x (less.par 0) less
    else if c == 72 || c == 102
    then gotoxy (both.par 1) (both.par 0) both
    else s

abbrev pub command : ℕ → Screen → Screen
command c s =
    if c == 74
    then csi_j (s.par 0) s
    else if c == 75
    then csi_k (s.par 0) s
    else if c == 76
    then csi_l (s.par 0) s
    else if c == 77
    then csi_delete (s.par 0) s
    else if c == 80
    then csi_p (s.par 0) s
    else if c == 64
    then csi_at (s.par 0) s
    else if c == 109
    then csi_m s
    else if c == 114
    then set_region s
    else if c == 115
    then save_cur s
    else if c == 117
    then restore_cur s
    else move_cursor c s

-- State 4.
unfoldable pub execute : ℕ → Screen → Screen
execute c s = command c (record s { state = 0 })

-- State 3, which falls through to state 4.
unfoldable pub parameters : ℕ → Screen → Screen
parameters c s =
    if c == 59 && ltb s.npar 15
    then record s { npar = s.npar + 1 }
    else if leb 48 c && leb c 57
    then record s { par = update s.par s.npar ((10 * s.par s.npar + (c - 48)) % 2 ^ 32) }
    else execute c (record s { state = 4 })

-- State 2, which falls through to state 3.
unfoldable pub start_csi : ℕ → Screen → Screen
start_csi c s =
    let t = record s {
      par = λ i. if ltb i 16 then 0 else s.par i;
      npar = 0;
      state = 3;
      ques = c == 63;
    } in
    if c == 63 then t else parameters c t

pub record Console : Type 0 where
  pub tty : Tty
  pub screen : Screen

-- RESPONSE.
abbrev pub response : List ℕ
response = 27 ∷ 91 ∷ 63 ∷ 49 ∷ 59 ∷ 50 ∷ 99 ∷ []

unfoldable pub put_all : List ℕ → TtyQueue → TtyQueue
put_all [] q = q
put_all (c ∷ cs) q = put_all cs (putch c q)

abbrev pub on_screen : (Screen → Screen) → Console → Console
on_screen f k = record k { screen = f k.screen }

module _ (copy_to_cooked : Console → Console) where
  unfoldable pub respond : Console → Console
  respond k =
      copy_to_cooked (record k { tty = record k.tty { read_q = put_all response k.tty.read_q } })

  -- State 1: '7' and '8' are looked for in the column, not in the character.
  unfoldable pub escape : ℕ → Console → Console
  escape c k =
      let s = record k.screen { state = 0 } in
      let k' = record k { screen = s } in
      if c == 91
      then record k { screen = record s { state = 2 } }
      else if c == 69
      then record k { screen = gotoxy 0 (add32 s.y 1) s }
      else if c == 77
      then record k { screen = ri s }
      else if c == 68
      then record k { screen = lf s }
      else if c == 90
      then respond k'
      else if s.x == 55
      then record k { screen = save_cur s }
      else if s.x == 56
      then record k { screen = restore_cur s }
      else k'

  unfoldable pub con_char : ℕ → Console → Console
  con_char c k =
      let state = k.screen.state in
      if state == 0
      then on_screen (plain (is_cc k.tty 2 c) c) k
      else if state == 1
      then escape c k
      else if state == 2
      then on_screen (start_csi c) k
      else if state == 3
      then on_screen (parameters c) k
      else if state == 4
      then on_screen (execute c) k
      else k

  unfoldable pub write_loop : ℕ → Console → Console
  write_loop zero k = k
  write_loop (suc nr) k =
      let (c, q) = getch k.tty.write_q in
      write_loop nr (con_char c (record k { tty = record k.tty { write_q = q } }))

  unfoldable pub con_write : Console → Console
  con_write k = write_loop (chars k.tty.write_q) k
