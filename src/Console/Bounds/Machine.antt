-- ===== src/Console/Bounds/Machine.antt =====
-- kernel/console.c: the bounds of the machine of `con_write`.
use rhee_creatives_linux_v.Base.{
  ℕ, zero, suc, ◌+◌, ◌-◌, ◌*◌, ◌%◌, ◌<◌, ◌≡◌, Bool, true, false, ◌&&◌, ◌||◌, ◌==◌, ltb, leb,
  if◌then◌else◌, update, arith, Bool-cases, inl, inr,
}
use rhee_creatives_linux_v.Tty.{getch, chars}
use rhee_creatives_linux_v.Console.{
  Screen, scrup, lines, columns, add32, sub32, gotoxy, lf, csi_at, csi_l, csi_p, csi_delete,
  insert_char, insert_line, delete_char, delete_line,
}
use rhee_creatives_linux_v.Console.Cells.{in_video}
use rhee_creatives_linux_v.Console.Write.{
  wrapped, put_char, backspace, tab, plain, less_one, at_least_one, set_region, move_cursor,
  command, execute, parameters, start_csi, Console, respond, escape, con_char, write_loop,
  con_write,
}
use rhee_creatives_linux_v.Console.Bounds.{
  InScreen, Safe, Safe-refl, Safe-trans, with_cells, at_place, with_parse, with_region, gotoxy-Safe,
  lf-Safe, ri-Safe, save_cur-Safe,
}
use rhee_creatives_linux_v.Console.Bounds.Edit.{
  restore_cur-Safe, cr-Safe, csi_m-Safe, csi_j-Safe, csi_k-Safe, insert_char-Safe, delete_char-Safe,
  del-Safe, insert_line-Safe, delete_line-Safe, times-Safe,
}

if-Safe : {s t u : Screen} (b : Bool) → Safe s t → Safe s u → Safe s (if b then t else u)
if-Safe true p q = p
if-Safe false p q = q

lf_column : (s : Screen) → (lf s).x ≡ s.x
unfolding lf scrup
lf_column s = ground arith

less_one-Safe : (s : Screen) → InScreen s → (i : ℕ) → Safe s (less_one i s)
less_one-Safe s v i =
    if-Safe (s.par i == 0) (Safe-refl s v) (with_parse s v s.state s.npar _ s.ques s.attr)

at_least_one-Safe : (s : Screen) → InScreen s → (i : ℕ) → Safe s (at_least_one i s)
at_least_one-Safe s v i =
    if-Safe (s.par i == 0) (with_parse s v s.state s.npar _ s.ques s.attr) (Safe-refl s v)

-- The cursor moved after a change of the parameters.
then_gotoxy : {s t : Screen} (a b : ℕ) → Safe s t → Safe s (gotoxy a b t)
then_gotoxy a b safe = Safe-trans _ _ _ safe (gotoxy-Safe _ safe.ok a b)

module _ (s : Screen) (v : InScreen s) where
  open v use {pos_eq, x_le, y_lt, origin_ge, end_eq, end_le}

  -- A new line for a cursor behind the last column.
  wrapped-Safe : Safe s (wrapped s) × ((wrapped s).x < columns)
  wrapped-Safe = elim (Bool-cases (leb columns s.x)) [
    | inl over ↦
        let placed =
          at_place s v (sub32 s.x columns) s.y (sub32 s.pos (2 * columns)) (ground arith) y_lt
            (ground arith) in
        let column =
          lf_column (record s { x = sub32 s.x columns; pos = sub32 s.pos (2 * columns) }) in
        rw over (Safe-trans s _ _ placed (lf-Safe _ placed.ok), rw column (ground arith))
    | inr inside ↦ rw inside (Safe-refl s v, ground arith)
  ]

  put_char-Safe : (c : ℕ) → Safe s (put_char c s)
  unfolding put_char
  put_char-Safe c =
      let (safe, column) = wrapped-Safe in
      let w = wrapped s in
      let ok = safe.ok in
      let here : in_video w.pos ≡ true =
        ground (arith, ok.pos_eq, ok.origin_ge, ok.end_eq, ok.end_le, ok.y_lt) in
      let shown =
        with_cells w ok (update w.cell w.pos (256 * w.attr + c)) (λ j out. ground arith) in
      Safe-trans s _ _ safe (
        Safe-trans w _ _ shown (
          at_place _ shown.ok (add32 w.x 1) w.y (add32 w.pos 2) (omega (arith, column)) ok.y_lt
            (omega (arith, column, ok.pos_eq, ok.origin_ge, ok.end_eq, ok.end_le, ok.y_lt))))

  backspace-Safe : Safe s (backspace s)
  unfolding backspace
  backspace-Safe = elim (Bool-cases (s.x == 0)) [
    | inl first ↦ rw first (Safe-refl s v)
    | inr later ↦ rw later (at_place s v (s.x - 1) s.y _ (ground arith) y_lt (ground arith))
  ]

  tab-Safe : Safe s (tab s)
  unfolding tab
  tab-Safe = elim (Bool-cases (ltb columns (add32 s.x (8 - s.x % 8)))) [
    | inl over ↦
        let placed =
          at_place s v (sub32 (add32 s.x (8 - s.x % 8)) columns) s.y
            (sub32 (add32 s.pos (2 * (8 - s.x % 8))) (2 * columns)) (ground arith) y_lt
            (ground arith) in
        rw over (Safe-trans s _ _ placed (lf-Safe _ placed.ok))
    | inr inside ↦ rw inside (at_place s v _ s.y _ (ground arith) y_lt (ground arith))
  ]

  csi_at-Safe : (nr : ℕ) → Safe s (csi_at nr s)
  unfolding csi_at
  csi_at-Safe nr = times-Safe _ insert_char s v insert_char-Safe

  csi_l-Safe : (nr : ℕ) → Safe s (csi_l nr s)
  unfolding csi_l
  csi_l-Safe nr = times-Safe _ insert_line s v insert_line-Safe

  csi_p-Safe : (nr : ℕ) → Safe s (csi_p nr s)
  unfolding csi_p
  csi_p-Safe nr = times-Safe _ delete_char s v delete_char-Safe

  csi_delete-Safe : (nr : ℕ) → Safe s (csi_delete nr s)
  unfolding csi_delete
  csi_delete-Safe nr = times-Safe _ delete_line s v delete_line-Safe

  set_region-Safe : Safe s (set_region s)
  unfolding set_region
  set_region-Safe =
      let less = less_one-Safe s v 0 in
      let t = less_one 0 s in
      let filled =
        if-Safe (t.par 1 == 0)
          (with_parse t less.ok t.state t.npar (update t.par 1 lines) t.ques t.attr)
          (Safe-refl t less.ok) in
      let u = if t.par 1 == 0 then record t { par = update t.par 1 lines } else t in
      elim (Bool-cases (ltb (u.par 0) (u.par 1) && leb (u.par 1) lines)) [
        | inl fits ↦ rw fits (
            Safe-trans s _ _ less (
              Safe-trans t _ _ filled
                (with_region u filled.ok (u.par 0) (u.par 1) (ground arith) (ground arith))))
        | inr bad ↦ rw bad (Safe-trans s _ _ less filled)
      ]

  move_cursor-Safe : (c : ℕ) → Safe s (move_cursor c s)
  unfolding move_cursor
  move_cursor-Safe c =
      let less = less_one-Safe s v 0 in
      let more = at_least_one-Safe s v 0 in
      let both = Safe-trans s _ _ less (less_one-Safe _ less.ok 1) in
      if-Safe (c == 71 || c == 96) (then_gotoxy _ _ less) (
        if-Safe (c == 65) (then_gotoxy _ _ more) (
          if-Safe (c == 66 || c == 101) (then_gotoxy _ _ more) (
            if-Safe (c == 67 || c == 97) (then_gotoxy _ _ more) (
              if-Safe (c == 68) (then_gotoxy _ _ more) (
                if-Safe (c == 69) (then_gotoxy _ _ more) (
                  if-Safe (c == 70) (then_gotoxy _ _ more) (
                    if-Safe (c == 100) (then_gotoxy _ _ less)
                      (if-Safe (c == 72 || c == 102) (then_gotoxy _ _ both) (Safe-refl s v)))))))))

  command-Safe : (c : ℕ) → Safe s (command c s)
  command-Safe c = if-Safe (c == 74) (csi_j-Safe s v _) (
      if-Safe (c == 75) (csi_k-Safe s v _) (
        if-Safe (c == 76) (csi_l-Safe _) (
          if-Safe (c == 77) (csi_delete-Safe _) (
            if-Safe (c == 80) (csi_p-Safe _) (
              if-Safe (c == 64) (csi_at-Safe _) (
                if-Safe (c == 109) (csi_m-Safe s v) (
                  if-Safe (c == 114) set_region-Safe (
                    if-Safe (c == 115) (save_cur-Safe s v)
                      (if-Safe (c == 117) (restore_cur-Safe s v) (move_cursor-Safe c))))))))))

  plain-Safe : (erase : Bool) (c : ℕ) → Safe s (plain erase c s)
  unfolding plain
  plain-Safe erase c = if-Safe (ltb 31 c && ltb c 127) (put_char-Safe c) (
      if-Safe (c == 27) (with_parse s v 1 s.npar s.par s.ques s.attr) (
        if-Safe (c == 10 || c == 11 || c == 12) (lf-Safe s v) (
          if-Safe (c == 13) (cr-Safe s v) (
            if-Safe erase (del-Safe s v)
              (if-Safe (c == 8) backspace-Safe (if-Safe (c == 9) tab-Safe (Safe-refl s v)))))))

-- States 2 to 4.
execute-Safe : (c : ℕ) (s : Screen) → InScreen s → Safe s (execute c s)
unfolding execute
execute-Safe c s v =
    let reset = with_parse s v 0 s.npar s.par s.ques s.attr in
    Safe-trans s _ _ reset (command-Safe _ reset.ok c)

parameters-Safe : (c : ℕ) (s : Screen) → InScreen s → Safe s (parameters c s)
unfolding parameters
parameters-Safe c s v =
    let last = with_parse s v 4 s.npar s.par s.ques s.attr in
    if-Safe (c == 59 && ltb s.npar 15) (with_parse s v s.state _ s.par s.ques s.attr) (
      if-Safe (leb 48 c && leb c 57) (with_parse s v s.state s.npar _ s.ques s.attr)
        (Safe-trans s _ _ last (execute-Safe c _ last.ok)))

start_csi-Safe : (c : ℕ) (s : Screen) → InScreen s → Safe s (start_csi c s)
unfolding start_csi
start_csi-Safe c s v =
    let begun = with_parse s v 3 0 (λ i. if ltb i 16 then 0 else s.par i) (c == 63) s.attr in
    if-Safe (c == 63) begun (Safe-trans s _ _ begun (parameters-Safe c _ begun.ok))

module _ (copy_to_cooked : Console → Console)
    (cooks : (k : Console) → InScreen k.screen → Safe k.screen (copy_to_cooked k).screen) where
  screen_if :
      {s : Screen} (k l : Console) (b : Bool)
      → Safe s k.screen
      → Safe s l.screen
      → Safe s (if b then k else l).screen
  screen_if k l true p q = p
  screen_if k l false p q = q

  escape-Safe :
      (c : ℕ) (k : Console) → InScreen k.screen → Safe k.screen (escape copy_to_cooked c k).screen
  unfolding escape respond
  escape-Safe c k v =
      let s = k.screen in
      let reset = with_parse s v 0 s.npar s.par s.ques s.attr in
      screen_if _ _ (c == 91) (with_parse s v 2 s.npar s.par s.ques s.attr) (
        screen_if _ _ (c == 69) (then_gotoxy _ _ reset) (
          screen_if _ _ (c == 77) (Safe-trans s _ _ reset (ri-Safe _ reset.ok)) (
            screen_if _ _ (c == 68) (Safe-trans s _ _ reset (lf-Safe _ reset.ok)) (
              screen_if _ _ (c == 90) (Safe-trans s _ _ reset (cooks _ reset.ok)) (
                screen_if _ _ (s.x == 55) (Safe-trans s _ _ reset (save_cur-Safe _ reset.ok)) (
                  screen_if _ _ (s.x == 56) (Safe-trans s _ _ reset (restore_cur-Safe _ reset.ok))
                    reset))))))

  con_char-Safe :
      (c : ℕ) (k : Console) → InScreen k.screen → Safe k.screen (con_char copy_to_cooked c k).screen
  unfolding con_char
  con_char-Safe c k v = screen_if _ _ (k.screen.state == 0) (plain-Safe k.screen v _ c) (
      screen_if _ _ (k.screen.state == 1) (escape-Safe c k v) (
        screen_if _ _ (k.screen.state == 2) (start_csi-Safe c k.screen v) (
          screen_if _ _ (k.screen.state == 3) (parameters-Safe c k.screen v) (
            screen_if _ _ (k.screen.state == 4) (execute-Safe c k.screen v)
              (Safe-refl k.screen v)))))

  write_loop-Safe :
      (nr : ℕ) (k : Console)
      → InScreen k.screen
      → Safe k.screen (write_loop copy_to_cooked nr k).screen
  unfolding write_loop
  write_loop-Safe zero k v = Safe-refl k.screen v
  write_loop-Safe (suc nr) k v =
      let (c, q) = getch k.tty.write_q in
      let k' : Console = record k { tty = record k.tty { write_q = q } } in
      let one = con_char-Safe c k' v in
      Safe-trans k.screen _ _ one (write_loop-Safe nr (con_char copy_to_cooked c k') one.ok)

  -- Whatever is in the write queue, `con_write` leaves the screen within video memory and the
  -- cursor on the screen or just behind a line, and writes to no address outside video memory.
  pub con_write-Safe :
      (k : Console) → InScreen k.screen → Safe k.screen (con_write copy_to_cooked k).screen
  unfolding con_write
  con_write-Safe k v = write_loop-Safe (chars k.tty.write_q) k v
