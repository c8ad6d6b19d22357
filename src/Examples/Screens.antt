-- ===== src/Examples/Screens.antt =====
-- kernel/console.c at a concrete screen.
use rhee_creatives_linux_v.Base.{ℕ, ◌+◌, refl, none, true, false, if◌then◌else◌, ◌==◌, arith}
use rhee_creatives_linux_v.Base.Int.{pos}
use rhee_creatives_linux_v.Tty.{TtyQueue, Tty}
use rhee_creatives_linux_v.Console.{Screen, screen_start}
use rhee_creatives_linux_v.Console.Write.{Console, con_write}
use rhee_creatives_linux_v.Console.Bounds.{InScreen, Safe, Safe-refl}
use rhee_creatives_linux_v.Console.Bounds.Machine.{con_write-Safe}

abbrev queue : (ℕ → ℕ) → ℕ → TtyQueue
queue buf n = record { data_count = 0; head = n; tail = 0; proc_list = none; buf = buf }

-- `A`, ESC, `[`, `2`, `J` and a line feed.
abbrev typed : ℕ → ℕ
typed i =
    if i == 0
    then 65
    else if i == 1
    then 27
    else if i == 2
    then 91
    else if i == 3
    then 50
    else if i == 4
    then 74
    else 10

abbrev terminal : Tty
terminal = record {
  i_uclc = false;
  i_nlcr = false;
  i_crnl = true;
  i_nocr = false;
  l_canon = true;
  l_isig = false;
  l_echo = true;
  l_echoctl = true;
  c_cc = λ i. if i == 2 then 127 else 0;
  pgrp = pos 4;
  stopped = false;
  read_q = queue (λ i. 0) 0;
  write_q = queue typed 6;
  secondary = queue (λ i. 0) 0;
}

-- The cursor in the last line, behind the last column.
abbrev last_place : Screen
last_place = record {
  origin = screen_start;
  scr_end = screen_start + 4000;
  pos = screen_start + 4000;
  x = 80;
  y = 24;
  top = 0;
  bottom = 25;
  state = 0;
  npar = 0;
  par = λ i. 0;
  ques = false;
  attr = 7;
  saved_x = 0;
  saved_y = 0;
  cell = λ a. 0;
}

last_place-InScreen : InScreen last_place
last_place-InScreen = record {
  origin_ge = omega arith;
  end_eq = refl;
  end_le = omega arith;
  x_le = omega arith;
  y_lt = omega arith;
  pos_eq = refl;
  region = omega arith;
  bottom_le = omega arith;
  saved_x_le = omega arith;
  saved_y_lt = omega arith;
}

abbrev console : Console
console = record { tty = terminal; screen = last_place }

con_write-Safe_example : Safe last_place (con_write (λ k. k) console).screen
con_write-Safe_example =
    con_write-Safe (λ k. k) (λ k v. Safe-refl k.screen v) console last_place-InScreen
