-- ===== src/Examples/Terminal.antt =====
-- kernel/tty_io.c at a concrete input.
use rhee_creatives_linux_v.Base.{◌≡◌, refl, none, true, false, if◌then◌else◌, ◌==◌, [], ◌∷◌, arith}
use rhee_creatives_linux_v.Base.Int.{pos}
use rhee_creatives_linux_v.Task.{Tasks}
use rhee_creatives_linux_v.Tty.{TtyQueue, Tty}
use rhee_creatives_linux_v.Tty.Ring.{IsQueue, contents}
use rhee_creatives_linux_v.Tty.Keys.{typed_all}
use rhee_creatives_linux_v.Tty.Output.{OutputFlags, write_pass}
use rhee_creatives_linux_v.Tty.Output.Expand.{Filled, expand, write_pass-Filled}

abbrev no_chars : TtyQueue
no_chars = record { data_count = 0; head = 0; tail = 0; proc_list = none; buf = λ i. 0 }

no_chars-IsQueue : IsQueue no_chars
no_chars-IsQueue = record { head_lt = omega arith; tail_lt = omega arith }

-- `a`, an erase character, `b` and a carriage return, in cooked mode with echo.
abbrev console : Tty
console = record {
  i_uclc = false;
  i_nlcr = false;
  i_crnl = true;
  i_nocr = false;
  l_canon = true;
  l_isig = false;
  l_echo = true;
  l_echoctl = true;
  c_cc = λ i. if i == 2 then 127 else if i == 4 then 4 else if i == 0 then 3 else 0;
  pgrp = pos 4;
  stopped = false;
  read_q = record {
    data_count = 0;
    head = 4;
    tail = 0;
    proc_list = none;
    buf = λ i. if i == 0 then 97 else if i == 1 then 127 else if i == 2 then 98 else 13;
  };
  write_q = no_chars;
  secondary = no_chars;
}

abbrev no_tasks : Tasks
no_tasks j = none

console-typed : typed_all console [] (contents console.read_q) ≡ 98 ∷ 10 ∷ []
console-typed = refl

-- OPOST and ONLCR.
abbrev console_output : OutputFlags
console_output = record {
  o_post = true;
  o_crnl = false;
  o_nlret = false;
  o_nlcr = true;
  o_lcuc = false;
}

write_pass-Filled_example :
    Filled console_output false
      (97 ∷ 10 ∷ [])
      no_chars
      (write_pass console_output false (97 ∷ 10 ∷ []) no_chars)
write_pass-Filled_example =
    write_pass-Filled console_output false (97 ∷ 10 ∷ []) no_chars no_chars-IsQueue

new_line : expand console_output false (97 ∷ 10 ∷ []) ≡ 97 ∷ 13 ∷ 10 ∷ []
new_line = refl
