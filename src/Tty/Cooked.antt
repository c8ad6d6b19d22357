-- ===== src/Tty/Cooked.antt =====
-- kernel/tty_io.c: the cooked characters that `copy_to_cooked` makes of the raw ones.
use rhee_creatives_linux_v.Base.{ℕ, none, some, not, ◌&&◌, if◌then◌else◌}
use rhee_creatives_linux_v.Task.{Tasks}
use rhee_creatives_linux_v.Tty.{Tty, putch, is_cc, take_canon, echo, count_line, tty_intr}
use rhee_creatives_linux_v.Tty.Keys.{OnlyWrites, with_secondary}

module _ (write : Tty → Tty) (writes : (u : Tty) → OnlyWrites u (write u)) where
  -- The rest of the round, on a character that no test under ICANON takes.
  abbrev round : Tasks → Tty → ℕ → Tty × Tasks
  round ts t c =
      if not t.l_isig && is_cc t 0 c
      then (t, tty_intr t.pgrp 2 ts)
      else (with_secondary (putch c) (echo write (count_line write t c) c), ts)

  -- The round on a key.
  abbrev on_key : Tasks → Tty → ℕ → Tty
  on_key ts t c =
      (elim (take_canon write t c) as (λ _. Tty × Tasks) [
        | some t' ↦ (t', ts)
        | none ↦ round ts t c
      ]).0
