-- ===== src/Examples/Descriptors.antt =====
-- fs/pipe.c, fs/fcntl.c and fs/open.c at concrete inputs.
use rhee_creatives_linux_v.Base.{
  ℕ, ◌<◌, ◌≡◌, refl, Option, none, some, List, [], ◌∷◌, if◌then◌else◌, ◌==◌, arith, count,
}
use rhee_creatives_linux_v.Exit.Leave.{close_all}
use rhee_creatives_linux_v.Exit.Leave.Closing.{close_all-others}
use rhee_creatives_linux_v.Pipe.{Pipe, write_pipe}
use rhee_creatives_linux_v.Pipe.Ring.{IsRing, contents}
use rhee_creatives_linux_v.Pipe.Fifo.{
  Writes, Session, read, write, users, run, InOrder, write_pipe-Writes, run-InOrder,
}
use rhee_creatives_linux_v.Pipe.Open.{sys_pipe}
use rhee_creatives_linux_v.Pipe.Open.Rollback.{Pipes, sys_pipe-Pipes}
use rhee_creatives_linux_v.Files.{Files, nr_open, dupfd, sys_close, sys_dup2}
use rhee_creatives_linux_v.Files.Dup.{Dupped, dupfd-Dupped}
use rhee_creatives_linux_v.Files.Counts.{Ends, sys_dup2-Ends, Counted, Closes, sys_close-Closes}

-- Two bytes, across the end of the page.
abbrev pipe : Pipe
pipe = record { page = λ i. if i == 4095 then 65 else 66; head = 1; tail = 4095; i_count = 2 }

pipe-IsRing : IsRing pipe
pipe-IsRing = record { head_lt = omega arith; tail_lt = omega arith }

two_bytes : contents pipe ≡ 65 ∷ 66 ∷ []
two_bytes = refl

write_pipe-Writes_example : Writes 0 (67 ∷ 68 ∷ []) pipe (write_pipe (67 ∷ 68 ∷ []) pipe)
write_pipe-Writes_example = write_pipe-Writes (67 ∷ 68 ∷ []) pipe pipe-IsRing

abbrev session : Session
session = record { sent = 65 ∷ 66 ∷ []; received = []; pipe = pipe }

run-InOrder_example :
    InOrder (run session (write (67 ∷ []) ∷ read 2 ∷ users 1 ∷ write (68 ∷ []) ∷ read 9 ∷ []))
run-InOrder_example =
    run-InOrder (write (67 ∷ []) ∷ read 2 ∷ users 1 ∷ write (68 ∷ []) ∷ read 9 ∷ []) session
      (record { ring = pipe-IsRing; order = refl })

-- Descriptors 0 and 2 name file 5, descriptor 1 file 6; another process has one of file 5.
abbrev files : Files
files = record {
  filp = λ i. if i == 0 then some 5 else if i == 1 then some 6 else if i == 2 then some 5 else none;
  close_on_exec = 4;
  table = λ f. record {
    f_mode = 0;
    f_flags = 0;
    f_count = if f == 5 then 3 else if f == 6 then 1 else 0;
    f_inode = some f;
    f_pos = 0;
  };
}

abbrev elsewhere : ℕ → ℕ
elsewhere f = if f == 5 then 1 else 0

files-Counted : Counted elsewhere files
unfolding count
files-Counted = record { counted = λ f. ground arith }

dupfd-Dupped_example : Dupped 0 2 files (dupfd 0 2 files)
dupfd-Dupped_example = dupfd-Dupped 0 2 files

sys_close-Closes_example : Closes elsewhere 1 files (sys_close 1 files)
sys_close-Closes_example = sys_close-Closes elsewhere 1 files files-Counted

sys_pipe-Pipes_example : Pipes elsewhere (some 9) files (sys_pipe (some 9) files)
sys_pipe-Pipes_example = sys_pipe-Pipes elsewhere (some 9) files files-Counted

close_all-others_example :
    (s' : Files) × (puts : List (Option ℕ)) × (close_all nr_open 0 files ≡ some (s', puts))
    × ((j : ℕ) → j < 20 → s'.filp j ≡ none)
    × ((f : ℕ) → (s'.table f).f_count ≡ elsewhere f)
close_all-others_example = close_all-others elsewhere files files-Counted

sys_dup2-Ends_example : Ends elsewhere (sys_dup2 0 1 files)
sys_dup2-Ends_example = sys_dup2-Ends elsewhere 0 1 files (λ f. ground arith) files-Counted
