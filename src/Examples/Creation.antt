-- ===== src/Examples/Creation.antt =====
-- kernel/fork.c at concrete inputs.
use rhee_creatives_linux_v.Base.{
  ℕ, ◌+◌, ◌≤◌, ◌<◌, ◌≡◌, Option, none, some, false, if◌then◌else◌, ◌==◌, arith, count,
}
use rhee_creatives_linux_v.Base.Int.{pos}
use rhee_creatives_linux_v.Task.{Task, nr_tasks}
use rhee_creatives_linux_v.Files.Counts.{Counted}
use rhee_creatives_linux_v.Fork.{find_empty_process, has_pid, Kernel, Segments, copy_process}
use rhee_creatives_linux_v.Fork.Pid.{FirstEmpty, find_empty_process-FirstEmpty}
use rhee_creatives_linux_v.Fork.Shares.{Forks, copy_process-Forks}
use rhee_creatives_linux_v.Examples.Process.{caller, table}

find_empty_process-FirstEmpty_example :
    (pid : ℕ) × (slot : Option ℕ) × (find_empty_process (pos 1) table ≡ some (pos pid, slot))
    × (1 < pid)
    × (pid ≤ 1 + 65)
    × ((j : ℕ) → j < nr_tasks → has_pid (pos pid) (table j) ≡ false)
    × FirstEmpty 63 1 table slot
find_empty_process-FirstEmpty_example = find_empty_process-FirstEmpty 1 table (omega arith)

-- Task 1 has file 5 open; it is alone.
abbrev parent : Task
parent = record caller { filp = λ i. if i == 0 then some 5 else none }

abbrev small_kernel : Kernel
small_kernel = record {
  mem = record { mem_map = λ i. 0; word = λ a. 0 };
  task = table;
  files = λ f. record {
    f_mode = 0;
    f_flags = 0;
    f_count = if f == 5 then 1 else 0;
    f_inode = none;
    f_pos = 0;
  };
  i_count = λ i. 1;
}

abbrev segments : Segments
segments = record {
  code_base = 0x4000000;
  data_base = 0x4000000;
  code_limit = 0x1000;
  data_limit = 0x1000;
}

abbrev nobody : ℕ → ℕ
nobody f = 0

small_kernel-Counted : Counted nobody (record {
  filp = parent.filp;
  close_on_exec = parent.close_on_exec;
  table = small_kernel.files;
})
unfolding count
small_kernel-Counted = record { counted = λ f. ground arith }

copy_process-Forks_example :
    Forks 4
      (pos 4)
      (pos 1000)
      segments
      parent
      small_kernel
      nobody
      (copy_process 4 (pos 4) (pos 1000) segments parent small_kernel)
copy_process-Forks_example =
    copy_process-Forks 4 (pos 4) (pos 1000) segments parent small_kernel nobody (λ f. omega arith)
      small_kernel-Counted
