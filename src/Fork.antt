-- ===== src/Fork.antt =====
-- kernel/fork.c: a free pid and slot, the copy of the memory, and the new task.
pub mod Pid
pub mod Shares
use rhee_creatives_linux_v.Base.{
  ℕ, zero, suc, ◌+◌, ◌-◌, ◌*◌, ◌/◌, ◌%◌, ◌^◌, Option, none, some, Bool, true, false, not,
  if◌then◌else◌, ◌==◌, ltb, update,
}
use rhee_creatives_linux_v.Base.Int.{ℤ, pos, ◌+ℤ◌, ◌==ℤ◌, ltb_ℤ, wrap32}
use rhee_creatives_linux_v.Task.{TaskState, Task, Tasks, nr_tasks}
use rhee_creatives_linux_v.Files.{File, set_count, nr_open}
use rhee_creatives_linux_v.Memory.{Mem, get_free_page, free_page, write_verify, handled, killed}
use rhee_creatives_linux_v.Memory.Share.{
  Copied, copied, no_memory, panicked, copy_page_tables, free_page_tables,
}

-- `if ((++last_pid)<0) last_pid=1;`
abbrev pub next_pid : ℤ → ℤ
next_pid last = if ltb_ℤ (wrap32 (last +ℤ pos 1)) (pos 0) then pos 1 else wrap32 (last +ℤ pos 1)

abbrev pub has_pid : ℤ → Option Task → Bool
has_pid pid none = false
has_pid pid (some t) = t.pid ==ℤ pid

-- Whether one of the first `n` slots has the pid.
unfoldable pub pid_used : ℤ → Tasks → ℕ → Bool
pid_used pid ts zero = false
pid_used pid ts (suc n) = if has_pid pid (ts n) then true else pid_used pid ts n

-- The loop at `repeat`, on fuel.
unfoldable pub find_new_pid : ℕ → ℤ → Tasks → Option ℤ
find_new_pid zero last ts = none
find_new_pid (suc fuel) last ts =
    let again = find_new_pid fuel (next_pid last) ts in
    if pid_used (next_pid last) ts nr_tasks then again else some (next_pid last)

-- The first empty one of the `n` slots from `i` on.
unfoldable pub find_slot : ℕ → ℕ → Tasks → Option ℕ
find_slot zero i ts = none
find_slot (suc n) i ts = elim (ts i) [ none ↦ some i | some t ↦ find_slot n (i + 1) ts ]

-- One more try than there are tasks is enough.
abbrev pub pid_tries : ℕ
pid_tries = 65

-- The new `last_pid`, and the slot; -EAGAIN is `none` there.
unfoldable pub find_empty_process : ℤ → Tasks → Option (ℤ × Option ℕ)
find_empty_process last ts = elim (find_new_pid pid_tries last ts) [
  | none ↦ none
  | some pid ↦ some (pid, find_slot (nr_tasks - 1) 1 ts)
]

-- The bases and limits of the two segments of the current task.
pub record Segments : Type 0 where
  pub code_base : ℕ
  pub data_base : ℕ
  pub code_limit : ℕ
  pub data_limit : ℕ

-- `copy_mem`; `no_memory` is -ENOMEM.
unfoldable pub copy_mem : ℕ → Segments → Mem → Copied
copy_mem nr seg m =
    if not (seg.data_base == seg.code_base)
    then panicked
    else if ltb seg.data_limit seg.code_limit
    then panicked
    else elim (copy_page_tables seg.data_base (nr * 0x4000000 % 2 ^ 32) seg.data_limit m) [
      | copied m1 ↦ copied m1
      | no_memory m1 ↦ elim (free_page_tables (nr * 0x4000000 % 2 ^ 32) seg.data_limit m1) [
        | none ↦ panicked
        | some m2 ↦ no_memory m2
      ]
      | panicked ↦ panicked
    ]

-- What `copy_process` changes: memory, the task table, the file table and the counts of the inodes.
-- The page that holds the task structure is counted; its contents are the entry of the table.
pub record Kernel : Type 0 where
  pub mem : Mem
  pub task : Tasks
  pub files : ℕ → File
  pub i_count : ℕ → ℕ

-- The fields that differ from the parent's; the saved registers are left out.
abbrev pub child_of : Task → ℤ → ℤ → Task
child_of me last_pid jiffies = record me {
  state = TaskState.running;
  pid = last_pid;
  father = me.pid;
  counter = me.priority;
  signal = 0;
  alarm = pos 0;
  leader = false;
  utime = pos 0;
  stime = pos 0;
  cutime = pos 0;
  cstime = pos 0;
  start_time = jiffies;
}

-- `for (i=0; i<NR_OPEN;i++) if ((f=p->filp[i])) f->f_count++;`
unfoldable pub share_files : ℕ → (ℕ → Option ℕ) → (ℕ → File) → ℕ → File
share_files zero filp t = t
share_files (suc n) filp t =
    let before = share_files n filp t in
    elim (filp n) [
      | none ↦ before
      | some f ↦ set_count f (((before f).f_count + 1) % 2 ^ 16) before
    ]

abbrev pub share_inode : Option ℕ → (ℕ → ℕ) → ℕ → ℕ
share_inode none c = c
share_inode (some i) c = update c i ((c i + 1) % 2 ^ 16)

pub data Forked : Type 0 where
  forked : (pid : ℤ) (k : Kernel) → Forked
  -- -EAGAIN.
  again : (k : Kernel) → Forked
  -- A panic.
  halted : Forked

unfoldable pub copy_process : ℕ → ℤ → ℤ → Segments → Task → Kernel → Forked
copy_process nr last_pid jiffies seg me k =
    let (p, m1) = get_free_page k.mem in
    if p == 0 then Forked.again (record k { mem = m1 }) else elim (copy_mem nr seg m1) [
      | copied m2 ↦ Forked.forked last_pid (record {
        mem = m2;
        task = update k.task nr (some (child_of me last_pid jiffies));
        files = share_files nr_open me.filp k.files;
        i_count = share_inode me.root (share_inode me.pwd k.i_count);
      })
      | no_memory m2 ↦ elim (free_page p m2) [
        | none ↦ Forked.halted
        | some m3 ↦ Forked.again (record k { mem = m3 })
      ]
      | panicked ↦ Forked.halted
    ]

-- `verify_area` from the start of a page on: a fault that finds no memory ends the process.
unfoldable pub verify_pages : ℕ → ℕ → Mem → Bool × Mem
verify_pages zero start m = (true, m)
verify_pages (suc n) start m = elim (write_verify start m) [
  | handled m1 ↦ verify_pages n ((start + 4096) % 2 ^ 32) m1
  | killed m1 ↦ (false, m1)
]

-- `base` is the base of the data segment; `size` is not negative.
pub verify_area : ℕ → ℕ → ℕ → Mem → Bool × Mem
verify_area base addr size m =
    verify_pages ((size + addr % 4096 + 4095) / 4096) ((addr - addr % 4096 + base) % 2 ^ 32) m
