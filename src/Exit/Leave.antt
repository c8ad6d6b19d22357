-- ===== src/Exit/Leave.antt =====
-- kernel/exit.c: `do_exit`, up to its `schedule()`.
pub mod Closing
use rhee_creatives_linux_v.Base.{
  ℕ, zero, suc, ◌+◌, Option, none, some, Bool, true, false, ◌&&◌, not, if◌then◌else◌, ltb, List, [],
  ◌∷◌, ◌++◌, is_some, update,
}
use rhee_creatives_linux_v.Base.Int.{ℤ, pos, ◌==ℤ◌, ltb_ℤ}
use rhee_creatives_linux_v.Task.{TaskState, Task, Tasks, nr_tasks, sigchld}
use rhee_creatives_linux_v.Task.Table.{at_slot}
use rhee_creatives_linux_v.Exit.{release, do_kill}
use rhee_creatives_linux_v.Files.{Files, Closed, closed, panicked, sys_close, nr_open}
use rhee_creatives_linux_v.Memory.{Mem}
use rhee_creatives_linux_v.Memory.Share.{free_page_tables}

-- `if (task[i] && task[i]->father == current->pid) task[i]->father = 0;` at each slot.
abbrev pub leave_child : ℤ → Task → Task
leave_child pid t = if t.father ==ℤ pid then record t { father = pos 0 } else t

unfoldable pub leave_children : ℤ → Tasks → Tasks
leave_children pid ts j = if ltb j nr_tasks then at_slot (leave_child pid) j ts j else ts j

abbrev pub with_put : Option (Option ℕ) → List (Option ℕ) → List (Option ℕ)
with_put none puts = puts
with_put (some i) puts = i ∷ puts

-- The loop over the `n` descriptors from `fd` on: the files and the inodes that `iput` gets, or a
-- panic of `sys_close`.
unfoldable pub close_all : ℕ → ℕ → Files → Option (Files × List (Option ℕ))
close_all zero fd s = some (s, [])
close_all (suc n) fd s =
    let skip = close_all n (fd + 1) s in
    let close : Option (Files × List (Option ℕ)) = elim (sys_close fd s) [
      | closed r s' put ↦ elim (close_all n (fd + 1) s') [
        | none ↦ none
        | some (s'', puts) ↦ some (s'', with_put put puts)
      ]
      | panicked ↦ none
    ] in
    if is_some (s.filp fd) then close else skip

-- What is left of the process: memory, the task table, the files, the inodes that `iput` gets and
-- the terminal whose process group is cleared.
pub record Left : Type 0 where
  pub mem : Mem
  pub task : Tasks
  pub files : Files
  pub puts : List (Option ℕ)
  pub tty : Option ℤ

-- A zombie that its father is told of, or, without a father, an empty slot.
unfoldable pub end_task : ℕ → ℤ → Task → Tasks → Option Tasks
end_task current code me ts =
    if not (me.father ==ℤ pos 0)
    then some (
        at_slot (λ t. record t { exit_code = code }) current
          (do_kill me me.father (pos sigchld) true
            (at_slot (λ t. record t { state = TaskState.zombie }) current ts)))
    else release current ts

abbrev pub cleared_tty : Task → Option ℤ
cleared_tty me = if me.leader && not (ltb_ℤ me.tty (pos 0)) then some me.tty else none

-- The arguments are those of `do_exit`, the current task `me` in its slot, the bases and limits of
-- its two segments, and the state; `none` is a panic.
unfoldable pub do_exit :
    ℤ
    → ℕ
    → Task
    → (code_base code_limit data_base data_limit : ℕ) → Mem
    → Tasks
    → Files
    → Option Left
do_exit code current me code_base code_limit data_base data_limit m ts s =
    elim (free_page_tables code_base code_limit m) [
      | none ↦ none
      | some m1 ↦ elim (free_page_tables data_base data_limit m1) [
        | none ↦ none
        | some m2 ↦ elim (close_all nr_open 0 s) [
          | none ↦ none
          | some (s', puts) ↦
              elim (end_task current code me (
                at_slot
                  (λ t. record t {
                    pwd = none;
                    root = none;
                    filp = s'.filp;
                    close_on_exec = s'.close_on_exec;
                  })
                  current (leave_children me.pid ts))) [
                    | none ↦ none
                    | some ts' ↦ some (record {
                      mem = m2;
                      task = ts';
                      files = s';
                      puts = puts ++ me.pwd ∷ me.root ∷ [];
                      tty = cleared_tty me;
                    })
                  ]
        ]
      ]
    ]
