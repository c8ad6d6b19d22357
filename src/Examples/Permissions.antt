-- ===== src/Examples/Permissions.antt =====
-- fs/namei.c and fs/open.c at concrete inputs.
use rhee_creatives_linux_v.Base.{ℕ, ◌<◌, ◌≡◌, refl, none, some, true, false, ◌&&◌, not, ◌==◌, arith}
use rhee_creatives_linux_v.Base.Int.{pos}
use rhee_creatives_linux_v.Base.Bits.{bit}
use rhee_creatives_linux_v.Task.{Task, TaskState}
use rhee_creatives_linux_v.Inodes.{Inode, is_user, permission, sys_chmod, eacces}
use rhee_creatives_linux_v.Inodes.Modes.{
  class_bit, changed_bit, permission-class_bit, sys_chmod-changed_bit,
}

abbrev member : Task
member = record {
  state = TaskState.running;
  counter = pos 1;
  priority = pos 15;
  signal = 0;
  sig_restorer = 0;
  sig_fn = λ i. 0;
  exit_code = pos 0;
  end_code = 0;
  end_data = 0;
  brk = 0;
  start_stack = 0;
  pid = pos 4;
  father = pos 1;
  pgrp = pos 1;
  session = pos 1;
  leader = false;
  uid = 7;
  euid = 7;
  suid = 7;
  gid = 5;
  egid = 5;
  sgid = 5;
  alarm = pos 0;
  utime = pos 0;
  stime = pos 0;
  cutime = pos 0;
  cstime = pos 0;
  start_time = pos 0;
  used_math = false;
  tty = pos 0;
  umask = 0;
  pwd = none;
  root = none;
  close_on_exec = 0;
  filp = λ i. none;
}

-- A regular file, `rwxr-----`.
abbrev inode : Inode
inode = record {
  i_mode = 0o100740;
  i_uid = 3;
  i_gid = 5;
  i_nlinks = 1;
  i_dev = 0x301;
  i_dirt = false;
}

permission-class_bit_example :
    bit (permission inode 4 member) 2 ≡ (class_bit inode member 2 && bit 4 2)
permission-class_bit_example = permission-class_bit inode 4 2 member refl (omega arith)

sys_chmod-changed_bit_example :
    (is_user member && not (member.uid == 3) && not (member.euid == 3) ≡ true
      → sys_chmod (some inode) 0o777 member ≡ (eacces, some inode))
    × (is_user member && not (member.uid == 3) && not (member.euid == 3) ≡ false
        → (u : Inode) × (sys_chmod (some inode) 0o777 member ≡ (pos 0, some u))
          × ((n : ℕ) → n < 16 → bit u.i_mode n ≡ changed_bit inode 0o777 member n)
          × (u ≡ record inode { i_mode = u.i_mode; i_dirt = true }))
sys_chmod-changed_bit_example = sys_chmod-changed_bit inode 0o777 member
