-- ===== src/Inodes.antt =====
-- fs/namei.c and fs/open.c: who may use an inode, and its mode. A
-- call that looks a path up is given the inode that `namei` finds, or `none`.
pub mod Modes
use rhee_creatives_linux_v.Base.{
  ℕ, zero, suc, ◌+◌, ◌-◌, ◌*◌, ◌/◌, ◌%◌, ◌^◌, Option, none, some, Bool, true, false, ◌&&◌, ◌||◌,
  not, if◌then◌else◌, ◌==◌, bit_and, bit_or, update,
}
use rhee_creatives_linux_v.Base.Int.{ℤ, pos, neg}
use rhee_creatives_linux_v.Task.{Task}

-- The fields of `struct m_inode` that these calls use.
pub record Inode : Type 0 where
  pub i_mode : ℕ
  pub i_uid : ℕ
  pub i_gid : ℕ
  pub i_nlinks : ℕ
  pub i_dev : ℕ
  pub i_dirt : Bool

abbrev pub eacces : ℤ
eacces = neg 13

abbrev pub enoent : ℤ
enoent = neg 2

-- `current->uid && current->euid`.
abbrev pub is_user : Task → Bool
is_user t = not (t.uid == 0) && not (t.euid == 0)

-- The mode that counts for the task, moved down to its last three bits.
abbrev pub mode_for : Inode → Task → ℕ
mode_for i t =
    if not (is_user t)
    then 0o777
    else if t.uid == i.i_uid || t.euid == i.i_uid
    then i.i_mode / 2 ^ 6
    else if t.gid == i.i_gid || t.egid == i.i_gid
    then i.i_mode / 2 ^ 3
    else i.i_mode

unfoldable pub permission : Inode → ℕ → Task → ℕ
permission i mask t =
    if not (i.i_dev == 0) && i.i_nlinks == 0 then 0 else bit_and (bit_and (mode_for i t) mask) 7

-- The result, and the inode as it is left.
unfoldable pub sys_chmod : Option Inode → ℕ → Task → ℤ × Option Inode
sys_chmod none mode t = (enoent, none)
sys_chmod (some i) mode t =
    let limited =
      if is_user t then bit_or (bit_and mode 0o777) (bit_and i.i_mode 0o7000) else mode in
    if is_user t && not (t.uid == i.i_uid) && not (t.euid == i.i_uid) then (eacces, some i) else (
      pos 0,
      some (record i {
        i_mode = bit_or (bit_and limited 0o7777) (bit_and i.i_mode (2 ^ 32 - 1 - 0o7777)) % 2 ^ 16;
        i_dirt = true;
      }),
    )

unfoldable pub sys_chown : Option Inode → ℕ → ℕ → Task → ℤ × Option Inode
sys_chown none uid gid t = (enoent, none)
sys_chown (some i) uid gid t =
    if is_user t
    then (eacces, some i)
    else (pos 0, some (record i { i_uid = uid % 2 ^ 16; i_gid = gid % 2 ^ 8; i_dirt = true }))

abbrev pub access_base : Inode → Task → ℕ
access_base i t =
    let res = bit_and i.i_mode 0o777 in
    if not (is_user t) then (if not (bit_and res 0o111 == 0) then 0o777 else 0o666) else res

-- `mode` is not negative.
unfoldable pub sys_access : Option Inode → ℕ → Task → ℤ
sys_access none mode t = eacces
sys_access (some i) mode t =
    let wanted = bit_and mode 7 in
    let res = access_base i t in
    let mine =
      if t.euid == i.i_uid then res / 2 ^ 6 else if t.egid == i.i_gid then res / 2 ^ 6 else res in
    if bit_and (bit_and mine 7) wanted == wanted then pos 0 else eacces
