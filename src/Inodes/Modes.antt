-- ===== src/Inodes/Modes.antt =====
-- fs/namei.c and fs/open.c: the bits of a mode that decide, and those that `sys_chmod` sets.
use rhee_creatives_linux_v.Base.{
  ℕ, zero, suc, ◌+◌, ◌-◌, ◌/◌, ◌%◌, ◌^◌, ◌<◌, ◌≡◌, refl, ◌∙◌, ap, some, Bool, true, false, ◌&&◌,
  ◌||◌, not, if◌then◌else◌, ◌==◌, ltb, leb, bit_and, bit_or, arith,
}
use rhee_creatives_linux_v.Base.Int.{pos}
use rhee_creatives_linux_v.Base.Bits.{
  bit, bit-bit_and, bit-bit_or, bit_and-mask, bit_and_four, bit-ones, bit_half,
}
use rhee_creatives_linux_v.Task.{Task}
use rhee_creatives_linux_v.Inodes.{
  Inode, is_user, mode_for, permission, sys_chmod, sys_access, eacces,
}

-- Three and six places down.
bit_eighth : (w n : ℕ) → bit (w / 2 ^ 3) n ≡ bit w (n + 3)
bit_eighth w n =
    ap (λ v. bit v n) (omega arith)
    ∙ bit_half (w / 2 / 2) n
    ∙ bit_half (w / 2) (n + 1)
    ∙ bit_half w (n + 1 + 1)
    ∙ ap (bit w) (omega arith)

bit_sixty_fourth : (w n : ℕ) → bit (w / 2 ^ 6) n ≡ bit w (n + 6)
bit_sixty_fourth w n =
    ap (λ v. bit v n) (omega arith)
    ∙ bit_eighth (w / 2 ^ 3) n
    ∙ bit_eighth w (n + 3)
    ∙ ap (bit w) (omega arith)

-- The class that the task falls in decides which three bits of the mode count.
abbrev pub class_bit : Inode → Task → ℕ → Bool
class_bit i t n =
    if not (is_user t)
    then true
    else if t.uid == i.i_uid || t.euid == i.i_uid
    then bit i.i_mode (n + 6)
    else if t.gid == i.i_gid || t.egid == i.i_gid
    then bit i.i_mode (n + 3)
    else bit i.i_mode n

bit-mode_for : (i : Inode) (n : ℕ) (t : Task) → n < 3 → bit (mode_for i t) n ≡ class_bit i t n
bit-mode_for i n t h =
    ground (arith, bit-ones 9 n, bit_sixty_fourth i.i_mode n, bit_eighth i.i_mode n)

-- `permission` on an inode that is not deleted: of the three bits of the result, exactly those are
-- set that the mask asks for and that the mode gives to the class of the task, all three for a
-- privileged task, those of the owner for the owner, those of the group for a member that is not
-- the owner, and the last three for all others.
pub permission-class_bit :
    (i : Inode) (mask n : ℕ) (t : Task)
    → (not (i.i_dev == 0) && i.i_nlinks == 0) ≡ false
    → n < 3
    → bit (permission i mask t) n ≡ (class_bit i t n && bit mask n)
unfolding permission
permission-class_bit i mask n t live h =
    rw (permission, live, bit-bit_and, bit-bit_and, bit-mode_for i n t h, bit-ones 3 n h)
      (ground arith)

-- The bits of the masks of `sys_chmod`.
abbrev Masks : ℕ → Type 0
Masks n =
    (bit 0o777 n ≡ ltb n 9)
    × (bit 0o7000 n ≡ (leb 9 n && ltb n 12))
    × (bit 0o7777 n ≡ ltb n 12)
    × (bit (2 ^ 32 - 1 - 0o7777) n ≡ leb 12 n)
    × (bit (2 ^ 16 - 1) n ≡ true)

masks : (n : ℕ) → n < 16 → Masks n
unfolding bit
masks zero h = (refl, refl, refl, refl, refl)
masks (suc zero) h = (refl, refl, refl, refl, refl)
masks (suc (suc zero)) h = (refl, refl, refl, refl, refl)
masks (suc (suc (suc zero))) h = (refl, refl, refl, refl, refl)
masks (suc (suc (suc (suc zero)))) h = (refl, refl, refl, refl, refl)
masks (suc (suc (suc (suc (suc zero))))) h = (refl, refl, refl, refl, refl)
masks (suc (suc (suc (suc (suc (suc zero)))))) h = (refl, refl, refl, refl, refl)
masks (suc (suc (suc (suc (suc (suc (suc zero))))))) h = (refl, refl, refl, refl, refl)
masks (suc (suc (suc (suc (suc (suc (suc (suc zero)))))))) h = (refl, refl, refl, refl, refl)
masks (suc (suc (suc (suc (suc (suc (suc (suc (suc zero))))))))) h = (refl, refl, refl, refl, refl)
masks (suc (suc (suc (suc (suc (suc (suc (suc (suc (suc zero)))))))))) h =
    (refl, refl, refl, refl, refl)
masks (suc (suc (suc (suc (suc (suc (suc (suc (suc (suc (suc zero))))))))))) h =
    (refl, refl, refl, refl, refl)
masks (suc (suc (suc (suc (suc (suc (suc (suc (suc (suc (suc (suc zero)))))))))))) h =
    (refl, refl, refl, refl, refl)
masks (suc (suc (suc (suc (suc (suc (suc (suc (suc (suc (suc (suc (suc zero))))))))))))) h =
    (refl, refl, refl, refl, refl)
masks (suc (suc (suc (suc (suc (suc (suc (suc (suc (suc (suc (suc (suc (suc zero)))))))))))))) h =
    (refl, refl, refl, refl, refl)
masks (suc (suc (suc (suc (suc (suc (suc (suc (suc (suc (suc (suc (suc (suc (suc zero)))))))))))))))
      h =
    (refl, refl, refl, refl, refl)
masks
      (suc
        (suc (suc (suc (suc (suc (suc (suc (suc (suc (suc (suc (suc (suc (suc (suc n))))))))))))))))
      h =
    absurd (omega arith)

-- What `sys_chmod` makes of the bits of the mode: the kind of file stays, the permissions are those
-- asked for, and the three bits between them too, unless the task is not privileged.
abbrev pub changed_bit : Inode → ℕ → Task → ℕ → Bool
changed_bit i mode t n =
    if ltb n 9
    then bit mode n
    else if ltb n 12 && not (is_user t)
    then bit mode n
    else bit i.i_mode n

limited_bit :
    (i : Inode) (mode n : ℕ) (t : Task)
    → n < 16
    → bit
        (bit_or
            (bit_and
              (if is_user t then bit_or (bit_and mode 0o777) (bit_and i.i_mode 0o7000) else mode)
              0o7777)
            (bit_and i.i_mode (2 ^ 32 - 1 - 0o7777))
          % 2 ^ 16)
        n
      ≡ changed_bit i mode t n
limited_bit i mode n t h =
    let (low, middle, all, kind, short) = masks n h in
    rw (← bit_and-mask 16, bit-bit_and, bit-bit_or, bit-bit_and, bit-bit_and, all, kind, short)
      (ground (
        arith,
        low,
        middle,
        bit-bit_or (bit_and mode 0o777) (bit_and i.i_mode 0o7000) n,
        bit-bit_and mode 0o777 n,
        bit-bit_and i.i_mode 0o7000 n,
      ))

-- `sys_chmod` on an inode that was found: a task that is neither privileged nor the owner is
-- refused with no change. Any other gets 0, the bits of the mode are those of `changed_bit`, and the
-- rest of the inode stays but for its being dirty.
pub sys_chmod-changed_bit :
    (i : Inode) (mode : ℕ) (t : Task)
    → (is_user t && not (t.uid == i.i_uid) && not (t.euid == i.i_uid) ≡ true
        → sys_chmod (some i) mode t ≡ (eacces, some i))
      × (is_user t && not (t.uid == i.i_uid) && not (t.euid == i.i_uid) ≡ false
          → (u : Inode) × (sys_chmod (some i) mode t ≡ (pos 0, some u))
            × ((n : ℕ) → n < 16 → bit u.i_mode n ≡ changed_bit i mode t n)
            × (u ≡ record i { i_mode = u.i_mode; i_dirt = true }))
unfolding sys_chmod
sys_chmod-changed_bit i mode t = (
  λ refused. rw (sys_chmod, refused) refl,
  λ allowed. (_, rw (sys_chmod, allowed) refl, λ n h. limited_bit i mode n t h, refl),
)

-- On an inode of another user, `sys_access` judges a task that is not privileged and whose
-- effective group is that of the inode by the three bits of the owner, and not by those of the
-- group.
pub sys_access-group :
    (i : Inode) (t : Task)
    → is_user t ≡ true
    → (t.euid == i.i_uid) ≡ false
    → (t.egid == i.i_gid) ≡ true
    → sys_access (some i) 4 t ≡ (if bit i.i_mode 8 then pos 0 else eacces)
unfolding sys_access bit
sys_access-group i t user stranger member =
    rw
      (
        sys_access,
        user,
        stranger,
        member,
        bit_and-mask 9 i.i_mode,
        bit_and-mask 3 (i.i_mode % 512 / 2 ^ 6),
        bit_and_four (i.i_mode % 512 / 2 ^ 6 % 8),
      )
      (ground (
        arith,
        bit_and-mask 9 i.i_mode,
        bit_and-mask 3 (i.i_mode % 512 / 2 ^ 6),
        bit_and_four (i.i_mode % 512 / 2 ^ 6 % 8),
      ))
