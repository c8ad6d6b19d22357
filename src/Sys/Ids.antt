-- ===== src/Sys/Ids.antt =====
-- kernel/sys.c: who may take which user and group.
use rhee_creatives_linux_v.Base.{
  ℕ, ◌^◌, ◌<◌, ◌≡◌, ◌≢◌, true, ◌||◌, not, if◌then◌else◌, ◌==◌, arith, List, [], ◌∷◌,
}
use rhee_creatives_linux_v.Base.Int.{pos}
use rhee_creatives_linux_v.Task.{Task}
use rhee_creatives_linux_v.Sys.{eperm, unprivileged, sys_setgid, sys_setuid}

-- `sys_setgid` of a group below 2 ^ 16: a privileged task takes it as its group and effective
-- group; any other task takes it as its effective group exactly if it is its group or its saved
-- group, and is refused with no change otherwise. The rest of the task never changes.
pub sys_setgid_lem :
    (gid : ℕ) (t : Task)
    → gid < 2 ^ 16
    → sys_setgid gid t ≡ (
        if not (unprivileged t)
        then (pos 0, record t { gid = gid; egid = gid })
        else (if gid == t.gid || gid == t.sgid
            then (pos 0, record t { egid = gid })
            else (eperm, t)))
unfolding sys_setgid
sys_setgid_lem gid t small = ground arith

-- Any sequence of calls of `sys_setgid`.
pub setgids : List ℕ → Task → Task
setgids [] t = t
setgids (g ∷ gs) t = setgids gs (sys_setgid g t).1

-- A task that is not privileged and whose saved user is another than its user can take only its own
-- user as its effective user: any other is refused with no change.
pub sys_setuid-own :
    (uid : ℕ) (t : Task)
    → unprivileged t ≡ true
    → t.suid ≢ t.uid
    → uid < 2 ^ 16
    → sys_setuid uid t ≡ (if uid == t.uid then (pos 0, record t { euid = uid }) else (eperm, t))
unfolding sys_setuid
sys_setuid-own uid t low differs small = ground arith
