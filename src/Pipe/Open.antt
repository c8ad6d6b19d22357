-- ===== src/Pipe/Open.antt =====
-- fs/pipe.c: `sys_pipe`, on the descriptors of the process and the file table.
pub mod Rollback
use rhee_creatives_linux_v.Base.{
  ℕ, zero, suc, ◌+◌, ◌-◌, Option, none, some, if◌then◌else◌, ◌==◌, update,
}
use rhee_creatives_linux_v.Files.{File, Files, nr_open, nr_file, set_count, free_fd}

-- The first of the `n` entries of the file table from `i` on that is not in use.
unfoldable pub free_file : ℕ → ℕ → (ℕ → File) → Option ℕ
free_file zero i t = none
free_file (suc n) i t = if (t i).f_count == 0 then some i else free_file n (i + 1) t

pub data Piped : Type 0 where
  -- The result is -1.
  failed : Files → Piped
  -- The two descriptors, for reading and for writing.
  piped : (reader writer : ℕ) → Files → Piped

-- `f[0]->f_count=f[1]->f_count=0`
abbrev pub release_files : ℕ → ℕ → (ℕ → File) → ℕ → File
release_files a b t = set_count a 0 (set_count b 0 t)

-- The inode, position and mode of one end.
abbrev pub pipe_end : Option ℕ → ℕ → ℕ → (ℕ → File) → ℕ → File
pipe_end inode mode f t = update t f (record (t f) { f_inode = inode; f_pos = 0; f_mode = mode })

-- From the two files on: `inode` is the result of `get_pipe_inode`.
unfoldable pub open_ends : Option ℕ → ℕ → ℕ → Files → Piped
open_ends inode a b s = elim (free_fd nr_open 0 s.filp) [
  | none ↦ Piped.failed (record s { table = release_files a b s.table })
  | some x ↦ elim (free_fd (nr_open - (x + 1)) (x + 1) (update s.filp x (some a))) [
    | none ↦ Piped.failed (record s {
      filp = update (update s.filp x (some a)) x none;
      table = release_files a b s.table;
    })
    | some y ↦ elim inode [
      | none ↦ Piped.failed (record s {
        filp = update (update (update (update s.filp x (some a)) y (some b)) y none) x none;
        table = release_files a b s.table;
      })
      | some i ↦ Piped.piped x y (record s {
        filp = update (update s.filp x (some a)) y (some b);
        table = pipe_end (some i) 2 b (pipe_end (some i) 1 a s.table);
      })
    ]
  ]
]

unfoldable pub sys_pipe : Option ℕ → Files → Piped
sys_pipe inode s = elim (free_file nr_file 0 s.table) [
  | none ↦ Piped.failed s
  | some a ↦
      let t1 = set_count a ((s.table a).f_count + 1) s.table in
      elim (free_file (nr_file - (a + 1)) (a + 1) t1) [
        | none ↦ Piped.failed (record s { table = set_count a 0 t1 })
        | some b ↦ open_ends inode a b (record s { table = set_count b ((t1 b).f_count + 1) t1 })
      ]
]
