-- ===== src/Pipe/Open/Rollback.antt =====
-- fs/pipe.c: the outcomes of `sys_pipe`.
use rhee_creatives_linux_v.Base.{
  ℕ, zero, suc, ◌+◌, ◌-◌, ◌≤◌, ◌<◌, ◌≡◌, ◌≢◌, refl, sym, ◌∙◌, ap, Option, none, some, if◌then◌else◌,
  ◌==◌, arith, Bool-cases, Option-cases, inl, inr, ==_iff, update, update_ne, update_self,
  count_congr,
}
use rhee_creatives_linux_v.Files.{File, Files, nr_open, nr_file, set_count, free_fd}
use rhee_creatives_linux_v.Files.Dup.{FirstFree, free_fd-FirstFree}
use rhee_creatives_linux_v.Files.Counts.{Counted, is_file, refs-take}
use rhee_creatives_linux_v.Pipe.Open.{
  free_file, Piped, release_files, pipe_end, open_ends, sys_pipe,
}

free_file-some :
    (n i : ℕ) (t : ℕ → File) {f : ℕ} → free_file n i t ≡ some f → ((t f).f_count ≡ 0) × (i ≤ f)
unfolding free_file
free_file-some zero i t e = cc
free_file-some (suc n) i t {f} e = elim (Bool-cases ((t i).f_count == 0)) [
  | inl free ↦
      let same : i ≡ f = ground arith in (ground (arith, ap (λ j. (t j).f_count) same), omega arith)
  | inr used ↦
      let (z, l) : ((t f).f_count ≡ 0) × (i + 1 ≤ f) =
        free_file-some n (i + 1) t (ground (arith, used)) in
      (z, omega (arith, l))
]

-- What `sys_pipe` may do: on a failure the descriptors are as before; on success two free
-- descriptors name two files with the inode, one for reading and one for writing. In both cases
-- each count is the number of references.
pub data Pipes (others : ℕ → ℕ) (inode : Option ℕ) (s : Files) : Piped → Type 0 where
  failed :
      (s' : Files)
      → ((j : ℕ) → s'.filp j ≡ s.filp j)
      → Counted others s'
      → Pipes others inode s (Piped.failed s')
  piped :
      (x y a b i : ℕ) (s' : Files)
      → inode ≡ some i
      → x < y
      → y < 20
      → s.filp x ≡ none
      → s.filp y ≡ none
      → s'.filp x ≡ some a
      → s'.filp y ≡ some b
      → ((j : ℕ) → j ≢ x → j ≢ y → s'.filp j ≡ s.filp j)
      → a ≢ b
      → (s'.table a).f_mode ≡ 1
      → (s'.table b).f_mode ≡ 2
      → (s'.table a).f_inode ≡ some i
      → (s'.table b).f_inode ≡ some i
      → Counted others s'
      → Pipes others inode s (Piped.piped x y s')

-- Giving a descriptor up again.
take_back :
    (filp : ℕ → Option ℕ) (x f : ℕ)
    → filp x ≡ none
    → (j : ℕ) → update (update filp x (some f)) x none j ≡ filp j
take_back filp x f free j = elim (Bool-cases (j == x)) [
  | inl same ↦ let e : j ≡ x = (==_iff j x).0 same in rw e (ground (arith, free))
  | inr other ↦ ground (arith, other)
]

take_back_both :
    (filp : ℕ → Option ℕ) (x y f g : ℕ)
    → filp x ≡ none
    → filp y ≡ none
    → (j : ℕ)
    → update (update (update (update filp x (some f)) y (some g)) y none) x none j ≡ filp j
take_back_both filp x y f g fx fy j = elim (Bool-cases (j == x)) [
  | inl same ↦ let e : j ≡ x = (==_iff j x).0 same in rw e (ground (arith, fx))
  | inr other ↦ elim (Bool-cases (j == y)) [
    | inl same ↦ let e : j ≡ y = (==_iff j y).0 same in rw e (ground (arith, fy, other))
    | inr differs ↦ ground (arith, other, differs)
  ]
]

-- The files after two free ones have been taken.
module _ (others : ℕ → ℕ) (s : Files) (v : Counted others s) (a b : ℕ) (ab : a < b)
    (za : (s.table a).f_count ≡ 0) (zb : (s.table b).f_count ≡ 0) where
  abbrev taken : ℕ → File
  taken = set_count b 1 (set_count a 1 s.table)

  released-count : (f : ℕ) → (release_files a b taken f).f_count ≡ (s.table f).f_count
  released-count f = elim (Bool-cases (f == a)) [
    | inl is_a ↦ let e : f ≡ a = (==_iff f a).0 is_a in rw e (ground (arith, za))
    | inr not_a ↦ elim (Bool-cases (f == b)) [
      | inl is_b ↦ let e : f ≡ b = (==_iff f b).0 is_b in rw e (ground (arith, zb))
      | inr not_b ↦ ground (arith, not_a, not_b)
    ]
  ]

  released-Counted :
      (filp : ℕ → Option ℕ)
      → ((j : ℕ) → filp j ≡ s.filp j)
      → Counted others (record s { filp = filp; table = release_files a b taken })
  released-Counted filp same = record {
    counted = λ f.
        let same_refs = count_congr (is_file f) 20 filp s.filp (λ j l. same j) in
        omega (arith, same_refs, v.counted f, released-count f);
  }

  pipe_end-count :
      (i f : ℕ)
      → (pipe_end (some i) 2 b (pipe_end (some i) 1 a taken) f).f_count ≡ (taken f).f_count
  pipe_end-count i f = ground arith

  taken-count :
      (f : ℕ)
      → (taken f).f_count
        ≡ (s.table f).f_count + (if a == f then 1 else 0) + (if b == f then 1 else 0)
  taken-count f = elim (Bool-cases (f == a)) [
    | inl is_a ↦ let e : f ≡ a = (==_iff f a).0 is_a in rw e (ground (arith, za))
    | inr not_a ↦ elim (Bool-cases (f == b)) [
      | inl is_b ↦ let e : f ≡ b = (==_iff f b).0 is_b in rw e (ground (arith, zb))
      | inr not_b ↦ ground (arith, not_a, not_b)
    ]
  ]

  opened-Counted :
      (x y i : ℕ)
      → x < y
      → y < 20
      → s.filp x ≡ none
      → s.filp y ≡ none
      → Counted others (record s {
        filp = update (update s.filp x (some a)) y (some b);
        table = pipe_end (some i) 2 b (pipe_end (some i) 1 a taken);
      })
  opened-Counted x y i xy y20 fx fy = record {
    counted = λ f.
        let one = refs-take s.filp x a f (omega arith) fx in
        let two =
          refs-take (update s.filp x (some a)) y b f y20
            (update_ne s.filp x y (some a) (omega arith) ∙ fy) in
        omega (arith, one, two, v.counted f, pipe_end-count i f, taken-count f);
  }

  module _ (x y : ℕ) (first : free_fd nr_open 0 s.filp ≡ some x)
      (second : free_fd (nr_open - (x + 1)) (x + 1) (update s.filp x (some a)) ≡ some y)
      (fx : s.filp x ≡ none) (fy : s.filp y ≡ none) (xy : x < y) (y20 : y < 20) where
    both_free :
        (inode : Option ℕ) → Pipes others inode s (open_ends inode a b (record s { table = taken }))
    unfolding open_ends
    both_free none =
        rw (open_ends, first, second)
          (failed _ (take_back_both s.filp x y a b fx fy)
            (released-Counted _ (take_back_both s.filp x y a b fx fy)))
    both_free (some i) =
        rw (open_ends, first, second)
          (piped x y a b i _ refl xy y20 fx fy
            (update_ne (update s.filp x (some a)) y x (some b) (omega (arith, xy))
              ∙ update_self s.filp x (some a))
            (update_self (update s.filp x (some a)) y (some b))
            (λ j nx ny.
              update_ne (update s.filp x (some a)) y j (some b) ny
              ∙ update_ne s.filp x j (some a) nx)
            (omega arith) (ground (arith, ab)) (ground arith) (ground (arith, ab)) (ground arith)
            (opened-Counted x y i xy y20 fx fy))

  open_ends-Pipes :
      (inode : Option ℕ) → Pipes others inode s (open_ends inode a b (record s { table = taken }))
  unfolding open_ends
  open_ends-Pipes inode = elim (Option-cases (free_fd nr_open 0 s.filp)) [
    | inl full ↦ rw (open_ends, full) (failed _ (λ j. refl) (released-Counted s.filp (λ j. refl)))
    | inr (x, first) ↦
        let fx : FirstFree s.filp 0 x = free_fd-FirstFree nr_open 0 s.filp (omega arith) first in
        elim (Option-cases (free_fd (nr_open - (x + 1)) (x + 1) (update s.filp x (some a)))) [
          | inl full ↦
              let undone : (j : ℕ) → update (update s.filp x (some a)) x none j ≡ s.filp j =
                take_back s.filp x a fx.is_free in
              rw (open_ends, first, full) (failed _ undone (released-Counted _ undone))
          | inr (y, second) ↦
              let sy : FirstFree (update s.filp x (some a)) (x + 1) y =
                free_fd-FirstFree (nr_open - (x + 1)) (x + 1) _ (omega (arith, fx.below)) second in
              let fy : s.filp y ≡ none =
                sym (update_ne s.filp x y (some a) (λ e. omega (arith, e, sy.above)))
                ∙ sy.is_free in
              both_free x y first second fx.is_free fy (omega (arith, sy.above)) sy.below inode
        ]
  ]

-- With each count equal to the number of references, `sys_pipe` ends in one of the two ways of
-- `Pipes`: both ends, or nothing changed but for the counts being right.
pub sys_pipe-Pipes :
    (others : ℕ → ℕ) (inode : Option ℕ) (s : Files)
    → Counted others s
    → Pipes others inode s (sys_pipe inode s)
unfolding sys_pipe
sys_pipe-Pipes others inode s v = elim (Option-cases (free_file nr_file 0 s.table)) [
  | inl full ↦ rw (sys_pipe, full) (failed s (λ j. refl) v)
  | inr (a, first) ↦
      let za : (s.table a).f_count ≡ 0 = (free_file-some nr_file 0 s.table first).0 in
      let one_a : (s.table a).f_count + 1 ≡ 1 = omega (arith, za) in
      elim (Option-cases (free_file (nr_file - (a + 1)) (a + 1) (set_count a 1 s.table))) [
        | inl full ↦
            rw (sys_pipe, first, one_a, full)
              (failed _ (λ j. refl)
                (record { counted = λ f. ground (arith, v.counted f, v.counted a, za) }))
        | inr (b, second) ↦
            let (z, l) : ((set_count a 1 s.table b).f_count ≡ 0) × (a + 1 ≤ b) =
              free_file-some (nr_file - (a + 1)) (a + 1) (set_count a 1 s.table) second in
            let one_b : (set_count a 1 s.table b).f_count + 1 ≡ 1 = omega (arith, z) in
            let zb : (s.table b).f_count ≡ 0 = ground (arith, z, l) in
            rw (sys_pipe, first, one_a, second, one_a, one_b)
              (open_ends-Pipes others s v a b (omega (arith, l)) za zb inode)
      ]
]
