-- ===== src/Files/Flags.antt =====
-- fs/fcntl.c: the flags of descriptors and files under `sys_fcntl`.
use rhee_creatives_linux_v.Base.{
  ℕ, ◌<◌, ◌%◌, ◌≡◌, ◌≢◌, refl, sym, ◌∙◌, ap, some, Bool, if◌then◌else◌, ◌==◌, arith, Bool-cases,
  inl, inr,
}
use rhee_creatives_linux_v.Base.Int.{pos}
use rhee_creatives_linux_v.Base.Bits.{bit, with_bit, without_bit, bit-without_bit, bit-with_bit}
use rhee_creatives_linux_v.Files.{Files, file_of, sys_fcntl}

file_of-below : (fd : ℕ) (s : Files) (f : ℕ) → file_of fd s ≡ some f → fd < 20
file_of-below fd s f h = ground arith

-- The word after F_SETFD.
abbrev marked : ℕ → ℕ → ℕ → ℕ
marked fd arg w = if arg % 2 == 1 then with_bit w fd else without_bit 32 w fd

bit-marked :
    (fd arg w j : ℕ)
    → fd < 20
    → j < 20
    → bit (marked fd arg w) j ≡ (if j == fd then arg % 2 == 1 else bit w j)
bit-marked fd arg w j h k = elim (Bool-cases (arg % 2 == 1)) [
  | inl on ↦ rw on (ground (arith, bit-with_bit w fd j))
  | inr off ↦ rw off (ground (arith, bit-without_bit 32 w fd j (omega arith) (omega arith)))
]

module _ (fd arg f : ℕ) (s : Files) (opened : file_of fd s ≡ some f) where
  fcntl_set :
      sys_fcntl fd 2 arg s ≡ (pos 0, record s { close_on_exec = marked fd arg s.close_on_exec })
  unfolding sys_fcntl
  fcntl_set = rw (sys_fcntl, opened) refl

abbrev number : Bool → ℕ
number b = if b then 1 else 0

-- F_GETFD on an open descriptor.
fcntl_get :
    (fd arg f : ℕ) (s : Files)
    → file_of fd s ≡ some f
    → sys_fcntl fd 1 arg s ≡ (pos (number (bit s.close_on_exec fd)), s)
unfolding sys_fcntl
fcntl_get fd arg f s opened = rw (sys_fcntl, opened) refl

-- F_SETFD on an open descriptor returns 0, F_GETFD then gives the low bit of its argument, and
-- any other open descriptor gives what it gave before.
pub fcntl-setfd :
    (fd arg any other f g : ℕ) (s : Files)
    → file_of fd s ≡ some f
    → file_of other s ≡ some g
    → other ≢ fd
    → ((sys_fcntl fd 2 arg s).0 ≡ pos 0)
      × ((sys_fcntl fd 1 any (sys_fcntl fd 2 arg s).1).0 ≡ pos (arg % 2))
      × ((sys_fcntl other 1 any (sys_fcntl fd 2 arg s).1).0 ≡ (sys_fcntl other 1 any s).0)
fcntl-setfd fd arg any other f g s is_open other_open ne = rw (fcntl_set fd arg f s is_open) (
  refl,
  ap (λ x. x.0) (fcntl_get fd any f s' is_open) ∙ ap pos own,
  ap (λ x. x.0) (fcntl_get other any g s' other_open)
      ∙ ap pos rest
      ∙ sym (ap (λ x. x.0) (fcntl_get other any g s other_open)),
)
  where
    s' : Files
    s' = record s { close_on_exec = marked fd arg s.close_on_exec }

    below : fd < 20
    below = file_of-below fd s f is_open

    own : number (bit s'.close_on_exec fd) ≡ arg % 2
    own = ground (arith, bit-marked fd arg s.close_on_exec fd below below)

    rest : number (bit s'.close_on_exec other) ≡ number (bit s.close_on_exec other)
    rest =
        ground (
          arith,
          bit-marked fd arg s.close_on_exec other below (file_of-below other s g other_open),
        )
