-- ===== src/Console/Cells.antt =====
-- kernel/console.c: which words the loops over video memory change.
use rhee_creatives_linux_v.Base.{
  ℕ, zero, suc, ◌+◌, ◌*◌, ◌≤◌, ◌≡◌, refl, ◌∙◌, Bool, false, ◌&&◌, ltb, leb, update, arith,
}
use rhee_creatives_linux_v.Console.{
  screen_start, screen_end, add32, sub32, fill, fill_down, copy_up, copy_down, move_long,
  push_cells, pull_cells,
}

-- An address of the video memory.
abbrev pub in_video : ℕ → Bool
in_video a = leb screen_start a && ltb a screen_end

-- Only video memory differs.
abbrev pub Spares : (m m' : ℕ → ℕ) → Type 0
Spares m m' = (j : ℕ) → in_video j ≡ false → m' j ≡ m j

pub fill-Spares :
    (n a v : ℕ) (m : ℕ → ℕ) → screen_start ≤ a → a + 2 * n ≤ screen_end → Spares m (fill n a v m)
unfolding fill
fill-Spares zero a v m low high j out = refl
fill-Spares (suc n) a v m low high j out =
    fill-Spares n (add32 a 2) v (update m a v) (omega arith) (omega arith) j out ∙ ground arith

-- The last word is at `a`, the first `2 * n` below.
pub fill_down-Spares :
    (n a v : ℕ) (m : ℕ → ℕ)
    → screen_start + 2 * n ≤ a + 2
    → a + 2 ≤ screen_end
    → Spares m (fill_down n a v m)
unfolding fill_down
fill_down-Spares zero a v m low high j out = refl
fill_down-Spares (suc n) a v m low high j out =
    fill_down-Spares n (sub32 a 2) v (update m a v) (omega arith) (omega arith) j out ∙ ground arith

pub copy_up-Spares :
    (n dst src : ℕ) (m : ℕ → ℕ)
    → screen_start ≤ dst
    → dst + 4 * n ≤ screen_end
    → Spares m (copy_up n dst src m)
unfolding copy_up
copy_up-Spares zero dst src m low high j out = refl
copy_up-Spares (suc n) dst src m low high j out =
    copy_up-Spares n (add32 dst 4) (add32 src 4) (move_long dst src m) (omega arith) (omega arith) j
      out
    ∙ ground arith

pub copy_down-Spares :
    (n dst src : ℕ) (m : ℕ → ℕ)
    → screen_start + 4 * n ≤ dst + 4
    → dst + 4 ≤ screen_end
    → Spares m (copy_down n dst src m)
unfolding copy_down
copy_down-Spares zero dst src m low high j out = refl
copy_down-Spares (suc n) dst src m low high j out =
    copy_down-Spares n (sub32 dst 4) (sub32 src 4) (move_long dst src m) (omega arith) (omega arith)
      j out
    ∙ ground arith

pub push_cells-Spares :
    (n p old : ℕ) (m : ℕ → ℕ)
    → screen_start ≤ p
    → p + 2 * n ≤ screen_end
    → Spares m (push_cells n p old m)
unfolding push_cells
push_cells-Spares zero p old m low high j out = refl
push_cells-Spares (suc n) p old m low high j out =
    push_cells-Spares n (add32 p 2) (m p) (update m p old) (omega arith) (omega arith) j out
    ∙ ground arith

pub pull_cells-Spares :
    (n p : ℕ) (m : ℕ → ℕ)
    → screen_start ≤ p
    → p + 2 * n + 2 ≤ screen_end
    → Spares m (pull_cells n p m)
unfolding pull_cells
pull_cells-Spares zero p m low high j out = ground arith
pull_cells-Spares (suc n) p m low high j out =
    pull_cells-Spares n (add32 p 2) (update m p (m (add32 p 2))) (omega arith) (omega arith) j out
    ∙ ground arith
