-- ===== src/Pipe/Ring.antt =====
-- fs/pipe.c: the ring as the queue of the bytes that it holds.
use rhee_creatives_linux_v.Base.{
  ℕ, zero, suc, ◌+◌, ◌%◌, ◌<◌, ◌≡◌, refl, sym, ◌∙◌, ap, ap₂, true, false, List, [], ◌∷◌, ◌++◌,
  length, take, drop, update, update_ne, update_self, arith, Bool-cases, inl, inr,
}
use rhee_creatives_linux_v.Pipe.{
  Pipe, inc_pipe, pipe_size, pipe_empty, pipe_full, read_loop, put_byte,
}

-- The indices stay inside the page.
pub record IsRing (p : Pipe) : Type 0 where
  pub head_lt : p.head < 4096
  pub tail_lt : p.tail < 4096

-- The `n` bytes from an index on, going round at the end of the page.
abbrev pub window : (ℕ → ℕ) → ℕ → ℕ → List ℕ
window page h zero = []
window page h (suc n) = page h ∷ window page (inc_pipe h) n

abbrev pub contents : Pipe → List ℕ
contents p = window p.page p.tail (pipe_size p)

pub length-window : (page : ℕ → ℕ) (h n : ℕ) → length (window page h n) ≡ n
length-window page h zero = refl
length-window page h (suc n) = ap suc (length-window page (inc_pipe h) n)

pub put_byte-IsRing : (x : ℕ) {p : Pipe} → IsRing p → IsRing (put_byte x p)
put_byte-IsRing x v = omega arith

-- A byte written just past a window leaves it.
window-update :
    (page : ℕ → ℕ) (x n h i : ℕ)
    → h < 4096
    → n < 4096
    → i ≡ (h + n) % 4096
    → window (update page i x) h n ≡ window page h n
window-update page x zero h i hh hn e = refl
window-update page x (suc n) h i hh hn e =
    ap₂ ◌∷◌ (update_ne page i h x (λ q. omega (arith, q, e)))
      (window-update page x n (inc_pipe h) i (omega arith) (omega arith) (omega (arith, e)))

window-last :
    (page : ℕ → ℕ) (h n : ℕ)
    → h < 4096
    → window page h (suc n) ≡ window page h n ++ (page ((h + n) % 4096) ∷ [])
window-last page h zero hh = ap (λ k. page k ∷ []) (omega arith)
window-last page h (suc n) hh =
    ap (λ w. page h ∷ w)
      (window-last page (inc_pipe h) n (omega arith)
        ∙ ap (λ k. window page (inc_pipe h) n ++ (page k ∷ [])) (omega arith))

-- Writing to a ring that is not full puts the byte at the end.
pub contents-put_byte :
    (x : ℕ) (p : Pipe)
    → IsRing p
    → pipe_full p ≡ false
    → contents (put_byte x p) ≡ contents p ++ (x ∷ [])
contents-put_byte x p v room =
    rw
      (
        size,
        window-last (update p.page p.head x) p.tail (pipe_size p) v.tail_lt,
        place,
        update_self p.page p.head x,
      )
      (ap (λ w. w ++ (x ∷ []))
        (window-update p.page x (pipe_size p) p.tail p.head v.tail_lt (omega arith) (sym place)))
  where
    size : pipe_size (put_byte x p) ≡ suc (pipe_size p)
    size = ground (arith, v.head_lt, v.tail_lt)

    place : (p.tail + pipe_size p) % 4096 ≡ p.head
    place = omega (arith, v.head_lt, v.tail_lt)

-- The ring after one byte has been read.
abbrev next : Pipe → Pipe
next p = record p { tail = inc_pipe p.tail }

contents-empty : (p : Pipe) → IsRing p → pipe_empty p ≡ true → contents p ≡ []
contents-empty p v empty = let size : pipe_size p ≡ 0 = ground (arith, v.tail_lt) in rw size

contents-next :
    (p : Pipe) → IsRing p → pipe_empty p ≡ false → contents p ≡ p.page p.tail ∷ contents (next p)
contents-next p v more =
    let size : pipe_size p ≡ suc (pipe_size (next p)) = ground (arith, v.head_lt, v.tail_lt) in
    rw size

-- Reading takes the first bytes off.
pub contents-read_loop :
    (n : ℕ) (p : Pipe)
    → IsRing p
    → ((read_loop n p).0 ≡ take n (contents p))
      × (contents (read_loop n p).1 ≡ drop n (contents p))
      × IsRing (read_loop n p).1
      × ((read_loop n p).1.i_count ≡ p.i_count)
unfolding read_loop
contents-read_loop zero p v = (refl, refl, v, refl)
contents-read_loop (suc n) p v = elim (Bool-cases (pipe_empty p)) [
  | inl empty ↦ rw (contents-empty p v empty, empty) (refl, contents-empty p v empty, v, refl)
  | inr more ↦
      let rest = contents-read_loop n (next p) (omega (arith, v.head_lt)) in
      rw (contents-next p v more, more) (ap (λ w. p.page p.tail ∷ w) rest.0, rest.1, rest.2, rest.3)
]
