-- ===== src/Tty/Ring.antt =====
-- include/linux/tty.h: the characters of a queue, and what the macros on it do to them.
use rhee_creatives_linux_v.Base.{
  ℕ, zero, suc, ◌+◌, ◌%◌, ◌<◌, ◌≡◌, refl, sym, ◌∙◌, ap, ap₂, update_ne, update_self, false, List,
  [], ◌∷◌, ◌++◌, update, arith,
}
use rhee_creatives_linux_v.Tty.{TtyQueue, dec, empty, full, putch, chars, getch, last_char}

-- The indices of a queue are inside its buffer.
pub record IsQueue (q : TtyQueue) : Type 0 where
  pub head_lt : q.head < 1024
  pub tail_lt : q.tail < 1024

-- The characters of a queue, from the tail on.
abbrev pub window : ℕ → ℕ → (ℕ → ℕ) → List ℕ
window zero tail buf = []
window (suc k) tail buf = buf tail ∷ window k ((tail + 1) % 1024) buf

abbrev pub contents : TtyQueue → List ℕ
contents q = window (chars q) q.tail q.buf

-- A character written just behind a window leaves it.
window-update :
    (buf : ℕ → ℕ) (x k tail i : ℕ)
    → tail < 1024
    → k < 1024
    → i ≡ (tail + k) % 1024
    → window k tail (update buf i x) ≡ window k tail buf
window-update buf x zero tail i low small e = refl
window-update buf x (suc k) tail i low small e =
    ap₂ ◌∷◌ (update_ne buf i tail x (λ q. omega (arith, q, e)))
      (window-update buf x k ((tail + 1) % 1024) i (omega arith) (omega arith) (omega (arith, e)))

window-last :
    (buf : ℕ → ℕ) (k tail : ℕ)
    → tail < 1024
    → window (suc k) tail buf ≡ window k tail buf ++ (buf ((tail + k) % 1024) ∷ [])
window-last buf zero tail low = ap (λ i. buf i ∷ []) (omega arith)
window-last buf (suc k) tail low =
    ap (λ l. buf tail ∷ l)
      (window-last buf k ((tail + 1) % 1024) (omega arith)
        ∙ ap (λ i. window k ((tail + 1) % 1024) buf ++ (buf i ∷ [])) (omega arith))

pub putch-contents :
    (x : ℕ) (q : TtyQueue)
    → IsQueue q
    → full q ≡ false
    → contents (putch x q) ≡ contents q ++ (x ∷ [])
putch-contents x q v room =
    let more : chars (putch x q) ≡ suc (chars q) = ground (arith, room, v.head_lt, v.tail_lt) in
    let at : q.head ≡ (q.tail + chars q) % 1024 = omega (arith, v.head_lt, v.tail_lt) in
    let put : update q.buf q.head x ((q.tail + chars q) % 1024) ≡ x =
      ap (update q.buf q.head x) (sym at) ∙ update_self q.buf q.head x in
    ap (λ k. window k q.tail (update q.buf q.head x)) more
    ∙ window-last (update q.buf q.head x) (chars q) q.tail v.tail_lt
    ∙ ap₂ (λ l y. l ++ (y ∷ []))
        (window-update q.buf x (chars q) q.tail q.head v.tail_lt (omega arith) at) put

pub putch-IsQueue : (x : ℕ) (q : TtyQueue) → IsQueue q → IsQueue (putch x q)
putch-IsQueue x q v = record { head_lt = omega arith; tail_lt = v.tail_lt }

-- GETCH takes the first character.
pub getch-contents :
    (q : TtyQueue) → IsQueue q → empty q ≡ false → contents q ≡ q.buf q.tail ∷ contents (getch q).1
getch-contents q v some_there =
    let less : chars q ≡ suc (chars (getch q).1) =
      ground (arith, some_there, v.head_lt, v.tail_lt) in
    ap (λ k. window k q.tail q.buf) less

-- DEC of the head takes the last character back.
abbrev pub shorter : TtyQueue → TtyQueue
shorter q = record q { head = dec q.head }

pub shorter-contents :
    (q : TtyQueue)
    → IsQueue q
    → empty q ≡ false
    → contents q ≡ contents (shorter q) ++ (last_char q ∷ [])
shorter-contents q v some_there =
    let less : chars q ≡ suc (chars (shorter q)) =
      ground (arith, some_there, v.head_lt, v.tail_lt) in
    let at : (q.tail + chars (shorter q)) % 1024 ≡ dec q.head =
      ground (arith, some_there, v.head_lt, v.tail_lt) in
    ap (λ k. window k q.tail q.buf) less
    ∙ window-last q.buf (chars (shorter q)) q.tail v.tail_lt
    ∙ ap (λ k. contents (shorter q) ++ (q.buf k ∷ [])) at
