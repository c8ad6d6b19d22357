-- ===== src/Tty/Output/Expand.antt =====
-- kernel/tty_io.c: the characters that the inner loop of `tty_write` puts into the queue.
use rhee_creatives_linux_v.Base.{
  ℕ, zero, suc, ◌+◌, ◌-◌, ◌*◌, ◌<◌, ◌≡◌, refl, sym, ◌∙◌, ap, append_assoc, append-nil, ◌==◌, ◌&&◌,
  ◌||◌, not, leb, ◌⊎◌, inl, inr, Option, some, Bool, true, false, if◌then◌else◌, List, [], ◌∷◌,
  ◌++◌, length, arith, Bool-cases,
}
use rhee_creatives_linux_v.Tty.{TtyQueue, full, putch}
use rhee_creatives_linux_v.Tty.Ring.{IsQueue, contents, putch-contents, putch-IsQueue}
use rhee_creatives_linux_v.Tty.Output.{OutputFlags, out_char, fill_write, write_pass}

-- A byte that is a new line for the terminal, and one that is a carriage return.
abbrev pub is_line : OutputFlags → ℕ → Bool
is_line o c = (c == 13 && o.o_crnl) || (c == 10 && not o.o_nlret)

abbrev pub is_return : OutputFlags → ℕ → Bool
is_return o c = (c == 13 && not o.o_crnl) || (c == 10 && o.o_nlret)

-- What a byte becomes, by its kind: itself without OPOST; a new line, with a carriage return in front
-- unless that was put; a carriage return; a capital for a small letter; or itself.
abbrev pub becomes : OutputFlags → Bool → ℕ → List ℕ
becomes o cr_put c =
    if not o.o_post
    then c ∷ []
    else if is_line o c
    then (if o.o_nlcr && not cr_put then 13 ∷ 10 ∷ [] else 10 ∷ [])
    else if is_return o c
    then 13 ∷ []
    else if o.o_lcuc && leb 97 c && leb c 122
    then (c - 32) ∷ []
    else c ∷ []

abbrev pub expand : OutputFlags → Bool → List ℕ → List ℕ
expand o cr_put [] = []
expand o cr_put (c ∷ bytes) = becomes o cr_put c ++ expand o false bytes

-- After a carriage return the byte is done.
done_after_cr : (o : OutputFlags) (c : ℕ) → (out_char o true c).1 ≡ true
unfolding out_char
done_after_cr o c = ground arith

not_yet :
    (o : OutputFlags) (cr_flag : Bool) (c : ℕ) → (out_char o cr_flag c).1 ≡ false → cr_flag ≡ false
not_yet o true c again = cc (done_after_cr o c, again)
not_yet o false c again = refl

becomes-done :
    (o : OutputFlags) (cr_flag : Bool) (c : ℕ)
    → (out_char o cr_flag c).1 ≡ true
    → becomes o cr_flag c ≡ (out_char o cr_flag c).0 ∷ []
unfolding out_char
becomes-done o cr_flag c done = ground arith

becomes-again :
    (o : OutputFlags) (cr_flag : Bool) (c : ℕ)
    → (out_char o cr_flag c).1 ≡ false
    → becomes o cr_flag c ≡ (out_char o cr_flag c).0 ∷ becomes o true c
unfolding out_char
becomes-again o cr_flag c again = ground arith

-- What a pass has done when it ends.
abbrev pub Filled :
    OutputFlags → Bool → List ℕ → TtyQueue → Option (Bool × List ℕ × TtyQueue) → Type 0
Filled o cr_flag bytes q r =
    (cr' : Bool) × (left : List ℕ) × (q' : TtyQueue) × (puts : List ℕ) × (r ≡ some (cr', left, q'))
    × (contents q' ≡ contents q ++ puts)
    × (expand o cr_flag bytes ≡ puts ++ expand o cr' left)
    × ((left ≡ []) ⊎ (full q' ≡ true))

-- The rounds that are left.
abbrev rounds_left : Bool → List ℕ → ℕ
rounds_left cr_flag bytes = 2 * length bytes + (if cr_flag then 0 else 1)

-- A round that has put a character, with the rounds after it.
one_more_put :
    (o : OutputFlags) (x : ℕ) (cr next : Bool) (bytes rest : List ℕ) (q : TtyQueue)
    (r : Option (Bool × List ℕ × TtyQueue))
    → IsQueue q
    → full q ≡ false
    → expand o cr bytes ≡ x ∷ expand o next rest
    → Filled o next rest (putch x q) r
    → Filled o cr bytes q r
one_more_put o x cr next bytes rest q r v room step (cr', left, q', puts, e, put, split, end) = (
  cr',
  left,
  q',
  x ∷ puts,
  e,
  put ∙ ap (λ l. l ++ puts) (putch-contents x q v room) ∙ append_assoc (contents q) (x ∷ []) puts,
  step ∙ ap (λ l. x ∷ l) split,
  end,
)

fill_write-Filled :
    (fuel : ℕ) (o : OutputFlags) (cr_flag : Bool) (bytes : List ℕ) (q : TtyQueue)
    → IsQueue q
    → rounds_left cr_flag bytes < fuel
    → Filled o cr_flag bytes q (fill_write fuel o cr_flag bytes q)
unfolding fill_write
fill_write-Filled zero o cr_flag bytes q v h = absurd (omega (arith, h))
fill_write-Filled (suc fuel) o cr_flag [] q v h =
    (cr_flag, [], q, [], refl, sym (append-nil (contents q)), refl, inl refl)
fill_write-Filled (suc fuel) o cr_flag (c ∷ bytes) q v h = elim (Bool-cases (full q)) [
  | inl stops ↦ (
    cr_flag,
    c ∷ bytes,
    q,
    [],
    rw (fill_write, stops) refl,
    sym (append-nil (contents q)),
    refl,
    inr stops,
  )
  | inr room ↦
      let x = (out_char o cr_flag c).0 in
      let ring = putch-IsQueue x q v in
      elim (Bool-cases ((out_char o cr_flag c).1)) [
        | inl done ↦
            rw (fill_write, room, done)
              (one_more_put o x cr_flag false (c ∷ bytes) bytes q _ v room
                (ap (λ l. l ++ expand o false bytes) (becomes-done o cr_flag c done))
                (fill_write-Filled fuel o false bytes (putch x q) ring (ground (arith, h))))
        | inr again ↦
            let first : cr_flag ≡ false = not_yet o cr_flag c again in
            rw (fill_write, room, again)
              (one_more_put o x cr_flag true (c ∷ bytes) (c ∷ bytes) q _ v room
                (ap (λ l. l ++ expand o false bytes) (becomes-again o cr_flag c again))
                (fill_write-Filled fuel o true (c ∷ bytes) (putch x q) ring
                  (ground (arith, h, first))))
      ]
]

-- With indices inside the buffer, one pass of the inner loop of `tty_write` ends, with no byte left or
-- the queue full. The characters in the queue are those that were there, in order, and behind them
-- what it has put; that, followed by what the bytes that are left become, is what all the bytes
-- become by their kind, where a new line, with its carriage return, may fall into two passes.
pub write_pass-Filled :
    (o : OutputFlags) (cr_flag : Bool) (bytes : List ℕ) (q : TtyQueue)
    → IsQueue q
    → Filled o cr_flag bytes q (write_pass o cr_flag bytes q)
unfolding write_pass
write_pass-Filled o cr_flag bytes q v =
    fill_write-Filled (2 * length bytes + 2) o cr_flag bytes q v (ground arith)
