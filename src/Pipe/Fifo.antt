-- ===== src/Pipe/Fifo.antt =====
-- fs/pipe.c: the outcomes of a write, and sequences of reads and writes.
use rhee_creatives_linux_v.Base.{
  ℕ, zero, suc, ◌+◌, ◌≡◌, ◌≢◌, refl, sym, ◌∙◌, ap, true, false, List, [], ◌∷◌, ◌++◌, length, take,
  drop, append_assoc, append-nil, ◌==◌, arith, Bool-cases, inl, inr,
}
use rhee_creatives_linux_v.Pipe.{
  Pipe, pipe_full, pipe_empty, Read, got, eof, waits, read_pipe, Write, wrote, broken, blocks,
  put_byte, write_loop, write_pipe,
}
use rhee_creatives_linux_v.Pipe.Ring.{
  IsRing, contents, contents-put_byte, put_byte-IsRing, contents-read_loop,
}

-- The bytes `xs` from the `n`-th on: `k` counts those written, `done` are those, `rest` are left.
abbrev pub Splits : ℕ → List ℕ → Pipe → ℕ → List ℕ → Pipe → Type 0
Splits n xs p k rest q =
    (done : List ℕ) × (xs ≡ done ++ rest)
    × (k ≡ n + length done)
    × (contents q ≡ contents p ++ done)
    × IsRing q
    × (q.i_count ≡ p.i_count)

-- What a call that writes `xs` has done when it returns or sleeps.
abbrev pub Writes : ℕ → List ℕ → Pipe → Write → Type 0
Writes n xs p (wrote q) = Splits n xs p (n + length xs) [] q
Writes n xs p (broken k q) = (rest : List ℕ) × Splits n xs p k rest q × (p.i_count ≢ 2)
Writes n xs p (blocks k rest q) =
    Splits n xs p k rest q × (p.i_count ≡ 2) × (pipe_full q ≡ true) × (rest ≢ [])

cons-Splits :
    (n x : ℕ) (xs : List ℕ) (p : Pipe) (k : ℕ) (rest : List ℕ) (q : Pipe)
    → IsRing p
    → pipe_full p ≡ false
    → Splits (n + 1) xs (put_byte x p) k rest q
    → Splits n (x ∷ xs) p k rest q
cons-Splits n x xs p k rest q v room (done, split, number, bytes, ring, users) = (
  x ∷ done,
  ap (λ l. x ∷ l) split,
  omega (arith, number),
  bytes
      ∙ ap (λ l. l ++ done) (contents-put_byte x p v room)
      ∙ append_assoc (contents p) (x ∷ []) done,
  ring,
  users,
)

cons-Writes :
    (n x : ℕ) (xs : List ℕ) (p : Pipe) (w : Write)
    → IsRing p
    → pipe_full p ≡ false
    → Writes (n + 1) xs (put_byte x p) w
    → Writes n (x ∷ xs) p w
cons-Writes n x xs p (wrote q) v room s =
    let (done, split, number, bytes, ring, users) = cons-Splits n x xs p _ [] q v room s in
    (done, split, omega (arith, number), bytes, ring, users)
cons-Writes n x xs p (broken k q) v room (rest, s, few) =
    (rest, cons-Splits n x xs p k rest q v room s, few)
cons-Writes n x xs p (blocks k rest q) v room (s, two, full, left) =
    (cons-Splits n x xs p k rest q v room s, two, full, left)

none_written : (n : ℕ) (xs : List ℕ) (p : Pipe) → IsRing p → Splits n xs p n xs p
none_written n xs p v = ([], refl, omega arith, sym (append-nil (contents p)), v, refl)

write_loop-Writes : (n : ℕ) (xs : List ℕ) (p : Pipe) → IsRing p → Writes n xs p (write_loop n xs p)
unfolding write_loop
write_loop-Writes n [] p v = ([], refl, omega arith, sym (append-nil (contents p)), v, refl)
write_loop-Writes n (x ∷ xs) p v = elim (Bool-cases (pipe_full p)) [
  | inl full ↦ elim (Bool-cases (p.i_count == 2)) [
    | inl two ↦ rw (full, two) (none_written n (x ∷ xs) p v, ground arith, full, cc)
    | inr few ↦ rw (full, few) (x ∷ xs, none_written n (x ∷ xs) p v, ground arith)
  ]
  | inr room ↦ rw room (
      cons-Writes n x xs p _ v room
        (write_loop-Writes (n + 1) xs (put_byte x p) (put_byte-IsRing x v)))
]

-- A write to a pipe that somebody reads appends the bytes to its contents in order, all of them or
-- as many as fit: then it sleeps with the ring full and the others left. Without a reader it ends
-- with SIGPIPE, having appended the bytes that it counts.
pub write_pipe-Writes : (xs : List ℕ) (p : Pipe) → IsRing p → Writes 0 xs p (write_pipe xs p)
unfolding write_pipe
write_pipe-Writes xs p v = elim (Bool-cases (p.i_count == 2)) [
  | inl two ↦ rw two (write_loop-Writes 0 xs p v)
  | inr few ↦ rw few (xs, none_written 0 xs p v, ground arith)
]

-- Reads, writes and changes of the number of users, in any order.
pub data Op : Type 0 where
  read : ℕ → Op
  write : List ℕ → Op
  users : ℕ → Op

-- The bytes accepted from writers and delivered to readers so far, and the pipe.
pub record Session : Type 0 where
  pub sent : List ℕ
  pub received : List ℕ
  pub pipe : Pipe

after_read : Session → Read → Session
after_read s (got bytes p) = record s { received = s.received ++ bytes; pipe = p }
after_read s eof = s
after_read s waits = s

after_write : Session → List ℕ → Write → Session
after_write s xs (wrote p) = record s { sent = s.sent ++ xs; pipe = p }
after_write s xs (broken k p) = record s { sent = s.sent ++ take k xs; pipe = p }
after_write s xs (blocks k rest p) = record s { sent = s.sent ++ take k xs; pipe = p }

step : Session → Op → Session
unfolding after_read after_write
step s (read n) = after_read s (read_pipe n s.pipe)
step s (write xs) = after_write s xs (write_pipe xs s.pipe)
step s (users n) = record s { pipe = record s.pipe { i_count = n } }

pub run : Session → List Op → Session
unfolding step
run s [] = s
run s (o ∷ os) = run (step s o) os

-- The bytes sent are the bytes received and then those still in the ring.
pub record InOrder (s : Session) : Type 0 where
  pub ring : IsRing s.pipe
  pub order : s.sent ≡ s.received ++ contents s.pipe

take-append_drop : (n : ℕ) (xs : List ℕ) → take n xs ++ drop n xs ≡ xs
take-append_drop zero xs = refl
take-append_drop (suc n) [] = refl
take-append_drop (suc n) (x ∷ xs) = ap (λ l. x ∷ l) (take-append_drop n xs)

take-done : (done rest : List ℕ) → take (length done) (done ++ rest) ≡ done
take-done [] rest = refl
take-done (x ∷ done) rest = ap (λ l. x ∷ l) (take-done done rest)

read-InOrder : (s : Session) (n : ℕ) → InOrder s → InOrder (after_read s (read_pipe n s.pipe))
unfolding after_read read_pipe
read-InOrder s n v = elim (Bool-cases (pipe_empty s.pipe)) [
  | inl empty ↦ elim (Bool-cases (s.pipe.i_count == 2)) [
    | inl two ↦ rw (empty, two) v
    | inr few ↦ rw (empty, few) v
  ]
  | inr more ↦
      let (bytes, left, ring, _) = contents-read_loop n s.pipe v.ring in
      rw more (record {
        ring = ring;
        order =
            v.order
            ∙ ap (λ c. s.received ++ c) (sym (take-append_drop n (contents s.pipe)))
            ∙ sym (append_assoc s.received (take n (contents s.pipe)) (drop n (contents s.pipe)))
            ∙ rw (bytes, left);
      })
]

Splits-order :
    (s : Session) (xs : List ℕ) (k : ℕ) (rest : List ℕ) (q : Pipe)
    → InOrder s
    → Splits 0 xs s.pipe k rest q
    → InOrder (record s { sent = s.sent ++ take k xs; pipe = q })
Splits-order s xs k rest q v (done, split, number, bytes, ring, _) = record {
  ring = ring;
  order =
      let same : k ≡ length done = omega (arith, number) in
      let written : take k xs ≡ done =
        ap (λ n. take n xs) same ∙ ap (take (length done)) split ∙ take-done done rest in
      rw (written, bytes, v.order) (append_assoc s.received (contents s.pipe) done);
}

write-InOrder :
    (s : Session) (xs : List ℕ) (w : Write)
    → InOrder s
    → Writes 0 xs s.pipe w
    → InOrder (after_write s xs w)
unfolding after_write
write-InOrder s xs (wrote q) v (done, split, number, bytes, ring, same) =
    let all : xs ≡ done = split ∙ append-nil done in
    record {
      ring = ring;
      order = rw (bytes, v.order, ← all) (append_assoc s.received (contents s.pipe) xs);
    }
write-InOrder s xs (broken k q) v (rest, splits, _) = Splits-order s xs k rest q v splits
write-InOrder s xs (blocks k rest q) v (splits, _, _, _) = Splits-order s xs k rest q v splits

step-InOrder : (s : Session) (o : Op) → InOrder s → InOrder (step s o)
unfolding step
step-InOrder s (read n) v = read-InOrder s n v
step-InOrder s (write xs) v = write-InOrder s xs _ v (write_pipe-Writes xs s.pipe v.ring)
step-InOrder s (users n) v = record {
  ring = record { head_lt = v.ring.head_lt; tail_lt = v.ring.tail_lt };
  order = v.order;
}

-- However reads, writes and changes of the number of users follow one another, from a state whose
-- bytes are in order: the bytes accepted from writers are those delivered to readers followed by
-- those in the ring, so nothing is lost, doubled or reordered; and the indices stay in the page.
pub run-InOrder : (os : List Op) (s : Session) → InOrder s → InOrder (run s os)
unfolding run
run-InOrder [] s v = v
run-InOrder (o ∷ os) s v = run-InOrder os (step s o) (step-InOrder s o v)
