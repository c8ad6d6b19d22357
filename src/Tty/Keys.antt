-- ===== src/Tty/Keys.antt =====
-- kernel/tty_io.c: what a key does to the cooked characters of a terminal.
use rhee_creatives_linux_v.Base.{
  ℕ, ◌≡◌, refl, sym, ◌∙◌, ap, subst, none, some, Bool, true, false, not, ◌&&◌, ◌||◌, ◌==◌,
  if◌then◌else◌, List, [], ◌∷◌, ◌++◌, arith, Bool-cases, inl, inr,
}
use rhee_creatives_linux_v.Tty.{
  TtyQueue, Tty, empty, chars, map_input, is_cc, is_control, tolower, show_erase, show_char,
}
use rhee_creatives_linux_v.Tty.Ring.{IsQueue, window, contents, shorter}

-- A line without its last character, unless that ends a line.
abbrev pub take_back : (ℕ → Bool) → List ℕ → List ℕ
take_back ends [] = []
take_back ends (x ∷ []) = if ends x then x ∷ [] else []
take_back ends (x ∷ y ∷ ys) = x ∷ take_back ends (y ∷ ys)

pub take_back-snoc :
    (ends : ℕ → Bool) (xs : List ℕ) (l : ℕ)
    → take_back ends (xs ++ (l ∷ [])) ≡ (if ends l then xs ++ (l ∷ []) else xs)
take_back-snoc ends [] l = refl
take_back-snoc ends (x ∷ []) l = elim (Bool-cases (ends l)) [
  | inl e ↦ rw e refl
  | inr e ↦ rw e refl
]
take_back-snoc ends (x ∷ y ∷ ys) l = elim (Bool-cases (ends l)) [
  | inl e ↦
      let rest : take_back ends (y ∷ ys ++ (l ∷ [])) ≡ y ∷ ys ++ (l ∷ []) =
        rw e at (take_back-snoc ends (y ∷ ys) l) in
      rw e (ap (λ k. x ∷ k) rest)
  | inr e ↦
      let rest : take_back ends (y ∷ ys ++ (l ∷ [])) ≡ y ∷ ys =
        rw e at (take_back-snoc ends (y ∷ ys) l) in
      rw e (ap (λ k. x ∷ k) rest)
]

-- What a key does to the cooked characters `s`: it takes one back, it is taken for itself, or it is
-- added.
abbrev pub keyed : Tty → List ℕ → ℕ → List ℕ
keyed t s c =
    if t.l_canon && is_cc t 2 c
    then take_back (λ l. l == 10 || is_cc t 4 l) s
    else if t.l_canon && (is_cc t 9 c || is_cc t 8 c)
    then s
    else if not t.l_isig && is_cc t 0 c
    then s
    else s ++ (c ∷ [])

abbrev pub typed : Tty → List ℕ → ℕ → List ℕ
typed t s raw = elim (map_input t raw) [
  | none ↦ s
  | some c ↦ keyed t s (if t.i_uclc then tolower c else c)
]

abbrev pub typed_all : Tty → List ℕ → List ℕ → List ℕ
typed_all t s [] = s
typed_all t s (raw ∷ raws) = typed_all t (typed t s raw) raws

abbrev pub no_queue : TtyQueue
no_queue = record { data_count = 0; head = 0; tail = 0; proc_list = none; buf = λ i. 0 }

-- The settings of a terminal, without its queues and whether it is stopped.
abbrev pub config : Tty → Tty
config t = record t { stopped = false; read_q = no_queue; write_q = no_queue; secondary = no_queue }

-- `u` is `t` but for the write queue.
abbrev pub OnlyWrites : Tty → Tty → Type 0
OnlyWrites t u = u ≡ record t { write_q = u.write_q }

abbrev pub with_writes : TtyQueue → Tty → Tty
with_writes q t = record t { write_q = q }

pub OnlyWrites-trans : (t u w : Tty) → OnlyWrites t u → OnlyWrites u w → OnlyWrites t w
OnlyWrites-trans t u w a b = b ∙ ap (λ (k : Tty). with_writes w.write_q k) a

-- A round: the raw characters and the settings stay, and the cooked ones are `s`.
pub record Cooked (t t' : Tty) (s : List ℕ) : Type 0 where
  pub raws : t'.read_q ≡ t.read_q
  pub settings : config t' ≡ config t
  pub ring : IsQueue t'.secondary
  pub cooked : contents t'.secondary ≡ s

pub show_char-OnlyWrites : (t : Tty) (c : ℕ) → OnlyWrites t (show_char t c)
unfolding show_char
show_char-OnlyWrites t c = elim (Bool-cases (c == 10)) [
  | inl line ↦ rw (show_char, line) refl
  | inr other ↦ elim (Bool-cases (is_control c)) [
    | inr plain ↦ rw (show_char, other, plain) refl
    | inl control ↦ elim (Bool-cases t.l_echoctl) [
      | inl shows ↦ rw (show_char, other, control, shows) refl
      | inr hides ↦ rw (show_char, other, control, hides) refl
    ]
  ]
]

pub show_erase-OnlyWrites : (t : Tty) (l : ℕ) → OnlyWrites t (show_erase t l)
unfolding show_erase
show_erase-OnlyWrites t l = elim (Bool-cases (is_control l)) [
  | inl control ↦ rw (show_erase, control) refl
  | inr plain ↦ rw (show_erase, plain) refl
]

pub either_OnlyWrites : (b : Bool) (t u : Tty) → OnlyWrites t u → OnlyWrites t (if b then u else t)
either_OnlyWrites true t u e = e
either_OnlyWrites false t u e = refl

pub same-Cooked :
    (t : Tty) (s : List ℕ) → IsQueue t.secondary → contents t.secondary ≡ s → Cooked t t s
same-Cooked t s v e = record { raws = refl; settings = refl; ring = v; cooked = e }

-- After the write queue, the cooked characters are changed by `f`.
abbrev pub with_secondary : (TtyQueue → TtyQueue) → Tty → Tty
with_secondary f t = record t { secondary = f t.secondary }

pub changed-Cooked :
    (f : TtyQueue → TtyQueue) (t u : Tty) (s : List ℕ)
    → OnlyWrites t u
    → IsQueue (f t.secondary)
    → contents (f t.secondary) ≡ s
    → Cooked t (with_secondary f u) s
changed-Cooked f t u s only v e =
    let same : u.secondary ≡ t.secondary = ap (λ (k : Tty). k.secondary) only in
    record {
      raws = ap (λ (k : Tty). k.read_q) only;
      settings = ap config only;
      ring = subst (λ q. IsQueue (f q)) (sym same) v;
      cooked = ap (λ q. contents (f q)) same ∙ e;
    }

pub shorter-IsQueue : (q : TtyQueue) → IsQueue q → IsQueue (shorter q)
shorter-IsQueue q v = record { head_lt = omega arith; tail_lt = v.tail_lt }

pub empty-contents : (q : TtyQueue) → IsQueue q → empty q ≡ true → contents q ≡ []
empty-contents q v nothing =
    let none_there : chars q ≡ 0 = ground (arith, nothing, v.head_lt) in
    ap (λ k. window k q.tail q.buf) none_there
