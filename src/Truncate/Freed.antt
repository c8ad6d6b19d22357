-- ===== src/Truncate/Freed.antt =====
-- fs/truncate.c: which zones of the map are free again.
use rhee_creatives_linux_v.Base.{
  ℕ, ◌+◌, ◌-◌, ◌/◌, ◌≤◌, ◌<◌, ◌≡◌, refl, ◌≢◌, sym, ◌∙◌, ap, subst, Option, none, some, Bool, true,
  false, not, ◌||◌, ◌==◌, ltb, leb, if◌then◌else◌, update, arith, Bool-cases, Option-cases, ==_iff,
  ==_refl, List, [], ◌∷◌, ◌++◌, has, Distinct, has-append, update_self, inl, inr,
}
use rhee_creatives_linux_v.Zones.{
  Device, Run, done, map_bits, one_more, free_block, dropped, hold, brelse,
}

-- The users of a buffer, with no buffer as one without users.
abbrev pub quiet : Option ℕ → ℕ
quiet none = 0
quiet (some n) = n

-- The zones `xs` are different zones of the device, marked, and no one uses them.
pub record Owned (xs : List ℕ) (d : Device) : Type 0 where
  pub mounted : d.mounted ≡ true
  pub distinct : Distinct xs
  pub low : (b : ℕ) → has b xs ≡ true → d.s_firstdatazone ≤ b
  pub high : (b : ℕ) → has b xs ≡ true → b < d.s_nzones
  pub present :
      (b : ℕ) → has b xs ≡ true → d.has_zmap ((b + 1 - d.s_firstdatazone) / map_bits) ≡ true
  pub marked : (b : ℕ) → has b xs ≡ true → d.zmap (b + 1 - d.s_firstdatazone) ≡ true
  pub idle : (b : ℕ) → has b xs ≡ true → quiet (d.users b) ≡ 0

-- From `d` to `d'` the zones `xs` are freed, and no other, and what their buffers had is dropped; the
-- other blocks and all users are as before.
pub record Freed (xs : List ℕ) (d d' : Device) : Type 0 where
  pub mounted : d'.mounted ≡ d.mounted
  pub first : d'.s_firstdatazone ≡ d.s_firstdatazone
  pub nzones : d'.s_nzones ≡ d.s_nzones
  pub present : d'.has_zmap ≡ d.has_zmap
  pub disk : d'.disk_word ≡ d.disk_word
  pub word : (b : ℕ) → has b xs ≡ false → d'.word b ≡ d.word b
  pub readable : (b : ℕ) → has b xs ≡ false → d'.readable b ≡ d.readable b
  pub dropped : (b n : ℕ) → has b xs ≡ true → d.users b ≡ some n → d'.word b ≡ d.disk_word b
  pub zmap :
      (b : ℕ)
      → d.s_firstdatazone ≤ b
      → d'.zmap (b + 1 - d.s_firstdatazone)
        ≡ (if has b xs then false else d.zmap (b + 1 - d.s_firstdatazone))
  pub users : (b : ℕ) → quiet (d'.users b) ≡ quiet (d.users b)
  pub buffers : (b n : ℕ) → d.users b ≡ some n → d'.users b ≡ some n

abbrev pub Frees : (Device → Run (Unit {0})) → List ℕ → Device → Type 0
Frees op xs d = (d' : Device) × (op d ≡ done tt d') × Freed xs d d'

pub none-Freed : (d : Device) → Freed [] d d
none-Freed d = record {
  mounted = refl;
  first = refl;
  nzones = refl;
  present = refl;
  disk = refl;
  word = λ b out. refl;
  readable = λ b out. refl;
  dropped = λ b n h u. absurd (ground arith);
  zmap = λ b low. refl;
  users = λ b. refl;
  buffers = λ b n u. u;
}

pub both-Freed :
    (xs ys : List ℕ) (d e g : Device) → Freed xs d e → Freed ys e g → Freed (xs ++ ys) d g
both-Freed xs ys d e g v w = record {
  mounted = w.mounted ∙ v.mounted;
  first = w.first ∙ v.first;
  nzones = w.nzones ∙ v.nzones;
  present = w.present ∙ v.present;
  disk = w.disk ∙ v.disk;
  word = λ b out.
      w.word b (ground (arith, has-append b xs ys)) ∙ v.word b (ground (arith, has-append b xs ys));
  readable = λ b out.
      w.readable b (ground (arith, has-append b xs ys))
      ∙ v.readable b (ground (arith, has-append b xs ys));
  dropped = λ b n h u. elim (Bool-cases (has b ys)) [
    | inl later ↦ w.dropped b n later (v.buffers b n u) ∙ ap (λ k. k b) v.disk
    | inr earlier ↦ w.word b earlier ∙ v.dropped b n (ground (arith, has-append b xs ys)) u
  ];
  zmap = λ b low.
      let last : g.zmap (b + 1 - d.s_firstdatazone)
          ≡ (if has b ys then false else e.zmap (b + 1 - d.s_firstdatazone)) =
        rw v.first at (w.zmap b (rw v.first low)) in
      ground (arith, has-append b xs ys, v.zmap b low);
  users = λ b. w.users b ∙ v.users b;
  buffers = λ b n u. w.buffers b n (v.buffers b n u);
}

append-right : (xs ys : List ℕ) → Distinct (xs ++ ys) → Distinct ys
append-right [] ys d = d
append-right (x ∷ xs) ys (out, d) = append-right xs ys d

append-left : (xs ys : List ℕ) → Distinct (xs ++ ys) → Distinct xs
append-left [] ys d = tt
append-left (x ∷ xs) ys (out, d) = (ground (arith, has-append x xs ys), append-left xs ys d)

pub append-apart :
    (b : ℕ) (xs ys : List ℕ) → Distinct (xs ++ ys) → has b ys ≡ true → has b xs ≡ false
append-apart b [] ys d h = refl
append-apart b (x ∷ xs) ys (out, d) h = elim (Bool-cases (b == x)) [
  | inl same ↦
      let e : b ≡ x = (==_iff b x).0 same in
      let there : has x ys ≡ true = rw (← e) h in absurd (ground (arith, has-append x xs ys))
  | inr other ↦ rw other (append-apart b xs ys d h)
]

pub part-Owned : (xs ys : List ℕ) (d : Device) → Owned (xs ++ ys) d → Owned xs d
part-Owned xs ys d o =
    let inside : (b : ℕ) → has b xs ≡ true → has b (xs ++ ys) ≡ true =
      λ b h. ground (arith, has-append b xs ys) in
    record {
      mounted = o.mounted;
      distinct = append-left xs ys o.distinct;
      low = λ b h. o.low b (inside b h);
      high = λ b h. o.high b (inside b h);
      present = λ b h. o.present b (inside b h);
      marked = λ b h. o.marked b (inside b h);
      idle = λ b h. o.idle b (inside b h);
    }

-- What is owned besides `xs` is owned when `xs` are freed.
pub rest-Owned : (xs ys : List ℕ) (d e : Device) → Owned (xs ++ ys) d → Freed xs d e → Owned ys e
rest-Owned xs ys d e o v =
    let inside : (b : ℕ) → has b ys ≡ true → has b (xs ++ ys) ≡ true =
      λ b h. ground (arith, has-append b xs ys) in
    record {
      mounted = v.mounted ∙ o.mounted;
      distinct = append-right xs ys o.distinct;
      low = λ b h. rw v.first (o.low b (inside b h));
      high = λ b h. rw v.nzones (o.high b (inside b h));
      present = λ b h. rw (v.first, v.present) (o.present b (inside b h));
      marked = λ b h. rw v.first (
          let apart : has b xs ≡ false = append-apart b xs ys o.distinct h in
          ground (arith, v.zmap b (o.low b (inside b h)), o.marked b (inside b h)));
      idle = λ b h. v.users b ∙ o.idle b (inside b h);
    }

one_zone-Freed :
    (b : ℕ) (d : Device) (word : ℕ → ℕ → ℕ) (readable : ℕ → Bool)
    → d.s_firstdatazone ≤ b
    → ((c : ℕ) → (c == b) ≡ false → word c ≡ d.word c)
    → ((c : ℕ) → (c == b) ≡ false → readable c ≡ d.readable c)
    → ((n : ℕ) → d.users b ≡ some n → word b ≡ d.disk_word b)
    → Freed (b ∷ []) d (record d {
      zmap = update d.zmap (b + 1 - d.s_firstdatazone) false;
      word = word;
      readable = readable;
    })
one_zone-Freed b d word readable low words reads gone = record {
  mounted = refl;
  first = refl;
  nzones = refl;
  present = refl;
  disk = refl;
  word = λ c out. words c (ground arith);
  readable = λ c out. reads c (ground arith);
  dropped = λ c n h u.
      let e : c ≡ b = (==_iff c b).0 (ground arith) in
      subst (λ k. word k ≡ d.disk_word k) (sym e) (gone n (subst (λ k. d.users k ≡ some n) e u));
  zmap = λ c low_c. elim (Bool-cases (c == b)) [
    | inl same ↦ rw same (ground arith)
    | inr other ↦
        let apart : (c + 1 - d.s_firstdatazone == b + 1 - d.s_firstdatazone) ≡ false =
          ground (arith, other, low, low_c) in
        rw (other, apart) refl
  ];
  users = λ c. refl;
  buffers = λ c n u. u;
}

pub free_block-Frees : (b : ℕ) (d : Device) → Owned (b ∷ []) d → Frees (free_block b) (b ∷ []) d
unfolding free_block
free_block-Frees b d o =
    let here : has b (b ∷ []) ≡ true = rw (==_refl b) refl in
    let low = o.low b here in
    let range : (ltb b d.s_firstdatazone || leb d.s_nzones b) ≡ false =
      ground (arith, low, o.high b here) in
    let on : not d.mounted ≡ false = rw o.mounted refl in
    elim (Option-cases (d.users b)) [
      | inl e ↦ (
        _,
        rw (free_block, on, range, e, o.present b here, o.marked b here) refl,
        one_zone-Freed b d d.word d.readable low (λ c _. refl) (λ c _. refl)
            (λ n u. absurd (none-some n (sym e ∙ u))),
      )
      | inr (n, e) ↦
          let z : n ≡ 0 = rw e at (o.idle b here) in
          let e' : d.users b ≡ some 0 = e ∙ ap some z in
          (
            _,
            rw (free_block, on, range, e', o.present b here, o.marked b here) refl,
            one_zone-Freed b d (dropped b d).word (dropped b d).readable low
                (λ c other. rw other refl) (λ c other. rw other refl)
                (λ _ _. update_self d.word b (d.disk_word b)),
          )
    ]
  where
    none-some : (n : ℕ) → none ≢ some n
    none-some n e = ground arith

one_user : (u : Option ℕ) → quiet u ≡ 0 → one_more u ≡ 1
one_user none q = refl
one_user (some n) q = rw q refl

-- A block that was held and is given back.
pub held-Freed :
    (block : ℕ) (d e : Device) (xs : List ℕ)
    → quiet (d.users block) ≡ 0
    → Freed xs (hold block d) e
    → (g : Device) × (brelse tt block e ≡ done tt g) × Freed xs d g
held-Freed block d e xs idle v =
    let held : quiet (e.users block) ≡ 1 =
      v.users block
      ∙ ap quiet (update_self d.users block (some (one_more (d.users block))))
      ∙ one_user (d.users block) idle in
    elim (Option-cases (e.users block)) [
      | inl z ↦ absurd (omega (arith, sym (ap quiet z) ∙ held))
      | inr (n, z) ↦
          let one : n ≡ 1 = rw z at held in
          let z' : e.users block ≡ some 1 = z ∙ ap some one in
          (
            record e { users = update e.users block (some 0) },
            rw (brelse, z') refl,
            record {
              mounted = v.mounted;
              first = v.first;
              nzones = v.nzones;
              present = v.present;
              disk = v.disk;
              word = v.word;
              readable = v.readable;
              dropped = λ b m h u. elim (Bool-cases (b == block)) [
                | inl same ↦ v.dropped b (one_more (d.users block)) h (rw same refl)
                | inr other ↦ v.dropped b m h (rw other u)
              ];
              zmap = v.zmap;
              users = λ b. elim (Bool-cases (b == block)) [
                | inl same ↦
                    rw same (sym idle ∙ ap (λ k. quiet (d.users k)) (sym ((==_iff b block).0 same)))
                | inr other ↦
                    let kept : quiet (e.users b) ≡ quiet (d.users b) = rw other at (v.users b) in
                    rw other kept
              ];
              buffers = λ b m u. elim (Bool-cases (b == block)) [
                | inl same ↦
                    let at : b ≡ block = (==_iff b block).0 same in
                    let zero_is : m ≡ 0 =
                      sym (ap quiet u) ∙ ap (λ k. quiet (d.users k)) at ∙ idle in
                    rw same (ap some (sym zero_is))
                | inr other ↦
                    let kept : e.users b ≡ some m = v.buffers b m (rw other u) in rw other kept
              ];
            },
          )
    ]
