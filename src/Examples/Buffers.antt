-- ===== src/Examples/Buffers.antt =====
-- fs/buffer.c: caches of a few buffers, and the theorems at them.
use rhee_creatives_linux_v.Base.{
  ℕ, ◌≤◌, ◌<◌, ◌≡◌, refl, true, false, List, [], ◌∷◌, ◌==◌, if◌then◌else◌, arith, Bool-cases, inl,
  inr,
}
use rhee_creatives_linux_v.Buffer.{
  BufferHead, Cache, Driver, at_head, buffer_init, init_loop, getblk, got, add_user, holds,
  find_buffer, find_from, hashfn,
}
use rhee_creatives_linux_v.Buffer.Same.{Honest}
use rhee_creatives_linux_v.Buffer.Lru.{IsCache, NoLocks}
use rhee_creatives_linux_v.Buffer.Getblk.{Moved, getblk-Moved, getblk-cached}
use rhee_creatives_linux_v.Buffer.Init.{up_from, buffer_init-IsCache}

abbrev no_head : BufferHead
no_head = record {
  b_data = 0;
  b_dev = 0;
  b_blocknr = 0;
  b_uptodate = false;
  b_dirt = false;
  b_count = 0;
  b_lock = false;
  b_prev = 0;
  b_next = 0;
  b_prev_free = 0;
  b_next_free = 0;
}

abbrev zero_memory : Cache
zero_memory = record { heads = λ i. no_head; hash_table = λ k. 0; free_list = 0; nr_buffers = 0 }

-- Three buffers.
abbrev few : Cache
few = buffer_init 2000 6000 zero_memory

few-size : few.nr_buffers ≡ 3
unfolding buffer_init init_loop
few-size = refl

buffer_init-IsCache_example :
    IsCache few (up_from few.nr_buffers 1) (λ k. [])
    × ((i : ℕ)
        → 0 < i
        → i ≤ few.nr_buffers
        → ((few.heads i).b_lock ≡ false) × ((few.heads i).b_count ≡ 0))
buffer_init-IsCache_example =
    buffer_init-IsCache 2000 6000 zero_memory ((λ i. (refl, refl)), λ k. refl)
      (rw few-size (omega arith))

few-IsCache : IsCache few (1 ∷ 2 ∷ 3 ∷ []) (λ k. [])
unfolding buffer_init init_loop
few-IsCache = buffer_init-IsCache_example.0

few-NoLocks : NoLocks few
unfolding buffer_init init_loop
few-NoLocks i = ground arith

-- A driver that writes at once.
abbrev driver : Driver
driver = record {
  ll_rw_block = λ rw bh c. at_head bh (λ h. record h { b_dirt = false; b_uptodate = true }) c;
  sleep_on = λ bh c. at_head bh (λ h. record h { b_lock = false }) c;
  sleep_free = λ c. c;
}

driver-Honest : Honest driver
driver-Honest = record {
  keeps = λ bh c. record {
    head = λ i. record {
      dev = ground arith;
      blocknr = ground arith;
      number = ground arith;
      next = ground arith;
      prev = ground arith;
      next_free = ground arith;
      prev_free = ground arith;
    };
    table = λ k. refl;
    list = refl;
    size = refl;
  };
  locks = λ bh i c ne. ground arith;
}

few-absent : find_buffer 3 7 few ≡ 0
unfolding buffer_init init_loop find_buffer find_from hashfn
few-absent = refl

getblk-Moved_example :
    (c' : Cache) × (getblk driver 1 3 7 few ≡ got 1 c') × Moved 3 7 1 0 (1 ∷ 2 ∷ 3 ∷ []) c'
unfolding buffer_init init_loop
getblk-Moved_example =
    getblk-Moved driver driver-Honest 0 3 7 1 (2 ∷ 3 ∷ []) few (λ k. []) few-IsCache few-NoLocks
      few-absent (omega arith) (omega arith) (omega arith) (omega arith)

-- Two buffers, the first of them with block 7 of device 3.
abbrev one_block : Cache
one_block = record {
  heads = λ i.
      if i == 1
      then record no_head { b_dev = 3; b_blocknr = 7; b_prev_free = 2; b_next_free = 2 }
      else if i == 2
      then record no_head { b_prev_free = 1; b_next_free = 1 }
      else no_head;
  hash_table = λ k. if k == 4 then 1 else 0;
  free_list = 1;
  nr_buffers = 2;
}

abbrev one_chain : ℕ → List ℕ
one_chain k = if k == 4 then 1 ∷ [] else []

one_block-IsCache : IsCache one_block (1 ∷ 2 ∷ []) one_chain
unfolding hashfn
one_block-IsCache = record {
  ring = (refl, (refl, refl, refl), refl);
  distinct = (refl, (refl, tt));
  real = refl;
  size = refl;
  chains = record {
    linked = λ k. elim (Bool-cases (k == 4)) [
      | inl own ↦ rw own (refl, refl, refl)
      | inr other ↦ rw other refl
    ];
    distinct =
        λ k. elim (Bool-cases (k == 4)) [ inl own ↦ rw own (refl, tt) | inr other ↦ rw other tt ];
    real = λ k. ground arith;
    filed = λ k i m.
        let e : i ≡ 1 = ground arith in
        let e' : k ≡ 4 = ground arith in rw (e, e') (refl, λ z. omega (arith, z));
    loose = λ i _ real out. (ground arith, ground arith);
  };
  inside = λ k i m. let e : i ≡ 1 = ground arith in rw e refl;
}

one_block-found : find_buffer 3 7 one_block ≡ 1
unfolding find_buffer find_from hashfn
one_block-found = refl

getblk-cached_example :
    (getblk driver 1 3 7 one_block ≡ got 1 (add_user 1 one_block))
    × (holds 3 7 ((add_user 1 one_block).heads 1) ≡ true)
    × IsCache (add_user 1 one_block) (1 ∷ 2 ∷ []) one_chain
getblk-cached_example =
    getblk-cached driver 0 3 7 0 one_block (1 ∷ 2 ∷ []) one_chain one_block-IsCache refl
      one_block-found
