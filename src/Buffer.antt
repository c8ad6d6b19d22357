-- ===== src/Buffer.antt =====
-- fs/buffer.c: the buffer cache. Buffers are numbered from 1 and the number 0 is
-- NULL; the entry 0 of `heads` is what a write through NULL changes. The device driver and what
-- happens during a sleep are a parameter.
pub mod Steps
pub mod Ring
pub mod Chains
pub mod Filing
pub mod Same
pub mod Lru
pub mod Claim
pub mod Insert
pub mod Getblk
pub mod Init
use rhee_creatives_linux_v.Base.{
  ℕ, zero, suc, ◌+◌, ◌-◌, ◌*◌, ◌/◌, ◌%◌, ◌^◌, ◌≤◌, ◌<◌, ◌≡◌, ◌≢◌, Bool, true, false, not, ◌&&◌,
  ◌||◌, Option, none, some, ◌==◌, ltb, leb, if◌then◌else◌, update,
}
use Prim.Native.Nat.{bit_xor}

pub record BufferHead : Type 0 where
  pub b_data : ℕ
  pub b_dev : ℕ
  pub b_blocknr : ℕ
  pub b_uptodate : Bool
  pub b_dirt : Bool
  pub b_count : ℕ
  pub b_lock : Bool
  pub b_prev : ℕ
  pub b_next : ℕ
  pub b_prev_free : ℕ
  pub b_next_free : ℕ

pub record Cache : Type 0 where
  pub heads : ℕ → BufferHead
  pub hash_table : ℕ → ℕ
  pub free_list : ℕ
  pub nr_buffers : ℕ

-- `rw` is 0 for READ and 1 for WRITE. `sleep_on bh c` is the cache when a task that sleeps on a
-- locked buffer finds it unlocked, `sleep_free c` when one that waits for any buffer is woken.
pub record Driver : Type 0 where
  pub ll_rw_block : (rw bh : ℕ) → Cache → Cache
  pub sleep_on : (bh : ℕ) → Cache → Cache
  pub sleep_free : Cache → Cache

abbrev pub nr_hash : ℕ
nr_hash = 307

unfoldable pub hashfn : ℕ → ℕ → ℕ
hashfn dev block = bit_xor dev block % nr_hash

-- The cache with another head at `i`.
abbrev pub at_head : ℕ → (BufferHead → BufferHead) → Cache → Cache
at_head i f c = record c { heads = update c.heads i (f (c.heads i)) }

abbrev pub bucket_of : Cache → ℕ → ℕ
bucket_of c i = hashfn (c.heads i).b_dev (c.heads i).b_blocknr

unfoldable pub unlink_hash : ℕ → Cache → Cache
unlink_hash bh c =
    let c1 =
      if (c.heads bh).b_next == 0
      then c
      else at_head (c.heads bh).b_next (λ h. record h { b_prev = (c.heads bh).b_prev }) c in
    let c2 =
      if (c1.heads bh).b_prev == 0
      then c1
      else at_head (c1.heads bh).b_prev (λ h. record h { b_next = (c1.heads bh).b_next }) c1 in
    if c2.hash_table (bucket_of c2 bh) == bh
    then record c2 { hash_table = update c2.hash_table (bucket_of c2 bh) (c2.heads bh).b_next }
    else c2

unfoldable pub unlink_free : ℕ → Cache → Cache
unlink_free bh c =
    let c1 =
      at_head (c.heads bh).b_prev_free (λ h. record h { b_next_free = (c.heads bh).b_next_free })
        c in
    let c2 =
      at_head (c1.heads bh).b_next_free (λ h. record h { b_prev_free = (c1.heads bh).b_prev_free })
        c1 in
    if c2.free_list == bh then record c2 { free_list = (c2.heads bh).b_next_free } else c2

-- `none` is the panic.
unfoldable pub remove_from_queues : ℕ → Cache → Option Cache
remove_from_queues bh c =
    let c1 = unlink_hash bh c in
    if (c1.heads bh).b_prev_free == 0 || (c1.heads bh).b_next_free == 0
    then none
    else some (unlink_free bh c1)

unfoldable pub link_free : ℕ → Cache → Cache
link_free bh c =
    let c1 = at_head bh (λ h. record h { b_next_free = c.free_list }) c in
    let c2 = at_head bh (λ h. record h { b_prev_free = (c1.heads c.free_list).b_prev_free }) c1 in
    let c3 = at_head (c2.heads c.free_list).b_prev_free (λ h. record h { b_next_free = bh }) c2 in
    at_head c.free_list (λ h. record h { b_prev_free = bh }) c3

unfoldable pub link_hash : ℕ → Cache → Cache
link_hash bh c =
    let c1 = at_head bh (λ h. record h { b_prev = 0; b_next = 0 }) c in
    let k = bucket_of c1 bh in
    let c2 = at_head bh (λ h. record h { b_next = c1.hash_table k }) c1 in
    let c3 = record c2 { hash_table = update c2.hash_table k bh } in
    if (c1.heads bh).b_dev == 0
    then c1
    else at_head (c3.heads bh).b_next (λ h. record h { b_prev = bh }) c3

unfoldable pub insert_into_queues : ℕ → Cache → Cache
insert_into_queues bh c = link_hash bh (link_free bh c)

abbrev pub holds : ℕ → ℕ → BufferHead → Bool
holds dev block h = (h.b_dev == dev) && (h.b_blocknr == block)

-- The walk along `b_next`, for at most `k` buffers.
unfoldable pub find_from : ℕ → ℕ → ℕ → Cache → ℕ → ℕ
find_from zero dev block c tmp = 0
find_from (suc k) dev block c tmp =
    let rest = find_from k dev block c (c.heads tmp).b_next in
    if tmp == 0 then 0 else if holds dev block (c.heads tmp) then tmp else rest

unfoldable pub find_buffer : ℕ → ℕ → Cache → ℕ
find_buffer dev block c = find_from (c.nr_buffers + 1) dev block c (c.hash_table (hashfn dev block))

-- A buffer, NULL, a panic, or the end of the rounds given.
pub data Got : Type 0 where
  got : ℕ → Cache → Got
  missing : Cache → Got
  corrupted : Got
  unfinished : Got

abbrev pub add_user : ℕ → Cache → Cache
add_user bh = at_head bh (λ h. record h { b_count = (h.b_count + 1) % 2 ^ 8 })

abbrev pub renamed : ℕ → ℕ → BufferHead → BufferHead
renamed dev block h = record h {
  b_dev = dev % 2 ^ 16;
  b_blocknr = block % 2 ^ 16;
  b_dirt = false;
  b_uptodate = false;
}

abbrev pub given_up : BufferHead → BufferHead
given_up h = record h { b_dev = 0; b_blocknr = 0; b_count = 0 }

module _ (driver : Driver) where
  open driver use {ll_rw_block, sleep_on, sleep_free}

  unfoldable pub wait_on_buffer : ℕ → Cache → Cache
  wait_on_buffer bh c = if (c.heads bh).b_lock then sleep_on bh c else c

  unfoldable pub brelse : ℕ → Cache → Option Cache
  brelse buf c =
      let c1 = wait_on_buffer buf c in
      if buf == 0
      then some c
      else if (c1.heads buf).b_count == 0
      then none
      else some (at_head buf (λ h. record h { b_count = h.b_count - 1 }) c1)

  unfoldable pub write_back : ℕ → Cache → Cache
  write_back bh c =
      let c1 = wait_on_buffer bh c in if (c1.heads bh).b_dirt then ll_rw_block 1 bh c1 else c1

  -- The last `k` buffers up to the number `n`, in the order of their numbers.
  unfoldable pub sync_all : ℕ → ℕ → Cache → Cache
  sync_all zero bh c = c
  sync_all (suc k) bh c = sync_all k (bh + 1) (write_back bh c)

  -- `sync_inodes` is given.
  unfoldable pub sys_sync : (Cache → Cache) → Cache → Cache
  sys_sync sync_inodes c = sync_all (sync_inodes c).nr_buffers 1 (sync_inodes c)

  unfoldable pub sync_those : ℕ → ℕ → ℕ → Cache → Cache
  sync_those dev zero bh c = c
  sync_those dev (suc k) bh c =
      sync_those dev k (bh + 1) (if (c.heads bh).b_dev == dev then write_back bh c else c)

  unfoldable pub sync_dev : ℕ → Cache → Cache
  sync_dev dev c = sync_those dev c.nr_buffers 1 c

  unfoldable pub get_hash_table : ℕ → ℕ → ℕ → Cache → Got
  get_hash_table zero dev block c = unfinished
  get_hash_table (suc k) dev block c =
      let bh = find_buffer dev block c in
      let c1 = wait_on_buffer bh (add_user bh c) in
      let again : Got = elim (brelse bh c1) [
        | none ↦ corrupted
        | some c2 ↦ get_hash_table k dev block c2
      ] in
      if bh == 0 then missing c else if holds dev block (c1.heads bh) then got bh c1 else again

  -- The scan of the free list, for at most `k` buffers.
  unfoldable pub scan : ℕ → ℕ → Cache → Option (ℕ × Cache)
  scan zero tmp c = none
  scan (suc k) tmp c =
      let unused = (c.heads tmp).b_count == 0 in
      let c1 = if unused then wait_on_buffer tmp c else c in
      let next = (c1.heads tmp).b_next_free in
      let rest = scan k next c1 in
      if unused && (c1.heads tmp).b_count == 0
      then some (tmp, c1)
      else if next == c1.free_list
      then some (next, c1)
      else rest

  -- From `tmp->b_count++` to the new name of the buffer.
  unfoldable pub claim : ℕ → ℕ → ℕ → Cache → Option Cache
  claim dev block tmp c = elim (remove_from_queues tmp (add_user tmp c)) [
    | none ↦ none
    | some c1 ↦
        let c2 = if (c1.heads tmp).b_dirt then sync_dev (c1.heads tmp).b_dev c1 else c1 in
        some (at_head tmp (renamed dev block) c2)
  ]

  -- `k` bounds the jumps to `repeat`.
  unfoldable pub getblk : ℕ → ℕ → ℕ → Cache → Got
  getblk zero dev block c = unfinished
  getblk (suc k) dev block c = elim (get_hash_table (suc k) dev block c) [
    | got bh c' ↦ got bh c'
    | corrupted ↦ corrupted
    | unfinished ↦ unfinished
    | missing c' ↦ elim (scan c'.nr_buffers c'.free_list c') [
      | none ↦ unfinished
      | some (zero, c1) ↦ getblk k dev block (sleep_free c1)
      | some (suc n, c1) ↦ elim (claim dev block (suc n) c1) [
        | none ↦ corrupted
        | some c2 ↦ elim (find_buffer dev block c2) [
          | zero ↦ got (suc n) (insert_into_queues (suc n) c2)
          | suc other ↦
              getblk k dev block (insert_into_queues (suc n) (at_head (suc n) given_up c2))
        ]
      ]
    ]
  ]

  unfoldable pub bread : ℕ → ℕ → ℕ → Cache → Got
  bread k dev block c = elim (getblk k dev block c) [
    | missing c' ↦ corrupted
    | corrupted ↦ corrupted
    | unfinished ↦ unfinished
    | got bh c1 ↦
        let c2 = ll_rw_block 0 bh c1 in
        let failed : Got = elim (brelse bh c2) [ none ↦ corrupted | some c3 ↦ missing c3 ] in
        if (c1.heads bh).b_uptodate
        then got bh c1
        else if (c2.heads bh).b_uptodate
        then got bh c2
        else failed
  ]

abbrev pub block_size : ℕ
block_size = 1024

-- The size of `struct buffer_head`.
abbrev pub head_size : ℕ
head_size = 32

abbrev pub fresh_head : ℕ → ℕ → BufferHead → BufferHead
fresh_head i content h = record h {
  b_data = content;
  b_dev = 0;
  b_dirt = false;
  b_count = 0;
  b_lock = false;
  b_uptodate = false;
  b_next = 0;
  b_prev = 0;
  b_prev_free = i - 1;
  b_next_free = i + 1;
}

abbrev pub skip_hole : ℕ → ℕ
skip_hole b = if b == 0x100000 then 0xA0000 else b

-- The loop of `buffer_init` for at most `k` buffers, `n` of them made; the first head stands at
-- the address `end` and the data of the last one at `b`.
unfoldable pub init_loop : ℕ → (end b n : ℕ) → Cache → Cache
init_loop zero end b n c = record c { nr_buffers = n }
init_loop (suc k) end b n c =
    let content = b - block_size in
    let rest =
      init_loop k end (skip_hole content) (n + 1)
        (at_head (n + 1) (fresh_head (n + 1) content) c) in
    if leb (end + head_size * (n + 1)) content then rest else record c { nr_buffers = n }

-- The memory ends at `buffer_end`.
unfoldable pub buffer_init : (end buffer_end : ℕ) → Cache → Cache
buffer_init end buffer_end c =
    let c1 = init_loop (buffer_end / block_size) end buffer_end 0 c in
    let c2 =
      at_head 1 (λ h. record h { b_prev_free = c1.nr_buffers }) (record c1 { free_list = 1 }) in
    let c3 = at_head c1.nr_buffers (λ h. record h { b_next_free = 1 }) c2 in
    record c3 { hash_table = λ k. if ltb k nr_hash then 0 else c3.hash_table k }
