-- ===== src/Buffer/Steps.antt =====
-- fs/buffer.c: what the queue operations change, field by field.
use rhee_creatives_linux_v.Base.{ℕ, ◌≡◌, ◌≢◌, ◌&&◌, ◌==◌, if◌then◌else◌, arith}
use rhee_creatives_linux_v.Buffer.{
  BufferHead, Cache, bucket_of, unlink_hash, unlink_free, link_free, link_hash,
}

-- What no queue operation changes.
pub record Kept (h g : BufferHead) : Type 0 where
  pub dev : g.b_dev ≡ h.b_dev
  pub blocknr : g.b_blocknr ≡ h.b_blocknr
  pub number : g.b_count ≡ h.b_count
  pub dirt : g.b_dirt ≡ h.b_dirt
  pub lock : g.b_lock ≡ h.b_lock

module _ (b : ℕ) (c : Cache) where
  abbrev pub after_b : ℕ
  after_b = (c.heads b).b_next

  abbrev pub before_b : ℕ
  before_b = (c.heads b).b_prev

  pub unlink_hash-Kept : (i : ℕ) → Kept (c.heads i) ((unlink_hash b c).heads i)
  unfolding unlink_hash
  unlink_hash-Kept i = record {
    dev = ground arith;
    blocknr = ground arith;
    number = ground arith;
    dirt = ground arith;
    lock = ground arith;
  }

  pub unlink_hash-b_next :
      after_b ≢ b
      → (i : ℕ)
      → ((unlink_hash b c).heads i).b_next ≡ (
          if before_b == 0
          then (c.heads i).b_next
          else if i == before_b
          then after_b
          else (c.heads i).b_next)
  unfolding unlink_hash
  unlink_hash-b_next ne i = ground arith

  pub unlink_hash-b_prev :
      after_b ≢ b
      → before_b ≢ b
      → (i : ℕ)
      → ((unlink_hash b c).heads i).b_prev ≡ (
          if after_b == 0
          then (c.heads i).b_prev
          else if i == after_b
          then before_b
          else (c.heads i).b_prev)
  unfolding unlink_hash
  unlink_hash-b_prev ne ne' i = ground arith

  pub unlink_hash-hash_table :
      after_b ≢ b
      → before_b ≢ b
      → (k : ℕ)
      → (unlink_hash b c).hash_table k ≡ (
          if (k == bucket_of c b) && (c.hash_table (bucket_of c b) == b)
          then after_b
          else c.hash_table k)
  unfolding unlink_hash
  unlink_hash-hash_table ne ne' k = ground arith

  pub unlink_hash-free :
      (i : ℕ)
      → (((unlink_hash b c).heads i).b_next_free ≡ (c.heads i).b_next_free)
        × (((unlink_hash b c).heads i).b_prev_free ≡ (c.heads i).b_prev_free)
        × ((unlink_hash b c).free_list ≡ c.free_list)
        × ((unlink_hash b c).nr_buffers ≡ c.nr_buffers)
  unfolding unlink_hash
  unlink_hash-free i = (ground arith, ground arith, ground arith, ground arith)

  pub unlink_free-Kept : (i : ℕ) → Kept (c.heads i) ((unlink_free b c).heads i)
  unfolding unlink_free
  unlink_free-Kept i = record {
    dev = ground arith;
    blocknr = ground arith;
    number = ground arith;
    dirt = ground arith;
    lock = ground arith;
  }

  pub unlink_free-hash :
      (i : ℕ)
      → (((unlink_free b c).heads i).b_next ≡ (c.heads i).b_next)
        × (((unlink_free b c).heads i).b_prev ≡ (c.heads i).b_prev)
        × ((unlink_free b c).hash_table i ≡ c.hash_table i)
        × ((unlink_free b c).nr_buffers ≡ c.nr_buffers)
  unfolding unlink_free
  unlink_free-hash i = (ground arith, ground arith, ground arith, ground arith)

  -- The ring's links around `b`, with more than `b` in the ring.
  module _ (follows : (c.heads b).b_next_free ≢ b) (precedes : (c.heads b).b_prev_free ≢ b) where
    pub unlink_free-b_next_free :
        (i : ℕ)
        → ((unlink_free b c).heads i).b_next_free ≡ (
            if i == (c.heads b).b_prev_free
            then (c.heads b).b_next_free
            else (c.heads i).b_next_free)
    unfolding unlink_free
    unlink_free-b_next_free i = ground arith

    pub unlink_free-b_prev_free :
        (i : ℕ)
        → ((unlink_free b c).heads i).b_prev_free ≡ (
            if i == (c.heads b).b_next_free
            then (c.heads b).b_prev_free
            else (c.heads i).b_prev_free)
    unfolding unlink_free
    unlink_free-b_prev_free i = ground arith

    pub unlink_free-free_list :
        (unlink_free b c).free_list
        ≡ (if c.free_list == b then (c.heads b).b_next_free else c.free_list)
    unfolding unlink_free
    unlink_free-free_list = ground arith

  pub link_free-Kept : (i : ℕ) → Kept (c.heads i) ((link_free b c).heads i)
  unfolding link_free
  link_free-Kept i = record {
    dev = ground arith;
    blocknr = ground arith;
    number = ground arith;
    dirt = ground arith;
    lock = ground arith;
  }

  pub link_free-hash :
      (i : ℕ)
      → (((link_free b c).heads i).b_next ≡ (c.heads i).b_next)
        × (((link_free b c).heads i).b_prev ≡ (c.heads i).b_prev)
        × ((link_free b c).hash_table i ≡ c.hash_table i)
        × ((link_free b c).free_list ≡ c.free_list)
        × ((link_free b c).nr_buffers ≡ c.nr_buffers)
  unfolding link_free
  link_free-hash i = (ground arith, ground arith, ground arith, ground arith, ground arith)

  abbrev tail : ℕ
  tail = (c.heads c.free_list).b_prev_free

  pub link_free-b_next_free :
      c.free_list ≢ b
      → tail ≢ b
      → (i : ℕ)
      → ((link_free b c).heads i).b_next_free
        ≡ (if i == tail then b else if i == b then c.free_list else (c.heads i).b_next_free)
  unfolding link_free
  link_free-b_next_free ne ne' i = ground arith

  pub link_free-b_prev_free :
      c.free_list ≢ b
      → tail ≢ b
      → (i : ℕ)
      → ((link_free b c).heads i).b_prev_free
        ≡ (if i == c.free_list then b else if i == b then tail else (c.heads i).b_prev_free)
  unfolding link_free
  link_free-b_prev_free ne ne' i = ground arith

  pub link_hash-Kept : (i : ℕ) → Kept (c.heads i) ((link_hash b c).heads i)
  unfolding link_hash
  link_hash-Kept i = record {
    dev = ground arith;
    blocknr = ground arith;
    number = ground arith;
    dirt = ground arith;
    lock = ground arith;
  }

  pub link_hash-free :
      (i : ℕ)
      → (((link_hash b c).heads i).b_next_free ≡ (c.heads i).b_next_free)
        × (((link_hash b c).heads i).b_prev_free ≡ (c.heads i).b_prev_free)
        × ((link_hash b c).free_list ≡ c.free_list)
        × ((link_hash b c).nr_buffers ≡ c.nr_buffers)
  unfolding link_hash
  link_hash-free i = (ground arith, ground arith, ground arith, ground arith)

  -- A buffer with a device goes in front of its chain. A chain that was empty has NULL as the next
  -- buffer, and the entry 0 is changed as if it was one.
  module _ (device : (c.heads b).b_dev ≢ 0) (absent : c.hash_table (bucket_of c b) ≢ b) where
    pub link_hash-b_next :
        (i : ℕ)
        → ((link_hash b c).heads i).b_next
          ≡ (if i == b then c.hash_table (bucket_of c b) else (c.heads i).b_next)
    unfolding link_hash
    link_hash-b_next i = ground arith

    pub link_hash-b_prev :
        (i : ℕ)
        → ((link_hash b c).heads i).b_prev ≡ (
            if i == c.hash_table (bucket_of c b)
            then b
            else if i == b
            then 0
            else (c.heads i).b_prev)
    unfolding link_hash
    link_hash-b_prev i = ground arith

    pub link_hash-hash_table :
        (k : ℕ) → (link_hash b c).hash_table k ≡ (if k == bucket_of c b then b else c.hash_table k)
    unfolding link_hash
    link_hash-hash_table k = ground arith
