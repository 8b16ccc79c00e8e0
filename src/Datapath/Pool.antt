-- ===== src/Datapath/Pool.antt =====
-- BufferPool of native/datapath/Buffer.h, with the counters of its diagnostics: the free list lies in
-- the buffers' own `next_` pointers. A buffer's address is a number: those of all slabs, in the order
-- of their allocation, are the numbers below `buffers_allocated`.
pub mod FreeList
pub mod Acquire
pub mod Release
mod Tests
use ffl_p2p.Prelude.{
  ℕ, zero, suc, ◌+◌, ◌-◌, Bool, true, false, Option, none, some, ◌==◌, if◌then◌else◌, is_some,
}

-- A buffer: its pointer, whether it was acquired before, and all else that it holds.
pub record Buffer (V : Type 0) : Type 0 where
  pub next : Option ℕ
  pub acquired_before : Bool
  pub value : V

pub record BufferPool (V : Type 0) : Type 0 where
  pub buffers : ℕ → Buffer V
  pub free_head : Option ℕ
  pub slabs_allocated : ℕ
  pub buffers_allocated : ℕ
  pub acquire_count : ℕ
  pub reuse_count : ℕ
  pub dynamic_growths : ℕ
  pub free_buffers : ℕ

module _ {V : Type 0} where
  abbrev pub write : (ℕ → Buffer V) → ℕ → Buffer V → ℕ → Buffer V
  write buffers i b j = if j == i then b else buffers j

-- `reset` empties a buffer and clears its pointer; `blank` is a buffer as the slab constructs it.
module _ {V : Type 0} (reset : V → V) (blank : V) (initial_count grow_count : ℕ) where
  -- The loop of `grow` over one slab: `rounds` buffers from address `i` on.
  pub link_slab : ℕ → ℕ → BufferPool V → BufferPool V
  link_slab zero i p = p
  link_slab (suc rounds) i p = link_slab rounds (i + 1) (record p {
    buffers =
        write p.buffers i (record { next = p.free_head; acquired_before = false; value = blank });
    free_head = some i;
  })

  pub grow : ℕ → Bool → BufferPool V → BufferPool V
  grow count dynamic p =
      let q = link_slab count p.buffers_allocated p in
      record q {
        slabs_allocated = q.slabs_allocated + 1;
        buffers_allocated = q.buffers_allocated + count;
        free_buffers = q.free_buffers + count;
        dynamic_growths = if dynamic then q.dynamic_growths + 1 else q.dynamic_growths;
      }

  -- The constructor.
  pub create : BufferPool V
  create = grow initial_count false (record {
    buffers = λ i. record { next = none; acquired_before = false; value = blank };
    free_head = none;
    slabs_allocated = 0;
    buffers_allocated = 0;
    acquire_count = 0;
    reuse_count = 0;
    dynamic_growths = 0;
    free_buffers = 0;
  })

  -- `acquire` behind the growth: the head of the free list, reset and unlinked.
  pub take_head : BufferPool V → ℕ → BufferPool V
  take_head p i = record p {
    buffers =
        write p.buffers i
          (record { next = none; acquired_before = true; value = reset (p.buffers i).value });
    free_head = (p.buffers i).next;
    free_buffers = p.free_buffers - 1;
    acquire_count = p.acquire_count + 1;
    reuse_count = if (p.buffers i).acquired_before then p.reuse_count + 1 else p.reuse_count;
  }

  -- `acquire`. With no buffer after growing, the source follows a null pointer: `none`.
  pub acquire : BufferPool V → Option (ℕ × BufferPool V)
  acquire p =
      let q = if is_some p.free_head then p else grow grow_count true p in
      elim q.free_head [ none ↦ none | some i ↦ some (i, take_head q i) ]

  -- One buffer onto the free list: `release` of a buffer, and one round of `releaseChain`.
  pub put_head : BufferPool V → ℕ → BufferPool V
  put_head p i = record p {
    buffers =
        write p.buffers i
          (record (p.buffers i) { next = p.free_head; value = reset (p.buffers i).value });
    free_head = some i;
    free_buffers = p.free_buffers + 1;
  }

  pub release : BufferPool V → Option ℕ → BufferPool V
  release p none = p
  release p (some i) = put_head p i

  -- `releaseChain`: each round takes fuel, and reads the pointer before it is overwritten.
  pub release_chain : ℕ → BufferPool V → Option ℕ → BufferPool V
  release_chain zero p head = p
  release_chain (suc fuel) p none = p
  release_chain (suc fuel) p (some i) = release_chain fuel (put_head p i) (p.buffers i).next
