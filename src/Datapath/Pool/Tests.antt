-- ===== src/Datapath/Pool/Tests.antt =====
-- A pool that starts with two buffers and grows by one.
use ffl_p2p.Prelude.{ℕ, ◌≡◌, refl, false, none, some, [], ◌∷◌, arith}
use ffl_p2p.Datapath.Pool.{BufferPool, acquire, release_chain}
use ffl_p2p.Datapath.Pool.FreeList.{IsValid}
use ffl_p2p.Datapath.Pool.Acquire.{acquire-Acquired, Acquired}
use ffl_p2p.Datapath.Pool.Release.{release_chain-IsValid, reversed_onto}

-- A buffer's contents are a number here.
abbrev keep : ℕ → ℕ
keep v = v

abbrev nought : ℕ
nought = 0

-- Of two buffers, 0 is free and 1 is in a batch's chain.
abbrev one_free : BufferPool ℕ
one_free = record {
  buffers = λ i. record { next = none; acquired_before = false; value = 0 };
  free_head = some 0;
  slabs_allocated = 1;
  buffers_allocated = 2;
  acquire_count = 1;
  reuse_count = 0;
  dynamic_growths = 0;
  free_buffers = 1;
}

one_free-IsValid : IsValid (0 ∷ []) one_free
one_free-IsValid = record {
  chain = (refl, refl);
  distinct = (tt, tt);
  exist = (omega arith, tt);
  counted = refl;
}

acquire-Acquired_example :
    (i : ℕ) × (q : BufferPool ℕ) × (acquire keep nought 2 1 one_free ≡ some (i, q))
    × Acquired keep nought 2 1 (0 ∷ []) one_free i q
acquire-Acquired_example =
    acquire-Acquired keep nought 2 1 (0 ∷ []) one_free one_free-IsValid (omega arith)

release_chain-IsValid_example :
    IsValid
      (reversed_onto keep nought 2 1 (1 ∷ []) (0 ∷ []))
      (release_chain keep nought 2 1 1 one_free (some 1))
release_chain-IsValid_example =
    release_chain-IsValid keep nought 2 1 (1 ∷ []) (0 ∷ []) one_free (some 1) 1 one_free-IsValid
      (refl, refl) (tt, tt) ((omega arith, tt), tt) (omega arith, tt) (omega arith)
