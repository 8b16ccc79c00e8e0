-- ===== src/Datapath/Pool/Release.antt =====
-- BufferPool::release and releaseChain (native/datapath/Buffer.h) on the free list.
use ffl_p2p.Prelude.{ℕ, zero, suc, ◌≤◌, ◌<◌, refl, sym, Option, List, [], ◌∷◌, arith, length}
use ffl_p2p.Datapath.Pool.{BufferPool, put_head, release_chain}
use ffl_p2p.Datapath.Pool.FreeList.{
  Chain, Avoids, Distinct, Below, Disjoint, IsValid, Chain-write, push-Chain,
}

module _ {V : Type 0} (reset : V → V) (blank : V) (initial_count grow_count : ℕ) where
  put_head-IsValid :
      (free : List ℕ) (p : BufferPool V) (i : ℕ)
      → IsValid free p
      → Avoids i free
      → i < p.buffers_allocated
      → IsValid (i ∷ free) (put_head reset blank initial_count grow_count p i)
  unfolding put_head
  put_head-IsValid free p i v a h = record {
    chain = (refl, push-Chain p.buffers p.free_head free i _ refl a v.chain);
    distinct = (a, v.distinct);
    exist = (h, v.exist);
    counted = omega (arith, v.counted);
  }

  -- A chain's addresses in front of the free list, last one first.
  abbrev pub reversed_onto : List ℕ → List ℕ → List ℕ
  reversed_onto [] free = free
  reversed_onto (i ∷ is) free = reversed_onto is (i ∷ free)

  Disjoint-cons :
      (i : ℕ) (is free : List ℕ) → Disjoint is free → Avoids i is → Disjoint is (i ∷ free)
  Disjoint-cons i [] free d a = tt
  Disjoint-cons i (j ∷ js) free d a = ((λ e. a.0 (sym e), d.0), Disjoint-cons i js free d.1 a.1)

  -- `releaseChain` puts every buffer of a batch's chain onto the free list, and nothing else: with as
  -- much fuel as the chain is long it reaches the chain's end. The chain's buffers exist, are
  -- distinct, and are not free.
  pub release_chain-IsValid :
      (chain free : List ℕ) (p : BufferPool V) (head : Option ℕ) (fuel : ℕ)
      → IsValid free p
      → Chain p.buffers head chain
      → Distinct chain
      → Disjoint chain free
      → Below p.buffers_allocated chain
      → length chain ≤ fuel
      → IsValid
          (reversed_onto chain free)
          (release_chain reset blank initial_count grow_count fuel p head)
  unfolding release_chain put_head
  release_chain-IsValid [] free p head zero v c d j b f = v
  release_chain-IsValid [] free p head (suc fuel) v c d j b f = rw (c, release_chain) v
  release_chain-IsValid (i ∷ is) free p head zero v c d j b f = absurd (omega arith)
  release_chain-IsValid (i ∷ is) free p head (suc fuel) v c d j b f =
      rw (c.0, release_chain)
        (release_chain-IsValid is (i ∷ free) (put_head reset blank initial_count grow_count p i)
          (p.buffers i).next fuel (put_head-IsValid free p i v j.0 b.0)
          (Chain-write p.buffers (p.buffers i).next is i _ d.0 c.1) d.1
          (Disjoint-cons i is free j.1 d.0) b.1 (omega arith))
