-- ===== src/Datapath/Pool/Acquire.antt =====
-- The constructor of BufferPool, grow and acquire (native/datapath/Buffer.h) on the free list.
use ffl_p2p.Prelude.{
  ℕ, zero, suc, ◌+◌, ◌-◌, ◌<◌, ◌≡◌, ◌≢◌, refl, ap, ◌∙◌, Bool, true, false, none, some, List, [],
  ◌∷◌, arith, length, ◌==◌,
}
use mathlib.Core.Path.{subst}
use ffl_p2p.Datapath.Pool.{Buffer, BufferPool, write, link_slab, grow, create, take_head, acquire}
use ffl_p2p.Datapath.Pool.FreeList.{
  Chain, Avoids, Distinct, Below, IsValid, Below-mono, Avoids_above, Chain-write, push-Chain,
  write_other,
}

-- The free list once the addresses from `i` on are put before it, one after the other.
abbrev slab_before : ℕ → ℕ → List ℕ → List ℕ
slab_before zero i free = free
slab_before (suc n) i free = slab_before n (i + 1) (i ∷ free)

length-slab_before : (n i : ℕ) (free : List ℕ) → length (slab_before n i free) ≡ length free + n
length-slab_before zero i free = omega arith
length-slab_before (suc n) i free = omega (arith, length-slab_before n (i + 1) (i ∷ free))

slab_before_head :
    (n i : ℕ) (free : List ℕ) → (rest : List ℕ) × (slab_before (suc n) i free ≡ (i + n) ∷ rest)
slab_before_head zero i free = (free, ap (λ k. k ∷ free) (omega arith))
slab_before_head (suc n) i free =
    let (rest, e) = slab_before_head n (i + 1) (i ∷ free) in
    (rest, e ∙ ap (λ k. k ∷ rest) (omega arith))

module _ {V : Type 0} (reset : V → V) (blank : V) (initial_count grow_count : ℕ) where
  record Linked (n i : ℕ) (free : List ℕ) (p q : BufferPool V) : Type 0 where
    chain : Chain q.buffers q.free_head (slab_before n i free)
    distinct : Distinct (slab_before n i free)
    exist : Below (i + n) (slab_before n i free)
    allocated : q.buffers_allocated ≡ p.buffers_allocated
    counted : q.free_buffers ≡ p.free_buffers
    old : (j : ℕ) → j < i → q.buffers j ≡ p.buffers j

  link_slab-Linked :
      (n i : ℕ) (free : List ℕ) (p : BufferPool V)
      → Chain p.buffers p.free_head free
      → Distinct free
      → Below i free
      → Linked n i free p (link_slab reset blank initial_count grow_count n i p)
  unfolding link_slab
  link_slab-Linked zero i free p c d b = record {
    chain = c;
    distinct = d;
    exist = Below-mono i (i + 0) free (omega arith) b;
    allocated = refl;
    counted = refl;
    old = λ j h. refl;
  }
  link_slab-Linked (suc n) i free p c d b =
      let linked : Buffer V = record {
        next = p.free_head;
        acquired_before = false;
        value = blank;
      } in
      let fresh = Avoids_above i i free b (omega arith) in
      let r =
        link_slab-Linked n (i + 1) (i ∷ free)
          (record p { buffers = write p.buffers i linked; free_head = some i })
          (refl, push-Chain p.buffers p.free_head free i linked refl fresh c) (fresh, d)
          (omega arith, Below-mono i (i + 1) free (omega arith) b) in
      record {
        chain = r.chain;
        distinct = r.distinct;
        exist =
            Below-mono (i + 1 + n) (i + suc n) (slab_before n (i + 1) (i ∷ free)) (omega arith)
              r.exist;
        allocated = r.allocated;
        counted = r.counted;
        old = λ j h. r.old j (omega arith) ∙ write_other p.buffers i j linked (omega arith);
      }

  -- `grow` adds a slab of new buffers to the free list and changes no buffer that exists.
  grow-IsValid :
      (count : ℕ) (dynamic : Bool) (free : List ℕ) (p : BufferPool V)
      → IsValid free p
      → let q = grow reset blank initial_count grow_count count dynamic p in
        IsValid (slab_before count p.buffers_allocated free) q
        × (q.buffers_allocated ≡ p.buffers_allocated + count)
        × ((j : ℕ) → j < p.buffers_allocated → q.buffers j ≡ p.buffers j)
  unfolding grow
  grow-IsValid count dynamic free p v =
      let r = link_slab-Linked count p.buffers_allocated free p v.chain v.distinct v.exist in
      (
        record {
          chain = r.chain;
          distinct = r.distinct;
          exist = rw r.allocated r.exist;
          counted =
              omega
                (arith, r.counted, v.counted, length-slab_before count p.buffers_allocated free);
        },
        rw r.allocated,
        r.old,
      )

  -- A new pool has `initial_count` free buffers.
  pub create-IsValid :
      (free : List ℕ) × IsValid free (create reset blank initial_count grow_count)
      × (length free ≡ initial_count)
      × ((create reset blank initial_count grow_count).buffers_allocated ≡ initial_count)
  unfolding create
  create-IsValid =
      let (v, n, old) =
        grow-IsValid initial_count false [] _
          (record { chain = refl; distinct = tt; exist = tt; counted = refl }) in
      (
        slab_before initial_count 0 [],
        v,
        length-slab_before initial_count 0 [] ∙ omega arith,
        n ∙ omega arith,
      )

  take_head-IsValid :
      (i : ℕ) (free : List ℕ) (p : BufferPool V)
      → IsValid (i ∷ free) p
      → IsValid free (take_head reset blank initial_count grow_count p i)
  unfolding take_head
  take_head-IsValid i free p v = record {
    chain = Chain-write p.buffers (p.buffers i).next free i _ v.distinct.0 v.chain.1;
    distinct = v.distinct.1;
    exist = v.exist.1;
    counted = omega (arith, v.counted);
  }

  -- What `acquire` promises: the buffer is unlinked and reset, is not on the free list that is left,
  -- and was not in use before; every other buffer that existed is as it was.
  pub record Acquired (free : List ℕ) (p : BufferPool V) (i : ℕ) (q : BufferPool V) : Type 0 where
    pub rest : List ℕ
    pub valid : IsValid rest q
    pub taken : Avoids i rest
    pub exists : i < q.buffers_allocated
    pub unlinked : (q.buffers i).next ≡ none
    pub old_value : V
    pub emptied : (q.buffers i).value ≡ reset old_value
    pub was_free : (j : ℕ) → j < p.buffers_allocated → Avoids j free → j ≢ i
    pub others : (j : ℕ) → j < p.buffers_allocated → j ≢ i → q.buffers j ≡ p.buffers j

  take_head-Acquired :
      (i : ℕ) (free rest : List ℕ) (p g : BufferPool V)
      → IsValid (i ∷ rest) g
      → ((j : ℕ) → j < p.buffers_allocated → Avoids j free → j ≢ i)
      → ((j : ℕ) → j < p.buffers_allocated → g.buffers j ≡ p.buffers j)
      → Acquired free p i (take_head reset blank initial_count grow_count g i)
  unfolding take_head
  take_head-Acquired i free rest p g v w old =
      let self : (i == i) ≡ true = ground arith in
      record {
        rest = rest;
        valid = take_head-IsValid i rest g v;
        taken = v.distinct.0;
        exists = v.exist.0;
        unlinked = rw self;
        old_value = (g.buffers i).value;
        emptied = rw self;
        was_free = w;
        others = λ j h ne. write_other g.buffers i j _ ne ∙ old j h;
      }

  acquire-some :
      (p : BufferPool V) (i : ℕ)
      → p.free_head ≡ some i
      → acquire reset blank initial_count grow_count p
        ≡ some (i, take_head reset blank initial_count grow_count p i)
  unfolding acquire
  acquire-some p i e = ground arith

  acquire-none :
      (p : BufferPool V) (i : ℕ)
      → p.free_head ≡ none
      → (grow reset blank initial_count grow_count grow_count true p).free_head ≡ some i
      → acquire reset blank initial_count grow_count p
        ≡ some (
          i,
          take_head reset blank initial_count grow_count
              (grow reset blank initial_count grow_count grow_count true p)
              i,
        )
  unfolding acquire
  acquire-none p i e h = ground arith

  -- From a well-formed pool `acquire` always gives a buffer, with a slab more where none is free.
  pub acquire-Acquired :
      (free : List ℕ) (p : BufferPool V)
      → IsValid free p
      → 0 < grow_count
      → (i : ℕ) × (q : BufferPool V) × (acquire reset blank initial_count grow_count p
          ≡ some (i, q))
        × Acquired free p i q
  unfolding acquire
  acquire-Acquired [] p v some_growth =
      let (w, n, old) = grow-IsValid grow_count true [] p v in
      let (rest, h) = slab_before_head (grow_count - 1) p.buffers_allocated [] in
      let i : ℕ = p.buffers_allocated + (grow_count - 1) in
      let g = grow reset blank initial_count grow_count grow_count true p in
      let free : slab_before grow_count p.buffers_allocated [] ≡ i ∷ rest =
        ap (λ k. slab_before k p.buffers_allocated []) {x = grow_count} {y = suc (grow_count - 1)}
          (omega arith)
        ∙ h in
      let v' : IsValid (i ∷ rest) g = subst (λ l. IsValid l g) free w in
      (
        i,
        take_head reset blank initial_count grow_count g i,
        acquire-none p i v.chain v'.chain.0,
        take_head-Acquired i [] rest p g v' (λ j l a. omega arith) old,
      )
  acquire-Acquired (i ∷ rest) p v some_growth =
      let head = v.chain.0 in
      (
        i,
        take_head reset blank initial_count grow_count p i,
        acquire-some p i head,
        take_head-Acquired i (i ∷ rest) rest p p v (λ j h a. a.0) (λ j h. refl),
      )
