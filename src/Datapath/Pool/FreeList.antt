-- ===== src/Datapath/Pool/FreeList.antt =====
-- Chains of buffers in the memory of a BufferPool (native/datapath/Buffer.h), and writes beside them.
use ffl_p2p.Prelude.{
  ℕ, ◌≤◌, ◌<◌, ◌≡◌, ◌≢◌, sym, true, false, Option, none, some, List, [], ◌∷◌, arith, length, ◌==◌,
}
use mathlib.Core.Path.{subst}
use ffl_p2p.Datapath.Pool.{Buffer, BufferPool, write}

module _ {V : Type 0} where
  -- The pointers from `head` on lead through exactly these addresses.
  abbrev pub Chain : (ℕ → Buffer V) → Option ℕ → List ℕ → Type 0
  Chain buffers head [] = head ≡ none
  Chain buffers head (i ∷ is) = (head ≡ some i) × Chain buffers (buffers i).next is

abbrev pub Avoids : ℕ → List ℕ → Type 0
Avoids i [] = Unit {0}
Avoids i (j ∷ js) = (i ≢ j) × Avoids i js

abbrev pub Distinct : List ℕ → Type 0
Distinct [] = Unit {0}
Distinct (i ∷ is) = Avoids i is × Distinct is

abbrev pub Below : ℕ → List ℕ → Type 0
Below n [] = Unit {0}
Below n (i ∷ is) = (i < n) × Below n is

abbrev pub Disjoint : List ℕ → List ℕ → Type 0
Disjoint [] js = Unit {0}
Disjoint (i ∷ is) js = Avoids i js × Disjoint is js

pub Below-mono : (m n : ℕ) (is : List ℕ) → m ≤ n → Below m is → Below n is
Below-mono m n [] h b = tt
Below-mono m n (i ∷ is) h b = (omega arith, Below-mono m n is h b.1)

pub Avoids_above : (i n : ℕ) (is : List ℕ) → Below n is → n ≤ i → Avoids i is
Avoids_above i n [] b h = tt
Avoids_above i n (j ∷ js) b h = (omega arith, Avoids_above i n js b.1 h)

module _ {V : Type 0} where
  pub Chain-write :
      (buffers : ℕ → Buffer V) (head : Option ℕ) (is : List ℕ) (i : ℕ) (b : Buffer V)
      → Avoids i is
      → Chain buffers head is
      → Chain (write buffers i b) head is
  Chain-write buffers head [] i b a c = c
  Chain-write buffers head (j ∷ js) i b a c =
      let other : (j == i) ≡ false = ground arith in
      (c.0, rw other (Chain-write buffers (buffers j).next js i b a.1 c.1))

module _ {V : Type 0} where
  -- A buffer put before a chain, in memory.
  pub push-Chain :
      (buffers : ℕ → Buffer V) (head : Option ℕ) (is : List ℕ) (i : ℕ) (b : Buffer V)
      → b.next ≡ head
      → Avoids i is
      → Chain buffers head is
      → Chain (write buffers i b) (write buffers i b i).next is
  push-Chain buffers head is i b e a c =
      let self : (i == i) ≡ true = ground arith in
      rw self
        (subst (λ h. Chain (write buffers i b) h is) (sym e) (Chain-write buffers head is i b a c))

  pub write_other :
      (buffers : ℕ → Buffer V) (i j : ℕ) (b : Buffer V) → j ≢ i → write buffers i b j ≡ buffers j
  write_other buffers i j b h = ground arith

-- The pool's free list is `free`, without repetition, of buffers that exist, and counted.
pub record IsValid {V : Type 0} (free : List ℕ) (p : BufferPool V) : Type 0 where
  pub chain : Chain p.buffers p.free_head free
  pub distinct : Distinct free
  pub exist : Below p.buffers_allocated free
  pub counted : p.free_buffers ≡ length free
