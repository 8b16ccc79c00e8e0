-- ===== src/Quic/Protocol/Transmit/Chunks.antt =====
-- The chunks of the send queue (native/quic/Connection.cpp): the one that holds the submitted offset,
-- and what moving its count does to the others.
use ffl_p2p.Prelude.{
  ℕ, zero, suc, ◌+◌, ◌-◌, ◌^◌, ◌≤◌, ◌<◌, min, ◌≡◌, ◌≢◌, refl, ap, ◌∙◌, Option, none, some, List, [],
  ◌∷◌, ◌++◌, arith, length, drop, drop-append, drop-append_le,
}
use native.Mathlib.Decide.{dec_lt}
use ffl_p2p.Quic.Protocol.{
  TxChunk, ProtocolState, add64, take_accepted, next_transmit_chunk, advance,
}
use ffl_p2p.Quic.Protocol.Invariant.{Spans, Submits, bytes_of, Spans-le, Submits-later}

-- The chunk at position `i` is the one that holds the submitted offset `s`.
pub record Holds (a b s : ℕ) (cs : List TxChunk) (i : ℕ) (c : TxChunk) : Type 0 where
  pub found : next_transmit_chunk s cs ≡ some (i, c)
  pub mark : c.submitted ≡ s - c.offset
  pub starts : c.offset ≤ s
  pub ends : s < c.offset + length c.bytes
  pub within : c.offset + length c.bytes ≤ b
  pub after : List ℕ
  pub bytes : drop (s - a) (bytes_of cs) ≡ drop c.submitted c.bytes ++ after

-- A chunk that is submitted whole is passed over.
pub Holds-later :
    (a b s : ℕ) (c : TxChunk) (cs : List TxChunk) (i : ℕ) (d : TxChunk)
    → Spans a (c ∷ cs) b
    → c.submitted ≡ min (s - c.offset) (length c.bytes)
    → a + length c.bytes ≤ s
    → b < 2 ^ 64
    → Holds (a + length c.bytes) b s cs i d
    → Holds a b s (c ∷ cs) (suc i) d
unfolding next_transmit_chunk
Holds-later a b s c cs i d h v l q r = record {
  found = ground (arith, r.found);
  mark = r.mark;
  starts = r.starts;
  ends = r.ends;
  within = r.within;
  after = r.after;
  bytes =
      drop-append (s - a) c.bytes (bytes_of cs) (omega arith)
      ∙ ap (λ k. drop k (bytes_of cs)) (omega arith)
      ∙ r.bytes;
}

pub next_transmit_chunk-Holds :
    (a b s : ℕ) (cs : List TxChunk)
    → Spans a cs b
    → Submits s cs
    → a ≤ s
    → s < b
    → b < 2 ^ 64
    → (i : ℕ) × (c : TxChunk) × Holds a b s cs i c
unfolding next_transmit_chunk
next_transmit_chunk-Holds a b s [] h v l m q = absurd (omega arith)
next_transmit_chunk-Holds a b s (c ∷ cs) h v l m q = elim (dec_lt s (a + length c.bytes)) [
  | yes here ↦ (
    0,
    c,
    record {
      found = ground (arith, Spans-le (a + length c.bytes) b cs h.2);
      mark = omega arith;
      starts = omega arith;
      ends = omega arith;
      within = omega (arith, Spans-le (a + length c.bytes) b cs h.2);
      after = bytes_of cs;
      bytes =
          drop-append_le (s - a) c.bytes (bytes_of cs) (omega arith)
          ∙ ap (λ k. drop k c.bytes ++ bytes_of cs) (omega arith);
    },
  )
  | no later ↦
      let (i, d, r) =
        next_transmit_chunk-Holds (a + length c.bytes) b s cs h.2 v.1 (omega arith) m q in
      (suc i, d, Holds-later a b s c cs i d h v.0 (omega arith) q r)
]

pub next_transmit_chunk-none :
    (a b s : ℕ) (cs : List TxChunk)
    → Spans a cs b
    → Submits s cs
    → b ≤ s
    → next_transmit_chunk s cs ≡ none
unfolding next_transmit_chunk
next_transmit_chunk-none a b s [] h v l = refl
next_transmit_chunk-none a b s (c ∷ cs) h v l = ground (
  arith,
  Spans-le (a + length c.bytes) b cs h.2,
  next_transmit_chunk-none (a + length c.bytes) b s cs h.2 v.1 l,
)

-- Acceptance changes neither where the chunks lie nor what they hold.
pub advance-Spans : (i k a b : ℕ) (cs : List TxChunk) → Spans a cs b → Spans a (advance i k cs) b
unfolding advance
advance-Spans i k a b [] h = h
advance-Spans zero k a b (c ∷ cs) h = h
advance-Spans (suc i) k a b (c ∷ cs) h = (h.0, h.1, advance-Spans i k (a + length c.bytes) b cs h.2)

pub bytes_of-advance : (i k : ℕ) (cs : List TxChunk) → bytes_of (advance i k cs) ≡ bytes_of cs
unfolding advance
bytes_of-advance i k [] = refl
bytes_of-advance zero k (c ∷ cs) = refl
bytes_of-advance (suc i) k (c ∷ cs) = ap (◌++◌ c.bytes) (bytes_of-advance i k cs)

-- How the search goes at the head of the queue.
pub found_head :
    (s : ℕ) (c d : TxChunk) (cs : List TxChunk)
    → next_transmit_chunk s (d ∷ cs) ≡ some (zero, c)
    → (c ≡ d) × (add64 d.offset d.submitted ≡ s) × (d.submitted < length d.bytes)
unfolding next_transmit_chunk
found_head s c d cs e = ground arith

pub found_tail :
    (s i : ℕ) (c d : TxChunk) (cs : List TxChunk)
    → next_transmit_chunk s (d ∷ cs) ≡ some (suc i, c)
    → next_transmit_chunk s cs ≡ some (i, c)
unfolding next_transmit_chunk
found_tail s i c d cs e = ground arith

-- The chunk that holds the submitted offset is found before those behind it.
pub head_first :
    (a b s i : ℕ) (c d : TxChunk) (cs : List TxChunk)
    → Spans a (d ∷ cs) b
    → d.submitted ≡ min (s - d.offset) (length d.bytes)
    → a ≤ s
    → s < a + length d.bytes
    → b < 2 ^ 64
    → next_transmit_chunk s (d ∷ cs) ≢ some (suc i, c)
unfolding next_transmit_chunk
head_first a b s i c d cs h v l here q e = ground (arith, Spans-le (a + length d.bytes) b cs h.2)

pub advance-Submits :
    (a b s k i : ℕ) (c : TxChunk) (cs : List TxChunk)
    → Spans a cs b
    → Submits s cs
    → a ≤ s
    → b < 2 ^ 64
    → next_transmit_chunk s cs ≡ some (i, c)
    → k + c.submitted ≤ length c.bytes
    → Submits (s + k) (advance i k cs)
unfolding advance
advance-Submits a b s k i c [] h v l q e m = tt
advance-Submits a b s k zero c (d ∷ cs) h v l q e m =
    let (same, mark, room) = found_head s c d cs e in
    let span : a + length d.bytes ≤ b = Spans-le (a + length d.bytes) b cs h.2 in
    let size : c.submitted ≡ d.submitted = ap (λ (x : TxChunk). x.submitted) same in
    let all : length c.bytes ≡ length d.bytes = ap (λ (x : TxChunk). length x.bytes) same in
    (
      omega arith,
      Submits-later (a + length d.bytes) b s (s + k) cs h.2 (omega arith) (omega arith) v.1,
    )
advance-Submits a b s k (suc i) c (d ∷ cs) h v l q e m = elim (dec_lt s (a + length d.bytes)) [
  | yes here ↦ absurd (head_first a b s i c d cs h v.0 l here q e)
  | no later ↦ (
    omega arith,
    advance-Submits (a + length d.bytes) b s k i c cs h.2 v.1 (omega arith) q
        (found_tail s i c d cs e) m,
  )
]

pub take_accepted_fin :
    (p : ProtocolState) (chunk : Option (ℕ × TxChunk)) (accepted : Option ℕ)
    → (take_accepted p chunk accepted).tx_fin_requested ≡ p.tx_fin_requested
take_accepted_fin p none accepted = refl
take_accepted_fin p (some (i, c)) none = refl
take_accepted_fin p (some (i, c)) (some k) = refl
