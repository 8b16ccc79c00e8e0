-- ===== src/Quic/Protocol/Invariant.antt =====
-- The invariant of the send queue of `ProtocolState`, against the stream of all bytes ever queued.
use ffl_p2p.Prelude.{
  ℕ, ◌+◌, ◌-◌, ◌^◌, ◌≤◌, ◌<◌, min, ◌≡◌, true, List, [], ◌∷◌, ◌++◌, append_assoc, arith, length,
  drop,
}
use ffl_p2p.Quic.Protocol.{TxChunk, ProtocolState}

-- The chunks lie one after the other from `a` to `b`, and none is empty.
abbrev pub Spans : ℕ → List TxChunk → ℕ → Type 0
Spans a [] b = a ≡ b
Spans a (c ∷ cs) b = (c.offset ≡ a) × (0 < length c.bytes) × Spans (a + length c.bytes) cs b

-- What each chunk says of its submitted bytes is what the stream's submitted offset says.
abbrev pub Submits : ℕ → List TxChunk → Type 0
Submits s [] = Unit {0}
Submits s (c ∷ cs) = (c.submitted ≡ min (s - c.offset) (length c.bytes)) × Submits s cs

-- The bytes that the queue retains.
abbrev pub bytes_of : List TxChunk → List ℕ
bytes_of [] = []
bytes_of (c ∷ cs) = c.bytes ++ bytes_of cs

-- `stream` is all that was ever queued, and `base` the offset of the first retained byte.
pub record IsValid (stream : List ℕ) (base : ℕ) (p : ProtocolState) : Type 0 where
  pub spans : Spans base p.tx_chunks p.tx_next_offset
  pub submits : Submits p.tx_submitted_offset p.tx_chunks
  pub content : bytes_of p.tx_chunks ≡ drop base stream
  pub total : length stream ≡ p.tx_next_offset
  pub retained : base ≤ p.tx_acked_offset
  pub acked : p.tx_acked_offset ≤ p.tx_submitted_offset
  pub submitted : p.tx_submitted_offset ≤ p.tx_next_offset
  pub small : p.tx_next_offset < 2 ^ 64
  pub finished : p.tx_fin_submitted ≡ true → p.tx_submitted_offset ≡ p.tx_next_offset
  pub requested : p.tx_fin_submitted ≡ true → p.tx_fin_requested ≡ true

pub Spans-le : (a b : ℕ) (cs : List TxChunk) → Spans a cs b → a ≤ b
Spans-le a b [] h = omega arith
Spans-le a b (c ∷ cs) h = omega (arith, Spans-le (a + length c.bytes) b cs h.2)

pub Spans-append :
    (a b : ℕ) (cs : List TxChunk) (c : TxChunk)
    → Spans a cs b
    → c.offset ≡ b
    → 0 < length c.bytes
    → Spans a (cs ++ c ∷ []) (b + length c.bytes)
Spans-append a b [] c h e n = (omega arith, n, omega arith)
Spans-append a b (d ∷ cs) c h e n = (h.0, h.1, Spans-append (a + length d.bytes) b cs c h.2 e n)

pub Submits-append :
    (s : ℕ) (cs : List TxChunk) (c : TxChunk)
    → Submits s cs
    → c.submitted ≡ min (s - c.offset) (length c.bytes)
    → Submits s (cs ++ c ∷ [])
Submits-append s [] c h e = (e, tt)
Submits-append s (d ∷ cs) c h e = (h.0, Submits-append s cs c h.1 e)

pub bytes_of-append :
    (cs : List TxChunk) (c : TxChunk) → bytes_of (cs ++ c ∷ []) ≡ bytes_of cs ++ c.bytes
bytes_of-append [] c = mathlib.Core.List.append-nil c.bytes
bytes_of-append (d ∷ cs) c = rw (bytes_of-append cs c, append_assoc)

-- Chunks that start at or past both offsets have nothing submitted under either.
pub Submits-later :
    (a b s s' : ℕ) (cs : List TxChunk)
    → Spans a cs b
    → s ≤ a
    → s' ≤ a
    → Submits s cs
    → Submits s' cs
Submits-later a b s s' [] h l l' v = tt
Submits-later a b s s' (c ∷ cs) h l l' v =
    (omega arith, Submits-later (a + length c.bytes) b s s' cs h.2 (omega arith) (omega arith) v.1)
