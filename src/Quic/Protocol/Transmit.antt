-- ===== src/Quic/Protocol/Transmit.antt =====
-- `nextTransmitChunk` and `writeOnePacket`: what is offered to ngtcp2, and what acceptance does.
pub mod Chunks
use ffl_p2p.Prelude.{
  ℕ, zero, suc, ◌+◌, ◌-◌, ◌^◌, ◌≤◌, ◌<◌, min, ◌≡◌, ◌≢◌, refl, sym, ap, ◌∙◌, Bool, false, inl, inr,
  Option, none, some, List, [], ◌∷◌, ◌++◌, append-nil, arith, length, drop, ◌==◌, length-append,
  length-drop, drop-append, drop-append_le, drop-drop, Bool-cases,
}
use native.Mathlib.Decide.{dec_lt}
use ffl_p2p.Quic.Protocol.{
  TxChunk, ProtocolState, add64, take_accepted, next_transmit_chunk, advance, remaining,
  sending_fin, offer, accept, enqueue,
}
use ffl_p2p.Quic.Protocol.Invariant.{
  Spans, Submits, bytes_of, IsValid, Spans-le, Spans-append, Submits-append, bytes_of-append,
  Submits-later,
}
use ffl_p2p.Quic.Protocol.Transmit.Chunks.{
  Holds, Holds-later, next_transmit_chunk-Holds, next_transmit_chunk-none, advance-Spans,
  bytes_of-advance, found_head, found_tail, head_first, advance-Submits, take_accepted_fin,
}

-- How far an acceptance moves the submitted offset.
abbrev pub taken : Option ℕ → ℕ
taken none = 0
taken (some k) = k

module _ (stream : List ℕ) (base : ℕ) (p : ProtocolState) (valid : IsValid stream base p) where
  offer_lem :
      (padding : Bool) (id : ℕ)
      → ((after : List ℕ) × (drop p.tx_submitted_offset stream
            ≡ (offer padding p id).bytes ++ after))
        × (p.tx_submitted_offset < p.tx_next_offset → 0 < length (offer padding p id).bytes)
  unfolding offer
  offer_lem padding id = elim (dec_lt p.tx_submitted_offset p.tx_next_offset) [
    | yes more ↦
        let (i, c, r) =
          next_transmit_chunk-Holds base p.tx_next_offset p.tx_submitted_offset p.tx_chunks
            valid.spans valid.submits (omega arith) more valid.small in
        (
          (
            r.after,
            sym (ap (λ k. drop k stream) (omega arith))
                ∙ sym (drop-drop (p.tx_submitted_offset - base) base stream)
                ∙ ap (drop (p.tx_submitted_offset - base)) (sym valid.content)
                ∙ r.bytes
                ∙ ap (λ f. remaining f ++ r.after) (sym r.found),
          ),
          λ _. rw r.found (omega (arith, length-drop c.submitted c.bytes, r.mark, r.ends)),
        )
    | no all ↦
        let e =
          next_transmit_chunk-none base p.tx_next_offset p.tx_submitted_offset p.tx_chunks
            valid.spans valid.submits (omega arith) in
        ((drop p.tx_submitted_offset stream, rw e), λ more. absurd (all more))
  ]

  found_pending :
      (i : ℕ) (c : TxChunk)
      → next_transmit_chunk p.tx_submitted_offset p.tx_chunks ≡ some (i, c)
      → (p.tx_submitted_offset < p.tx_next_offset)
        × (c.submitted ≡ p.tx_submitted_offset - c.offset)
        × (p.tx_submitted_offset + (length c.bytes - c.submitted) ≤ p.tx_next_offset)
        × (c.submitted < length c.bytes)
  found_pending i c e = elim (dec_lt p.tx_submitted_offset p.tx_next_offset) [
    | yes more ↦
        let (j, d, r) =
          next_transmit_chunk-Holds base p.tx_next_offset p.tx_submitted_offset p.tx_chunks
            valid.spans valid.submits (omega arith) more valid.small in
        let same : d ≡ c = cc (r.found) in
        let offsets : d.offset ≡ c.offset = ap (λ (x : TxChunk). x.offset) same in
        let marks : d.submitted ≡ c.submitted = ap (λ (x : TxChunk). x.submitted) same in
        let sizes : length d.bytes ≡ length c.bytes = ap (λ (x : TxChunk). length x.bytes) same in
        let m = r.mark in let b = r.starts in let f = r.ends in let w = r.within in omega arith
    | no all ↦
        let e' =
          next_transmit_chunk-none base p.tx_next_offset p.tx_submitted_offset p.tx_chunks
            valid.spans valid.submits (omega arith) in
        cc
  ]

  take_accepted-IsValid :
      (chunk : Option (ℕ × TxChunk)) (accepted : Option ℕ)
      → next_transmit_chunk p.tx_submitted_offset p.tx_chunks ≡ chunk
      → taken accepted ≤ length (remaining chunk)
      → let q = take_accepted p chunk accepted in
        IsValid stream base q × (q.tx_submitted_offset ≡ p.tx_submitted_offset + taken accepted)
  take_accepted-IsValid none none e fits = (valid, omega arith)
  take_accepted-IsValid none (some k) e fits = (valid, omega arith)
  take_accepted-IsValid (some (i, c)) none e fits = (valid, omega arith)
  take_accepted-IsValid (some (i, c)) (some k) e fits =
      let pending = found_pending i c e in
      let fits' : k + c.submitted ≤ length c.bytes =
        omega (arith, length-drop c.submitted c.bytes) in
      let spans = advance-Spans i k base p.tx_next_offset p.tx_chunks valid.spans in
      let bytes = bytes_of-advance i k p.tx_chunks in
      let marks =
        advance-Submits base p.tx_next_offset p.tx_submitted_offset k i c p.tx_chunks valid.spans
          valid.submits (omega arith) valid.small e fits' in
      elim (Bool-cases (k == 0)) [
        | inl zero_taken ↦ rw zero_taken (valid, ground arith)
        | inr some_taken ↦ rw some_taken (
          record {
            spans = spans;
            submits =
                let sum : add64 p.tx_submitted_offset k ≡ p.tx_submitted_offset + k = omega arith in
                rw sum marks;
            content = bytes ∙ valid.content;
            total = valid.total;
            retained = valid.retained;
            acked = ground arith;
            submitted = ground arith;
            small = valid.small;
            finished = λ f. absurd (omega (arith, valid.finished f));
            requested = valid.requested;
          },
          ground arith,
        )
      ]

  -- What is offered to ngtcp2 is a prefix of the stream's bytes from the submitted offset on.
  pub offer-stream :
      (padding : Bool) (id : ℕ)
      → (after : List ℕ) × (drop p.tx_submitted_offset stream ≡ (offer padding p id).bytes ++ after)
  offer-stream padding id = (offer_lem padding id).0

  -- While queued bytes are not submitted, the offer is not empty.
  pub offer_progress :
      (padding : Bool) (id : ℕ)
      → p.tx_submitted_offset < p.tx_next_offset
      → 0 < length (offer padding p id).bytes
  offer_progress padding id = (offer_lem padding id).1

  -- ngtcp2 takes no more than it was offered: then the queue stays well formed, and the submitted
  -- offset moves by what was taken.
  pub accept-IsValid :
      (padding : Bool) (id : ℕ) (accepted : Option ℕ) (packet : List ℕ)
      → taken accepted ≤ length (offer padding p id).bytes
      → IsValid stream base (accept p accepted packet)
        × ((accept p accepted packet).tx_submitted_offset ≡ p.tx_submitted_offset + taken accepted)
  unfolding offer accept sending_fin
  accept-IsValid padding id accepted packet fits =
      let (q, moved) =
        take_accepted-IsValid (next_transmit_chunk p.tx_submitted_offset p.tx_chunks) accepted refl
          fits in
      let asked =
        take_accepted_fin p (next_transmit_chunk p.tx_submitted_offset p.tx_chunks) accepted in
      (
        record {
          spans = q.spans;
          submits = q.submits;
          content = q.content;
          total = q.total;
          retained = q.retained;
          acked = q.acked;
          submitted = q.submitted;
          small = q.small;
          finished = ground (arith, q.finished);
          requested = ground (arith, q.requested, asked);
        },
        moved,
      )

  -- Queueing data, and perhaps the FIN, keeps the queue well formed for the longer stream. The data
  -- must leave the offsets below 2 ^ 64, and nothing is queued behind a submitted FIN.
  pub enqueue-IsValid :
      (bytes : List ℕ) (fin : Bool)
      → length stream + length bytes < 2 ^ 64
      → p.tx_fin_submitted ≡ false
      → IsValid (stream ++ bytes) base (enqueue p bytes fin)
  unfolding enqueue
  enqueue-IsValid [] fin room open_end = rw append-nil (ground (arith, valid.finished))
  enqueue-IsValid (x ∷ xs) fin room open_end =
      let size : ℕ = length (x ∷ xs) in
      let chunk : TxChunk = record { offset = p.tx_next_offset; bytes = x ∷ xs; submitted = 0 } in
      let sum : add64 p.tx_next_offset size ≡ p.tx_next_offset + size =
        omega (arith, valid.total) in
      record {
        spans =
            rw sum
              (Spans-append base p.tx_next_offset p.tx_chunks chunk valid.spans refl (omega arith));
        submits =
            Submits-append p.tx_submitted_offset p.tx_chunks chunk valid.submits (omega arith);
        content =
            bytes_of-append p.tx_chunks chunk
            ∙ ap (λ l. l ++ x ∷ xs) valid.content
            ∙ sym (drop-append_le base stream (x ∷ xs) (omega (arith, valid.total)));
        total = length-append stream (x ∷ xs) ∙ omega (arith, valid.total);
        retained = valid.retained;
        acked = valid.acked;
        submitted = omega arith;
        small = omega (arith, valid.total);
        finished = λ f. cc;
        requested = λ f. cc;
      }
