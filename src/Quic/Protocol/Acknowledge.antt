-- ===== src/Quic/Protocol/Acknowledge.antt =====
-- acknowledgedStreamDataCallback (native/quic/Connection.cpp): which bytes leave the send queue.
use ffl_p2p.Prelude.{
  ℕ, ◌+◌, ◌-◌, ◌^◌, ◌≤◌, ◌<◌, ◌≡◌, ◌≢◌, refl, sym, ap, ◌∙◌, true, false, none, some, List, [], ◌∷◌,
  ◌++◌, arith, length, drop, ltb, drop-append, drop-drop,
}
use native.Mathlib.Decide.{dec_lt}
use ffl_p2p.Quic.Protocol.{TxChunk, ProtocolState, add64, pop_acknowledged, acknowledge}
use ffl_p2p.Quic.Protocol.Invariant.{Spans, Submits, bytes_of, IsValid, Spans-le}

-- The first chunk, where there is one, ends past the acknowledged offset.
abbrev pub Leads : ℕ → List TxChunk → Type 0
Leads acked [] = Unit {0}
Leads acked (c ∷ cs) = acked < c.offset + length c.bytes

-- The queue once all up to `acked` has left it: it begins at `base`, and its first chunk, where
-- there is one, ends past `acked`.
record Popped (a b s acked : ℕ) (cs : List TxChunk) : Type 0 where
  base : ℕ
  spans : Spans base (pop_acknowledged acked cs) b
  submits : Submits s (pop_acknowledged acked cs)
  content : bytes_of (pop_acknowledged acked cs) ≡ drop (base - a) (bytes_of cs)
  lower : a ≤ base
  upper : base ≤ acked
  leads : Leads acked (pop_acknowledged acked cs)

pop_acknowledged-Popped :
    (a b s acked : ℕ) (cs : List TxChunk)
    → Spans a cs b
    → Submits s cs
    → a ≤ acked
    → b < 2 ^ 64
    → Popped a b s acked cs
unfolding pop_acknowledged
pop_acknowledged-Popped a b s acked [] h v l q = record {
  base = a;
  spans = h;
  submits = tt;
  content = sym (ap (λ k. drop k []) {y = 0} (omega arith));
  lower = omega arith;
  upper = l;
  leads = tt;
}
pop_acknowledged-Popped a b s acked (c ∷ cs) h v l q =
    let span = Spans-le (a + length c.bytes) b cs h.2 in
    elim (dec_lt acked (a + length c.bytes)) [
      | yes kept ↦
          let test : ltb acked (add64 c.offset (length c.bytes)) ≡ true = ground arith in
          record {
            base = a;
            spans = rw (test, pop_acknowledged) h;
            submits = rw (test, pop_acknowledged) v;
            content =
                rw (test, pop_acknowledged)
                  (ap (λ k. drop k (c.bytes ++ bytes_of cs)) {x = 0} (omega arith));
            lower = omega arith;
            upper = l;
            leads = rw (test, pop_acknowledged) (omega arith);
          }
      | no gone ↦
          let test : ltb acked (add64 c.offset (length c.bytes)) ≡ false = ground arith in
          let r =
            pop_acknowledged-Popped (a + length c.bytes) b s acked cs h.2 v.1 (omega arith) q in
          record {
            base = r.base;
            spans = rw (test, pop_acknowledged) r.spans;
            submits = rw (test, pop_acknowledged) r.submits;
            content =
                rw (test, pop_acknowledged)
                  (r.content
                    ∙ ap (λ k. drop k (bytes_of cs)) (omega (arith, r.lower))
                    ∙ sym
                        (drop-append (r.base - a) c.bytes (bytes_of cs) (omega (arith, r.lower))));
            lower = omega (arith, r.lower);
            upper = r.upper;
            leads = rw (test, pop_acknowledged) r.leads;
          }
    ]

module _ (stream : List ℕ) (base : ℕ) (p : ProtocolState) (valid : IsValid stream base p) where
  -- An acknowledgement of submitted bytes that follows the last one moves the acknowledged offset,
  -- keeps the queue well formed, and releases chunks up to a new base: every byte past the
  -- acknowledged offset is still there, and the first chunk left ends past that offset.
  pub acknowledge-IsValid :
      (id size : ℕ)
      → p.tx_stream_id ≡ some id
      → 0 < size
      → p.tx_acked_offset + size ≤ p.tx_submitted_offset
      → (q : ProtocolState) × (base' : ℕ) × (acknowledge p id p.tx_acked_offset size ≡ some q)
        × IsValid stream base' q
        × (q.tx_acked_offset ≡ p.tx_acked_offset + size)
        × Leads q.tx_acked_offset q.tx_chunks
        × (drop (q.tx_acked_offset - base') (bytes_of q.tx_chunks) ≡ drop q.tx_acked_offset stream)
  unfolding acknowledge
  acknowledge-IsValid id size ours some_bytes sent =
      let acked : ℕ = p.tx_acked_offset + size in
      let s = valid.submitted in
      let m = valid.small in
      let sum : add64 p.tx_acked_offset size ≡ acked = omega arith in
      let r =
        pop_acknowledged-Popped base p.tx_next_offset p.tx_submitted_offset acked p.tx_chunks
          valid.spans valid.submits (omega (arith, valid.retained)) valid.small in
      let content : bytes_of (pop_acknowledged acked p.tx_chunks) ≡ drop r.base stream =
        r.content
        ∙ ap (drop (r.base - base)) valid.content
        ∙ drop-drop (r.base - base) base stream
        ∙ ap (λ k. drop k stream) (omega (arith, r.lower)) in
      let l = r.upper in
      (
        record p { tx_acked_offset = acked; tx_chunks = pop_acknowledged acked p.tx_chunks },
        r.base,
        ground (arith, sum),
        record {
          spans = r.spans;
          submits = r.submits;
          content = content;
          total = valid.total;
          retained = r.upper;
          acked = sent;
          submitted = valid.submitted;
          small = valid.small;
          finished = valid.finished;
          requested = valid.requested;
        },
        refl,
        r.leads,
        ap (drop (acked - r.base)) content
            ∙ drop-drop (acked - r.base) r.base stream
            ∙ ap (λ k. drop k stream) (omega arith),
      )

-- Bytes that do not follow the last acknowledged ones, or of another stream, are refused, and so is
-- the acknowledgement of a FIN that was not submitted or does not stand at the stream's end.
pub acknowledge_refuses :
    (p : ProtocolState) (id offset size : ℕ)
    → p.tx_stream_id ≡ some id
    → ((other : ℕ) → other ≢ id → acknowledge p other offset size ≡ none)
      × (0 < size → offset ≢ p.tx_acked_offset → acknowledge p id offset size ≡ none)
      × (p.tx_fin_submitted ≡ false → acknowledge p id offset 0 ≡ none)
      × (offset ≢ p.tx_next_offset → acknowledge p id offset 0 ≡ none)
unfolding acknowledge
acknowledge_refuses p id offset size ours =
    (λ other ne. ground arith, λ pos ne. ground arith, λ f. ground arith, λ ne. ground arith)

-- An acknowledgement leaves the received stream alone.
pub acknowledge-rx_offset :
    (p q : ProtocolState) (id offset size : ℕ)
    → acknowledge p id offset size ≡ some q
    → q.rx_offset ≡ p.rx_offset
unfolding acknowledge
acknowledge-rx_offset p q id offset size h = ground arith
