-- ===== src/Quic/Protocol/Pipe/Steps.antt =====
-- The operations on the send side of `Connection::ProtocolState`, one by one, as steps of the pipe.
use ffl_p2p.Prelude.{
  ℕ, ◌+◌, ◌^◌, ◌≤◌, ◌<◌, ◌≡◌, refl, sym, ap, ◌∙◌, subst, Bool, false, Option, none, some, List, [],
  ◌++◌, append-nil, append_assoc, arith, length, take, drop, length-append, length-take,
  take-append-drop, drop-append, if_cases, Result,
}
use mathlib.Core.Option.{some-injective}
use ffl_p2p.Quic.Library.{Error, wrote, failed}
use ffl_p2p.Quic.Protocol.{
  ProtocolState, enqueue, offer, accept, count_packet, acknowledge, is_blocked_code, TxChunk,
  next_transmit_chunk, take_accepted,
}
use ffl_p2p.Quic.Protocol.Invariant.{IsValid}
use ffl_p2p.Quic.Protocol.Transmit.{taken, offer-stream, accept-IsValid, enqueue-IsValid}
use ffl_p2p.Quic.Protocol.Acknowledge.{acknowledge-IsValid}
use ffl_p2p.Quic.Protocol.Pipe.{Action, Pipe, PipeStep, QueueStep, Implements, Leaves}

count_packet-IsValid :
    {stream : List ℕ} {base : ℕ} {p : ProtocolState} (padding : Bool) (packet : List ℕ)
    → IsValid stream base p
    → IsValid stream base (count_packet padding packet p)
unfolding count_packet
count_packet-IsValid padding packet v = record {
  spans = v.spans;
  submits = v.submits;
  content = v.content;
  total = v.total;
  retained = v.retained;
  acked = v.acked;
  submitted = v.submitted;
  small = v.small;
  finished = v.finished;
  requested = v.requested;
}

Leaves-IsValid :
    {stream : List ℕ} {base : ℕ} (p q : ProtocolState)
    → Leaves p q
    → IsValid stream base p
    → IsValid stream base q
Leaves-IsValid p q l v = record {
  spans = rw (l.chunks, l.next_offset) v.spans;
  submits = rw (l.chunks, l.submitted) v.submits;
  content = rw (l.chunks) v.content;
  total = rw (l.next_offset) v.total;
  retained = rw (l.acked) v.retained;
  acked = rw (l.acked, l.submitted) v.acked;
  submitted = rw (l.submitted, l.next_offset) v.submitted;
  small = rw (l.next_offset) v.small;
  finished = rw (l.finished, l.submitted, l.next_offset) v.finished;
  requested = rw (l.finished, l.requested) v.requested;
}

-- The acknowledgement of the FIN, which has no bytes.
acknowledge-Leaves :
    (p q : ProtocolState) (id offset : ℕ) → acknowledge p id offset 0 ≡ some q → Leaves p q
unfolding acknowledge
acknowledge-Leaves p q id offset h = ground arith

-- The pipe follows an operation.
abbrev Follows : Pipe → Action → ProtocolState → Type 0
Follows a x q = (b : Pipe) × PipeStep a x b × Implements b q

drop-split : (sent rest : List ℕ) → drop (length sent) (sent ++ rest) ≡ rest
drop-split sent rest =
    drop-append (length sent) sent rest (omega arith) ∙ ap (λ k. drop k rest) {y = 0} (omega arith)

-- A write that takes nothing.
idle-Follows :
    (a : Pipe) (p q : ProtocolState) (i : Implements a p)
    → IsValid a.written i.base q
    → p.tx_submitted_offset ≡ q.tx_submitted_offset
    → p.tx_acked_offset ≡ q.tx_acked_offset
    → Follows a (Action.sends []) q
idle-Follows a p q i v s k = (
  record a { sent = a.sent ++ [] },
  PipeStep.sends [] i.rest (rw append-nil i.split),
  record {
    base = i.base;
    valid = v;
    rest = i.rest;
    split = rw append-nil i.split;
    submitted = rw append-nil (i.submitted ∙ s);
    acked = i.acked ∙ k;
  },
)

enqueue-Follows :
    (a : Pipe) (p : ProtocolState) (bytes : List ℕ) (fin : Bool)
    → Implements a p
    → p.tx_next_offset + length bytes < 2 ^ 64
    → p.tx_fin_submitted ≡ false
    → Follows a (Action.writes bytes) (enqueue p bytes fin)
unfolding enqueue
enqueue-Follows a p bytes fin i room open_end = (
  record a { written = a.written ++ bytes },
  PipeStep.writes bytes,
  record {
    base = i.base;
    valid =
        enqueue-IsValid a.written i.base p i.valid bytes fin (omega (arith, i.valid.total))
          open_end;
    rest = i.rest ++ bytes;
    split = ap (◌++ bytes) i.split ∙ append_assoc a.sent i.rest bytes;
    submitted = i.submitted;
    acked = i.acked;
  },
)

take_accepted-acked :
    (p : ProtocolState) (chunk : Option (ℕ × TxChunk)) (accepted : Option ℕ)
    → p.tx_acked_offset ≡ (take_accepted p chunk accepted).tx_acked_offset
take_accepted-acked p none accepted = refl
take_accepted-acked p (some (i, c)) none = refl
take_accepted-acked p (some (i, c)) (some k) = refl

acknowledge-submitted :
    (p q : ProtocolState) (id offset size : ℕ)
    → acknowledge p id offset size ≡ some q
    → p.tx_submitted_offset ≡ q.tx_submitted_offset
unfolding acknowledge
acknowledge-submitted p q id offset size h = ground arith

accept-acked :
    (p : ProtocolState) (accepted : Option ℕ) (packet : List ℕ)
    → p.tx_acked_offset ≡ (accept p accepted packet).tx_acked_offset
unfolding accept
accept-acked p accepted packet =
    take_accepted-acked p (next_transmit_chunk p.tx_submitted_offset p.tx_chunks) accepted

stream-Follows :
    (a : Pipe) (p : ProtocolState) (padding : Bool) (id : ℕ) (accepted : Option ℕ) (packet : List ℕ)
    → Implements a p
    → taken accepted ≤ length (offer padding p id).bytes
    → Follows a
        (Action.sends (take (taken accepted) (offer padding p id).bytes))
        (count_packet padding packet (accept p accepted packet))
unfolding count_packet
stream-Follows a p padding id accepted packet i fits =
    let (after, e) = offer-stream a.written i.base p i.valid padding id in
    let (v, moved) = accept-IsValid a.written i.base p i.valid padding id accepted packet fits in
    let n = taken accepted in
    let bytes = (offer padding p id).bytes in
    let left = drop n bytes ++ after in
    let found : i.rest ≡ bytes ++ after =
      sym (drop-split a.sent i.rest)
      ∙ ap (drop (length a.sent)) (sym i.split)
      ∙ ap (λ k. drop k a.written) i.submitted
      ∙ e in
    let cut : i.rest ≡ take n bytes ++ left =
      found
      ∙ ap (◌++ after) (sym (take-append-drop n bytes))
      ∙ append_assoc (take n bytes) (drop n bytes) after in
    let split : a.written ≡ a.sent ++ take n bytes ++ left =
      i.split ∙ ap (a.sent ++◌) cut ∙ sym (append_assoc a.sent (take n bytes) left) in
    (
      record a { sent = a.sent ++ take n bytes },
      PipeStep.sends (take n bytes) left split,
      record {
        base = i.base;
        valid = count_packet-IsValid padding packet v;
        rest = left;
        split = split;
        submitted =
            length-append a.sent (take n bytes)
            ∙ omega (arith, length-take n bytes, i.submitted, moved);
        acked = i.acked ∙ accept-acked p accepted packet;
      },
    )

acknowledge-Follows :
    (a : Pipe) (p q : ProtocolState) (id size : ℕ)
    → Implements a p
    → p.tx_stream_id ≡ some id
    → 0 < size
    → p.tx_acked_offset + size ≤ p.tx_submitted_offset
    → acknowledge p id p.tx_acked_offset size ≡ some q
    → Follows a (Action.acknowledges size) q
acknowledge-Follows a p q id size i ours some_bytes sent given =
    let (q', base, same, v, moved, leads, more) =
      acknowledge-IsValid a.written i.base p i.valid id size ours some_bytes sent in
    let e : q' ≡ q = some-injective q' q (sym same ∙ given) in
    (
      record a { acked = a.acked + size },
      PipeStep.acknowledges size (omega (arith, i.submitted, i.acked)),
      subst (Implements (record a { acked = a.acked + size })) e (record {
        base = base;
        valid = v;
        rest = i.rest;
        split = i.split;
        submitted = i.submitted ∙ acknowledge-submitted p q' id p.tx_acked_offset size same;
        acked = ap (◌+ size) i.acked ∙ sym moved;
      }),
    )

-- Every operation on the send side of the state is a step of the pipe with the same bytes: what is
-- queued is written, what is given to ngtcp2 and taken is the part of the written bytes that comes
-- right behind what was sent before, and an acknowledgement counts sent bytes. ngtcp2 takes no more
-- than it is offered, and its acknowledgements follow each other and name bytes that were submitted.
pub QueueStep-Implements :
    (a : Pipe) (p q : ProtocolState) (x : Action)
    → Implements a p
    → QueueStep p x q
    → (b : Pipe) × PipeStep a x b × Implements b q
unfolding count_packet
QueueStep-Implements a p q x i (QueueStep.enqueues bytes fin room open_end) =
    enqueue-Follows a p bytes fin i room open_end
QueueStep-Implements a p q x i (QueueStep.writes_stream padding id accepted packet fits) =
    stream-Follows a p padding id accepted packet i fits
QueueStep-Implements a p q x i (QueueStep.stream_fails padding accepted code) =
    if_cases {A = ProtocolState × Result Error (List ℕ)} (λ y. Follows a (Action.sends []) y.0)
      (is_blocked_code code) (λ h. idle-Follows a p p i i.valid refl refl)
      (λ h. idle-Follows a p p i i.valid refl refl)
QueueStep-Implements a p q x i (QueueStep.writes_plain padding (wrote packet)) =
    idle-Follows a p _ i (count_packet-IsValid padding packet i.valid) refl refl
QueueStep-Implements a p q x i (QueueStep.writes_plain padding (failed code)) =
    idle-Follows a p p i i.valid refl refl
QueueStep-Implements a p q x i (QueueStep.acknowledges id size q' ours some_bytes sent given) =
    acknowledge-Follows a p q' id size i ours some_bytes sent given
QueueStep-Implements a p q x i (QueueStep.passes q' l) =
    idle-Follows a p q' i (Leaves-IsValid p q' l i.valid) (sym (l.submitted)) (sym (l.acked))
