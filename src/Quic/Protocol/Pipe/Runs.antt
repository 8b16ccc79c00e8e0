-- ===== src/Quic/Protocol/Pipe/Runs.antt =====
-- Runs of the operations on the send side of `Connection::ProtocolState`, and of the pipe.
use ffl_p2p.Prelude.{
  ℕ, ◌≡◌, refl, sym, ap, ◌∙◌, List, [], ◌∷◌, ◌++◌, append-nil, append_assoc, length,
}
use ffl_p2p.Quic.Protocol.{ProtocolState}
use ffl_p2p.Quic.Protocol.Pipe.{Action, Pipe, PipeStep, QueueStep, Implements}
use ffl_p2p.Quic.Protocol.Pipe.Steps.{QueueStep-Implements}

-- Runs of both, with what they do.
pub data PipeRun : Pipe → List Action → Pipe → Type 0 where
  here : {a : Pipe} → PipeRun a [] a
  next :
      {x : Action} {xs : List Action} {a b c : Pipe}
      → PipeStep a x b
      → PipeRun b xs c
      → PipeRun a (x ∷ xs) c

pub data QueueRun : ProtocolState → List Action → ProtocolState → Type 0 where
  here : {p : ProtocolState} → QueueRun p [] p
  next :
      {x : Action} {xs : List Action} {p q r : ProtocolState}
      → QueueStep p x q
      → QueueRun q xs r
      → QueueRun p (x ∷ xs) r

-- The send side refines the pipe. Whatever operations follow each other on a state that stands for a
-- pipe, the pipe can do the same, with the same bytes, and the state stands for what it becomes. ngtcp2
-- takes no more than it is offered, and its acknowledgements follow each other and name bytes that
-- were submitted.
pub QueueRun-Implements :
    {p q : ProtocolState} {xs : List Action} (a : Pipe)
    → Implements a p
    → QueueRun p xs q
    → (b : Pipe) × PipeRun a xs b × Implements b q
QueueRun-Implements a i here = (a, here, i)
QueueRun-Implements a i (next s r) =
    let (b, t, j) = QueueStep-Implements a _ _ _ i s in
    let (c, u, k) = QueueRun-Implements b j r in (c, next t u, k)

abbrev pub writes_of : Action → List ℕ
writes_of (Action.writes bytes) = bytes
writes_of (Action.sends bytes) = []
writes_of (Action.acknowledges n) = []

abbrev pub sends_of : Action → List ℕ
sends_of (Action.writes bytes) = []
sends_of (Action.sends bytes) = bytes
sends_of (Action.acknowledges n) = []

-- All that a run writes, and all that it sends.
abbrev pub written_bytes : List Action → List ℕ
written_bytes [] = []
written_bytes (x ∷ xs) = writes_of x ++ written_bytes xs

abbrev pub sent_bytes : List Action → List ℕ
sent_bytes [] = []
sent_bytes (x ∷ xs) = sends_of x ++ sent_bytes xs

step_bytes :
    {a b : Pipe} {x : Action}
    → PipeStep a x b
    → (b.written ≡ a.written ++ writes_of x) × (b.sent ≡ a.sent ++ sends_of x)
step_bytes (PipeStep.writes bytes) = (refl, sym (append-nil _))
step_bytes (PipeStep.sends bytes rest e) = (sym (append-nil _), refl)
step_bytes (PipeStep.acknowledges n p) = (sym (append-nil _), sym (append-nil _))

-- A field that every step appends to gets what all of them append.
appended :
    {later middle : List ℕ} (before x xs : List ℕ)
    → later ≡ middle ++ xs
    → middle ≡ before ++ x
    → later ≡ before ++ (x ++ xs)
appended before x xs e f = e ∙ ap (◌++ xs) f ∙ append_assoc before x xs

run_bytes :
    (a b : Pipe) (xs : List Action)
    → PipeRun a xs b
    → (b.written ≡ a.written ++ written_bytes xs) × (b.sent ≡ a.sent ++ sent_bytes xs)
run_bytes a b xs here = (sym (append-nil _), sym (append-nil _))
run_bytes a b xs (next {x = x} {xs = ys} {b = m} s r) =
    let (written, sent) = step_bytes s in
    let (later_written, later_sent) = run_bytes m b ys r in
    (
      appended a.written (writes_of x) (written_bytes ys) later_written written,
      appended a.sent (sends_of x) (sent_bytes ys) later_sent sent,
    )

-- Whatever is done to a state with nothing in it, in whatever order: the bytes that ngtcp2 has taken,
-- one offer after the other, are the first of all the bytes that were queued, each once and in order,
-- and the submitted offset is their number. The conditions on ngtcp2 are those of an operation.
pub QueueRun-sent :
    {p q : ProtocolState} {xs : List Action}
    → Implements (record { written = []; sent = []; acked = 0 }) p
    → QueueRun p xs q
    → (rest : List ℕ) × (written_bytes xs ≡ sent_bytes xs ++ rest)
      × (length (sent_bytes xs) ≡ q.tx_submitted_offset)
QueueRun-sent i r =
    let (b, run, j) = QueueRun-Implements _ i r in
    let (written, sent) = run_bytes _ b _ run in
    (j.rest, sym written ∙ j.split ∙ ap (◌++ j.rest) sent, ap length (sym sent) ∙ j.submitted)
