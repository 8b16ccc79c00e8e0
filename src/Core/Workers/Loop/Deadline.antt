-- ===== src/Core/Workers/Loop/Deadline.antt =====
-- What Worker::run (native/core/Worker.cpp) waits for when its deque is empty.
use ffl_p2p.Prelude.{
  ℕ, ◌≤◌, ◌≡◌, ◌≢◌, refl, sym, ◌∙◌, ap, Bool, true, false, not, none, some, List, [], ◌∷◌, arith,
  ◌==◌, if_false, inl, inr, Bool-cases, Option, subst, is_empty,
}
use ffl_p2p.Quic.Library.{Outside, infinite_timestamp}
use ffl_p2p.Quic.Schedule.{ScheduleState, idle, queued, processing}
use ffl_p2p.Quic.Protocol.{ProtocolState}
use ffl_p2p.Quic.Connection.{Connection, Operation, Role}
use ffl_p2p.Quic.Connection.Creation.{new_connection}
use ffl_p2p.Quic.Connection.Flush.{AggregateWriter}
use ffl_p2p.Quic.Connection.Operations.{get_next_expiry}
use ffl_p2p.Core.TimerWheel
use ffl_p2p.Core.TimerWheel.{TimerWheel}
use ffl_p2p.Core.TimerWheel.Expiry.{find, expiry_of}
use ffl_p2p.Core.TimerWheel.Deadlines.{get_next_expiry-find, get_next_expiry-infinite}
use ffl_p2p.Core.Workers.Loop.{Loop, set_at, queue_at, iterate}
use ffl_p2p.Core.Workers.Loop.Places.{FineAt, set_at_self, each, count, place, queue_at-Fine}
use ffl_p2p.Core.Workers.Loop.Expiries.{Sound}
use ffl_p2p.Core.Workers.Loop.Turns.{iterate-Sound}

-- What a connection of the worker was made from.
pub record Made : Type 0 where
  pub role : Role
  pub certificate : List ℕ
  pub private_key : List ℕ
  pub pool : ℕ

-- A worker as it starts; the connections that it will see are as they were made.
abbrev pub new_loop : {W : Type 0} → (ℕ → Made) → (ℕ → W) → Loop W
new_loop made outside = record {
  connections =
      λ k. new_connection (made k).role (made k).certificate (made k).private_key (made k).pool;
  outside = outside;
  schedule = λ k. idle;
  queue = [];
  wheel = [];
}

module _ {W : Type 0} (out : Outside W) (write_aggregate : AggregateWriter W)
    (alive : ℕ → Bool) where
  -- What other threads change of a connection beside queueing an operation.
  pub record Touches (c d : Connection) : Type 0 where
    pub operations : d.operations ≡ c.operations
    pub stopped : d.stopped ≡ c.stopped
    pub protocol : d.protocol ≡ c.protocol
    pub retry : d.send_retry_expiry ≡ c.send_retry_expiry

  -- Other threads queue operations and take and give data, and the worker goes through its loop.
  pub data Step (l : Loop W) : Loop W → Type 0 where
    queues : (i : ℕ) (o : Operation) → Step l (queue_at i o l)
    touches :
        (i : ℕ) (d : Connection)
        → Touches (l.connections i) d
        → Step l (record l { connections = set_at i d l.connections })
    iterates : (now : ℕ) (m : Loop W) → iterate out write_aggregate alive now l ≡ some m → Step l m

  pub data Reach (l : Loop W) : Loop W → Type 0 where
    here : Reach l l
    next : {m n : Loop W} → Reach l m → Step m n → Reach l n

  get_next_expiry-touched :
      (c d : Connection) (w : W)
      → Touches c d
      → get_next_expiry out write_aggregate c w ≡ get_next_expiry out write_aggregate d w
  unfolding get_next_expiry
  get_next_expiry-touched c d w t =
      cc (t.stopped, ap (λ (p : ProtocolState). p.conn) t.protocol, t.retry)

  touched-FineAt :
      (late : Bool) (c d : Connection) (w : W) (st : ScheduleState) (n : ℕ) (t : Option ℕ)
      → Touches c d
      → FineAt out write_aggregate late c w st n t
      → FineAt out write_aggregate late d w st n t
  touched-FineAt late c d w st n t u v = record {
    placed = v.placed;
    between = v.between;
    busy = λ p. ap is_empty u.operations ∙ v.busy p;
    needed = λ p. ap is_empty u.operations ∙ v.needed p;
    timely =
        λ q p r. v.timely q p (sym u.stopped ∙ r) ∙ ap expiry_of (get_next_expiry-touched c d w u);
  }

  touched-Sound :
      (i : ℕ) (d : Connection) (l : Loop W)
      → Touches (l.connections i) d
      → Sound out write_aggregate alive l
      → Sound out write_aggregate alive (record l { connections = set_at i d l.connections })
  touched-Sound i d l t v =
      each out write_aggregate (λ k. At k (set_at i d l.connections k)) i
        (subst (At i) (sym (set_at_self out write_aggregate i d l.connections)) (
          touched-FineAt (not (alive i)) (l.connections i) d (l.outside i) (l.schedule i)
            (count i l.queue) (find l.wheel i) t (v i)))
        (λ k e g. subst (At k) (sym (if_false d (l.connections k) e)) (v k))
    where
      At : ℕ → Connection → Type 0
      At k c =
          FineAt out write_aggregate (not (alive k)) c (l.outside k) (l.schedule k)
            (count k l.queue) (find l.wheel k)

  unique : (m n : Loop W) → ◌≡◌ {A = Option (Loop W)} (some m) (some n) → m ≡ n
  unique m n e = cc

  Step-Sound :
      {l m : Loop W}
      → Step l m
      → Sound out write_aggregate alive l
      → Sound out write_aggregate alive m
  Step-Sound {l} (queues i o) v = queue_at-Fine out write_aggregate (λ k. not (alive k)) i o l v
  Step-Sound {l} (touches i d t) v = touched-Sound i d l t v
  Step-Sound {l} {m} (iterates now _ e) v =
      let (n, run, w) = iterate-Sound out write_aggregate alive now l v in
      subst (Sound out write_aggregate alive) (unique n m (sym run ∙ e)) w

  pub Reach-Sound :
      {l m : Loop W}
      → Reach l m
      → Sound out write_aggregate alive l
      → Sound out write_aggregate alive m
  Reach-Sound here v = v
  Reach-Sound (next r step) v = Step-Sound step (Reach-Sound r v)

  idle_of : (st : ScheduleState) → st ≢ processing → 0 ≡ place st → st ≡ idle
  idle_of idle h e = refl
  idle_of queued h e = absurd (omega arith)
  idle_of processing h e = absurd (h refl)

  below :
      (es : TimerWheel) (k expiry : ℕ)
      → alive k ≡ true
      → find es k ≡ expiry_of expiry
      → TimerWheel.get_next_expiry alive es ≤ expiry
  below es k expiry lives h = elim (Bool-cases (expiry == infinite_timestamp)) [
    | inl e ↦ infinite expiry e
    | inr e ↦ get_next_expiry-find alive es k expiry lives (h ∙ if_false none (some expiry) e)
  ]
    where
      infinite :
          (n : ℕ) → (n == infinite_timestamp) ≡ true → TimerWheel.get_next_expiry alive es ≤ n
      infinite n e = ground (arith, get_next_expiry-infinite alive es)

  empty : (os : List Operation) → is_empty os ≡ true → os ≡ []
  empty [] h = refl
  empty (o ∷ os) h = cc

  pub new_loop-Sound :
      (made : ℕ → Made) (outside : ℕ → W) → Sound out write_aggregate alive (new_loop made outside)
  unfolding new_connection get_next_expiry find
  new_loop-Sound made outside k = record {
    placed = refl;
    between = λ p. cc;
    busy = λ p. refl;
    needed = λ p. cc;
    timely = λ q p r. refl;
  }

  -- When a worker finds its deque empty and waits, whatever it did and other threads queued since it
  -- started: no connection has an operation left, and the deadline is no later than the time that a
  -- live connection that is not stopped wants to be woken at.
  pub Reach-deadline :
      (made : ℕ → Made) (outside : ℕ → W) (m : Loop W) (k : ℕ)
      → Reach (new_loop made outside) m
      → m.queue ≡ []
      → ((m.connections k).operations ≡ [])
        × (alive k ≡ true
            → (m.connections k).stopped ≡ false
            → TimerWheel.get_next_expiry alive m.wheel
              ≤ get_next_expiry out write_aggregate (m.connections k) (m.outside k))
  Reach-deadline made outside m k r q =
      let fine = Reach-Sound r (new_loop-Sound made outside) k in
      let st = idle_of (m.schedule k) fine.between (sym (ap (count k) q) ∙ fine.placed) in
      (
        empty (m.connections k).operations (fine.busy st),
        λ lives runs. below m.wheel k _ lives (fine.timely (ap not lives) st runs),
      )
