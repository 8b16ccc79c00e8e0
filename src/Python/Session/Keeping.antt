-- ===== src/Python/Session/Keeping.antt =====
-- Each call of a session (native/Quic.cpp), and the references to its agent.
use ffl_p2p.Prelude.{
  ℕ, ◌≡◌, refl, ◌≢◌, ◌⊎◌, inl, inr, Bool, true, false, not, Option, none, some, List, Result, ok,
  err, sym, ◌∙◌, ap, arith, if_cases, subst,
}
use ffl_p2p.Quic.Library.{Error, Outside}
use ffl_p2p.Ice.Binding.{JuiceBinding}
use ffl_p2p.Datapath.Buffer.{Fault}
use ffl_p2p.Datapath.Batch.{StreamReceiveBatch}
use ffl_p2p.Quic.Connection.{Connection}
use ffl_p2p.Quic.Connection.Application.{start, close, create_send_operation}
use ffl_p2p.Quic.Connection.Receive.{queue_receive, take_received_stream_data}
use ffl_p2p.Python.Credentials.{PyError}
use ffl_p2p.Python.Session.{
  Session, InitArguments, StartArguments, Call, with_connection, initialized, create_connection,
  initialize_session, start_required, start_limited, start_on, begun, start_session, runs,
  packet_queued, close_on, queue_on, queued, queue_session_async, read_on, read_batch, read_session,
  require_connection,
}
use ffl_p2p.Python.Session.Bindings.{
  Fits, Detached, create_connection-Detached, required-cases, create_send_operation-binding,
  take_received_stream_data-binding, queue_receive-binding, queue_receive-taken, AfterWait,
  close-stopped, close-running, AfterStart, start-AfterStart,
}
use ffl_p2p.Python.Session.Runs.{Phase, ready, starting, closing, phase_of}

abbrev pub agent_of : Option Connection → Option ℕ
agent_of none = none
agent_of (some c) = c.binding.agent

-- An attached agent is one that the session or its waiting call has a reference to.
abbrev pub Guarded : Phase → Session → Type 0
Guarded (starting handle) s = (agent_of s.connection ≡ none) ⊎ (agent_of s.connection ≡ some handle)
Guarded _ s =
    Fits s.initial_packet
    → (agent_of s.connection ≡ none) ⊎ (agent_of s.connection ≡ s.agent_object)

pub record Keeps (p : Phase) (s : Session) : Type 0 where
  pub guarded : Guarded p s
  pub unstarted : s.started ≡ false → s.agent_object ≡ none

-- A connection that is attached as the one before.
pub same :
    (p : Phase) (s : Session) (d : Connection)
    → d.binding.agent ≡ agent_of s.connection
    → Keeps p s
    → Keeps p (with_connection s d)
same ready s d e v = record { guarded = rw e v.guarded; unstarted = v.unstarted }
same (starting handle) s d e v = record { guarded = rw e v.guarded; unstarted = v.unstarted }
same closing s d e v = record { guarded = rw e v.guarded; unstarted = v.unstarted }

pub bound :
    (s : Session) (c d : Connection)
    → s.connection ≡ some c
    → d.binding.agent ≡ c.binding.agent
    → d.binding.agent ≡ agent_of s.connection
bound s c d e k = k ∙ sym (ap agent_of e)

pub agent : {b c : JuiceBinding} → b ≡ c → b.agent ≡ c.agent
agent e = ap (λ (x : JuiceBinding). x.agent) e

initialized-Keeps :
    (s : Session) (args : InitArguments) (r : Result Error Connection)
    → Detached r
    → Keeps ready s
    → Keeps ready (initialized s args r).0
initialized-Keeps s args (err e) d v = v
initialized-Keeps s args (ok c) d v = record { guarded = λ f. inl d; unstarted = λ h. refl }

pub initialize_session-Keeps :
    (s : Session) (args : Option InitArguments) (assigned : Result Error ℕ)
    → Keeps ready s
    → Keeps ready (initialize_session s args assigned).0
unfolding initialize_session
initialize_session-Keeps s none assigned v = v
initialize_session-Keeps s (some args) assigned v =
    initialized-Keeps s args (create_connection args assigned)
      (create_connection-Detached args assigned) v

queued-Keeps :
    (s : Session) (r : Connection × Result Error (Unit {0}))
    → r.0.binding.agent ≡ agent_of s.connection
    → Keeps ready s
    → Keeps ready (queued s r).0
queued-Keeps s (d, ok u) e v = same ready s d e v
queued-Keeps s (d, err f) e v = same ready s d e v

queue_on-Keeps :
    (s : Session) (c : Connection) (args : Option (List ℕ × Bool))
    → s.connection ≡ some c
    → Keeps ready s
    → Keeps ready (queue_on s (ok c) args).0
queue_on-Keeps s c none e v = v
queue_on-Keeps s c (some (bytes, fin)) e v =
    queued-Keeps s (create_send_operation c (some bytes) fin)
      (bound s c (create_send_operation c (some bytes) fin).0 e
        (agent (create_send_operation-binding c bytes fin)))
      v

read_batch-Keeps :
    (s : Session) (allocated : Bool) (r : StreamReceiveBatch × Connection)
    → r.1.binding.agent ≡ agent_of s.connection
    → Keeps ready s
    → Keeps ready (read_batch s allocated r).0
read_batch-Keeps s false (batch, d) e v = same ready s d e v
read_batch-Keeps s true (batch, d) e v = same ready s d e v

err-ne-ok : (e : Fault) (u : Unit {0}) → ◌≢◌ {A = Result Fault (Unit {0})} (err e) (ok u)
err-ne-ok e u h = cc

begun-Keeps :
    {W : Type 0} (out : Outside W) (s : Session) (c : Connection) (handle : ℕ)
    (r : W × Connection × Result Error (Unit {0}))
    → s.connection ≡ some c
    → AfterStart out c handle r
    → Keeps ready s
    → Keeps (phase_of (begun out s handle r).2) (begun out s handle r).1
begun-Keeps out s c handle (w, d, ok u) e a v = record { guarded = inr a; unstarted = v.unstarted }
begun-Keeps out s c handle (w, d, err f) e a v = same ready s d (bound s c d e a) v

start_on-Keeps :
    {W : Type 0} (out : Outside W) (s : Session) (c : Connection) (handle : Option ℕ)
    (aggregate : Bool) (limit id : ℕ) (w : W)
    → s.connection ≡ some c
    → Keeps ready s
    → let r = start_on out s c handle aggregate limit id w in Keeps (phase_of r.2) r.1
start_on-Keeps out s c none aggregate limit id w e v = v
start_on-Keeps out s c (some handle) aggregate limit id w e v =
    begun-Keeps out s c handle (start out c (some handle) aggregate limit id w) e
      (start-AfterStart out c handle aggregate limit id w) v

start_limited-Keeps :
    {W : Type 0} (out : Outside W) (s : Session) (c : Connection) (args : StartArguments)
    (limit : Option ℕ) (id : ℕ) (w : W)
    → s.connection ≡ some c
    → Keeps ready s
    → let r = start_limited out s c args limit id w in Keeps (phase_of r.2) r.1
start_limited-Keeps out s c args none id w e v = v
start_limited-Keeps {W} out s c args (some limit) id w e v =
    if_cases Good (not args.positive_timeout) (λ h. v)
      (λ h.
        if_cases Good s.started (λ k. v)
          (λ k. start_on-Keeps out s c args.agent args.aggregate limit id w e v))
  where
    Good : W × Session × Call → Type 0
    Good r = Keeps (phase_of r.2) r.1

start_parsed-Keeps :
    {W : Type 0} (out : Outside W) (s : Session) (c : Connection) (args : Option StartArguments)
    (id : ℕ) (w : W)
    → s.connection ≡ some c
    → Keeps ready s
    → let r = start_required out s (ok c) args id w in Keeps (phase_of r.2) r.1
start_parsed-Keeps out s c none id w e v = v
start_parsed-Keeps out s c (some args) id w e v =
    start_limited-Keeps out s c args args.max_datagram_size id w e v

pub start_session-Keeps :
    {W : Type 0} (out : Outside W) (s : Session) (args : Option StartArguments) (id : ℕ) (w : W)
    → Keeps ready s
    → let r = start_session out s args id w in Keeps (phase_of r.2) r.1
unfolding start_session require_connection
start_session-Keeps {W} out s args id w v = elim (required-cases s.connection) [
  | inl (f, e) ↦ subst Good (sym e) v
  | inr (c, e, k) ↦ subst Good (sym k) (start_parsed-Keeps out s c args id w e v)
]
  where
    Good : Result PyError Connection → Type 0
    Good o =
        Keeps (phase_of (start_required out s o args id w).2) (start_required out s o args id w).1

pub queue_session_async-Keeps :
    (s : Session) (args : Option (List ℕ × Bool))
    → Keeps ready s
    → Keeps ready (queue_session_async s args).0
unfolding queue_session_async require_connection
queue_session_async-Keeps s args v = elim (required-cases s.connection) [
  | inl (f, e) ↦ subst Good (sym e) v
  | inr (c, e, k) ↦ subst Good (sym k) (queue_on-Keeps s c args e v)
]
  where
    Good : Result PyError Connection → Type 0
    Good o = Keeps ready (queue_on s o args).0

pub read_session-Keeps :
    (s : Session) (allocated : Bool) → Keeps ready s → Keeps ready (read_session s allocated).0
unfolding read_session require_connection
read_session-Keeps s allocated v = elim (required-cases s.connection) [
  | inl (f, e) ↦ subst Good (sym e) v
  | inr (c, e, k) ↦ subst Good (sym k) (
      read_batch-Keeps s allocated (take_received_stream_data c)
        (bound s c (take_received_stream_data c).1 e (agent (take_received_stream_data-binding c)))
        v)
]
  where
    Good : Result PyError Connection → Type 0
    Good o = Keeps ready (read_on s o allocated).0

-- Where the packet does not fit the connection stays attached and nothing is kept.
packet_queued-Keeps :
    {W : Type 0} (out : Outside W) (s : Session) (handle : ℕ) (w : W)
    (r : Connection × Result Fault (Unit {0}))
    → (r.0.binding.agent ≡ none) ⊎ (r.0.binding.agent ≡ some handle)
    → (Fits s.initial_packet → r.1 ≡ ok tt)
    → (s.started ≡ false → s.agent_object ≡ none)
    → Keeps ready (packet_queued out s handle w r).1
packet_queued-Keeps out s handle w (c, ok u) a f h = record {
  guarded = λ k. a;
  unstarted = λ k. ground arith;
}
packet_queued-Keeps out s handle w (c, err e) a f h = record {
  guarded = λ k. absurd (err-ne-ok e tt (f k));
  unstarted = h;
}

pub runs-Keeps :
    {W : Type 0} (out : Outside W) (s : Session) (c : Connection) (handle : ℕ)
    (r : W × Connection × Result Error (Unit {0}))
    → s.connection ≡ some c
    → AfterWait out c r
    → Keeps (starting handle) s
    → Keeps ready (runs out s handle r).1
runs-Keeps out s c handle (w, d, err e) k a v = record {
  guarded = λ f. inl a;
  unstarted = v.unstarted;
}
runs-Keeps out s c handle (w, d, ok u) k a v =
    packet_queued-Keeps out s handle w (queue_receive d s.initial_packet)
      (subst (λ o. (o ≡ none) ⊎ (o ≡ some handle))
        (sym (agent (queue_receive-binding d s.initial_packet) ∙ bound s c d k a)) v.guarded)
      (queue_receive-taken d s.initial_packet) v.unstarted

pub close_on-Keeps :
    {W : Type 0} (out : Outside W) (s : Session) (o : Option Connection) (id : ℕ) (w : W)
    → s.connection ≡ o
    → Keeps ready s
    → let r = close_on out s o id w in Keeps (phase_of r.2) r.1
close_on-Keeps out s none id w e v = v
close_on-Keeps {W} out s (some c) id w e v =
    if_cases Good c.stopped
      (λ h. record { guarded = λ f. inl (close-stopped out c id w h); unstarted = λ k. refl })
      (λ h.
        same closing s _ (bound s c (close out c id w).1 e (agent (close-running out c id w h)))
          (record { guarded = v.guarded; unstarted = v.unstarted }))
  where
    Good : W × Session × Call → Type 0
    Good r = Keeps (phase_of r.2) r.1
