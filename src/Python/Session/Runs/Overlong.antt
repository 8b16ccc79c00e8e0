-- ===== src/Python/Session/Runs/Overlong.antt =====
-- startSession of native/Quic.cpp where the initial packet does not fit a receive buffer.
use ffl_p2p.Prelude.{
  ℕ, ◌≡◌, ◌<◌, refl, sym, ◌∙◌, ap, false, none, some, List, [], ◌∷◌, length, arith, subst, err,
  if_false,
}
use ffl_p2p.Quic.Library.{Outside}
use ffl_p2p.Datapath.Buffer.{Fault}
use ffl_p2p.Datapath.Batch.{with_room}
use ffl_p2p.Datapath.Batch.Refusals.{append_receive-long}
use ffl_p2p.Quic.Connection.{Connection}
use ffl_p2p.Quic.Connection.Application.{finish_start}
use ffl_p2p.Quic.Connection.Receive.{queue_receive, received}
use ffl_p2p.Python.Credentials.{buffer_error}
use ffl_p2p.Python.Session.{Session, packet_queued, finish_start_session}
use ffl_p2p.Python.Session.Keeping.{agent_of}

queue_receive-long :
    (c : Connection) (bytes : List ℕ)
    → 65535 < length bytes
    → c.stopped ≡ false
    → (f : Fault) × (queue_receive c (some bytes)
        ≡ (record c { receive_batch = with_room c.receive_batch (length bytes) }, err f))
unfolding queue_receive
queue_receive-long c [] h k = absurd (omega arith)
queue_receive-long c (x ∷ bytes) h k =
    let (f, e) = append_receive-long c.receive_batch (x ∷ bytes) h in
    (f, if_false _ _ k ∙ ap (received c) e)

-- Where the connection has started and runs, and the initial packet has more than 65535 bytes, the
-- call raises an exception and drops its reference to the agent, although the connection stays
-- attached to it: the session has no agent, as before the call.
pub finish_start_session-unheld :
    {W : Type 0} (out : Outside W) (s : Session) (c : Connection) (handle : ℕ) (bytes : List ℕ)
    (w : W)
    → s.initial_packet ≡ some bytes
    → 65535 < length bytes
    → s.agent_object ≡ none
    → c.stopped ≡ false
    → c.binding.agent ≡ some handle
    → let r = finish_start_session out s c handle (some none) w in
      ((f : Fault) × (r.2 ≡ err (buffer_error f)))
      × (agent_of r.1.connection ≡ some handle)
      × (r.1.agent_object ≡ none)
unfolding finish_start_session finish_start
finish_start_session-unheld out s c handle bytes w packet long lone running attached =
    let (f, e) = queue_receive-long c bytes long running in
    let queued = ap (queue_receive c) packet ∙ e in
    subst
      (λ q.
        ((g : Fault) × ((packet_queued out s handle w q).2 ≡ err (buffer_error g)))
        × (agent_of (packet_queued out s handle w q).1.connection ≡ some handle)
        × ((packet_queued out s handle w q).1.agent_object ≡ none))
      (sym queued) ((f, refl), attached, lone)
