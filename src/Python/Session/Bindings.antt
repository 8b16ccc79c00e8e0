-- ===== src/Python/Session/Bindings.antt =====
-- What the operations that native/Quic.cpp makes on a connection do to its attachment to the agent.
use text.Mathlib.Text as Text
use ffl_p2p.Prelude.{
  ℕ, ◌≡◌, ◌≤◌, refl, ◌∙◌, ◌⊎◌, inl, inr, Bool, true, false, ◌||◌, ◌&&◌, not, ◌≢◌, is_some, Option,
  none, some, List, [], ◌∷◌, length, is_empty, Result, ok, err, arith, if_cases, sym, ap,
}
use ffl_p2p.Quic.Library.{Error, Outside}
use ffl_p2p.Ice.Binding.{JuiceBinding, attach, detach, limit_datagram_size}
use ffl_p2p.Quic.Credentials.{Credentials}
use ffl_p2p.Datapath.Buffer.{Fault}
use ffl_p2p.Datapath.Batch.{ReceiveBatch, append_receive}
use ffl_p2p.Datapath.Batch.Refusals.{append_receive-taken}
use ffl_p2p.Quic.Connection.{
  Connection, Operation, queue_operation, queue_internal_operation, complete, is_shutdown,
}
use ffl_p2p.Quic.Connection.Creation.{create_client, create_server, new_connection}
use ffl_p2p.Quic.Connection.Application.{
  start, attached, finish_start, close, finish_close, create_send_operation,
}
use ffl_p2p.Quic.Connection.Receive.{queue_receive, received, take_received_stream_data}
use ffl_p2p.Python.Credentials.{PyCredentials, PyError}
use ffl_p2p.Python.Session.{
  InitArguments, create_connection, new_client, client_on, new_server, server_with, server_on,
  required, without_error,
}

complete-binding :
    (c : Connection) (id : Option ℕ) (e : Option Error) → (complete c id e).binding ≡ c.binding
unfolding complete
complete-binding c none e = refl
complete-binding c (some id) e = refl

true-ne-false : true ≢ false
true-ne-false h = cc

queue_operation-binding :
    (c : Connection) (o : Operation) → (queue_operation c o).binding ≡ c.binding
unfolding queue_operation
queue_operation-binding c o =
    if_cases (λ (d : Connection). d.binding ≡ c.binding) (c.stopped && not (is_shutdown o.type))
      (λ h. complete-binding c o.completion _) (λ h. refl)

pub create_send_operation-binding :
    (c : Connection) (bytes : List ℕ) (fin : Bool)
    → (create_send_operation c (some bytes) fin).0.binding ≡ c.binding
unfolding create_send_operation
create_send_operation-binding c bytes fin =
    if_cases Same (not c.started) (λ h. refl)
      (λ h. if_cases Same c.stopped (λ k. refl) (λ k. queue_operation-binding _ _))
  where
    Same : Connection × Result Error (Unit {0}) → Type 0
    Same r = r.0.binding ≡ c.binding

pub take_received_stream_data-binding :
    (c : Connection) → (take_received_stream_data c).1.binding ≡ c.binding
unfolding take_received_stream_data queue_internal_operation queue_operation complete
take_received_stream_data-binding c = ground arith

received-binding :
    (c : Connection) (r : ReceiveBatch × Result Fault (Unit {0}))
    → (received c r).0.binding ≡ c.binding
unfolding queue_internal_operation queue_operation complete
received-binding c (batch, err e) = refl
received-binding c (batch, ok u) = ground arith

pub queue_receive-binding :
    (c : Connection) (packet : Option (List ℕ)) → (queue_receive c packet).0.binding ≡ c.binding
unfolding queue_receive
queue_receive-binding c none = refl
queue_receive-binding c (some bytes) =
    if_cases (λ (r : Connection × Result Fault (Unit {0})). r.0.binding ≡ c.binding)
      (is_empty bytes || c.stopped) (λ h. refl)
      (λ h. received-binding c (append_receive c.receive_batch (some bytes)))

-- The initial packet fits a receive buffer.
abbrev pub Fits : Option (List ℕ) → Type 0
Fits none = Unit {0}
Fits (some bytes) = length bytes ≤ 65535

received-taken :
    (c : Connection) (r : ReceiveBatch × Result Fault (Unit {0}))
    → r.1 ≡ ok tt
    → (received c r).1 ≡ ok tt
received-taken c (batch, err e) h = h
received-taken c (batch, ok u) h = refl

-- A packet that fits is queued.
pub queue_receive-taken :
    (c : Connection) (packet : Option (List ℕ)) → Fits packet → (queue_receive c packet).1 ≡ ok tt
unfolding queue_receive
queue_receive-taken c none f = refl
queue_receive-taken c (some []) f = refl
queue_receive-taken c (some (x ∷ bytes)) f =
    if_cases (λ (r : Connection × Result Fault (Unit {0})). r.1 ≡ ok tt) c.stopped (λ h. refl)
      (λ h.
        received-taken c (append_receive c.receive_batch (some (x ∷ bytes)))
          (append_receive-taken c.receive_batch (x ∷ bytes) (omega arith) f))

-- A connection that was just made is not attached.
abbrev pub Detached : Result Error Connection → Type 0
Detached (ok c) = c.binding.agent ≡ none
Detached (err e) = Unit {0}

client_on-Detached :
    (certificate : List ℕ) (assigned : Result Error ℕ) → Detached (client_on certificate assigned)
unfolding create_client new_connection
client_on-Detached certificate (ok worker) = refl
client_on-Detached certificate (err e) = tt

new_client-Detached :
    (certificate : Option (List ℕ)) (assigned : Result Error ℕ)
    → Detached (new_client certificate assigned)
new_client-Detached none assigned = tt
new_client-Detached (some certificate) assigned =
    if_cases Detached (is_empty certificate) (λ h. tt)
      (λ h. client_on-Detached certificate assigned)

server_on-Detached :
    (credentials : Credentials) (assigned : Result Error ℕ)
    → Detached (server_on credentials assigned)
unfolding create_server new_connection
server_on-Detached credentials (ok worker) = refl
server_on-Detached credentials (err e) = tt

server_with-Detached :
    (credentials : Option Credentials) (assigned : Result Error ℕ)
    → Detached (server_with credentials assigned)
server_with-Detached none assigned = tt
server_with-Detached (some credentials) assigned = server_on-Detached credentials assigned

new_server-Detached :
    (credentials : Option PyCredentials) (assigned : Result Error ℕ)
    → Detached (new_server credentials assigned)
new_server-Detached none assigned = tt
new_server-Detached (some credentials) assigned = server_with-Detached credentials.state assigned

pub create_connection-Detached :
    (args : InitArguments) (assigned : Result Error ℕ) → Detached (create_connection args assigned)
unfolding create_connection
create_connection-Detached args assigned =
    if_cases Detached (Text.◌==◌ args.role "client")
      (λ h. new_client-Detached args.certificate assigned)
      (λ h.
        if_cases Detached (Text.◌==◌ args.role "server")
          (λ k. new_server-Detached args.credentials assigned) (λ k. tt))

without_error-cases :
    (c : Connection) (e : Option Error)
    → ((f : PyError) × (without_error c e ≡ err f)) ⊎ (without_error c e ≡ ok c)
without_error-cases c none = inr refl
without_error-cases c (some e) = inl (_, refl)

-- `requireConnection` gives the session's connection, or refuses.
pub required-cases :
    (o : Option Connection)
    → ((f : PyError) × (required o ≡ err f))
      ⊎ ((c : Connection) × (o ≡ some c) × (required o ≡ ok c))
required-cases none = inl (_, refl)
required-cases (some c) = elim (without_error-cases c c.app.error) [
  | inl (f, e) ↦ inl (f, e)
  | inr e ↦ inr (c, refl, e)
]

module _ {W : Type 0} (out : Outside W) where
  detach-agent : (b : JuiceBinding) (w : W) → (detach out b w).1.agent ≡ none
  unfolding detach
  detach-agent b w = ground arith

  -- After the waiting of `start` the connection is as before, or detached.
  abbrev pub AfterWait : Connection → W × Connection × Result Error (Unit {0}) → Type 0
  AfterWait c (w, d, ok u) = d.binding.agent ≡ c.binding.agent
  AfterWait c (w, d, err e) = d.binding.agent ≡ none

  pub finish_start-AfterWait :
      (c : Connection) (outcome : Option (Option Error)) (w : W)
      → AfterWait c (finish_start out c outcome w)
  unfolding finish_start
  finish_start-AfterWait c none w = detach-agent c.binding w
  finish_start-AfterWait c (some none) w = refl
  finish_start-AfterWait c (some (some e)) w = detach-agent c.binding w

  pub finish_close-agent :
      (c : Connection) (outcome : Option (Option Error)) (w : W)
      → (finish_close out c outcome w).1.binding.agent ≡ none
  unfolding finish_close
  finish_close-agent c none w = detach-agent c.binding w
  finish_close-agent c (some none) w = detach-agent c.binding w
  finish_close-agent c (some (some e)) w = detach-agent c.binding w

  -- `close` detaches at once where the connection is stopped, and else only queues.
  pub close-stopped :
      (c : Connection) (id : ℕ) (w : W)
      → c.stopped ≡ true
      → (close out c id w).1.binding.agent ≡ none
  unfolding close
  close-stopped c id w h =
      if_cases (λ (r : W × Connection). r.1.binding.agent ≡ none) c.stopped
        (λ e. detach-agent c.binding w) (λ e. absurd (true-ne-false (sym h ∙ e)))

  pub close-running :
      (c : Connection) (id : ℕ) (w : W)
      → c.stopped ≡ false
      → (close out c id w).1.binding ≡ c.binding
  unfolding close
  close-running c id w h =
      if_cases (λ (r : W × Connection). r.1.binding ≡ c.binding) c.stopped
        (λ e. absurd (true-ne-false (sym e ∙ h))) (λ e. queue_operation-binding c _)

  -- Where `start` throws before its waiting the agent is the one of before.
  abbrev pub AfterStart : Connection → ℕ → W × Connection × Result Error (Unit {0}) → Type 0
  AfterStart c handle (w, d, ok u) = d.binding.agent ≡ some handle
  AfterStart c handle (w, d, err e) = d.binding.agent ≡ c.binding.agent

  abbrev Attaches : ℕ → W × Result Error JuiceBinding → Type 0
  Attaches handle (w, ok b) = b.agent ≡ some handle
  Attaches handle (w, err e) = Unit {0}

  attach-Attaches :
      (b : JuiceBinding) (handle : ℕ) (w : W) → Attaches handle (attach out b (some handle) w)
  unfolding attach
  attach-Attaches b handle w =
      if_cases (Attaches handle) (is_some b.agent) (λ h. tt)
        (λ h. if_cases (Attaches handle) (not (out.set_sink handle w).1) (λ k. tt) (λ k. refl))

  attached-AfterStart :
      (c d : Connection) (handle id : ℕ) (r : W × Result Error JuiceBinding)
      → d.binding.agent ≡ c.binding.agent
      → Attaches handle r
      → AfterStart c handle (attached out d id r)
  attached-AfterStart c d handle id (w, err e) same h = same
  attached-AfterStart c d handle id (w, ok b) same h =
      ap (λ (x : JuiceBinding). x.agent) (queue_operation-binding _ _) ∙ h

  pub start-AfterStart :
      (c : Connection) (handle : ℕ) (aggregate : Bool) (limit id : ℕ) (w : W)
      → AfterStart c handle (start out c (some handle) aggregate limit id w)
  unfolding start limit_datagram_size
  start-AfterStart c handle aggregate limit id w =
      if_cases (AfterStart c handle) c.started (λ h. refl)
        (λ h.
          attached-AfterStart c _ handle id _ refl
            (attach-Attaches (limit_datagram_size c.binding limit) handle w))
