-- ===== src/Quic/Connection/Receive/Runs.antt =====
-- The way of received stream bytes through native/quic/Connection.cpp, as the threads take its steps:
-- ngtcp2's callback and the handlers on the worker, and takeReceivedStreamData on a thread of the
-- application, in any order.
use ffl_p2p.Prelude.{
  ℕ, ◌+◌, ◌^◌, ◌<◌, ◌≡◌, refl, ◌&&◌, sym, subst, Bool, true, false, not, ◌||◌, some, List, [], ◌++◌,
  append-nil, arith, length, ◌==◌, if◌then◌else◌, Result, if_cases, ◌≤◌, ap, length-append,
}
use ffl_p2p.Quic.Library.{Outside, Error}
use ffl_p2p.Quic.Connection.Receive.Credit.{
  Meter, unmetered, metered, lost_of, process_release_credit-Balanced,
}
use ffl_p2p.Quic.Connection.{Connection}
use ffl_p2p.Datapath.Batch.Stream.{contents}
use ffl_p2p.Quic.Connection.Receive.{
  receive_stream_data, stream_of, process_stream_receive, take_received_stream_data,
  process_release_credit,
}
use ffl_p2p.Quic.Connection.Receive.Flows.{Delivers}
use ffl_p2p.Quic.Connection.Receive.Delivery.{
  accept_stream_data-Delivers, process_stream_receive-Delivers, take_received_stream_data-Delivers,
  process_release_credit-Delivers,
}

-- What shows outside: bytes that the peer sent and the callback took, bytes that the application got,
-- and credit that reached ngtcp2, for the stream and for the connection. `lost` is the credit that was
-- counted when a release threw or found no ngtcp2 connection.
pub record Shown : Type 0 where
  pub arrived : List ℕ
  pub taken : List ℕ
  pub granted : ℕ
  pub connection_granted : ℕ
  pub lost : ℕ

abbrev pub silent : Shown
silent = record { arrived = []; taken = []; granted = 0; connection_granted = 0; lost = 0 }

-- What a release shows: the meter of ngtcp2's calls, and whether the credit `n` was lost.
abbrev pub credited :
    {W : Type 0} → Bool → ℕ → (W × Meter) × Connection × Result Error (Unit {0}) → Shown
credited conn n ((w, g), d, result) = record silent {
  granted = g.stream;
  connection_granted = g.connection;
  lost = lost_of conn result n;
}

-- The credit that was counted and taken off the counter again.
abbrev given : Shown → ℕ
given x = x.granted + x.lost

abbrev pub append_shown : Shown → Shown → Shown
append_shown x y = record {
  arrived = x.arrived ++ y.arrived;
  taken = x.taken ++ y.taken;
  granted = x.granted + y.granted;
  connection_granted = x.connection_granted + y.connection_granted;
  lost = x.lost + y.lost;
}

abbrev Kept : Shown → Connection → Type 0
Kept x c = Delivers x.arrived x.taken (given x) c × (x.connection_granted ≡ x.granted)

-- The callback's bytes count where it returns 0.
abbrev pub arrived_if : Bool → List ℕ → List ℕ
arrived_if false bytes = []
arrived_if true bytes = bytes

-- An operation that leaves the received bytes and their credit alone.
pub record Leaves (c d : Connection) : Type 0 where
  pub app : d.app.receive_batch ≡ c.app.receive_batch
  pub worker : d.stream_receive_batch ≡ c.stream_receive_batch
  pub offset : d.protocol.rx_offset ≡ c.protocol.rx_offset
  pub releasable : d.releasable_stream_receive_bytes ≡ c.releasable_stream_receive_bytes
  pub pending : d.stream_receive_operation_pending ≡ c.stream_receive_operation_pending

Leaves-Delivers :
    (x : Shown) (c d : Connection)
    → Leaves c d
    → Delivers x.arrived x.taken (given x) c
    → Delivers x.arrived x.taken (given x) d
Leaves-Delivers x c d s v = rw (s.app, s.worker, s.offset, s.releasable, s.pending) v

ap_if :
    {A B : Type 0} (f : A → B) (b : Bool) (x y : A)
    → (if b then f x else f y) ≡ f (if b then x else y)
ap_if f true x y = refl
ap_if f false x y = refl

offset_of :
    (r stream offset rx_offset : ℕ)
    → not (r == stream) || not (offset == rx_offset) ≡ false
    → offset ≡ rx_offset
offset_of r stream offset rx_offset h = ground arith

-- The handler of the operation clears the flag of the operation first.
abbrev unflagged : Connection → Connection
unflagged c = record c { stream_receive_operation_pending = false }

process_stream_receive-unflagged :
    (c : Connection) → process_stream_receive (unflagged c) ≡ unflagged (process_stream_receive c)
unfolding process_stream_receive
process_stream_receive-unflagged c =
    ap_if unflagged (c.stream_receive_batch.byte_count == 0 && not c.peer_finished_pending) _ _

hands_on-Delivers :
    (x : Shown) (c : Connection)
    → Delivers x.arrived x.taken (given x) c
    → Delivers x.arrived x.taken (given x) (process_stream_receive (unflagged c))
hands_on-Delivers x c v =
    let (w, none_left, all) = process_stream_receive-Delivers x.arrived x.taken (given x) c v in
    subst (Delivers x.arrived x.taken (given x)) (sym (process_stream_receive-unflagged c))
      (record {
        order = w.order;
        offset = w.offset;
        credit = w.credit;
        small = w.small;
        app_valid = w.app_valid;
        worker_valid = w.worker_valid;
        pools = w.pools;
        noticed = λ e. none_left;
      })

module _ {W : Type 0} (out : Outside W) where
  pub data ReceiveStep (c : Connection) : Shown → Connection → Type 0 where
    arrives :
        (fin : Bool) (stream offset : ℕ) (bytes : List ℕ)
        → offset + length bytes < 2 ^ 64
        → ReceiveStep c
            (record silent {
              arrived = arrived_if (receive_stream_data c fin stream offset bytes).1 bytes;
            })
            (receive_stream_data c fin stream offset bytes).0
    hands_on :
        ReceiveStep c silent
          (process_stream_receive (record c { stream_receive_operation_pending = false }))
    takes :
        ReceiveStep c
          (record silent { taken = contents (take_received_stream_data c).0 })
          (take_received_stream_data c).1
    credits :
        (w : W) (stream : ℕ)
        → c.protocol.rx_stream_id ≡ some stream
        → ReceiveStep c
            (credited c.protocol.conn c.releasable_stream_receive_bytes
              (process_release_credit (metered out stream) c (w, unmetered)))
            (process_release_credit (metered out stream) c (w, unmetered)).1
    passes : (d : Connection) → Leaves c d → ReceiveStep c silent d

  pub data ReceiveRun : Connection → Shown → Connection → Type 0 where
    here : {c : Connection} → ReceiveRun c silent c
    next :
        {c d e : Connection} {x y : Shown}
        → ReceiveRun c x d
        → ReceiveStep d y e
        → ReceiveRun c (append_shown x y) e

  receive_stream_data-Delivers :
      (x : Shown) (c : Connection) (fin : Bool) (stream offset : ℕ) (bytes : List ℕ)
      → offset + length bytes < 2 ^ 64
      → Delivers x.arrived x.taken (given x) c
      → let (d, result) = receive_stream_data c fin stream offset bytes in
        Delivers (x.arrived ++ arrived_if result bytes) x.taken (given x) d
  unfolding receive_stream_data
  receive_stream_data-Delivers x c fin stream offset bytes room v =
      let r = stream_of c.protocol.rx_stream_id stream in
      let d = record c { protocol = record (c.protocol) { rx_stream_id = some r } } in
      if_cases {A = Connection × Bool}
        (λ y. Delivers (x.arrived ++ arrived_if y.1 bytes) x.taken (given x) y.0)
        (not (r == stream) || not (offset == c.protocol.rx_offset))
        (λ h. subst (λ l. Delivers l x.taken (given x) d) (sym (append-nil x.arrived)) v)
        (λ h.
          accept_stream_data-Delivers x.arrived x.taken (given x) d fin bytes
            (omega (arith, v.offset, offset_of r stream offset c.protocol.rx_offset h)) v)

  told :
      {r r' t t' : List ℕ} {g g' : ℕ} (c : Connection)
      → r ≡ r'
      → t ≡ t'
      → g ≡ g'
      → Delivers r t g c
      → Delivers r' t' g' c
  told {r} {r'} {t} {t'} {g} {g'} c e f h v =
      subst (λ r. Delivers r t' g' c) e
        (subst (λ t. Delivers r t g' c) f (subst (λ g. Delivers r t g c) h v))

  nothing_taken : (x : Shown) → x.taken ≡ x.taken ++ []
  nothing_taken x = sym (append-nil x.taken)

  nothing_arrived : (x : Shown) → x.arrived ≡ x.arrived ++ []
  nothing_arrived x = sym (append-nil x.arrived)

  step-Delivers :
      (x : Shown) (c : Connection) (y : Shown) (d : Connection)
      → Kept x c
      → ReceiveStep c y d
      → Kept (append_shown x y) d
  step-Delivers x c y d (v, k) (ReceiveStep.arrives fin stream offset bytes room) = (
    told d refl (nothing_taken x) (omega arith)
        (receive_stream_data-Delivers x c fin stream offset bytes room v),
    omega (arith, k),
  )
  step-Delivers x c y d (v, k) ReceiveStep.hands_on = (
    told d (nothing_arrived x) (nothing_taken x) (omega arith) (hands_on-Delivers x c v),
    omega (arith, k),
  )
  step-Delivers x c y d (v, k) ReceiveStep.takes = (
    told d (nothing_arrived x) refl (omega arith)
        (take_received_stream_data-Delivers x.arrived x.taken (given x) c v).0,
    omega (arith, k),
  )
  step-Delivers x c y d (v, k) (ReceiveStep.credits w stream known) =
      let (all, same) = process_release_credit-Balanced out stream c w known in
      (
        told d (nothing_arrived x) (nothing_taken x) (omega (arith, all)) (
            process_release_credit-Delivers x.arrived x.taken (given x) (metered out stream) c
              (w, unmetered) v),
        omega (arith, k, same),
      )
  step-Delivers x c y d (v, k) (ReceiveStep.passes e s) = (
    told d (nothing_arrived x) (nothing_taken x) (omega arith) (Leaves-Delivers x c e s v),
    omega (arith, k),
  )

  run-Delivers :
      (c : Connection) (x : Shown) (d : Connection)
      → Delivers [] [] 0 c
      → ReceiveRun c x d
      → Kept x d
  run-Delivers c x d v ReceiveRun.here = (v, refl)
  run-Delivers c x d v (ReceiveRun.next {d = m} {x = y} {y = z} r s) =
      step-Delivers y m z d (run-Delivers c y m v r) s

  -- Whatever steps the worker and the application take on a connection that has received nothing, in
  -- whatever order: what the application has taken, together with what still waits for it, is all that
  -- arrived, each byte once and in order; and the credit that ngtcp2 got for the stream, together with
  -- what still has to go back and what was counted when a release threw or found no ngtcp2 connection,
  -- is the number of bytes taken. The connection's credit is the same as the stream's. The stream
  -- stays below 2 ^ 64 bytes, and is known when credit is released.
  pub ReceiveRun-taken :
      (c : Connection) (x : Shown) (d : Connection)
      → Delivers [] [] 0 c
      → ReceiveRun c x d
      → (x.taken ++ (contents d.app.receive_batch ++ contents d.stream_receive_batch) ≡ x.arrived)
        × (x.granted + x.lost + d.releasable_stream_receive_bytes ≡ length x.taken)
        × (x.connection_granted ≡ x.granted)
  ReceiveRun-taken c x d v r = let (w, same) = run-Delivers c x d v r in (w.order, w.credit, same)

  -- Whatever steps the worker and the application take on a connection that has received nothing: if
  -- the peer sent at most the window and the credit that ngtcp2 got, then what waits for the
  -- application, in both batches, is never more than the window.
  pub ReceiveRun-bounded :
      (c : Connection) (x : Shown) (d : Connection) (window : ℕ)
      → Delivers [] [] 0 c
      → ReceiveRun c x d
      → length x.arrived ≤ window + x.granted
      → length (contents d.app.receive_batch) + length (contents d.stream_receive_batch) ≤ window
  ReceiveRun-bounded c x d window v r h =
      let (order, credit, same) = ReceiveRun-taken c x d v r in
      omega (
        arith,
        h,
        credit,
        ap length order,
        length-append x.taken (contents d.app.receive_batch ++ contents d.stream_receive_batch),
        length-append (contents d.app.receive_batch) (contents d.stream_receive_batch),
      )
