-- ===== src/Quic/Connection/Receive/Delivery.antt =====
-- The steps of a received byte from receiveStreamDataCallback to takeReceivedStreamData, and of the
-- credit for it (native/quic/Connection.cpp).
use ffl_p2p.Prelude.{
  ℕ, ◌+◌, ◌^◌, ◌<◌, ◌≡◌, refl, sym, ap, ◌∙◌, Bool, true, false, not, ◌&&◌, ◌||◌, Option, none,
  if_cases, some, List, [], ◌++◌, append-nil, arith, length, ◌==◌, Result, Bool-cases, inl, inr,
}
use ffl_p2p.Quic.Library.{Error, Outside}
use ffl_p2p.Quic.Protocol.{add64}
use ffl_p2p.Quic.Connection.{Connection, release_stream_recv_credit}
use ffl_p2p.Datapath.Batch.Stream
use ffl_p2p.Datapath.Batch.Stream.{contents, append_bytes-contents, append_batch-contents}
use ffl_p2p.Quic.Connection.Receive.{
  append_received_stream_data, mark_peer_finished, accept_stream_data, process_stream_receive,
  take_received_stream_data, process_release_credit, release_to,
}
use ffl_p2p.Quic.Connection.Receive.Flows.{
  Flows, Delivers, Same, moved, counted, credited, flushes, will_flush, append_received_lem,
  appended_lem, queue_internal_operation-Same, queue_send_flush-Same, Same-Delivers,
}

-- `processReleaseStreamReceiveCredit`, once the stream is known, at most queues a flush.
release_to-Same :
    {W : Type 0} (out : Outside W) (r : Option ℕ) (c : Connection) (released : ℕ) (w : W)
    → Same c (release_to out r c released w).1
unfolding release_to
release_to-Same out none c released w = record {
  app = refl;
  protocol = refl;
  batch = refl;
  releasable = refl;
  pending = refl;
}
release_to-Same {W} out (some stream) c released w =
    if_cases (λ (r : W × Connection × Result Error (Unit {0})). Same c r.1)
      (released == 0 || not c.protocol.conn)
      (λ h. record { app = refl; protocol = refl; batch = refl; releasable = refl; pending = refl })
      (λ h.
        if_cases (λ (r : W × Connection × Result Error (Unit {0})). Same c r.1)
          (out.extend_max_stream_offset stream released w).1 (λ e. queue_send_flush-Same c)
          (λ e. record {
            app = refl;
            protocol = refl;
            batch = refl;
            releasable = refl;
            pending = refl;
          }))

module _ (received taken : List ℕ) (granted : ℕ) where
  -- `processStreamReceive` hands what the worker has on to the application, in order, and leaves none.
  pub process_stream_receive-Delivers :
      (c : Connection)
      → Delivers received taken granted c
      → let d = process_stream_receive c in
        Delivers received taken granted d
        × (contents d.stream_receive_batch ≡ [])
        × (contents d.app.receive_batch
            ≡ contents c.app.receive_batch ++ contents c.stream_receive_batch)
  unfolding process_stream_receive
  process_stream_receive-Delivers c v =
      let (valid, all, pool) =
        appended_lem c.app.receive_batch c.stream_receive_batch v.app_valid v.worker_valid
          v.pools in
      elim (Bool-cases (c.stream_receive_batch.byte_count == 0 && not c.peer_finished_pending)) [
        | inl nothing ↦
            let e : contents c.stream_receive_batch ≡ [] =
              Stream.contents-empty c.stream_receive_batch v.worker_valid (ground arith) in
            let same : contents c.app.receive_batch ++ contents c.stream_receive_batch
                ≡ contents c.app.receive_batch ++ [] =
              ap (◌++◌ (contents c.app.receive_batch)) e in
            rw nothing (
              record {
                order = ap (◌++◌ taken) (sym same) ∙ v.order;
                offset = v.offset;
                credit = v.credit;
                small = v.small;
                app_valid = v.app_valid;
                worker_valid = omega arith;
                pools = v.pools;
                noticed = λ _. refl;
              },
              refl,
              sym (append-nil (contents c.app.receive_batch)) ∙ sym same,
            )
        | inr something ↦ rw something (
          record {
            order = ap (◌++◌ taken) (append-nil _ ∙ all) ∙ v.order;
            offset = v.offset;
            credit = v.credit;
            small = v.small;
            app_valid = valid;
            worker_valid = omega arith;
            pools = pool ∙ v.pools;
            noticed = λ _. refl;
          },
          refl,
          all,
        )
      ]

  -- `takeReceivedStreamData` gives the application all that was handed to it, and counts that as
  -- credit to give back.
  pub take_received_stream_data-Delivers :
      (c : Connection)
      → Delivers received taken granted c
      → let (batch, d) = take_received_stream_data c in
        Delivers received (taken ++ contents batch) granted d
        × (contents batch ≡ contents c.app.receive_batch)
        × (contents d.app.receive_batch ≡ [])
  unfolding take_received_stream_data
  take_received_stream_data-Delivers c v = elim (Bool-cases (c.app.receive_batch.byte_count == 0)) [
    | inl nothing ↦
        let e : length (contents c.app.receive_batch) ≡ 0 =
          ap length (Stream.contents-empty c.app.receive_batch v.app_valid (ground arith)) in
        rw nothing (
          moved received taken granted c c.releasable_stream_receive_bytes (omega arith) v,
          refl,
          refl,
        )
    | inr something ↦
        let e =
          moved received taken granted c
            (add64 c.releasable_stream_receive_bytes c.app.receive_batch.byte_count)
            (counted received taken granted c v) v in
        rw something (elim (Bool-cases (c.releasable_stream_receive_bytes == 0)) [
          | inl first ↦
              let s =
                queue_internal_operation-Same (credited received taken granted c)
                  release_stream_recv_credit in
              rw (first, s.app, s.protocol, s.batch, s.releasable, s.pending) (e, refl, refl)
          | inr later ↦ rw later (e, refl, refl)
        ])
  ]

  -- New bytes at the expected offset go behind those that the worker has, and the operation that
  -- hands them on is queued.
  pub accept_stream_data-Delivers :
      (c : Connection) (fin : Bool) (bytes : List ℕ)
      → length received + length bytes < 2 ^ 64
      → Delivers received taken granted c
      → Delivers (received ++ bytes) taken granted (accept_stream_data c fin bytes)
  unfolding accept_stream_data mark_peer_finished
  accept_stream_data-Delivers c false bytes room v =
      append_received_lem received taken granted c bytes room v
  accept_stream_data-Delivers c true bytes room v =
      let d = append_received_stream_data c bytes in
      flushes (received ++ bytes) taken granted
        (record d {
          protocol = record (d.protocol) {
            rx_offset = add64 d.protocol.rx_offset (length bytes);
            peer_finished = true;
          };
          peer_finished_pending = true;
        })
        (will_flush (received ++ bytes) taken granted d.app.receive_batch d.stream_receive_batch
          (add64 d.protocol.rx_offset (length bytes)) d.releasable_stream_receive_bytes
          d.stream_receive_operation_pending
          (append_received_lem received taken granted c bytes room v))

  released :
      (c : Connection) (n : ℕ)
      → n ≡ c.releasable_stream_receive_bytes
      → Delivers received taken granted c
      → Flows received taken
          (granted + n)
          c.app.receive_batch
          c.stream_receive_batch
          c.protocol.rx_offset
          0
          c.stream_receive_operation_pending
  released c n e v = record {
    order = v.order;
    offset = v.offset;
    credit = omega (arith, v.credit, e);
    small = v.small;
    app_valid = v.app_valid;
    worker_valid = v.worker_valid;
    pools = v.pools;
    noticed = v.noticed;
  }

  -- `processReleaseStreamReceiveCredit` leaves no credit counted, and the received bytes as they are.
  pub process_release_credit-Delivers :
      {W : Type 0} (out : Outside W) (c : Connection) (w : W)
      → Delivers received taken granted c
      → Delivers received taken
          (granted + c.releasable_stream_receive_bytes)
          (process_release_credit out c w).1
  unfolding process_release_credit
  process_release_credit-Delivers out c w v =
      let d = record c { releasable_stream_receive_bytes = 0 } in
      let n = c.releasable_stream_receive_bytes in
      Same-Delivers received taken (granted + n) d (release_to out c.protocol.rx_stream_id d n w).1
        (release_to-Same out c.protocol.rx_stream_id d n w) (released c n refl v)
