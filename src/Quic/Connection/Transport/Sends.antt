-- ===== src/Quic/Connection/Transport/Sends.antt =====
-- sendTransportBuffer and flushPendingTransportSend (native/quic/Connection.cpp): what waits after.
use ffl_p2p.Prelude.{
  ℕ, ◌+◌, ◌%◌, ◌<◌, ◌≡◌, refl, Bool, true, false, not, ◌&&◌, List, length, length-drop, drop-drop,
  drop, leb, ltb, ◌==◌, if◌then◌else◌, Result, ok, err, Bool-cases, inl, inr, arith, sym, subst,
}
use ffl_p2p.Quic.Library.{Error, infinite_timestamp, Outside}
use ffl_p2p.Quic.Protocol.{add64}
use ffl_p2p.Quic.Connection.{Connection, PendingSend, has_remaining_data, remaining_data}
use ffl_p2p.Ice.Binding.{SendResult, SendStatus, complete, blocked, oversized}
use ffl_p2p.Quic.Connection.Transport.{
  TransportSendOutcome, sent, held, send_retry_delay_ns, Outcome, schedule_send_retry,
  send_transport_once, retain_pending_transport_send, after_send, on_sent, on_retried, progressed,
  send_transport_buffer, after_retry, flush_pending_transport_send,
}

abbrev pub is_blocked : SendStatus → Bool
is_blocked blocked = true
is_blocked _ = false

-- The timer is set for its delay after the time that the clock gives in `v`, which is read last.
abbrev pub Armed : {W : Type 0} → Outside W → W → W → Connection → Type 0
Armed out v w d =
    (w ≡ (out.now v).0) × (d.send_retry_expiry ≡ add64 (out.now v).1 send_retry_delay_ns)

-- Of `bytes` the first `n` went out, by the agent's report, and the others wait.
pub record Held {W : Type 0} (out : Outside W) (bytes : List ℕ) (n : ℕ) (v w : W) (d : Connection)
    : Type 0 where
  pub partial : n < length bytes
  pub rest : remaining_data d.pending_send ≡ drop n bytes
  pub waits : has_remaining_data d.pending_send ≡ true
  pub armed : Armed out v w d

pub record Gone (d : Connection) : Type 0 where
  pub nothing : has_remaining_data d.pending_send ≡ false
  pub disarmed : d.send_retry_expiry ≡ infinite_timestamp

-- What the agent's result `r`, reported in the world `v`, makes of a send of `bytes`.
abbrev pub Done :
    {W : Type 0}
    → Outside W
    → List ℕ
    → W
    → SendStatus
    → ℕ
    → W
    → Connection
    → TransportSendOutcome
    → Type 0
Done out bytes v status n w d sent = (is_blocked status ≡ false) × Gone d
Done out bytes v status n w d held = (is_blocked status ≡ true) × Held out bytes n v w d

abbrev pub After :
    {W : Type 0}
    → Outside W
    → List ℕ
    → W × Result Error SendResult
    → W
    → Connection
    → TransportSendOutcome
    → Type 0
After out bytes (v, err e) w d o = ⊥
After out bytes (v, ok r) w d o = Done out bytes v r.status r.sent_size w d o

left_over : (n : ℕ) (bytes : List ℕ) → n < length bytes → ltb 0 (length (drop n bytes)) ≡ true
left_over n bytes h = let e = length-drop n bytes in ground arith

module _ {W : Type 0} (out : Outside W) where
  retain_lem :
      (c : Connection) (bytes : List ℕ) (n segment count : ℕ) (aggregate : Bool) (w : W)
      (o : TransportSendOutcome)
      → let (w', d, result) =
          retain_pending_transport_send out c bytes n segment count aggregate w in
        result ≡ ok o → Done out bytes w blocked n w' d o
  unfolding retain_pending_transport_send schedule_send_retry
  retain_lem c bytes n segment count aggregate w sent run = ground arith
  retain_lem c bytes n segment count aggregate w held run =
      elim (Bool-cases (has_remaining_data c.pending_send)) [
        | inl already ↦ ground arith
        | inr idle ↦ elim (Bool-cases (leb (length bytes) n)) [
          | inl none_left ↦ ground arith
          | inr some_left ↦
              elim (Bool-cases (aggregate && not (n == 0) && not (n % segment == 0))) [
                | inl unaligned ↦ ground arith
                | inr aligned ↦
                    rw (idle, some_left, aligned)
                      (
                        refl,
                        record {
                          partial = ground arith;
                          rest = refl;
                          waits = left_over n bytes (ground arith);
                          armed = (refl, refl);
                        },
                      )
              ]
        ]
      ]

  -- A check that throws comes before `x`.
  unless_thrown :
      (b : Bool) (P : W → Connection → TransportSendOutcome → Type 0) (c : Connection) (w : W)
      (e : Error) (x : Outcome W) (o : TransportSendOutcome)
      → (b ≡ false → x.2 ≡ ok o → P x.0 x.1 o)
      → (if b then (w, c, err e) else x).2 ≡ ok o
      → P (if b then (w, c, err e) else x).0 (if b then (w, c, err e) else x).1 o
  unless_thrown true P c w e x o next run = ground arith
  unless_thrown false P c w e x o next run = next refl run

  on_sent_lem :
      (c : Connection) (bytes : List ℕ) (segment count : ℕ) (aggregate : Bool) (w : W)
      (status : SendStatus) (n : ℕ) (o : TransportSendOutcome)
      → has_remaining_data c.pending_send ≡ false
      → let (w', d, result) = on_sent out c bytes segment count aggregate w status n in
        result ≡ ok o → Done out bytes w status n w' d o
  unfolding on_sent
  on_sent_lem c bytes segment count aggregate w complete n sent idle run =
      (refl, record { nothing = idle; disarmed = refl })
  on_sent_lem c bytes segment count aggregate w complete n held idle run = ground arith
  on_sent_lem c bytes segment count aggregate w oversized n sent idle run =
      (refl, record { nothing = idle; disarmed = refl })
  on_sent_lem c bytes segment count aggregate w oversized n held idle run = ground arith
  on_sent_lem c bytes segment count aggregate w blocked n o idle run =
      retain_lem c bytes n segment count aggregate w o run

  after_send_lem :
      (c : Connection) (bytes : List ℕ) (segment count : ℕ) (aggregate : Bool) (w : W)
      (r : Result Error SendResult) (o : TransportSendOutcome)
      → has_remaining_data c.pending_send ≡ false
      → let (w', d, result) = after_send out c bytes segment count aggregate w r in
        result ≡ ok o → After out bytes (w, r) w' d o
  unfolding after_send
  after_send_lem c bytes segment count aggregate w (err e) o idle run = ground arith
  after_send_lem c bytes segment count aggregate w (ok r) o idle run =
      on_sent_lem c bytes segment count aggregate w r.status r.sent_size o idle run

  -- A send of `bytes` that does not throw: where the agent reports a blocked send of `n` bytes, less
  -- than all, exactly the bytes behind the first `n` wait, and the timer is set for the retry delay
  -- after the clock's time; else nothing waits and the timer is cleared.
  pub send_transport_buffer-After :
      (c : Connection) (bytes : List ℕ) (segment count : ℕ) (aggregate : Bool) (w : W)
      (o : TransportSendOutcome)
      → let (w', d, result) = send_transport_buffer out c bytes segment count aggregate w in
        result ≡ ok o → After out bytes (send_transport_once out c bytes segment aggregate w) w' d o
  unfolding send_transport_buffer
  send_transport_buffer-After c bytes segment count aggregate w o run =
      let (w', r) = send_transport_once out c bytes segment aggregate w in
      unless_thrown (has_remaining_data c.pending_send) (λ v d k. After out bytes (w', r) v d k) c w
        _ (after_send out c bytes segment count aggregate w' r) o
        (after_send_lem c bytes segment count aggregate w' r o) run

-- A blocked retry keeps the bytes behind those that went out.
retry_rest :
    (s : PendingSend) (n : ℕ)
    → has_remaining_data (record s { offset = s.offset + n }) ≡ true
    → (n < length (remaining_data s))
      × (remaining_data (record s { offset = s.offset + n }) ≡ drop n (remaining_data s))
retry_rest s n h =
    let e = length-drop s.offset s.bytes in (ground arith, sym (drop-drop n s.offset s.bytes))

module _ {W : Type 0} (out : Outside W) where
  on_retried_lem :
      (c : Connection) (n : ℕ) (w : W) (status : SendStatus) (o : TransportSendOutcome)
      → let (w', d, result) = on_retried out (progressed out c n) w status in
        result ≡ ok o → Done out (remaining_data c.pending_send) w status n w' d o
  unfolding on_retried schedule_send_retry
  on_retried_lem c n w oversized sent run = (refl, record { nothing = refl; disarmed = refl })
  on_retried_lem c n w oversized held run = ground arith
  on_retried_lem c n w complete sent run =
      unless_thrown out (has_remaining_data (progressed out c n).pending_send)
        (Done out (remaining_data c.pending_send) w complete n) _ w _ _ sent
        (λ none_left done. (refl, record { nothing = refl; disarmed = refl })) run
  on_retried_lem c n w complete held run = ground arith
  on_retried_lem c n w blocked sent run = ground arith
  on_retried_lem c n w blocked held run =
      unless_thrown out (not (has_remaining_data (progressed out c n).pending_send))
        (Done out (remaining_data c.pending_send) w blocked n) _ w _ _ held
        (λ more done.
          let left : has_remaining_data (progressed out c n).pending_send ≡ true = ground arith in
          let (less, rest) = retry_rest c.pending_send n left in
          (refl, record { partial = less; rest = rest; waits = left; armed = (refl, refl) }))
        run

  after_retry_lem :
      (c : Connection) (w : W) (r : Result Error SendResult) (o : TransportSendOutcome)
      → let (w', d, result) = after_retry out c w r in
        result ≡ ok o → After out (remaining_data c.pending_send) (w, r) w' d o
  unfolding after_retry
  after_retry_lem c w (err e) o run = ground arith
  after_retry_lem c w (ok r) o run = on_retried_lem c r.sent_size w r.status o run

  -- A retry that does not throw: where the agent reports a blocked send of `n` bytes, less than all
  -- that waited, exactly the bytes behind the first `n` wait, and the timer is set for the retry delay
  -- after the clock's time; else all was sent or dropped, and the timer is cleared.
  pub flush_pending_transport_send-After :
      (c : Connection) (w : W) (o : TransportSendOutcome)
      → has_remaining_data c.pending_send ≡ true
      → let (w', d, result) = flush_pending_transport_send out c w in
        let s = c.pending_send in
        result ≡ ok o
        → After out
            (remaining_data s)
            (send_transport_once out c (remaining_data s) s.segment_size s.aggregate w)
            w'
            d
            o
  unfolding flush_pending_transport_send
  flush_pending_transport_send-After c w o waits run =
      let s = c.pending_send in
      let (w', r) = send_transport_once out c (remaining_data s) s.segment_size s.aggregate w in
      subst
        (λ b.
          (if not b then (w, c, ok sent) else after_retry out c w' r).2 ≡ ok o
          → After out (remaining_data s) (w', r)
              (if not b then (w, c, ok sent) else after_retry out c w' r).0
              (if not b then (w, c, ok sent) else after_retry out c w' r).1 o)
        (sym waits) (after_retry_lem c w' r o) run
