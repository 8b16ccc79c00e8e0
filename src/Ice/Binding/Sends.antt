-- ===== src/Ice/Binding/Sends.antt =====
-- JuiceBinding::send and sendAggregate (native/ice/JuiceBinding.cpp): what they report.
use ffl_p2p.Prelude.{ℕ, ◌≤◌, ◌<◌, ◌≡◌, refl, some, List, length, ok, arith}
use ffl_p2p.Quic.Library.{Outside}
use ffl_p2p.Ice.Binding.{
  SendStatus, complete, blocked, oversized, SendResult, JuiceBinding, translate_send_result, send,
  send_aggregate,
}

-- All bytes where the send is complete, no more than all otherwise.
abbrev pub Progress : SendStatus → ℕ → ℕ → Type 0
Progress complete sent size = sent ≡ size
Progress blocked sent size = sent ≤ size
Progress oversized sent size = sent ≤ size

status-Progress :
    (status : SendStatus) (sent size : ℕ)
    → sent ≤ size
    → (status ≡ complete → sent ≡ size)
    → Progress status sent size
status-Progress complete sent size h k = k refl
status-Progress blocked sent size h k = h
status-Progress oversized sent size h k = h

module _ {W : Type 0} (out : Outside W) where
  -- A datagram over the limit is refused as too large with nothing sent, and the agent is not called.
  pub send_over_limit :
      (b : JuiceBinding) (handle : ℕ) (bytes : List ℕ) (w : W)
      → b.agent ≡ some handle
      → 0 < b.datagram_limit
      → b.datagram_limit < length bytes
      → send out b bytes w ≡ (w, ok (record { status = oversized; sent_size = 0 }))
  unfolding send translate_send_result
  send_over_limit b handle bytes w attached limited h = ground arith

  -- So is an aggregate whose segments are over the limit.
  pub send_aggregate_over_limit :
      (b : JuiceBinding) (handle : ℕ) (bytes : List ℕ) (segment : ℕ) (w : W)
      → b.agent ≡ some handle
      → 0 < b.datagram_limit
      → b.datagram_limit < segment
      → send_aggregate out b bytes segment w
        ≡ (w, ok (record { status = oversized; sent_size = 0 }))
  unfolding send_aggregate translate_send_result
  send_aggregate_over_limit b handle bytes segment w attached limited h = ground arith

  -- A send that throws nothing reports progress within the bytes, and all of them where it says that
  -- it is complete, whatever the agent does.
  pub send-Progress :
      (b : JuiceBinding) (bytes : List ℕ) (w : W) (r : SendResult)
      → (send out b bytes w).1 ≡ ok r
      → Progress r.status r.sent_size (length bytes)
  unfolding send translate_send_result
  send-Progress b bytes w r e =
      status-Progress r.status r.sent_size (length bytes) (ground arith) (λ c. ground arith)

  -- So does the send of an aggregate, although the agent reports the progress itself.
  pub send_aggregate-Progress :
      (b : JuiceBinding) (bytes : List ℕ) (segment : ℕ) (w : W) (r : SendResult)
      → (send_aggregate out b bytes segment w).1 ≡ ok r
      → Progress r.status r.sent_size (length bytes)
  unfolding send_aggregate translate_send_result
  send_aggregate-Progress b bytes segment w r e =
      status-Progress r.status r.sent_size (length bytes) (ground arith) (λ c. ground arith)
