-- ===== src/Ice/Binding.antt =====
-- JuiceBinding of native/ice/JuiceBinding.cpp. An agent's handle is a number; the connection pointer
-- is there exactly when the handle is.
pub mod Sends
mod Tests
use ffl_p2p.Prelude.{
  ℕ, Bool, true, false, not, ◌&&◌, Option, none, some, List, String, length, ltb, ◌==◌,
  if◌then◌else◌, is_some, Result, ok, err,
}
use ffl_p2p.Quic.Library.{
  Error, about, message, juice, JuiceCode, success, again, too_large, failure, Outside,
}

pub data SendStatus : Type 0 where
  complete blocked oversized : SendStatus

pub record SendResult : Type 0 where
  pub status : SendStatus
  pub sent_size : ℕ

pub record JuiceBinding : Type 0 where
  pub agent : Option ℕ
  pub datagram_limit : ℕ

unfoldable pub translate_send_result : JuiceCode → ℕ → ℕ → String → Result Error SendResult
translate_send_result code size sent operation =
    if ltb size sent then err (about operation " reported invalid send progress") else (elim code [
      | success ↦
          if sent == size
          then ok (record { status = complete; sent_size = sent })
          else err (about operation " completed with a partial send")
      | again ↦ ok (record { status = blocked; sent_size = sent })
      | too_large ↦ ok (record { status = oversized; sent_size = sent })
      | failure n ↦ err (juice operation (failure n))
    ])

unfoldable pub limit_datagram_size : JuiceBinding → ℕ → JuiceBinding
limit_datagram_size b limit = record b { datagram_limit = limit }

abbrev exceeds : JuiceBinding → ℕ → Bool
exceeds b size = not (b.datagram_limit == 0) && ltb b.datagram_limit size

abbrev progress : JuiceCode → ℕ → ℕ
progress success size = size
progress _ size = 0

module _ {W : Type 0} (out : Outside W) where
  -- `attach`: the agent's handle is `none` where the caller has a null pointer.
  unfoldable pub attach : JuiceBinding → Option ℕ → W → W × Result Error JuiceBinding
  attach b none w = (w, err (message "ICE binding requires agent and connection"))
  attach b (some handle) w =
      let (w', attached) = out.set_sink handle w in
      if is_some b.agent
      then (w, err (message "ICE binding is already attached"))
      else if not attached
      then (w', err (message "unable to attach QUIC runtime to ICE agent"))
      else (w', ok (record b { agent = some handle }))

  unfoldable pub detach : JuiceBinding → W → W × JuiceBinding
  detach b w = elim b.agent [
    | none ↦ (w, b)
    | some handle ↦ (out.clear_sink handle w, record b { agent = none })
  ]

  unfoldable pub send : JuiceBinding → List ℕ → W → W × Result Error SendResult
  send b bytes w = elim b.agent [
    | none ↦ (w, err (message "ICE binding is detached"))
    | some handle ↦
        let (w', code) = out.agent_send bytes w in
        if exceeds b (length bytes)
        then (w, translate_send_result too_large (length bytes) 0 "libjuice QUIC send")
        else (
          w',
          translate_send_result code (length bytes) (progress code (length bytes))
              "libjuice QUIC send",
        )
  ]

  unfoldable pub send_aggregate : JuiceBinding → List ℕ → ℕ → W → W × Result Error SendResult
  send_aggregate b bytes segment w = elim b.agent [
    | none ↦ (w, err (message "ICE binding is detached"))
    | some handle ↦
        let (w', code, sent) = out.agent_send_aggregate bytes segment w in
        if exceeds b segment
        then (w, translate_send_result too_large (length bytes) 0 "libjuice QUIC aggregate send")
        else (w', translate_send_result code (length bytes) sent "libjuice QUIC aggregate send")
  ]
