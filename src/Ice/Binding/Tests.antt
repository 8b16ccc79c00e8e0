-- ===== src/Ice/Binding/Tests.antt =====
-- Sends over an agent that takes all, and over a limit of two bytes.
use ffl_p2p.Prelude.{ℕ, ◌≡◌, refl, some, List, [], ◌∷◌, length, ok, arith}
use ffl_p2p.Quic.Library.Sample.{quiet}
use ffl_p2p.Ice.Binding.{complete, oversized, JuiceBinding, translate_send_result, send_aggregate}
use ffl_p2p.Ice.Binding.Sends.{Progress, send_aggregate_over_limit, send_aggregate-Progress}

abbrev attached_binding : JuiceBinding
attached_binding = record { agent = some 7; datagram_limit = 2 }

abbrev two : List ℕ
two = 1 ∷ 2 ∷ []

send_aggregate_over_limit_example :
    send_aggregate quiet attached_binding (1 ∷ 2 ∷ 3 ∷ []) 3 0
    ≡ (0, ok (record { status = oversized; sent_size = 0 }))
send_aggregate_over_limit_example =
    send_aggregate_over_limit quiet attached_binding 7 (1 ∷ 2 ∷ 3 ∷ []) 3 0 refl (omega arith)
      (omega arith)

send_aggregate-Progress_example : Progress complete 2 (length two)
unfolding send_aggregate translate_send_result
send_aggregate-Progress_example =
    send_aggregate-Progress quiet attached_binding (1 ∷ 2 ∷ []) 1 0
      (record { status = complete; sent_size = 2 }) refl
