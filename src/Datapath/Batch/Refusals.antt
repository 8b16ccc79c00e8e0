-- ===== src/Datapath/Batch/Refusals.antt =====
-- What ReceiveBatch::append (native/datapath/Buffer.cpp) refuses.
use ffl_p2p.Prelude.{
  ℕ, ◌≤◌, ◌<◌, ◌≡◌, refl, ◌∙◌, true, false, inl, inr, some, List, [], ◌∷◌, arith, length, ok, err,
  if◌then◌else◌, Bool, not, Bool-cases, if_cases,
}
use ffl_p2p.Datapath.Buffer.{
  Fault, length_error, logic_error, ReceiveBuffer, empty_receive_buffer, can_append, append_packet,
  uint16_max,
}
use ffl_p2p.Datapath.Batch.{
  ReceiveBatch, tail_can_append, append_to_tail, with_room, append_receive,
}
use ffl_p2p.Datapath.Batch.Packets.{tail_can_append-snoc, empty-can_append}

can_append-length : (b : ReceiveBuffer) (n : ℕ) → can_append b n ≡ true → n ≤ uint16_max
unfolding can_append
can_append-length b n h = ground arith

long : (b : ReceiveBuffer) (n : ℕ) → uint16_max < n → can_append b n ≡ false
long b n h = elim (Bool-cases (can_append b n)) [
  | inl fits ↦ absurd (omega (arith, can_append-length b n fits))
  | inr e ↦ e
]

append_packet-long :
    (b : ReceiveBuffer) (bytes : List ℕ)
    → uint16_max < length bytes
    → append_packet b (some bytes) ≡ err length_error
unfolding append_packet
append_packet-long b [] h = absurd (omega arith)
append_packet-long b (x ∷ bytes) h = ground (arith, long b (length (x ∷ bytes)) h)

passes :
    {A : Type 0} (fits : Bool) (x : A)
    → fits ≡ true
    → (y : A) × ((if not fits then err length_error else ok x) ≡ ok y)
passes true x h = (x, refl)
passes false x h = absurd (ground arith)

append_packet-roomy :
    (b : ReceiveBuffer) (bytes : List ℕ)
    → 0 < length bytes
    → can_append b (length bytes) ≡ true
    → (c : ReceiveBuffer) × (append_packet b (some bytes) ≡ ok c)
unfolding append_packet
append_packet-roomy b [] h fits = absurd (omega arith)
append_packet-roomy b (x ∷ bytes) h fits = passes (can_append b (length (x ∷ bytes))) _ fits

append_to_tail-long :
    (bs : List ReceiveBuffer) (bytes : List ℕ)
    → uint16_max < length bytes
    → (e : Fault) × (append_to_tail bs (some bytes) ≡ err e)
unfolding append_to_tail
append_to_tail-long [] bytes h = (logic_error, refl)
append_to_tail-long (b ∷ []) bytes h =
    (length_error, rw (append_packet-long b bytes h, append_to_tail))
append_to_tail-long (b ∷ c ∷ bs) bytes h =
    let (e, run) = append_to_tail-long (c ∷ bs) bytes h in (e, rw run)

-- A datagram of more than 65535 bytes is refused.
pub append_receive-long :
    (batch : ReceiveBatch) (bytes : List ℕ)
    → uint16_max < length bytes
    → (e : Fault) × (append_receive batch (some bytes) ≡ (with_room batch (length bytes), err e))
unfolding append_receive
append_receive-long batch bytes h =
    let (e, run) = append_to_tail-long (with_room batch (length bytes)).buffers bytes h in
    (e, rw (run, append_receive))

append_to_tail-roomy :
    (bs : List ReceiveBuffer) (bytes : List ℕ)
    → 0 < length bytes
    → tail_can_append bs (length bytes) ≡ true
    → (cs : List ReceiveBuffer) × (append_to_tail bs (some bytes) ≡ ok cs)
unfolding append_to_tail tail_can_append
append_to_tail-roomy [] bytes h room = absurd (ground arith)
append_to_tail-roomy (b ∷ []) bytes h room =
    let (c, run) = append_packet-roomy b bytes h room in (c ∷ [], rw (run, append_to_tail))
append_to_tail-roomy (b ∷ c ∷ bs) bytes h room =
    let (cs, run) = append_to_tail-roomy (c ∷ bs) bytes h room in (b ∷ cs, rw run)

with_room-roomy :
    (batch : ReceiveBatch) (n : ℕ)
    → n ≤ uint16_max
    → tail_can_append (with_room batch n).buffers n ≡ true
unfolding with_room
with_room-roomy batch n h =
    if_cases (λ (r : ReceiveBatch). tail_can_append r.buffers n ≡ true)
      (tail_can_append batch.buffers n) (λ e. e)
      (λ e. tail_can_append-snoc batch.buffers empty_receive_buffer n ∙ empty-can_append n h)

-- A datagram of 1 to 65535 bytes is taken, whatever the buffers hold.
pub append_receive-taken :
    (batch : ReceiveBatch) (bytes : List ℕ)
    → 0 < length bytes
    → length bytes ≤ uint16_max
    → (append_receive batch (some bytes)).1 ≡ ok tt
unfolding append_receive
append_receive-taken batch bytes pos short =
    let (cs, run) =
      append_to_tail-roomy (with_room batch (length bytes)).buffers bytes pos
        (with_room-roomy batch (length bytes) short) in
    rw (run, append_receive)
