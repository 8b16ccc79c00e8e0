-- ===== src/Datapath/Batch.antt =====
-- ReceiveBatch and StreamReceiveBatch of native/datapath/Buffer.h and Buffer.cpp.
-- `buffers` is the chain from head_ to tail_; `pool` names the pool that the batch was made over,
-- and a buffer that the pool hands out is empty.
pub mod Packets
pub mod Refusals
pub mod Stream
mod Tests
use ffl_p2p.Prelude.{
  ℕ, zero, suc, ◌+◌, ◌-◌, Bool, true, false, not, ◌&&◌, Option, none, some, List, [], ◌∷◌, ◌++◌,
  length, drop, ltb, ◌==◌, if◌then◌else◌, is_empty, Result, ok, err,
}
use ffl_p2p.Datapath.Buffer.{
  Fault, invalid_argument, length_error, logic_error, ReceiveBuffer, empty_receive_buffer,
  can_append, append_packet, get_packet, packet_data, StreamReceiveBuffer, empty_stream_buffer,
  available, append_stream,
}

pub record ReceiveBatch : Type 0 where
  pub pool : ℕ
  pub buffers : List ReceiveBuffer
  pub packet_count : ℕ
  pub buffer_count : ℕ

abbrev pub empty_receive_batch : ℕ → ReceiveBatch
empty_receive_batch pool = record { pool = pool; buffers = []; packet_count = 0; buffer_count = 0 }

-- `tail_ && tail_->canAppend(size)`.
pub tail_can_append : List ReceiveBuffer → ℕ → Bool
tail_can_append [] size = false
tail_can_append (b ∷ []) size = can_append b size
tail_can_append (b ∷ c ∷ bs) size = tail_can_append (c ∷ bs) size

abbrev before {ℓ} : {A : Type ℓ} → A → Result Fault (List A) → Result Fault (List A)
before b (ok bs) = ok (b ∷ bs)
before b (err e) = err e

-- `tail_->append(data, size)`.
pub append_to_tail : List ReceiveBuffer → Option (List ℕ) → Result Fault (List ReceiveBuffer)
append_to_tail [] bytes = err logic_error
append_to_tail (b ∷ []) bytes = elim (append_packet b bytes) [ ok c ↦ ok (c ∷ []) | err e ↦ err e ]
append_to_tail (b ∷ c ∷ bs) bytes = before b (append_to_tail (c ∷ bs) bytes)

abbrev size_of : Option (List ℕ) → ℕ
size_of none = 0
size_of (some bytes) = length bytes

-- The batch with a tail that can take `size` bytes, from the pool if need be.
pub with_room : ReceiveBatch → ℕ → ReceiveBatch
with_room batch size = if tail_can_append batch.buffers size then batch else record batch {
  buffers = batch.buffers ++ empty_receive_buffer ∷ [];
  buffer_count = batch.buffer_count + 1;
}

-- `ReceiveBatch::append`. Where the tail throws, the buffer that was linked for it stays.
pub append_receive : ReceiveBatch → Option (List ℕ) → ReceiveBatch × Result Fault (Unit {0})
append_receive batch bytes =
    let roomy = with_room batch (size_of bytes) in
    elim (append_to_tail roomy.buffers bytes) [
      | ok buffers ↦
          (record roomy { buffers = buffers; packet_count = roomy.packet_count + 1 }, ok tt)
      | err e ↦ (roomy, err e)
    ]

-- `swap`: both batches, or the exception.
pub swap_receive : ReceiveBatch → ReceiveBatch → Result Fault (ReceiveBatch × ReceiveBatch)
swap_receive a b = if a.pool == b.pool then ok (b, a) else err logic_error

module _ {S : Type 0} (callback : List ℕ → S → S) where
  -- `forEachPacket`: the packets of one buffer from `index` on, `rounds` of them.
  pub visit_packets : ℕ → ℕ → ReceiveBuffer → S → S
  visit_packets zero index b s = s
  visit_packets (suc rounds) index b s = elim (get_packet b index) [
    | ok packet ↦ visit_packets rounds (index + 1) b (callback (packet_data b packet) s)
    | err e ↦ s
  ]

  pub visit_buffers : List ReceiveBuffer → S → S
  visit_buffers [] s = s
  visit_buffers (b ∷ bs) s = visit_buffers bs (visit_packets (length b.packets) 0 b s)

  pub for_each_packet : ReceiveBatch → S → S
  for_each_packet batch s = visit_buffers batch.buffers s

pub record StreamReceiveBatch : Type 0 where
  pub pool : ℕ
  pub buffers : List StreamReceiveBuffer
  pub byte_count : ℕ
  pub buffer_count : ℕ

abbrev pub empty_stream_batch : ℕ → StreamReceiveBatch
empty_stream_batch pool = record { pool = pool; buffers = []; byte_count = 0; buffer_count = 0 }

-- `tail_ && tail_->getAvailable() != 0`.
pub tail_has_room : List StreamReceiveBuffer → Bool
tail_has_room [] = false
tail_has_room (b ∷ []) = not (available b == 0)
tail_has_room (b ∷ c ∷ bs) = tail_has_room (c ∷ bs)

pub append_stream_tail : List StreamReceiveBuffer → List ℕ → ℕ × List StreamReceiveBuffer
append_stream_tail [] bytes = (0, [])
append_stream_tail (b ∷ []) bytes = let (copied, c) = append_stream b bytes in (copied, c ∷ [])
append_stream_tail (b ∷ c ∷ bs) bytes =
    let (copied, cs) = append_stream_tail (c ∷ bs) bytes in (copied, b ∷ cs)

pub with_stream_room : StreamReceiveBatch → StreamReceiveBatch
with_stream_room batch = if tail_has_room batch.buffers then batch else record batch {
  buffers = batch.buffers ++ empty_stream_buffer ∷ [];
  buffer_count = batch.buffer_count + 1;
}

-- One round of the loop of `StreamReceiveBatch::append`: how much was copied, and the batch.
pub append_round : StreamReceiveBatch → List ℕ → ℕ × StreamReceiveBatch
append_round batch bytes =
    let roomy = with_stream_room batch in
    let (copied, buffers) = append_stream_tail roomy.buffers bytes in
    (copied, record roomy { buffers = buffers; byte_count = roomy.byte_count + copied })

-- `while (offset < size)`, over the bytes that are left; each round takes fuel.
pub append_loop : ℕ → StreamReceiveBatch → List ℕ → StreamReceiveBatch × Result Fault (Unit {0})
append_loop zero batch bytes = (batch, err logic_error)
append_loop (suc fuel) batch [] = (batch, ok tt)
append_loop (suc fuel) batch (x ∷ xs) =
    let (copied, next) = append_round batch (x ∷ xs) in
    let rest = append_loop fuel next (drop copied (x ∷ xs)) in
    if copied == 0 then (next, err logic_error) else rest

-- `StreamReceiveBatch::append`: a round copies a byte at least, so the bytes bound the rounds.
unfoldable pub append_bytes :
    StreamReceiveBatch → List ℕ → StreamReceiveBatch × Result Fault (Unit {0})
append_bytes batch bytes = append_loop (length bytes + 1) batch bytes

-- `appendBatch`: this batch with all buffers, and the other one empty.
pub append_batch :
    StreamReceiveBatch → StreamReceiveBatch → Result Fault (StreamReceiveBatch × StreamReceiveBatch)
append_batch a b =
    if not (a.pool == b.pool)
    then err logic_error
    else if is_empty b.buffers
    then ok (a, b)
    else ok (
      record a {
        buffers = a.buffers ++ b.buffers;
        byte_count = a.byte_count + b.byte_count;
        buffer_count = a.buffer_count + b.buffer_count;
      },
      record b { buffers = []; byte_count = 0; buffer_count = 0 },
    )

pub swap_stream :
    StreamReceiveBatch → StreamReceiveBatch → Result Fault (StreamReceiveBatch × StreamReceiveBatch)
swap_stream a b = if a.pool == b.pool then ok (b, a) else err logic_error

-- The loop of `copyTo`: what it writes; its length is the final offset.
pub gather : List StreamReceiveBuffer → List ℕ
gather [] = []
gather (b ∷ bs) = if is_empty b.payload then gather bs else b.payload ++ gather bs

-- `copyTo`: what the destination's first bytes become. `destination` says that it is not null.
pub copy_to : StreamReceiveBatch → Bool → ℕ → Result Fault (List ℕ)
copy_to batch destination capacity =
    if ltb capacity batch.byte_count
    then err length_error
    else if not (batch.byte_count == 0) && not destination
    then err invalid_argument
    else if not (length (gather batch.buffers) == batch.byte_count)
    then err logic_error
    else ok (gather batch.buffers)
