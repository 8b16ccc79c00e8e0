-- ===== src/Datapath/Buffer.antt =====
-- ReceiveBuffer and StreamReceiveBuffer of native/datapath/Buffer.h and Buffer.cpp.
-- `payload` is the first payloadSize_ bytes of the array, and `packets` the first packetCount_
-- entries of theirs: what lies behind is never read. `next_` is the order of a batch's buffers, or
-- of the pool's free list. Data is `none` for a null pointer.
pub mod Datagrams
pub mod Bytes
mod Tests
use ffl_p2p.Prelude.{
  ℕ, ◌+◌, ◌-◌, ◌*◌, ◌%◌, ◌^◌, min, Bool, true, false, not, ◌&&◌, ◌||◌, Option, none, some, List, [],
  ◌∷◌, ◌++◌, length, get_elem?, take, drop, ltb, leb, ◌==◌, if◌then◌else◌, is_empty, Result, ok,
  err,
}

abbrev pub receive_buffer_payload_size : ℕ
receive_buffer_payload_size = 64 * 1024

abbrev pub receive_packets_per_buffer : ℕ
receive_packets_per_buffer = 64

abbrev pub stream_receive_buffer_payload_size : ℕ
stream_receive_buffer_payload_size = 64 * 1024

abbrev pub uint16_max : ℕ
uint16_max = 65535

-- The exceptions of the buffers.
pub data Fault : Type 0 where
  invalid_argument length_error out_of_range logic_error : Fault

pub record ReceivePacket : Type 0 where
  pub offset : ℕ
  pub size : ℕ

pub record ReceiveBuffer : Type 0 where
  pub payload : List ℕ
  pub packets : List ReceivePacket

-- After `reset`, and when a buffer comes from the pool.
abbrev pub empty_receive_buffer : ReceiveBuffer
empty_receive_buffer = record { payload = []; packets = [] }

unfoldable pub can_append : ReceiveBuffer → ℕ → Bool
can_append b size =
    if ltb uint16_max size || ltb receive_buffer_payload_size size
    then false
    else if leb receive_packets_per_buffer (length b.packets)
    then false
    else leb size (receive_buffer_payload_size - length b.payload)

-- `static_cast<uint16_t>`.
abbrev pub to_uint16 : ℕ → ℕ
to_uint16 n = n % 2 ^ 16

abbrev append_bytes : ReceiveBuffer → List ℕ → Result Fault ReceiveBuffer
append_bytes b bytes =
    if is_empty bytes
    then err invalid_argument
    else if not (can_append b (length bytes))
    then err length_error
    else ok (record { payload = b.payload ++ bytes; packets = b.packets ++ packet ∷ [] })
  where
    packet : ReceivePacket
    packet = record { offset = to_uint16 (length b.payload); size = to_uint16 (length bytes) }

unfoldable pub append_packet : ReceiveBuffer → Option (List ℕ) → Result Fault ReceiveBuffer
append_packet b none = err invalid_argument
append_packet b (some bytes) = append_bytes b bytes

abbrev or_out_of_range : Option ReceivePacket → Result Fault ReceivePacket
or_out_of_range none = err out_of_range
or_out_of_range (some packet) = ok packet

pub get_packet : ReceiveBuffer → ℕ → Result Fault ReceivePacket
get_packet b index =
    if leb (length b.packets) index
    then err out_of_range
    else or_out_of_range (get_elem? b.packets index)

-- The bytes that a reader of the packet sees: `length` of them, from its offset on.
unfoldable pub packet_data : ReceiveBuffer → ReceivePacket → List ℕ
packet_data b packet = take packet.size (drop packet.offset b.payload)

pub record StreamReceiveBuffer : Type 0 where
  pub payload : List ℕ

abbrev pub empty_stream_buffer : StreamReceiveBuffer
empty_stream_buffer = record { payload = [] }

unfoldable pub available : StreamReceiveBuffer → ℕ
available b = stream_receive_buffer_payload_size - length b.payload

-- `append` copies what fits, and returns how much that was.
pub append_stream : StreamReceiveBuffer → List ℕ → ℕ × StreamReceiveBuffer
append_stream b bytes =
    let copied = min (length bytes) (available b) in
    if is_empty bytes
    then (0, b)
    else if copied == 0
    then (0, b)
    else (copied, record { payload = b.payload ++ take copied bytes })
