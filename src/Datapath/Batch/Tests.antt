-- ===== src/Datapath/Batch/Tests.antt =====
-- A batch of one datagram, and two batches of stream bytes.
use ffl_p2p.Prelude.{suc, ◌≡◌, refl, [], ◌∷◌, arith, ok}
use ffl_p2p.Datapath.Batch.{ReceiveBatch, for_each_packet, StreamReceiveBatch, append_bytes}
use ffl_p2p.Datapath.Batch.Packets
use ffl_p2p.Datapath.Batch.Packets.{append_receive-contents, for_each_packet-each, each}
use ffl_p2p.Datapath.Batch.Stream
use ffl_p2p.Datapath.Batch.Stream.{append_bytes-contents, append_batch-contents}

abbrev one_packet : ReceiveBatch
one_packet = record {
  pool = 0;
  buffers = record { payload = 1 ∷ 2 ∷ []; packets = record { offset = 0; size = 2 } ∷ [] } ∷ [];
  packet_count = 1;
  buffer_count = 1;
}

one_packet-IsValid : Packets.IsValid one_packet
one_packet-IsValid = record {
  buffers = (
    record { payload_fits = omega arith; packets_fit = omega arith; within = (omega arith, tt) },
    tt,
  );
  packets = refl;
  counted = refl;
}

for_each_packet-each_example :
    for_each_packet (λ bytes n. suc n) one_packet 0
    ≡ each (λ bytes n. suc n) (Packets.contents one_packet.buffers) 0
for_each_packet-each_example = for_each_packet-each (λ bytes n. suc n) one_packet 0

abbrev two_bytes : StreamReceiveBatch
two_bytes = record {
  pool = 0;
  buffers = record { payload = 1 ∷ 2 ∷ [] } ∷ [];
  byte_count = 2;
  buffer_count = 1;
}

two_bytes-IsValid : Stream.IsValid two_bytes
two_bytes-IsValid = record { buffers = (omega arith, tt); bytes = refl; counted = refl }

append_bytes-contents_example :
    let (after, result) = append_bytes two_bytes (3 ∷ []) in
    (result ≡ ok tt)
    × Stream.IsValid after
    × (Stream.contents after ≡ 1 ∷ 2 ∷ 3 ∷ [])
    × (after.pool ≡ 0)
append_bytes-contents_example = append_bytes-contents two_bytes (3 ∷ []) two_bytes-IsValid
