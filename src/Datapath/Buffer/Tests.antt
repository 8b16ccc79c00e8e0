-- ===== src/Datapath/Buffer/Tests.antt =====
-- One datagram in a buffer, and a second behind it; five bytes of a stream.
use ffl_p2p.Prelude.{ℕ, List, [], ◌∷◌, arith}
use ffl_p2p.Datapath.Buffer.{ReceiveBuffer, StreamReceiveBuffer}
use ffl_p2p.Datapath.Buffer.Datagrams.{IsValid}

abbrev one_datagram : ReceiveBuffer
one_datagram = record { payload = 1 ∷ 2 ∷ []; packets = record { offset = 0; size = 2 } ∷ [] }

one_datagram-IsValid : IsValid one_datagram
one_datagram-IsValid = record {
  payload_fits = omega arith;
  packets_fit = omega arith;
  within = (omega arith, tt);
}

abbrev five_bytes : List ℕ
five_bytes = 1 ∷ 2 ∷ 3 ∷ 4 ∷ 5 ∷ []

abbrev one_byte : StreamReceiveBuffer
one_byte = record { payload = 9 ∷ [] }
