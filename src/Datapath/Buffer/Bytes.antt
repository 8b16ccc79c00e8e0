-- ===== src/Datapath/Buffer/Bytes.antt =====
-- StreamReceiveBuffer::append (native/datapath/Buffer.cpp).
use ffl_p2p.Prelude.{
  ℕ, ◌≤◌, min, ◌≡◌, refl, sym, List, [], ◌∷◌, ◌++◌, arith, length, take, append-nil, length-append,
  length-take, ◌==◌, Bool-cases, inl, inr,
}
use ffl_p2p.Datapath.Buffer.{
  StreamReceiveBuffer, available, append_stream, stream_receive_buffer_payload_size,
}

abbrev pub Fits : StreamReceiveBuffer → Type 0
Fits b = length b.payload ≤ stream_receive_buffer_payload_size

-- The longest prefix that fits is copied behind what is there, and its length is returned.
pub append_stream_lem :
    (b : StreamReceiveBuffer) (bytes : List ℕ)
    → Fits b
    → let (copied, c) = append_stream b bytes in
      (copied ≡ min (length bytes) (available b))
      × (c.payload ≡ b.payload ++ take copied bytes)
      × Fits c
unfolding append_stream available
append_stream_lem b [] v = (omega arith, sym (append-nil b.payload), v)
append_stream_lem b (x ∷ xs) v =
    let n : ℕ = min (length (x ∷ xs)) (available b) in
    elim (Bool-cases (n == 0)) [
      | inl none_copied ↦ rw none_copied (ground arith, sym (append-nil b.payload), v)
      | inr copied ↦ rw copied (
        refl,
        refl,
        omega (arith, length-append b.payload (take n (x ∷ xs)), length-take n (x ∷ xs)),
      )
    ]
