-- ===== src/Datapath/Batch/Stream.antt =====
-- StreamReceiveBatch (native/datapath/Buffer.cpp) as the sequence of its bytes.
use ffl_p2p.Prelude.{
  ℕ, zero, suc, ◌+◌, ◌≤◌, ◌<◌, ◌≡◌, refl, sym, ap, ◌∙◌, Bool, true, false, inl, inr, List, [], ◌∷◌,
  ◌++◌, append_assoc, append-nil, arith, length, take, drop, ◌==◌, is_empty, ok, err, length-append,
  length-take, length-drop, Bool-cases, take-append-drop,
}
use ffl_p2p.Datapath.Buffer.{
  length_error, invalid_argument, StreamReceiveBuffer, empty_stream_buffer, available,
}
use ffl_p2p.Datapath.Buffer.Bytes.{Fits, append_stream_lem}
use ffl_p2p.Datapath.Batch.{
  StreamReceiveBatch, tail_has_room, append_stream_tail, with_stream_room, append_round,
  append_loop, append_bytes, append_batch, gather, copy_to,
}

abbrev pub AllFit : List StreamReceiveBuffer → Type 0
AllFit [] = Unit {0}
AllFit (b ∷ bs) = Fits b × AllFit bs

abbrev pub bytes_in : List StreamReceiveBuffer → List ℕ
bytes_in [] = []
bytes_in (b ∷ bs) = b.payload ++ bytes_in bs

abbrev pub contents : StreamReceiveBatch → List ℕ
contents batch = bytes_in batch.buffers

pub record IsValid (batch : StreamReceiveBatch) : Type 0 where
  pub buffers : AllFit batch.buffers
  pub bytes : batch.byte_count ≡ length (contents batch)
  pub counted : batch.buffer_count ≡ length batch.buffers

AllFit-snoc_empty :
    (bs : List StreamReceiveBuffer) → AllFit bs → AllFit (bs ++ empty_stream_buffer ∷ [])
AllFit-snoc_empty [] v = (omega arith, tt)
AllFit-snoc_empty (b ∷ bs) v = (v.0, AllFit-snoc_empty bs v.1)

bytes_in-snoc_empty :
    (bs : List StreamReceiveBuffer) → bytes_in (bs ++ empty_stream_buffer ∷ []) ≡ bytes_in bs
bytes_in-snoc_empty [] = refl
bytes_in-snoc_empty (b ∷ bs) = ap (◌++◌ b.payload) (bytes_in-snoc_empty bs)

tail_has_room-snoc_empty :
    (bs : List StreamReceiveBuffer) → tail_has_room (bs ++ empty_stream_buffer ∷ []) ≡ true
unfolding tail_has_room available
tail_has_room-snoc_empty [] = refl
tail_has_room-snoc_empty (b ∷ []) = refl
tail_has_room-snoc_empty (b ∷ c ∷ bs) = tail_has_room-snoc_empty (c ∷ bs)

with_stream_room-IsValid :
    (batch : StreamReceiveBatch)
    → IsValid batch
    → let roomy = with_stream_room batch in
      IsValid roomy
      × (contents roomy ≡ contents batch)
      × (tail_has_room roomy.buffers ≡ true)
      × (roomy.pool ≡ batch.pool)
unfolding with_stream_room
with_stream_room-IsValid batch v = elim (Bool-cases (tail_has_room batch.buffers)) [
  | inl room ↦ rw room (v, refl, room, refl)
  | inr full ↦
      let same = bytes_in-snoc_empty batch.buffers in
      rw full (
        record {
          buffers = AllFit-snoc_empty batch.buffers v.buffers;
          bytes = v.bytes ∙ ap length (sym same);
          counted =
              omega (arith, v.counted, length-append batch.buffers (empty_stream_buffer ∷ []));
        },
        same,
        tail_has_room-snoc_empty batch.buffers,
        refl,
      )
]

-- The tail takes a non-empty prefix of the bytes.
append_stream_tail_lem :
    (bs : List StreamReceiveBuffer) (bytes : List ℕ)
    → AllFit bs
    → 0 < length bytes
    → tail_has_room bs ≡ true
    → let (copied, cs) = append_stream_tail bs bytes in
      (0 < copied)
      × (copied ≤ length bytes)
      × AllFit cs
      × (bytes_in cs ≡ bytes_in bs ++ take copied bytes)
      × (length cs ≡ length bs)
unfolding append_stream_tail tail_has_room
append_stream_tail_lem [] bytes v pos room = cc
append_stream_tail_lem (b ∷ []) bytes v pos room =
    let (n, all, fits) = append_stream_lem b bytes v.0 in
    (ground arith, omega arith, (fits, tt), rw (append-nil, append-nil) all, refl)
append_stream_tail_lem (b ∷ c ∷ bs) bytes v pos room =
    let (some_copied, most, fits, all, size) = append_stream_tail_lem (c ∷ bs) bytes v.1 pos room in
    (
      some_copied,
      most,
      (v.0, fits),
      ap (◌++◌ b.payload) all
          ∙ sym (
              append_assoc b.payload (bytes_in (c ∷ bs))
                (take (append_stream_tail (c ∷ bs) bytes).0 bytes)),
      ap suc size,
    )

append_round_lem :
    (batch : StreamReceiveBatch) (bytes : List ℕ)
    → IsValid batch
    → 0 < length bytes
    → let (copied, after) = append_round batch bytes in
      (0 < copied)
      × (copied ≤ length bytes)
      × IsValid after
      × (contents after ≡ contents batch ++ take copied bytes)
      × (after.pool ≡ batch.pool)
unfolding append_round
append_round_lem batch bytes v pos =
    let roomy = with_stream_room batch in
    let (valid, same, room, pool) = with_stream_room-IsValid batch v in
    let (some_copied, most, fits, all, size) =
      append_stream_tail_lem roomy.buffers bytes valid.buffers pos room in
    (
      some_copied,
      most,
      record {
        buffers = fits;
        bytes = omega (
          arith,
          valid.bytes,
          ap length all,
          length-append (contents roomy) (take (append_stream_tail roomy.buffers bytes).0 bytes),
          length-take (append_stream_tail roomy.buffers bytes).0 bytes,
        );
        counted = valid.counted ∙ sym size;
      },
      all ∙ ap (λ l. l ++ take (append_stream_tail roomy.buffers bytes).0 bytes) same,
      pool,
    )

append_loop_lem :
    (fuel : ℕ) (batch : StreamReceiveBatch) (bytes : List ℕ)
    → IsValid batch
    → length bytes < fuel
    → let (after, result) = append_loop fuel batch bytes in
      (result ≡ ok tt)
      × IsValid after
      × (contents after ≡ contents batch ++ bytes)
      × (after.pool ≡ batch.pool)
unfolding append_loop
append_loop_lem zero batch bytes v h = absurd (omega arith)
append_loop_lem (suc fuel) batch [] v h = (refl, v, sym (append-nil (contents batch)), refl)
append_loop_lem (suc fuel) batch (x ∷ xs) v h =
    let bytes : List ℕ = x ∷ xs in
    let (some_copied, most, valid, all, pool) = append_round_lem batch (x ∷ xs) v (omega arith) in
    let copied = (append_round batch bytes).0 in
    let progress : (copied == 0) ≡ false = ground arith in
    let (result, fine, rest, same) =
      append_loop_lem fuel (append_round batch bytes).1 (drop copied bytes) valid
        (omega (arith, length-drop copied bytes)) in
    rw progress (
      result,
      fine,
      rest
          ∙ ap (λ l. l ++ drop copied bytes) all
          ∙ append_assoc (contents batch) (take copied bytes) (drop copied bytes)
          ∙ ap (◌++◌ (contents batch)) (take-append-drop copied bytes),
      same ∙ pool,
    )

-- Whatever the bytes and however the buffers are filled, `append` ends, throws nothing, and puts
-- exactly these bytes behind those of the batch; the counters follow.
pub append_bytes-contents :
    (batch : StreamReceiveBatch) (bytes : List ℕ)
    → IsValid batch
    → let (after, result) = append_bytes batch bytes in
      (result ≡ ok tt)
      × IsValid after
      × (contents after ≡ contents batch ++ bytes)
      × (after.pool ≡ batch.pool)
unfolding append_bytes
append_bytes-contents batch bytes v = append_loop_lem (length bytes + 1) batch bytes v (omega arith)

AllFit-append : (xs ys : List StreamReceiveBuffer) → AllFit xs → AllFit ys → AllFit (xs ++ ys)
AllFit-append [] ys v w = w
AllFit-append (x ∷ xs) ys v w = (v.0, AllFit-append xs ys v.1 w)

bytes_in-append :
    (xs ys : List StreamReceiveBuffer) → bytes_in (xs ++ ys) ≡ bytes_in xs ++ bytes_in ys
bytes_in-append [] ys = refl
bytes_in-append (x ∷ xs) ys =
    ap (◌++◌ x.payload) (bytes_in-append xs ys)
    ∙ sym (append_assoc x.payload (bytes_in xs) (bytes_in ys))

length-nil {ℓ} : {A : Type ℓ} (xs : List A) → length xs ≡ 0 → xs ≡ []
length-nil [] e = refl
length-nil (x ∷ xs) e = absurd (omega arith)

is_empty-nil {ℓ} : {A : Type ℓ} (xs : List A) → is_empty xs ≡ true → xs ≡ []
is_empty-nil [] e = refl
is_empty-nil (x ∷ xs) e = cc

-- `appendBatch` over one pool moves all bytes behind this batch's and leaves the other one empty.
pub append_batch-contents :
    (a b : StreamReceiveBatch)
    → IsValid a
    → IsValid b
    → a.pool ≡ b.pool
    → (c d : StreamReceiveBatch) × (append_batch a b ≡ ok (c, d))
      × IsValid c
      × IsValid d
      × (contents c ≡ contents a ++ contents b)
      × (contents d ≡ [])
      × (c.pool ≡ a.pool)
unfolding append_batch
append_batch-contents a b v w e = elim (Bool-cases (is_empty b.buffers)) [
  | inl nothing ↦
      let none_there : contents b ≡ [] = ap bytes_in (is_empty-nil b.buffers nothing) in
      (
        a,
        b,
        ground arith,
        v,
        w,
        sym (append-nil (contents a)) ∙ ap (◌++◌ (contents a)) (sym none_there),
        none_there,
        refl,
      )
  | inr something ↦ (
    record a {
      buffers = a.buffers ++ b.buffers;
      byte_count = a.byte_count + b.byte_count;
      buffer_count = a.buffer_count + b.buffer_count;
    },
    record b { buffers = []; byte_count = 0; buffer_count = 0 },
    ground arith,
    record {
      buffers = AllFit-append a.buffers b.buffers v.buffers w.buffers;
      bytes = omega (
        arith,
        v.bytes,
        w.bytes,
        ap length (bytes_in-append a.buffers b.buffers),
        length-append (contents a) (contents b),
      );
      counted = omega (arith, v.counted, w.counted, length-append a.buffers b.buffers);
    },
    omega arith,
    bytes_in-append a.buffers b.buffers,
    refl,
    refl,
  )
]

gather-bytes_in : (bs : List StreamReceiveBuffer) → gather bs ≡ bytes_in bs
unfolding gather
gather-bytes_in [] = refl
gather-bytes_in (b ∷ bs) = elim (Bool-cases (is_empty b.payload)) [
  | inl none_there ↦
      rw (none_there, gather)
        (gather-bytes_in bs ∙ sym (ap (λ l. l ++ bytes_in bs) (is_empty-nil b.payload none_there)))
  | inr some_there ↦ rw (some_there, gather) (ap (◌++◌ b.payload) (gather-bytes_in bs))
]

-- `copyTo` writes exactly the batch's bytes into a destination that is not null and large enough,
-- and throws where it is too small, and where it is null though there are bytes.
pub copy_to-contents :
    (batch : StreamReceiveBatch) (capacity : ℕ)
    → IsValid batch
    → (length (contents batch) ≤ capacity → copy_to batch true capacity ≡ ok (contents batch))
      × (capacity < length (contents batch)
          → (destination : Bool) → copy_to batch destination capacity ≡ err length_error)
      × (length (contents batch) ≤ capacity
          → 0 < length (contents batch)
          → copy_to batch false capacity ≡ err invalid_argument)
unfolding copy_to
copy_to-contents batch capacity v =
    let all = gather-bytes_in batch.buffers in
    let count = v.bytes in
    (λ h. rw (all, copy_to) (ground arith), λ h d. ground arith, λ h k. ground arith)

pub contents-empty :
    (batch : StreamReceiveBatch) → IsValid batch → batch.byte_count ≡ 0 → contents batch ≡ []
contents-empty batch v e = length-nil (contents batch) (sym v.bytes ∙ e)
