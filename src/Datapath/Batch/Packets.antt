-- ===== src/Datapath/Batch/Packets.antt =====
-- ReceiveBatch (native/datapath/Buffer.cpp) as the list of its datagrams.
use ffl_p2p.Prelude.{
  ℕ, zero, suc, ◌+◌, ◌≤◌, ◌<◌, ◌≡◌, refl, sym, ap, ◌∙◌, true, inl, inr, some, List, [], ◌∷◌, ◌++◌,
  append_assoc, append-nil, arith, length, get_elem?, drop, ok, length-append, Bool-cases,
  drop-length,
}
use ffl_p2p.Datapath.Buffer.{
  ReceiveBuffer, empty_receive_buffer, can_append, packet_data, uint16_max,
}
use ffl_p2p.Datapath.Buffer.Datagrams
use ffl_p2p.Datapath.Buffer.Datagrams.{
  datagrams, datagrams_in, append_packet-datagrams, can_append_iff, get_packet-found,
}
use ffl_p2p.Datapath.Batch.{
  ReceiveBatch, tail_can_append, append_to_tail, with_room, append_receive, visit_packets,
  visit_buffers, for_each_packet,
}

abbrev pub AllValid : List ReceiveBuffer → Type 0
AllValid [] = Unit {0}
AllValid (b ∷ bs) = Datagrams.IsValid b × AllValid bs

abbrev pub contents : List ReceiveBuffer → List (List ℕ)
contents [] = []
contents (b ∷ bs) = datagrams b ++ contents bs

pub record IsValid (batch : ReceiveBatch) : Type 0 where
  pub buffers : AllValid batch.buffers
  pub packets : batch.packet_count ≡ length (contents batch.buffers)
  pub counted : batch.buffer_count ≡ length batch.buffers

empty-IsValid : Datagrams.IsValid empty_receive_buffer
empty-IsValid = omega arith

pub empty-can_append : (n : ℕ) → n ≤ uint16_max → can_append empty_receive_buffer n ≡ true
empty-can_append n h = (can_append_iff empty_receive_buffer n empty-IsValid).1 (omega arith)

pub tail_can_append-snoc :
    (bs : List ReceiveBuffer) (b : ReceiveBuffer) (n : ℕ)
    → tail_can_append (bs ++ b ∷ []) n ≡ can_append b n
unfolding tail_can_append
tail_can_append-snoc [] b n = refl
tail_can_append-snoc (c ∷ []) b n = refl
tail_can_append-snoc (c ∷ d ∷ bs) b n = tail_can_append-snoc (d ∷ bs) b n

AllValid-snoc :
    (bs : List ReceiveBuffer) (b : ReceiveBuffer)
    → AllValid bs
    → Datagrams.IsValid b
    → AllValid (bs ++ b ∷ [])
AllValid-snoc [] b v w = (w, tt)
AllValid-snoc (c ∷ bs) b v w = (v.0, AllValid-snoc bs b v.1 w)

contents-snoc_empty :
    (bs : List ReceiveBuffer) → contents (bs ++ empty_receive_buffer ∷ []) ≡ contents bs
contents-snoc_empty [] = refl
contents-snoc_empty (b ∷ bs) = ap (◌++◌ (datagrams b)) (contents-snoc_empty bs)

with_room-pool : (batch : ReceiveBatch) (n : ℕ) → (with_room batch n).pool ≡ batch.pool
unfolding with_room
with_room-pool batch n = ground arith

with_room-IsValid :
    (batch : ReceiveBatch) (n : ℕ)
    → IsValid batch
    → n ≤ uint16_max
    → let roomy = with_room batch n in
      IsValid roomy
      × (contents roomy.buffers ≡ contents batch.buffers)
      × (tail_can_append roomy.buffers n ≡ true)
unfolding with_room
with_room-IsValid batch n v h = elim (Bool-cases (tail_can_append batch.buffers n)) [
  | inl room ↦ rw room (v, refl, room)
  | inr full ↦
      let same = contents-snoc_empty batch.buffers in
      rw full (
        record {
          buffers = AllValid-snoc batch.buffers empty_receive_buffer v.buffers empty-IsValid;
          packets = v.packets ∙ ap length (sym same);
          counted =
              omega (arith, v.counted, length-append batch.buffers (empty_receive_buffer ∷ []));
        },
        same,
        tail_can_append-snoc batch.buffers empty_receive_buffer n ∙ empty-can_append n h,
      )
]

append_to_tail-contents :
    (bs : List ReceiveBuffer) (bytes : List ℕ)
    → AllValid bs
    → 0 < length bytes
    → tail_can_append bs (length bytes) ≡ true
    → (cs : List ReceiveBuffer) × (append_to_tail bs (some bytes) ≡ ok cs)
      × AllValid cs
      × (contents cs ≡ contents bs ++ bytes ∷ [])
      × (length cs ≡ length bs)
unfolding append_to_tail tail_can_append
append_to_tail-contents [] bytes v pos room = cc
append_to_tail-contents (b ∷ []) bytes v pos room =
    let (c, run, valid, all) = append_packet-datagrams b bytes v.0 pos room in
    (c ∷ [], rw (run, append_to_tail), (valid, tt), rw (append-nil, append-nil) all, refl)
append_to_tail-contents (b ∷ c ∷ bs) bytes v pos room =
    let (cs, run, valid, all, size) = append_to_tail-contents (c ∷ bs) bytes v.1 pos room in
    (
      b ∷ cs,
      rw (run, append_to_tail),
      (v.0, valid),
      ap (◌++◌ (datagrams b)) all
          ∙ sym (append_assoc (datagrams b) (contents (c ∷ bs)) (bytes ∷ [])),
      ap suc size,
    )

-- A datagram of 1 to 65535 bytes is always taken: it comes behind those that the batch holds, the
-- counters follow, and the batch stays well formed.
pub append_receive-contents :
    (batch : ReceiveBatch) (bytes : List ℕ)
    → IsValid batch
    → 0 < length bytes
    → length bytes ≤ uint16_max
    → let (after, result) = append_receive batch (some bytes) in
      (result ≡ ok tt)
      × IsValid after
      × (contents after.buffers ≡ contents batch.buffers ++ bytes ∷ [])
      × (after.pool ≡ batch.pool)
unfolding append_receive
append_receive-contents batch bytes v pos short =
    let (valid, same, room) = with_room-IsValid batch (length bytes) v short in
    let (cs, run, fine, all, size) =
      append_to_tail-contents (with_room batch (length bytes)).buffers bytes valid.buffers pos
        room in
    let total = all ∙ ap (λ l. l ++ bytes ∷ []) same in
    rw (run, append_receive)
      (
        refl,
        record {
          buffers = fine;
          packets = omega (
            arith,
            valid.packets,
            ap length all,
            length-append (contents (with_room batch (length bytes)).buffers) (bytes ∷ []),
          );
          counted = valid.counted ∙ sym size;
        },
        total,
        with_room-pool batch (length bytes),
      )

-- A callback's effect over the datagrams, first to last.
abbrev pub each : {S : Type 0} → (List ℕ → S → S) → List (List ℕ) → S → S
each callback [] s = s
each callback (d ∷ ds) s = each callback ds (callback d s)

each-append :
    {S : Type 0} (callback : List ℕ → S → S) (ds es : List (List ℕ)) (s : S)
    → each callback (ds ++ es) s ≡ each callback es (each callback ds s)
each-append callback [] es s = refl
each-append callback (d ∷ ds) es s = each-append callback ds es (callback d s)

drop-get_elem? {ℓ} :
    {A : Type ℓ} (i : ℕ) (xs : List A)
    → i < length xs
    → (x : A) × (get_elem? xs i ≡ some x) × (drop i xs ≡ x ∷ drop (i + 1) xs)
drop-get_elem? i [] h = absurd (omega arith)
drop-get_elem? zero (x ∷ xs) h = (x, refl, refl)
drop-get_elem? (suc i) (x ∷ xs) h =
    let (y, e, d) = drop-get_elem? i xs (omega arith) in
    (y, e, d ∙ ap (λ k. y ∷ drop k (x ∷ xs)) {x = suc (i + 1)} {y = suc i + 1} (omega arith))

visit_packets-each :
    {S : Type 0} (callback : List ℕ → S → S) (n i : ℕ) (b : ReceiveBuffer) (s : S)
    → i + n ≡ length b.packets
    → visit_packets callback n i b s ≡ each callback (datagrams_in b.payload (drop i b.packets)) s
unfolding visit_packets packet_data
visit_packets-each callback zero i b s e =
    sym
      (ap (λ l. each callback (datagrams_in b.payload l) s) (drop-length i b.packets (omega arith)))
visit_packets-each callback (suc n) i b s e =
    let (p, found, split) = drop-get_elem? i b.packets (omega arith) in
    let get = get_packet-found b i p found (omega arith) in
    rw (get, visit_packets)
      (visit_packets-each callback n (i + 1) b (callback (packet_data b p) s) (omega arith)
        ∙ sym (ap (λ l. each callback (datagrams_in b.payload l) s) split))

visit_buffers-each :
    {S : Type 0} (callback : List ℕ → S → S) (bs : List ReceiveBuffer) (s : S)
    → visit_buffers callback bs s ≡ each callback (contents bs) s
unfolding visit_buffers
visit_buffers-each callback [] s = refl
visit_buffers-each callback (b ∷ bs) s =
    visit_buffers-each callback bs (visit_packets callback (length b.packets) 0 b s)
    ∙ ap (each callback (contents bs))
        (visit_packets-each callback (length b.packets) 0 b s (omega arith))
    ∙ sym (each-append callback (datagrams b) (contents bs) s)

-- `forEachPacket` hands the callback every datagram of the batch, once and in order.
pub for_each_packet-each :
    {S : Type 0} (callback : List ℕ → S → S) (batch : ReceiveBatch) (s : S)
    → for_each_packet callback batch s ≡ each callback (contents batch.buffers) s
unfolding for_each_packet
for_each_packet-each callback batch s = visit_buffers-each callback batch.buffers s
