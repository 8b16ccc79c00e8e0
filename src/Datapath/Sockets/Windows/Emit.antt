-- ===== src/Datapath/Sockets/Windows/Emit.antt =====
-- `emitPending` of native/datapath/DatapathWindows.cpp.
use ffl_p2p.Prelude.{
  ℕ, zero, suc, ◌-◌, ◌<◌, ◌≡◌, refl, sym, ap, ◌∙◌, ◌⊎◌, inl, inr, min, true, ◌||◌, List, [], ◌∷◌,
  map, length, take, drop, ◌==◌, arith, if_cases, drop-drop, drop-nil, length-take, length-drop,
}
use ffl_p2p.Datapath.Sockets.{Datagram}
use ffl_p2p.Datapath.Sockets.Windows.{
  WindowsDatapathBackend, front, without_front, emit_loop, clear_emitted, emit_pending,
}
use ffl_p2p.Datapath.Sockets.Windows.Segments.{
  segments, pending, to_datagram, waiting, IsValid, segments_fuel, take-take, drop-min, take-nil,
}

length-pending : (b : WindowsDatapathBackend) → IsValid b → length (pending b) ≡ b.pending_bytes
length-pending b v = omega (
  arith,
  length-take b.pending_bytes (drop b.pending_offset b.receive_buffer),
  length-drop b.pending_offset b.receive_buffer,
  v.inside,
)

segments-cons :
    (n size : ℕ) (bytes : List ℕ)
    → 0 < length bytes
    → segments (suc n) size bytes ≡ take size bytes ∷ segments n size (drop size bytes)
segments-cons n size [] p = absurd (omega arith)
segments-cons n size (x ∷ xs) p = refl

pending-without_front :
    (b : WindowsDatapathBackend)
    → drop b.pending_segment_size (pending b) ≡ pending (without_front b)
pending-without_front b =
    let n = min b.pending_segment_size b.pending_bytes in
    drop-min b.pending_segment_size b.pending_bytes (drop b.pending_offset b.receive_buffer)
    ∙ ap (take (b.pending_bytes - n)) (drop-drop n b.pending_offset b.receive_buffer)

positive : {n m : ℕ} (k : ℕ) → n ≡ 0 ⊎ 0 < m → n - k ≡ 0 ⊎ 0 < m
positive k (inl e) = inl (omega arith)
positive k (inr p) = inr p

without_front-IsValid : (b : WindowsDatapathBackend) → IsValid b → IsValid (without_front b)
without_front-IsValid b v = record {
  inside = omega (arith, v.inside);
  segment = positive _ v.segment;
}

waiting-front :
    (b : WindowsDatapathBackend)
    → IsValid b
    → 0 < b.pending_bytes
    → waiting b ≡ front b ∷ waiting (without_front b)
waiting-front b v p =
    let size = b.pending_segment_size in
    let left = b.pending_bytes - min size b.pending_bytes in
    let there = length-pending b v in
    let shorter = length-drop size (pending b) in
    let cut : 0 < size = ground arith in
    ap (map (to_datagram b.pending_address)) (
      segments_fuel b.pending_bytes (suc b.pending_bytes) size (pending b) cut (omega arith)
        (omega arith)
      ∙ segments-cons b.pending_bytes size (pending b) (omega arith)
      ∙ ap (◌∷ segments b.pending_bytes size (drop size (pending b)))
          (take-take size b.pending_bytes _)
      ∙ ap ((front b).bytes ∷◌) (
          segments_fuel b.pending_bytes left size (drop size (pending b)) cut (omega arith)
            (omega arith)
          ∙ ap (segments left size) (pending-without_front b)))

waiting-nil : (b : WindowsDatapathBackend) → b.pending_bytes ≡ 0 → waiting b ≡ []
waiting-nil b e =
    ap (λ n. map (to_datagram b.pending_address) (segments n b.pending_segment_size (pending b))) e

-- The first `room` of the waiting datagrams are given, and the others are left.
abbrev pub Emits : ℕ → WindowsDatapathBackend → List Datagram × WindowsDatapathBackend → Type 0
Emits room b (ds, b') =
    (ds ≡ take room (waiting b)) × (waiting b' ≡ drop room (waiting b)) × IsValid b'

emit_loop_lem :
    (room : ℕ) (b : WindowsDatapathBackend) → IsValid b → Emits room b (emit_loop room b)
unfolding emit_loop
emit_loop_lem zero b v = (refl, refl, v)
emit_loop_lem (suc room) b v =
    if_cases {A = List Datagram × WindowsDatapathBackend} (Emits (suc room) b)
      (b.pending_bytes == 0)
      (λ h.
        let e = waiting-nil b (ground arith) in
        (sym (ap (take (suc room)) e), e ∙ sym (ap (drop (suc room)) e), v))
      (λ h.
        let e = waiting-front b v (ground arith) in
        let (given, kept, valid) =
          emit_loop_lem room (without_front b) (without_front-IsValid b v) in
        (
          ap (front b ∷◌) given ∙ sym (ap (take (suc room)) e),
          kept ∙ sym (ap (drop (suc room)) e),
          valid,
        ))

no_bytes :
    {b : WindowsDatapathBackend}
    → IsValid b
    → b.pending_bytes == 0 || b.pending_segment_size == 0 ≡ true
    → b.pending_bytes ≡ 0
no_bytes v h = ground arith

clear_emitted-IsValid : (b : WindowsDatapathBackend) → IsValid b → IsValid (clear_emitted b)
clear_emitted-IsValid b v = ground arith

clear_emitted-waiting : (b : WindowsDatapathBackend) → waiting (clear_emitted b) ≡ waiting b
clear_emitted-waiting b =
    if_cases (λ x. waiting x ≡ waiting b) (b.pending_bytes == 0)
      (λ h.
        waiting-nil
          (record b { pending_offset = 0; pending_segment_size = 0; pending_address = [] })
          (ground arith)
        ∙ sym (waiting-nil b (ground arith)))
      (λ h. refl)

nothing-Emits :
    (capacity : ℕ) (b : WindowsDatapathBackend)
    → IsValid b
    → b.pending_bytes ≡ 0
    → Emits capacity b ([], b)
nothing-Emits capacity b v e =
    let q = waiting-nil b e in
    (
      sym (take-nil capacity) ∙ sym (ap (take capacity) q),
      q ∙ sym (drop-nil capacity) ∙ sym (ap (drop capacity) q),
      v,
    )

-- While its pending bytes lie in the buffer and their segments are not empty, a backend gives the
-- first `capacity` of the datagrams that wait, cut from those bytes one segment size after the other,
-- each with its address; exactly the others still wait after it.
pub emit_pending-Emits :
    (capacity : ℕ) (b : WindowsDatapathBackend)
    → IsValid b
    → Emits capacity b (emit_pending capacity b)
unfolding emit_pending
emit_pending-Emits capacity b v =
    if_cases {A = List Datagram × WindowsDatapathBackend} (Emits capacity b)
      (b.pending_bytes == 0 || b.pending_segment_size == 0)
      (λ h. nothing-Emits capacity b v (no_bytes v h))
      (λ h.
        let (given, kept, valid) = emit_loop_lem capacity b v in
        let b' = (emit_loop capacity b).1 in
        (given, clear_emitted-waiting b' ∙ kept, clear_emitted-IsValid b' valid))
