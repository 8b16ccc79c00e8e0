-- ===== src/Datapath/Sockets/Windows/Receive.antt =====
-- `receiveBatch` of native/datapath/DatapathWindows.cpp.
use ffl_p2p.Prelude.{
  ℕ, zero, suc, ◌≤◌, ◌<◌, ◌≡◌, refl, ap, ◌∙◌, inr, true, false, ◌||◌, ◌&&◌, not, ltb, leb, List, [],
  ◌∷◌, ◌++◌, map, length, take, drop, ◌==◌, if◌then◌else◌, is_empty, arith, if_cases, if_true,
  if_false, take-append-drop, length-drop, take-all, some, Result, ok,
}
use ffl_p2p.Datapath.Sockets.{Datagram, ErrorNumbers, then_received}
use ffl_p2p.Datapath.Sockets.Retry.{Answers, retry_lem}
use ffl_p2p.Datapath.Sockets.Windows.{
  WindowsDatapathBackend, Control, CoalescedMessage, WindowsCalls, emit_pending,
  coalesced_segment_size, keep, finish_coalesced, receive_next, receive_ready, initialize_socket,
  receive_batch,
}
use ffl_p2p.Datapath.Sockets.Windows.Segments.{segments, to_datagram, waiting, IsValid}
use ffl_p2p.Datapath.Sockets.Windows.Emit.{Emits, emit_pending-Emits}

-- The bytes of datagrams, one after the other.
abbrev pub joined : List Datagram → List ℕ
joined [] = []
joined (d ∷ ds) = d.bytes ++ joined ds

segments-nil : (n size : ℕ) → segments n size [] ≡ []
segments-nil zero size = refl
segments-nil (suc n) size = refl

joined-segments :
    (n size : ℕ) (address bytes : List ℕ)
    → 0 < size
    → length bytes ≤ n
    → joined (map (to_datagram address) (segments n size bytes)) ≡ bytes
joined-segments n size address [] p q =
    ap (λ bs. joined (map (to_datagram address) bs)) (segments-nil n size)
joined-segments zero size address (x ∷ xs) p q = absurd (omega arith)
joined-segments (suc n) size address (x ∷ xs) p q =
    ap (take size (x ∷ xs) ++◌) (
      joined-segments n size address (drop size (x ∷ xs)) p
        (omega (arith, length-drop size (x ∷ xs))))
    ∙ take-append-drop size (x ∷ xs)

coalesced_segment_size-positive :
    (ms : List Control) (received size : ℕ) → 0 < size → 0 < coalesced_segment_size received size ms
unfolding coalesced_segment_size
coalesced_segment_size-positive [] received size p = p
coalesced_segment_size-positive (m ∷ ms) received size p =
    coalesced_segment_size-positive ms received
      (if m.is_coalesced_info && ltb 0 m.value && leb m.value received then m.value else size)
      (if_cases {A = ℕ} (λ k. 0 < k) (m.is_coalesced_info && ltb 0 m.value && leb m.value received)
        (λ h. ground arith) (λ h. p))

length-positive : (xs : List ℕ) → is_empty xs ≡ false → 0 < length xs
length-positive xs h = ground arith

keep-IsValid :
    (m : CoalescedMessage) (b : WindowsDatapathBackend)
    → is_empty m.bytes ≡ false
    → IsValid (keep m b)
keep-IsValid m b h = record {
  inside = omega arith;
  segment = inr (
      coalesced_segment_size-positive m.controls (length m.bytes) (length m.bytes)
        (length-positive m.bytes h));
}

joined-keep :
    (m : CoalescedMessage) (b : WindowsDatapathBackend)
    → is_empty m.bytes ≡ false
    → joined (waiting (keep m b)) ≡ m.bytes
joined-keep m b h =
    let n = length m.bytes in
    let size = coalesced_segment_size n n m.controls in
    let all : take n m.bytes ≡ m.bytes = take-all n m.bytes (omega arith) in
    ap (λ bytes. joined (map (to_datagram m.source_address) (segments n size bytes))) all
    ∙ joined-segments n size m.source_address m.bytes
        (coalesced_segment_size-positive m.controls n n (length-positive m.bytes h)) (omega arith)

joined-Emits :
    (capacity : ℕ) (b : WindowsDatapathBackend) (x : List Datagram × WindowsDatapathBackend)
    → Emits capacity b x
    → x.0 ++ waiting x.1 ≡ waiting b
joined-Emits capacity b x (given, kept, valid) =
    ap (◌++ waiting x.1) given
    ∙ ap (take capacity (waiting b) ++◌) kept
    ∙ take-append-drop capacity (waiting b)

nonempty :
    (capacity : ℕ) (ds : List Datagram)
    → 0 < capacity
    → is_empty ds ≡ false
    → is_empty (take capacity ds) ≡ false
nonempty zero ds p h = absurd (omega arith)
nonempty (suc n) [] p h = h
nonempty (suc n) (d ∷ ds) p h = refl

emit_pending-none :
    (capacity : ℕ) (b : WindowsDatapathBackend)
    → b.pending_bytes ≡ 0
    → emit_pending capacity b ≡ ([], b)
unfolding emit_pending
emit_pending-none capacity b e =
    if_true {b = b.pending_bytes == 0 || b.pending_segment_size == 0} _ _ (ground arith)

module _ {W : Type 0} (c : ErrorNumbers) (limit : ℕ) (calls : WindowsCalls W) where
  initialize_socket-same :
      (socket : ℕ) (b : WindowsDatapathBackend) (w : W)
      → b.initialized && b.active_socket == socket ≡ true
      → initialize_socket c limit calls socket b w ≡ (w, b)
  unfolding initialize_socket
  initialize_socket-same socket b w same = if_true _ _ same

  receive_batch-same :
      (fuel socket capacity : ℕ) (b : WindowsDatapathBackend) (w : W)
      → b.initialized && b.active_socket == socket ≡ true
      → receive_batch c limit calls fuel socket capacity b w
        ≡ receive_ready c limit calls fuel socket capacity b w
  unfolding receive_batch
  receive_batch-same fuel socket capacity b w same =
      ap (λ x. receive_ready c limit calls fuel socket capacity x.1 x.0)
        (initialize_socket-same socket b w same)

  receive_ready-emitted :
      (fuel socket capacity : ℕ) (b : WindowsDatapathBackend) (w : W)
      → is_empty (emit_pending capacity b).0 ≡ false
      → receive_ready c limit calls fuel socket capacity b w
        ≡ (w, some ((emit_pending capacity b).1, ok (emit_pending capacity b).0))
  unfolding receive_ready
  receive_ready-emitted fuel socket capacity b w h = if_false _ _ h

  receive_ready-next :
      (fuel socket capacity : ℕ) (b : WindowsDatapathBackend) (w : W)
      → b.pending_bytes ≡ 0
      → receive_ready c limit calls fuel socket capacity b w
        ≡ receive_next c limit calls fuel socket capacity b w
  unfolding receive_ready
  receive_ready-next fuel socket capacity b w e =
      ap
        (λ (x : List Datagram × WindowsDatapathBackend).
          if is_empty x.0
          then receive_next c limit calls fuel socket capacity x.1 w
          else (w, some (x.1, ok x.0)))
        (emit_pending-none capacity b e)

  receive_next-coalesced :
      (fuel socket capacity : ℕ) (b : WindowsDatapathBackend) {k : ℕ} {w w' : W}
      {r : Result ℕ CoalescedMessage}
      → not b.receive_msg || not b.coalescing_enabled ≡ false
      → Answers c (calls.receive_msg socket 65535) k w w' r
      → k < fuel
      → receive_next c limit calls fuel socket capacity b w
        ≡ (w', some (finish_coalesced c limit calls capacity b r))
  unfolding receive_next
  receive_next-coalesced fuel socket capacity b on a p =
      if_false _ _ on
      ∙ ap (λ x. then_received x (λ w' r. (w', some (finish_coalesced c limit calls capacity b r))))
          (retry_lem c _ fuel a p)

  finish_coalesced-ok :
      (capacity : ℕ) (b : WindowsDatapathBackend) (m : CoalescedMessage)
      → is_empty m.bytes ≡ false
      → is_empty m.source_address || ltb limit (length m.source_address) ≡ false
      → finish_coalesced c limit calls capacity b (ok m)
        ≡ ((emit_pending capacity (keep m b)).1, ok (emit_pending capacity (keep m b)).0)
  unfolding finish_coalesced
  finish_coalesced-ok capacity b m full fits = if_false _ _ full ∙ if_false _ _ fits

  -- While datagrams wait on a socket that has been set up, a receive with room makes no call of the
  -- system: it gives the first of them, as many as there is room for, and leaves the others waiting.
  pub receive_batch-waiting :
      (fuel socket capacity : ℕ) (b : WindowsDatapathBackend) (w : W)
      → IsValid b
      → b.initialized && b.active_socket == socket ≡ true
      → 0 < capacity
      → is_empty (waiting b) ≡ false
      → (b' : WindowsDatapathBackend) × (receive_batch c limit calls fuel socket capacity b w
          ≡ (w, some (b', ok (take capacity (waiting b)))))
        × (waiting b' ≡ drop capacity (waiting b))
        × IsValid b'
  receive_batch-waiting fuel socket capacity b w v same p q =
      let (given, kept, valid) = emit_pending-Emits capacity b v in
      let b' = (emit_pending capacity b).1 in
      (
        b',
        receive_batch-same fuel socket capacity b w same
            ∙ receive_ready-emitted fuel socket capacity b w
                (ap is_empty given ∙ nonempty capacity (waiting b) p q)
            ∙ ap (λ ds. (w, some (b', ok ds))) given,
        kept,
        valid,
      )

  -- What a receive gave and what it left waiting are together the bytes of the message.
  abbrev pub Delivers : CoalescedMessage → WindowsDatapathBackend → List Datagram → Type 0
  Delivers m b ds = IsValid b × (joined (ds ++ waiting b) ≡ m.bytes)

  -- Where nothing waits on a socket that coalesces, and the system gives a message that has bytes and
  -- an address that fits: with more fuel than there are ignored errors the receive succeeds, and the
  -- datagrams that it gives and those that it leaves waiting have together exactly the bytes of the
  -- message, in their order, whatever segment sizes the control messages tell.
  pub receive_batch-Delivers :
      (fuel socket capacity : ℕ) (b : WindowsDatapathBackend) {k : ℕ} {w w' : W}
      (m : CoalescedMessage)
      → b.initialized && b.active_socket == socket ≡ true
      → b.pending_bytes ≡ 0
      → not b.receive_msg || not b.coalescing_enabled ≡ false
      → Answers c (calls.receive_msg socket 65535) k w w' (ok m)
      → k < fuel
      → is_empty m.bytes ≡ false
      → is_empty m.source_address || ltb limit (length m.source_address) ≡ false
      → (b' : WindowsDatapathBackend) × (ds : List Datagram) × (receive_batch c limit calls fuel
            socket capacity b w
          ≡ (w', some (b', ok ds)))
        × Delivers m b' ds
  receive_batch-Delivers fuel socket capacity b {w = w} {w' = w'} m same none_left on a p full
        fits =
      let x = emit_pending capacity (keep m b) in
      let emits = emit_pending-Emits capacity (keep m b) (keep-IsValid m b full) in
      (
        x.1,
        x.0,
        receive_batch-same fuel socket capacity b w same
            ∙ receive_ready-next fuel socket capacity b w none_left
            ∙ receive_next-coalesced fuel socket capacity b on a p
            ∙ ap (λ y. (w', some y)) (finish_coalesced-ok capacity b m full fits),
        (emits.2, ap joined (joined-Emits capacity (keep m b) x emits) ∙ joined-keep m b full),
      )
