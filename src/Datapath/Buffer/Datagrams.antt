-- ===== src/Datapath/Buffer/Datagrams.antt =====
-- ReceiveBuffer (native/datapath/Buffer.cpp) as the list of its datagrams.
use ffl_p2p.Prelude.{
  ℕ, zero, suc, ◌+◌, ◌≤◌, ◌<◌, ◌≡◌, refl, ap, ◌∙◌, true, false, ◌↔◌, none, some, List, [], ◌∷◌,
  ◌++◌, arith, length, get_elem?, take, drop, ok, err, length-append, drop-append_le, drop-append,
  take-all, length-drop,
}
use ffl_p2p.Datapath.Buffer.{
  ReceiveBuffer, ReceivePacket, invalid_argument, length_error, receive_buffer_payload_size,
  receive_packets_per_buffer, uint16_max, can_append, append_packet, get_packet, to_uint16,
}

-- Every packet lies in the payload.
abbrev pub Within : ℕ → List ReceivePacket → Type 0
Within n [] = Unit {0}
Within n (p ∷ ps) = (p.offset + p.size ≤ n) × Within n ps

pub record IsValid (b : ReceiveBuffer) : Type 0 where
  pub payload_fits : length b.payload ≤ receive_buffer_payload_size
  pub packets_fit : length b.packets ≤ receive_packets_per_buffer
  pub within : Within (length b.payload) b.packets

abbrev pub datagrams_in : List ℕ → List ReceivePacket → List (List ℕ)
datagrams_in payload [] = []
datagrams_in payload (p ∷ ps) = take p.size (drop p.offset payload) ∷ datagrams_in payload ps

abbrev pub datagrams : ReceiveBuffer → List (List ℕ)
datagrams b = datagrams_in b.payload b.packets

Within-mono : (m n : ℕ) (ps : List ReceivePacket) → m ≤ n → Within m ps → Within n ps
Within-mono m n [] h w = tt
Within-mono m n (p ∷ ps) h w = (omega arith, Within-mono m n ps h w.1)

Within-append :
    (n : ℕ) (ps : List ReceivePacket) (p : ReceivePacket)
    → Within n ps
    → p.offset + p.size ≤ n
    → Within n (ps ++ p ∷ [])
Within-append n [] p w h = (h, tt)
Within-append n (q ∷ ps) p w h = (w.0, Within-append n ps p w.1 h)

take-append_le {ℓ} :
    {A : Type ℓ} (n : ℕ) (xs ys : List A) → n ≤ length xs → take n (xs ++ ys) ≡ take n xs
take-append_le zero xs ys h = refl
take-append_le (suc n) [] ys h = absurd (omega arith)
take-append_le (suc n) (x ∷ xs) ys h = ap (◌∷◌ x) (take-append_le n xs ys (omega arith))

-- Bytes behind a packet do not change it.
packet-append :
    (offset size : ℕ) (payload more : List ℕ)
    → offset + size ≤ length payload
    → take size (drop offset (payload ++ more)) ≡ take size (drop offset payload)
packet-append offset size payload more h =
    ap (take size) (drop-append_le offset payload more (omega arith))
    ∙ take-append_le size (drop offset payload) more (omega (arith, length-drop offset payload))

datagrams_in-append :
    (payload more : List ℕ) (ps : List ReceivePacket)
    → Within (length payload) ps
    → datagrams_in (payload ++ more) ps ≡ datagrams_in payload ps
datagrams_in-append payload more [] w = refl
datagrams_in-append payload more (p ∷ ps) w =
    rw (packet-append p.offset p.size payload more w.0, datagrams_in-append payload more ps w.1)

datagrams_in-snoc :
    (payload : List ℕ) (ps : List ReceivePacket) (p : ReceivePacket)
    → datagrams_in payload (ps ++ p ∷ [])
      ≡ datagrams_in payload ps ++ take p.size (drop p.offset payload) ∷ []
datagrams_in-snoc payload [] p = refl
datagrams_in-snoc payload (q ∷ ps) p =
    ap (◌∷◌ (take q.size (drop q.offset payload))) (datagrams_in-snoc payload ps p)

-- `canAppend` holds exactly where the datagram's length fits 16 bits, a packet is free, and the
-- payload has room.
pub can_append_iff :
    (b : ReceiveBuffer) (n : ℕ)
    → IsValid b
    → (can_append b n ≡ true) ↔ (
        (n ≤ uint16_max)
        × (length b.packets < receive_packets_per_buffer)
        × (length b.payload + n ≤ receive_buffer_payload_size))
unfolding can_append
can_append_iff b n v = (λ e. ground arith, λ h. ground arith)

-- A datagram that the buffer can take is appended behind those it holds, which stay as they are:
-- offsets and lengths fit their 16 bits, and the buffer stays well formed.
pub append_packet-datagrams :
    (b : ReceiveBuffer) (bytes : List ℕ)
    → IsValid b
    → 0 < length bytes
    → can_append b (length bytes) ≡ true
    → (c : ReceiveBuffer) × (append_packet b (some bytes) ≡ ok c)
      × IsValid c
      × (datagrams c ≡ datagrams b ++ bytes ∷ [])
unfolding append_packet
append_packet-datagrams b [] v some_bytes fits = absurd (omega arith)
append_packet-datagrams b (x ∷ xs) v some_bytes fits =
    let (short, places, room) = (can_append_iff b (length (x ∷ xs)) v).0 fits in
    let packet : ReceivePacket = record { offset = length b.payload; size = length (x ∷ xs) } in
    let offset : to_uint16 (length b.payload) ≡ length b.payload = omega arith in
    let size : to_uint16 (length (x ∷ xs)) ≡ length (x ∷ xs) = omega arith in
    let total = length-append b.payload (x ∷ xs) in
    (
      record { payload = b.payload ++ x ∷ xs; packets = b.packets ++ packet ∷ [] },
      rw (fits, offset, size),
      record {
        payload_fits = omega arith;
        packets_fit = omega (arith, length-append b.packets (packet ∷ []));
        within =
            Within-append (length (b.payload ++ x ∷ xs)) b.packets packet
              (Within-mono (length b.payload) (length (b.payload ++ x ∷ xs)) b.packets (omega arith)
                v.within)
              (omega arith);
      },
      datagrams_in-snoc (b.payload ++ x ∷ xs) b.packets packet
          ∙ ap
              (λ l.
                l ++ take (length (x ∷ xs)) (drop (length b.payload) (b.payload ++ x ∷ xs)) ∷ [])
              (datagrams_in-append b.payload (x ∷ xs) b.packets v.within)
          ∙ ap (λ l. datagrams b ++ take (length (x ∷ xs)) l ∷ [])
              (drop-append (length b.payload) b.payload (x ∷ xs) (omega arith)
                ∙ ap (λ k. drop k (x ∷ xs)) {y = 0} (omega arith))
          ∙ ap (λ l. datagrams b ++ l ∷ []) (take-all (length (x ∷ xs)) (x ∷ xs) (omega arith)),
    )

-- Nothing is appended without data or without room.
pub append_packet_errors :
    (b : ReceiveBuffer) (bytes : List ℕ)
    → (append_packet b none ≡ err invalid_argument)
      × (append_packet b (some []) ≡ err invalid_argument)
      × (0 < length bytes
          → can_append b (length bytes) ≡ false
          → append_packet b (some bytes) ≡ err length_error)
unfolding append_packet
append_packet_errors b [] = (refl, refl, λ h e. absurd (omega arith))
append_packet_errors b (x ∷ xs) = (refl, refl, λ h e. rw e)

pub get_packet-found :
    (b : ReceiveBuffer) (i : ℕ) (p : ReceivePacket)
    → get_elem? b.packets i ≡ some p
    → i < length b.packets
    → get_packet b i ≡ ok p
unfolding get_packet
get_packet-found b i p e h = ground arith
