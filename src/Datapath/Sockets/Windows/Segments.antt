-- ===== src/Datapath/Sockets/Windows/Segments.antt =====
-- `emitPending` of native/datapath/DatapathWindows.cpp against a queue of datagrams: the bytes that are
-- pending, cut into segments.
use ffl_p2p.Prelude.{
  ℕ, zero, suc, ◌+◌, ◌-◌, ◌≤◌, ◌<◌, ◌≡◌, refl, sym, ap, ◌∙◌, ◌⊎◌, inl, inr, min, List, [], ◌∷◌, map,
  length, take, drop, arith, length-drop,
}
use ffl_p2p.Datapath.Sockets.{Datagram}
use ffl_p2p.Datapath.Sockets.Windows.{WindowsDatapathBackend}

-- Bytes cut into segments of one size, the last of which may be shorter. `n` bounds their number.
abbrev pub segments : ℕ → ℕ → List ℕ → List (List ℕ)
segments zero size bytes = []
segments (suc n) size [] = []
segments (suc n) size (x ∷ xs) = take size (x ∷ xs) ∷ segments n size (drop size (x ∷ xs))

abbrev pub pending : WindowsDatapathBackend → List ℕ
pending b = take b.pending_bytes (drop b.pending_offset b.receive_buffer)

abbrev pub to_datagram : List ℕ → List ℕ → Datagram
to_datagram address bytes = record { bytes = bytes; source_address = address }

-- The datagrams that a backend has still to give.
abbrev pub waiting : WindowsDatapathBackend → List Datagram
waiting b =
    map (to_datagram b.pending_address)
      (segments b.pending_bytes b.pending_segment_size (pending b))

-- What is pending lies in the buffer, and is cut into segments that are not empty.
pub record IsValid (b : WindowsDatapathBackend) : Type 0 where
  pub inside : b.pending_offset + b.pending_bytes ≤ length b.receive_buffer
  pub segment : b.pending_bytes ≡ 0 ⊎ 0 < b.pending_segment_size

pub take-nil : {A : Type 0} (n : ℕ) → take {A = A} n [] ≡ []
take-nil zero = refl
take-nil (suc n) = refl

le-cases : (m n : ℕ) → m ≤ n ⊎ n < m
le-cases m n = ground arith

pub take-take : {A : Type 0} (m n : ℕ) (xs : List A) → take m (take n xs) ≡ take (min m n) xs
take-take zero n xs = ap (λ k. take k xs) {x = 0} {y = min 0 n} (omega arith)
take-take (suc m) zero xs = ap (λ k. take k xs) {x = 0} {y = min (suc m) 0} (omega arith)
take-take (suc m) (suc n) [] = sym (ap (λ k. take k []) {y = suc (min m n)} (omega arith))
take-take (suc m) (suc n) (x ∷ xs) =
    ap (x ∷◌) (take-take m n xs) ∙ ap (λ k. take k (x ∷ xs)) {x = suc (min m n)} (omega arith)

drop-take : {A : Type 0} (m n : ℕ) (xs : List A) → drop m (take n xs) ≡ take (n - m) (drop m xs)
drop-take zero n xs = ap (λ k. take k xs) (omega arith)
drop-take (suc m) zero xs = ap (λ k. take k (drop (suc m) xs)) {x = 0} {y = 0 - suc m} (omega arith)
drop-take (suc m) (suc n) [] = sym (take-nil (suc n - suc m))
drop-take (suc m) (suc n) (x ∷ xs) =
    drop-take m n xs ∙ ap (λ k. take k (drop m xs)) {y = suc n - suc m} (omega arith)

-- The front of a part, and what it leaves, by the smaller of both sizes.
pub drop-min :
    {A : Type 0} (m n : ℕ) (xs : List A)
    → drop m (take n xs) ≡ take (n - min m n) (drop (min m n) xs)
drop-min m n xs = elim (le-cases m n) [
  | inl p ↦ drop-take m n xs ∙ ap (λ k. take (n - k) (drop k xs)) {y = min m n} (omega arith)
  | inr p ↦
      drop-take m n xs
      ∙ ap (λ k. take k (drop m xs)) {y = 0} (omega arith)
      ∙ ap (λ k. take k (drop (min m n) xs)) {x = 0} (omega arith)
]

-- More room for segments than there are bytes makes no difference.
pub segments_fuel :
    (n m size : ℕ) (bytes : List ℕ)
    → 0 < size
    → length bytes ≤ n
    → length bytes ≤ m
    → segments n size bytes ≡ segments m size bytes
segments_fuel zero zero size [] p q r = refl
segments_fuel zero (suc m) size [] p q r = refl
segments_fuel (suc n) zero size [] p q r = refl
segments_fuel (suc n) (suc m) size [] p q r = refl
segments_fuel zero m size (x ∷ xs) p q r = absurd (omega arith)
segments_fuel (suc n) zero size (x ∷ xs) p q r = absurd (omega arith)
segments_fuel (suc n) (suc m) size (x ∷ xs) p q r =
    let left = length-drop size (x ∷ xs) in
    ap (take size (x ∷ xs) ∷◌)
      (segments_fuel n m size (drop size (x ∷ xs)) p (omega (arith, left)) (omega (arith, left)))
