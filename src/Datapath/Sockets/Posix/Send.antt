-- ===== src/Datapath/Sockets/Posix/Send.antt =====
-- `sendAggregate` of native/datapath/DatapathPOSIX.cpp.
use ffl_p2p.Prelude.{
  ℕ, ◌+◌, ◌-◌, ◌*◌, ◌/◌, ◌≤◌, ◌<◌, ◌≡◌, ◌≢◌, refl, ap, ◌⊎◌, inl, inr, subst, Bool, true, false, not,
  ◌||◌, List, length, ltb, leb, ◌==◌, Result, ok, err, arith, if_cases,
}
use native.Mathlib.Nat.{mod-lt, div-add-mod}
use ffl_p2p.Datapath.Sockets.{ErrorNumbers}
use ffl_p2p.Datapath.Sockets.Posix.{
  PosixDatapathBackend, AggregateResult, not_handled, failed, handled,
  is_segmentation_capability_error, disable_send_segmentation, finish_send, send_aggregate,
  max_gso_segments,
}

-- What `sendmsg` gave, what becomes of the backend, and the result.
pub data Finished (c : ErrorNumbers) (size : ℕ) (b : PosixDatapathBackend)
    : Result ℕ ℕ → PosixDatapathBackend → AggregateResult → Type 0 where
  incapable :
      {error : ℕ}
      → is_segmentation_capability_error c error ≡ true
      → Finished c size b (err error) (record b { send_segmentation_enabled = false }) not_handled
  refused :
      {error : ℕ}
      → is_segmentation_capability_error c error ≡ false
      → Finished c size b (err error) b (failed error)
  short : {sent : ℕ} → sent ≢ size → Finished c size b (ok sent) b (failed c.eio)
  complete : Finished c size b (ok size) b (handled size)

finish_send-Finished :
    (c : ErrorNumbers) (size : ℕ) (b : PosixDatapathBackend) (r : Result ℕ ℕ)
    → Finished c size b r (finish_send c size b r).0 (finish_send c size b r).1
unfolding finish_send disable_send_segmentation
finish_send-Finished c size b (err error) =
    if_cases (λ (x : PosixDatapathBackend × AggregateResult). Finished c size b (err error) x.0 x.1)
      (is_segmentation_capability_error c error) incapable refused
finish_send-Finished c size b (ok sent) =
    if_cases (λ (x : PosixDatapathBackend × AggregateResult). Finished c size b (ok sent) x.0 x.1)
      (not (sent == size)) (λ h. short (λ e. ground arith))
      (λ h.
        subst (λ n. Finished c size b (ok n) b (handled size)) {x = size} {y = sent} (ground arith)
          complete)

segments_bound :
    (size segment_size : ℕ)
    → 0 < segment_size
    → ltb max_gso_segments ((size + segment_size - 1) / segment_size) ≡ false
    → size ≤ 64 * segment_size
segments_bound size segment_size p h =
    let q = (size + segment_size - 1) / segment_size in
    let few : q ≤ 64 = ground arith in
    let (parts, e) : (d : ℕ) × (64 ≡ q + d) = (64 - q, omega arith) in
    omega (
      arith,
      div-add-mod (size + segment_size - 1) segment_size,
      mod-lt (size + segment_size - 1) p,
      ap (λ (t : ℕ). segment_size * t) e,
    )

-- The aggregate is one that the system can cut into datagrams.
pub record Fits (sockaddr_storage_size : ℕ) (destination bytes : List ℕ) (segment_size : ℕ)
    : Type 0 where
  pub several : segment_size < length bytes
  pub few : length bytes ≤ 64 * segment_size
  pub segment : segment_size ≤ 65535
  pub address : length destination ≤ sockaddr_storage_size

send-Fits :
    (destination bytes : List ℕ) (segment_size : ℕ) (b : PosixDatapathBackend) (limit : ℕ)
    → 0 < segment_size
    → not b.send_segmentation_enabled || leb (length bytes) segment_size || ltb 65535 segment_size
      ≡ false
    → ltb max_gso_segments ((length bytes + segment_size - 1) / segment_size)
        || ltb limit (length destination)
      ≡ false
    → Fits limit destination bytes segment_size
send-Fits destination bytes segment_size b limit p g h = record {
  several = ground arith;
  few = segments_bound (length bytes) segment_size p (ground arith);
  segment = ground arith;
  address = ground arith;
}

enabled_of : {x : Bool} (y z : Bool) → not x || y || z ≡ false → x ≡ true
enabled_of y z h = ground arith

module _ {W : Type 0} (c : ErrorNumbers) (limit : ℕ)
    (sendmsg : List ℕ → List ℕ → ℕ → W → W × Result ℕ ℕ) where
  -- The two ways in which a send can end.
  abbrev pub Sends :
      List ℕ
      → List ℕ
      → ℕ
      → PosixDatapathBackend
      → W
      → W × PosixDatapathBackend × AggregateResult
      → Type 0
  Sends destination bytes segment_size b w (w', b', r) =
      ((w' ≡ w) × (b' ≡ b) × (r ≡ not_handled))
      ⊎ (Fits limit destination bytes segment_size
          × (b.send_segmentation_enabled ≡ true)
          × (w' ≡ (sendmsg destination bytes segment_size w).0)
          × Finished c (length bytes) b (sendmsg destination bytes segment_size w).1 b' r)

  -- A send either touches nothing and is not handled, or is one `sendmsg` of 2 to 64 segments, of at
  -- most 65535 bytes each, while segmentation is enabled. Then it is handled exactly where the system
  -- took every byte; a shorter send is an error, and so is every error that does not say that the
  -- system cannot segment. One that does turns segmentation off, and the send is not handled.
  pub send_aggregate-Sends :
      (destination bytes : List ℕ) (segment_size : ℕ) (b : PosixDatapathBackend) (w : W)
      → 0 < segment_size
      → Sends destination bytes segment_size b w
          (send_aggregate c limit sendmsg destination bytes segment_size b w)
  unfolding send_aggregate
  send_aggregate-Sends destination bytes segment_size b w p =
      if_cases {A = W × PosixDatapathBackend × AggregateResult}
        (Sends destination bytes segment_size b w) _ (λ h. inl (refl, refl, refl))
        (λ g.
          if_cases {A = W × PosixDatapathBackend × AggregateResult}
            (Sends destination bytes segment_size b w) _ (λ h. inl (refl, refl, refl))
            (λ h. inr (
              send-Fits destination bytes segment_size b limit p g h,
              enabled_of _ _ g,
              refl,
              finish_send-Finished c (length bytes) b _,
            )))
