-- ===== src/Datapath/Sockets/Entry/Checked.antt =====
-- native/datapath/Datapath.cpp over the backend of native/datapath/DatapathPOSIX.cpp.
use ffl_p2p.Prelude.{
  ℕ, ◌≤◌, ◌<◌, ◌≡◌, refl, ◌⊎◌, inl, inr, Bool, not, ◌||◌, Option, some, List, length, ltb, ◌==◌,
  is_empty, Result, ok, arith, if_cases,
}
use ffl_p2p.Datapath.Sockets.{Datagram, ErrorNumbers}
use ffl_p2p.Datapath.Sockets.Batch.{Target}
use ffl_p2p.Datapath.Sockets.Posix.{
  PosixDatapathBackend, JuiceLimits, SocketCalls, AggregateResult, failed, send_aggregate,
  receive_batch,
}
use ffl_p2p.Datapath.Sockets.Posix.Send.{Sends, send_aggregate-Sends}
use ffl_p2p.Datapath.Sockets.Posix.Receive.{AllSized, IsBounded}
use ffl_p2p.Datapath.Sockets.Posix.Batching.{receive_batch-AllSized}
use ffl_p2p.Datapath.Sockets.Entry.{send_datapath_aggregate, receive_datapath_batch}

module _ {W : Type 0} (c : ErrorNumbers) (limit : ℕ)
    (sendmsg : List ℕ → List ℕ → ℕ → W → W × Result ℕ ℕ) where
  -- A send is refused with EINVAL and touches nothing, or it ends as a send of the backend does.
  abbrev pub SendsOrRefuses :
      Bool
      → List ℕ
      → List ℕ
      → ℕ
      → PosixDatapathBackend
      → W
      → W × PosixDatapathBackend × AggregateResult
      → Type 0
  SendsOrRefuses is_set destination bytes segment_size b w x =
      (x ≡ (w, b, failed c.einval))
      ⊎ ((0 < segment_size)
          × (segment_size ≤ length bytes)
          × Sends c limit sendmsg destination bytes segment_size b w x)

  -- For every call of libjuice with an address and data, whatever their sizes: the send is refused with
  -- EINVAL, and nothing is touched; or the segment size is positive and at most the size, and then the
  -- send either touches nothing and is not handled, or is one `sendmsg` of 2 to 64 segments, of at most
  -- 65535 bytes each, while segmentation is enabled. That is handled exactly where the system took
  -- every byte; a shorter send is an error, and so is every error that does not say that the system
  -- cannot segment. One that does turns segmentation off, and the send is not handled.
  pub send_datapath_aggregate-Sends :
      (is_set : Bool) (destination bytes : List ℕ) (segment_size : ℕ) (b : PosixDatapathBackend)
      (w : W)
      → SendsOrRefuses is_set destination bytes segment_size b w (
          send_datapath_aggregate c
            (send_aggregate c limit sendmsg)
            is_set
            (some destination)
            (some bytes)
            segment_size
            b
            w)
  unfolding send_datapath_aggregate
  send_datapath_aggregate-Sends is_set destination bytes segment_size b w =
      if_cases {A = W × PosixDatapathBackend × AggregateResult}
        (SendsOrRefuses is_set destination bytes segment_size b w)
        (not is_set
          || is_empty destination
          || is_empty bytes
          || segment_size == 0
          || ltb (length bytes) segment_size)
        (λ h. inl refl)
        (λ h. inr (
          ground arith,
          ground arith,
          send_aggregate-Sends c limit sendmsg destination bytes segment_size b w (ground arith),
        ))

module _ {W : Type 0} (c : ErrorNumbers) (l : JuiceLimits) (calls : SocketCalls W) (target : Target)
    (is_linux : Bool) where
  -- When the system gives no more messages than asked for and no more bytes than a buffer holds: a
  -- receive of libjuice that succeeds gives at most as many datagrams as it has room for. Each has at
  -- most 4096 bytes, and an address that is not empty and fits libjuice's storage, whether it was
  -- received in a batch, alone, or alone after the system refused batches.
  pub receive_datapath_batch-AllSized :
      (fuel : ℕ) (is_set has_datagrams : Bool) (capacity : ℕ) (b b' : PosixDatapathBackend) (w : W)
      (ds : List Datagram)
      → IsBounded c l calls target is_linux
      → (receive_datapath_batch c
          (receive_batch c l calls target is_linux fuel)
          is_set
          has_datagrams
          capacity
          b
          w).1
        ≡ some (b', ok ds)
      → AllSized l ds × (length ds ≤ capacity)
  unfolding receive_datapath_batch
  receive_datapath_batch-AllSized fuel is_set has_datagrams capacity b b' w ds v h =
      if_cases {A = W × Option (PosixDatapathBackend × Result ℕ (List Datagram))}
        (λ x. x.1 ≡ some (b', ok ds) → AllSized l ds × (length ds ≤ capacity))
        (not is_set || not has_datagrams || capacity == 0) (λ g e. absurd (ground arith))
        (λ g e.
          receive_batch-AllSized c l calls target is_linux fuel capacity b b' w ds (ground arith) v
            e)
        h
