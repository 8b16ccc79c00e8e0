-- ===== src/Datapath/Sockets/Posix/Batching.antt =====
-- `receiveBatch` of native/datapath/DatapathPOSIX.cpp with and without batching.
use ffl_p2p.Prelude.{
  ℕ, ◌≤◌, ◌<◌, ◌≡◌, refl, ◌∙◌, subst, min, Bool, ◌||◌, Option, none, some, List, [], length, ◌==◌,
  Result, ok, err, arith, if_cases,
}
use mathlib.Core.Option.{none-ne-some}
use ffl_p2p.Datapath.Sockets.{Datagram, ErrorNumbers, retry}
use ffl_p2p.Datapath.Sockets.Batch.{Message, Target, receive, max_batch_size}
use ffl_p2p.Datapath.Sockets.Retry.{retry-result, then_received-some}
use ffl_p2p.Datapath.Sockets.Posix.{
  PosixDatapathBackend, JuiceLimits, SocketCalls, receive_single, receive_messages, finish_messages,
  receive_batch, with_backend, disable_receive_batching,
}
use ffl_p2p.Datapath.Sockets.Posix.Receive.{
  AllSized, nil, IsBounded, receive-length, receive_single-AllSized, to_datagrams-Copies,
  length-Copies,
}

module _ {W : Type 0} (c : ErrorNumbers) (l : JuiceLimits) (calls : SocketCalls W) (target : Target)
    (is_linux : Bool) where
  with_backend-some :
      (b : PosixDatapathBackend) (x : W × Option (Result ℕ (List Datagram)))
      {b' : PosixDatapathBackend} {r : Result ℕ (List Datagram)}
      → (with_backend c l calls target is_linux b x).1 ≡ some (b', r)
      → (x.1 ≡ some r) × (b ≡ b')
  with_backend-some b (w, none) h = absurd (none-ne-some _ h)
  with_backend-some b (w, some r) h = (ground arith, ground arith)

  -- What a successful receive of at most `n` datagrams gives.
  abbrev Good : ℕ → Option (PosixDatapathBackend × Result ℕ (List Datagram)) → Type 0
  Good n o =
      (b : PosixDatapathBackend) (ds : List Datagram)
      → o ≡ some (b, ok ds)
      → AllSized l ds × (length ds ≤ n)

  nothing : {n : ℕ} {ds : List Datagram} → [] ≡ ds → AllSized l ds × (length ds ≤ n)
  nothing {n} e = subst (λ ds. AllSized l ds × (length ds ≤ n)) e (nil, omega arith)

  single-Good :
      (fuel n : ℕ) (b : PosixDatapathBackend) (w : W)
      → IsBounded c l calls target is_linux
      → 0 < n
      → Good n
          (with_backend c l calls target is_linux b
            (receive_single c l calls target is_linux fuel w)).1
  single-Good fuel n b w v p b' ds h =
      let single = receive_single c l calls target is_linux fuel w in
      let (sized, one) =
        receive_single-AllSized c l calls target is_linux fuel w ds v
          (with_backend-some b single h).0 in
      (sized, omega (arith, one))

  finish_messages-AllSized :
      (fuel n : ℕ) (b : PosixDatapathBackend) (w : W) (r : Result ℕ (List Message))
      → IsBounded c l calls target is_linux
      → 0 < n
      → ((ms : List Message) → r ≡ ok ms → length ms ≤ n)
      → Good n (finish_messages c l calls target is_linux fuel b w r).1
  unfolding finish_messages
  finish_messages-AllSized fuel n b w (ok ms) v p q b' ds h =
      let (copies, sized) = to_datagrams-Copies c l ms ds (ground arith) in
      (sized, omega (arith, length-Copies copies, q ms refl))
  finish_messages-AllSized fuel n b w (err e) v p q b' ds h =
      if_cases {A = W × Option (PosixDatapathBackend × Result ℕ (List Datagram))} (λ x. Good n x.1)
        (e == c.eagain || e == c.ewouldblock) (λ g b' ds h. nothing (ground arith))
        (λ g.
          if_cases {A = W × Option (PosixDatapathBackend × Result ℕ (List Datagram))}
            (λ x. Good n x.1) (e == c.enosys || e == c.eopnotsupp)
            (λ k. single-Good fuel n (disable_receive_batching b) w v p)
            (λ k b' ds h. absurd (ground arith)))
        b' ds h

  messages-Good :
      (fuel n : ℕ) (b : PosixDatapathBackend) (w : W)
      → IsBounded c l calls target is_linux
      → 0 < n
      → Good n (receive_messages c l calls target is_linux fuel n b w).1
  unfolding receive_messages
  messages-Good fuel n b w v p b' ds h =
      let m = min n (min l.batch_capacity max_batch_size) in
      let call = receive c calls.batch target is_linux m in
      let (w', r, loop, result) =
        then_received-some (retry c call fuel w) (finish_messages c l calls target is_linux fuel b)
          (b', ok ds) h in
      let (u, at, e) = retry-result c call fuel w r loop in
      finish_messages-AllSized fuel n b w' r v p
        (λ ms q. omega (arith, receive-length c l calls target is_linux m u ms v (at ∙ q))) b' ds
        result

  -- When the system gives no more messages than asked for and no more bytes than a buffer holds: a
  -- receive that succeeds gives at most as many datagrams as there is room for. Each has at most 4096
  -- bytes, and an address that is not empty and fits libjuice's storage, whether it was received in a
  -- batch, alone, or alone after the system refused batches.
  pub receive_batch-AllSized :
      (fuel capacity : ℕ) (b b' : PosixDatapathBackend) (w : W) (ds : List Datagram)
      → 0 < capacity
      → IsBounded c l calls target is_linux
      → (receive_batch c l calls target is_linux fuel capacity b w).1 ≡ some (b', ok ds)
      → AllSized l ds × (length ds ≤ capacity)
  unfolding receive_batch receive_messages
  receive_batch-AllSized fuel capacity b b' w ds p v h =
      if_cases {A = W × Option (PosixDatapathBackend × Result ℕ (List Datagram))}
        (λ x. Good capacity x.1) b.receive_batching_enabled
        (λ g. messages-Good fuel capacity b w v p) (λ g. single-Good fuel capacity b w v p) b' ds h
