-- ===== src/Datapath/Sockets/Posix/Fallback.antt =====
-- What `receiveBatch` of native/datapath/DatapathPOSIX.cpp does with what the system answers.
use ffl_p2p.Prelude.{
  ℕ, ◌<◌, ◌≡◌, ◌∙◌, ap, min, Bool, true, false, ◌||◌, some, List, ◌==◌, Result, ok, err, if_true,
  if_false,
}
use ffl_p2p.Datapath.Sockets.{ErrorNumbers, then_received}
use ffl_p2p.Datapath.Sockets.Batch.{Message, Target, receive, max_batch_size}
use ffl_p2p.Datapath.Sockets.Retry.{Answers, retry_lem}
use ffl_p2p.Datapath.Sockets.Posix.{
  PosixDatapathBackend, JuiceLimits, SocketCalls, to_datagrams, finish_single, receive_single,
  receive_messages, finish_messages, receive_batch, with_backend, disable_receive_batching,
}

module _ {W : Type 0} (c : ErrorNumbers) (l : JuiceLimits) (calls : SocketCalls W) (target : Target)
    (is_linux : Bool) where
  -- The batched call that `receiveBatch` makes for `capacity` datagrams.
  abbrev pub batched : ℕ → W → W × Result ℕ (List Message)
  batched capacity =
      receive c calls.batch target is_linux (min capacity (min l.batch_capacity max_batch_size))

  receive_single_lem :
      (fuel : ℕ) {k : ℕ} {w w' : W} {r : Result ℕ Message}
      → Answers c (calls.recvfrom 4096) k w w' r
      → k < fuel
      → receive_single c l calls target is_linux fuel w ≡ (w', some (finish_single c l r))
  unfolding receive_single
  receive_single_lem fuel a p =
      ap (λ x. then_received x (λ w' r. (w', some (finish_single c l r)))) (retry_lem c _ fuel a p)

  -- With more fuel than the system gives ignored errors, a batched receive gives the datagrams of the
  -- messages that it then gets.
  pub receive_batch-messages :
      (fuel capacity : ℕ) (b : PosixDatapathBackend) {k : ℕ} {w w' : W} {ms : List Message}
      → b.receive_batching_enabled ≡ true
      → Answers c (batched capacity) k w w' (ok ms)
      → k < fuel
      → receive_batch c l calls target is_linux fuel capacity b w
        ≡ (w', some (b, to_datagrams c l ms))
  unfolding receive_batch receive_messages finish_messages
  receive_batch-messages fuel capacity b on a p =
      if_true _ _ on
      ∙ ap (λ x. then_received x (finish_messages c l calls target is_linux fuel b))
          (retry_lem c _ fuel a p)

  -- Where the system says that it cannot receive batches, with an error that does not mean that there
  -- is nothing to receive, batching is turned off and the same call receives one datagram: the result
  -- is what the single receive gives, with more fuel than either call meets ignored errors.
  receive_batch-fallback :
      (fuel capacity : ℕ) (b : PosixDatapathBackend) {k j error : ℕ} {w w' u : W}
      {r : Result ℕ Message}
      → b.receive_batching_enabled ≡ true
      → Answers c (batched capacity) k w w' (err error)
      → error == c.eagain || error == c.ewouldblock ≡ false
      → error == c.enosys || error == c.eopnotsupp ≡ true
      → Answers c (calls.recvfrom 4096) j w' u r
      → k < fuel
      → j < fuel
      → receive_batch c l calls target is_linux fuel capacity b w
        ≡ (u, some (record b { receive_batching_enabled = false }, finish_single c l r))
  unfolding receive_batch receive_messages finish_messages disable_receive_batching
  receive_batch-fallback fuel capacity b on a g h s p q =
      if_true _ _ on
      ∙ ap (λ x. then_received x (finish_messages c l calls target is_linux fuel b))
          (retry_lem c _ fuel a p)
      ∙ if_false _ _ g
      ∙ if_true _ _ h
      ∙ ap (with_backend c l calls target is_linux (record b { receive_batching_enabled = false }))
          (receive_single_lem fuel s q)

  -- Batching that is off stays off, and then a receive is a single one.
  pub receive_batch-single :
      (fuel capacity : ℕ) (b : PosixDatapathBackend) {j : ℕ} {w u : W} {r : Result ℕ Message}
      → b.receive_batching_enabled ≡ false
      → Answers c (calls.recvfrom 4096) j w u r
      → j < fuel
      → receive_batch c l calls target is_linux fuel capacity b w
        ≡ (u, some (b, finish_single c l r))
  unfolding receive_batch
  receive_batch-single fuel capacity b off s q =
      if_false _ _ off
      ∙ (ap (with_backend c l calls target is_linux b) (receive_single_lem fuel s q))
