-- ===== src/Core/Workers/Lifecycle/Whole.antt =====
-- A pool of workers (native/core/Worker.cpp) from its constructor to its destructor.
use ffl_p2p.Prelude.{
  ℕ, ◌+◌, ◌≡◌, refl, ◌∙◌, ap, true, Option, none, some, List, [], ◌∷◌, arith, ok, err, if_true,
  if◌then◌else◌, ◌==◌,
}
use ffl_p2p.Platform.Threads.{System, Thread, Outcome, ThreadError}
use ffl_p2p.Platform.Threads.Owned.{Started}
use ffl_p2p.Core.Workers.Lifecycle.{
  Threading, Worker, new_worker, worker_stack_size, after_start, start_worker, destroy_worker,
  destroy_pool, Constructed, made, thrown, terminated, cleaned, started_next, construct_workers,
  construct_pool,
}
use ffl_p2p.Core.Workers.Lifecycle.Pools.{
  count, Owns, total-append, held-idle, Succeeds, destroy_worker-Owns, destroy_workers-Owns,
  destroy_pool-Owns,
}

-- What is left once the pool, if there is one, was destroyed.
abbrev pub ended : {R J : Type 0} → Threading R J → J → Constructed → Option System
ended threads j (made s ws) = destroy_pool threads j ws s
ended threads j (thrown s e) = some s
ended threads j terminated = none

abbrev pub Kept : (ℕ → ℕ) → ℕ → Constructed → Type 0
Kept others a (made s ws) = Owns others a s ws
Kept others a (thrown s e) = Owns others a s []
Kept others a terminated = ⊥

module _ {R J : Type 0} (threads : Threading R J) (j : J)
    (joins : (t : Thread) (s : System) → Succeeds (threads.join j t s)) where
  cleaned-Kept :
      (others : ℕ → ℕ) (a : ℕ) (e : ThreadError) (w : Worker) (ws : List Worker) (s : System)
      → Owns others a s (w ∷ ws)
      → Kept others a (cleaned threads j e ws (destroy_worker threads j w s))
  cleaned-Kept others a e w ws s v =
      let (t, one, u) = destroy_worker-Owns threads j joins others a w ws s v in
      let (s', rest, x) = destroy_workers-Owns threads j joins others a ws t u in rw (one, rest) x

  started_next-Kept :
      (others : ℕ → ℕ) (a index : ℕ) (ws : List Worker) (s : System) (r : Outcome)
      (next : List Worker → System → Constructed)
      → Owns others a s ws
      → Started (new_worker index).thread s r
      → ((vs : List Worker) (t : System) → Owns others a t vs → Kept others a (next vs t))
      → Kept others a (started_next threads j ws (after_start threads (new_worker index) r) next)
  started_next-Kept others a index ws s (s', t, err e) next v h k =
      cleaned-Kept others a e _ ws s' (record {
        live = λ x. omega (arith, v.live x, ap (count x) h.2, held-idle x t h.0);
        balanced = h.3 ∙ v.balanced;
      })
  started_next-Kept others a index ws s (s', t, ok u) next v h k =
      let w : Worker = record (new_worker index) { running = true; thread = t } in
      k _ s' (record {
        live = λ x. omega (
          arith,
          v.live x,
          ap (count x) h.2,
          total-append x ws w,
          if_true {A = ℕ} {b = t.joinable} (if t.handle == x then 1 else 0) 0 h.1,
        );
        balanced = h.3 ∙ v.balanced;
      })

  construct_workers-Kept :
      (others : ℕ → ℕ) (a : ℕ) (rs : List R) (index : ℕ) (ws : List Worker) (s : System)
      → Owns others a s ws
      → Kept others a (construct_workers threads j rs index ws s)
  unfolding construct_workers start_worker
  construct_workers-Kept others a [] index ws s v = v
  construct_workers-Kept others a (r ∷ rs) index ws s v =
      started_next-Kept others a index ws s
        (threads.start true worker_stack_size r (new_worker index).thread s)
        (construct_workers threads j rs (index + 1)) v
        (threads.start-Started true worker_stack_size r (new_worker index).thread s)
        (λ vs t u. construct_workers-Kept others a rs (index + 1) vs t u)

  ended-Kept :
      (others : ℕ → ℕ) (a : ℕ) (c : Constructed)
      → Kept others a c
      → (s' : System) × (ended threads j c ≡ some s') × Owns others a s' []
  ended-Kept others a (made s ws) v = destroy_pool-Owns threads j joins others a ws s v
  ended-Kept others a (thrown s e) v = (s, refl, v)
  ended-Kept others a terminated v = absurd v

  construct_pool-Kept :
      (rs : List R) (s : System)
      → Kept (λ k. count k s.live) s.attributes (construct_pool threads j rs s)
  unfolding construct_pool
  construct_pool-Kept [] s = record { live = λ k. omega arith; balanced = refl }
  construct_pool-Kept (r ∷ rs) s =
      construct_workers-Kept _ s.attributes (r ∷ rs) 0 [] s
        (record { live = λ k. omega arith; balanced = refl })

  -- Whichever of its workers' threads the system creates and wherever it refuses one: once the pool
  -- was constructed and destroyed, or its constructor has thrown, the same threads are live as before,
  -- each as often, and as many thread attributes. The process is not terminated. The threads' joins
  -- succeed.
  pub pool_returns_threads :
      (rs : List R) (s : System)
      → (s' : System) × (ended threads j (construct_pool threads j rs s) ≡ some s')
        × ((k : ℕ) → count k s'.live ≡ count k s.live)
        × (s'.attributes ≡ s.attributes)
  pool_returns_threads rs s =
      let (s', e, v) = ended-Kept _ s.attributes _ (construct_pool-Kept rs s) in
      (s', e, λ k. omega (arith, v.live k), v.balanced)
