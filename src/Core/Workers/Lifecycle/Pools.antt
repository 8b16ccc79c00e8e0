-- ===== src/Core/Workers/Lifecycle/Pools.antt =====
-- The threads that a pool of workers (native/core/Worker.cpp) creates and joins.
use ffl_p2p.Prelude.{
  ℕ, ◌+◌, ◌<◌, ◌≡◌, refl, sym, ◌∙◌, ap, Bool, true, false, not, ◌==◌, Option, some, List, [], ◌∷◌,
  ◌++◌, arith, Result, ok, err, if_cases, if_true, if_false, if◌then◌else◌, inl, inr, Bool-cases,
}
use ffl_p2p.Platform.Threads.{
  System, Thread, Outcome, ThreadError, removed, destroy_thread, survives,
}
use ffl_p2p.Platform.Threads.Owned.{Joined}
use ffl_p2p.Core.Workers.Lifecycle.{
  Threading, Worker, after_join, stop_worker, thread_destroyed, destroy_worker, and_destroy,
  destroy_workers, go_on_stopping, stop_workers, vector_destroyed, destroy_pool,
}

abbrev pub count : ℕ → List ℕ → ℕ
count k [] = 0
count k (h ∷ hs) = (if h == k then 1 else 0) + count k hs

-- How often the thread `k` is the one that `t` has to join.
abbrev pub held : ℕ → Thread → ℕ
held k t = if t.joinable then (if t.handle == k then 1 else 0) else 0

abbrev pub total : ℕ → List Worker → ℕ
total k [] = 0
total k (w ∷ ws) = held k w.thread + total k ws

-- The live threads are those of `others` and those that the workers have to join.
pub record Owns (others : ℕ → ℕ) (attributes : ℕ) (s : System) (ws : List Worker) : Type 0 where
  pub live : (k : ℕ) → count k s.live ≡ others k + total k ws
  pub balanced : s.attributes ≡ attributes

count-removed :
    (h k : ℕ) (l : List ℕ)
    → 0 < count h l
    → count k (removed h l) + (if h == k then 1 else 0) ≡ count k l
count-removed h k [] p = absurd (omega arith)
count-removed h k (x ∷ l) p = ground (arith, count-removed h k l)

pub total-append :
    (k : ℕ) (ws : List Worker) (w : Worker) → total k (ws ++ w ∷ []) ≡ total k ws + held k w.thread
total-append k [] w = omega arith
total-append k (v ∷ ws) w = omega (arith, total-append k ws w)

abbrev pub Succeeds : Outcome → Type 0
Succeeds (s, t, ok u) = Unit {0}
Succeeds (s, t, err e) = ⊥

held_self : (t : Thread) → t.joinable ≡ true → 0 < held t.handle t
held_self t h = ground arith

pub held-idle : (k : ℕ) (t : Thread) → t.joinable ≡ false → held k t ≡ 0
held-idle k t h = if_false _ 0 h

joined-count :
    (others : ℕ → ℕ) (a : ℕ) (w : Worker) (ws : List Worker) (s : System) (live : List ℕ)
    → Owns others a s (w ∷ ws)
    → live ≡ (if w.thread.joinable then removed w.thread.handle s.live else s.live)
    → (k : ℕ) → count k live ≡ others k + total k ws
joined-count others a w ws s live v e k =
    let t = w.thread in
    elim (Bool-cases t.joinable) [
      | inl h ↦
          let pos : 0 < count t.handle s.live = omega (arith, v.live t.handle, held_self t h) in
          omega (
            arith,
            v.live k,
            ap (count k) (e ∙ if_true _ _ h),
            count-removed t.handle k s.live pos,
            if_true {A = ℕ} {b = t.joinable} (if t.handle == k then 1 else 0) 0 h,
          )
      | inr h ↦ omega (arith, v.live k, ap (count k) (e ∙ if_false _ _ h), held-idle k t h)
    ]

not-true : (b : Bool) → not b ≡ true → b ≡ false
not-true true h = sym h
not-true false h = refl

module _ {R J : Type 0} (threads : Threading R J) (j : J)
    (joins : (t : Thread) (s : System) → Succeeds (threads.join j t s)) where
  -- After a stop the worker has no thread to join.
  after_join-Owns :
      (others : ℕ → ℕ) (a : ℕ) (w : Worker) (ws : List Worker) (s : System) (r : Outcome)
      → Owns others a s (w ∷ ws)
      → Joined w.thread s r
      → Succeeds r
      → (s' : System) × (w' : Worker) × (after_join threads w r ≡ (s', w', ok tt))
        × Owns others a s' (w' ∷ ws)
  after_join-Owns others a w ws s (s', t', err e) v h f = absurd f
  after_join-Owns others a w ws s (s', t', ok u) v h f = (
    s',
    _,
    refl,
    record {
      live = λ k. omega (arith, joined-count others a w ws s s'.live v h.1 k, held-idle k t' h.0);
      balanced = h.2 ∙ v.balanced;
    },
  )

  stop_worker-Owns :
      (others : ℕ → ℕ) (a : ℕ) (w : Worker) (ws : List Worker) (s : System)
      → Owns others a s (w ∷ ws)
      → (s' : System) × (w' : Worker) × (stop_worker threads j w s ≡ (s', w', ok tt))
        × Owns others a s' (w' ∷ ws)
  unfolding stop_worker
  stop_worker-Owns others a w ws s v =
      if_cases
        (λ (r : System × Worker × Result ThreadError (Unit {0})).
          (s' : System) × (w' : Worker) × (r ≡ (s', w', ok tt)) × Owns others a s' (w' ∷ ws))
        (not w.running) (λ h. (s, w, refl, v))
        (λ h.
          after_join-Owns others a w ws s (threads.join j w.thread s) v
            (threads.join-Joined j w.thread s) (joins w.thread s))

  survives-Owns :
      (others : ℕ → ℕ) (a : ℕ) (w : Worker) (ws : List Worker) (s : System) (r : Outcome)
      → Owns others a s (w ∷ ws)
      → Joined w.thread s r
      → Succeeds r
      → (s' : System) × (survives r ≡ some s') × Owns others a s' ws
  survives-Owns others a w ws s (s', t', err e) v h f = absurd f
  survives-Owns others a w ws s (s', t', ok u) v h f = (
    s',
    refl,
    record {
      live = λ k. joined-count others a w ws s s'.live v h.1 k;
      balanced = h.2 ∙ v.balanced;
    },
  )

  destroy_thread-Owns :
      (others : ℕ → ℕ) (a : ℕ) (w : Worker) (ws : List Worker) (s : System)
      → Owns others a s (w ∷ ws)
      → (s' : System) × (destroy_thread (threads.join j) w.thread s ≡ some s') × Owns others a s' ws
  unfolding destroy_thread
  destroy_thread-Owns others a w ws s v =
      if_cases (λ (r : Option System). (s' : System) × (r ≡ some s') × Owns others a s' ws)
        (not w.thread.joinable)
        (λ h. (
          s,
          refl,
          record {
            live = λ k. omega (arith, v.live k, held-idle k w.thread (not-true _ h));
            balanced = v.balanced;
          },
        ))
        (λ h.
          survives-Owns others a w ws s (threads.join j w.thread s) v
            (threads.join-Joined j w.thread s) (joins w.thread s))

  -- The destructor of a worker joins its thread, if there still is one.
  pub destroy_worker-Owns :
      (others : ℕ → ℕ) (a : ℕ) (w : Worker) (ws : List Worker) (s : System)
      → Owns others a s (w ∷ ws)
      → (s' : System) × (destroy_worker threads j w s ≡ some s') × Owns others a s' ws
  unfolding destroy_worker
  destroy_worker-Owns others a w ws s v =
      let (t, w', stopped, u) = stop_worker-Owns others a w ws s v in
      let (s', destroyed, x) = destroy_thread-Owns others a w' ws t u in
      (s', ap (thread_destroyed threads j) stopped ∙ destroyed, x)

  pub destroy_workers-Owns :
      (others : ℕ → ℕ) (a : ℕ) (ws : List Worker) (s : System)
      → Owns others a s ws
      → (s' : System) × (destroy_workers threads j ws s ≡ some s') × Owns others a s' []
  unfolding destroy_workers
  destroy_workers-Owns others a [] s v = (s, refl, v)
  destroy_workers-Owns others a (w ∷ ws) s v =
      let (t, one, u) = destroy_worker-Owns others a w ws s v in
      let (s', rest, x) = destroy_workers-Owns others a ws t u in
      (s', ap (λ o. and_destroy threads o (destroy_workers threads j ws)) one ∙ rest, x)

  stop_workers-Owns :
      (others : ℕ → ℕ) (a : ℕ) (ws : List Worker) (s : System)
      → Owns others a s ws
      → (s' : System) × (ws' : List Worker) × (stop_workers threads j ws s ≡ some (s', ws'))
        × Owns others a s' ws'
  unfolding stop_workers
  stop_workers-Owns others a [] s v = (s, [], refl, v)
  stop_workers-Owns others a (w ∷ ws) s v =
      let (t, w', one, u) = stop_worker-Owns others a w ws s v in
      let (s', ws', rest, x) =
        stop_workers-Owns (λ k. others k + held k w'.thread) a ws t
          (record { live = λ k. omega (arith, u.live k); balanced = u.balanced }) in
      (
        s',
        w' ∷ ws',
        ap (λ r. go_on_stopping threads r (stop_workers threads j ws)) one
            ∙ ap (λ r. go_on_stopping threads (t, w', ok tt) (λ q. r)) rest,
        record { live = λ k. omega (arith, x.live k); balanced = x.balanced },
      )

  pub destroy_pool-Owns :
      (others : ℕ → ℕ) (a : ℕ) (ws : List Worker) (s : System)
      → Owns others a s ws
      → (s' : System) × (destroy_pool threads j ws s ≡ some s') × Owns others a s' []
  unfolding destroy_pool
  destroy_pool-Owns others a ws s v =
      let (t, ws', stopped, u) = stop_workers-Owns others a ws s v in
      let (s', destroyed, x) = destroy_workers-Owns others a ws' t u in
      (s', ap (vector_destroyed threads j) stopped ∙ destroyed, x)
