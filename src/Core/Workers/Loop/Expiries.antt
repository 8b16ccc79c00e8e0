-- ===== src/Core/Workers/Loop/Expiries.antt =====
-- Worker::processTimers (native/core/Worker.cpp), and every connection of the worker.
use ffl_p2p.Prelude.{
  ℕ, ◌≡◌, ◌≢◌, refl, sym, ◌∙◌, subst, Bool, true, false, not, ◌&&◌, ◌||◌, List, [], ◌∷◌, ◌==◌,
  arith, if_cases, if_true, if_false,
}
use ffl_p2p.Quic.Library.{Outside}
use ffl_p2p.Quic.Connection.{timer_expired, internal_operation, is_shutdown}
use ffl_p2p.Quic.Connection.Flush.{AggregateWriter}
use ffl_p2p.Core.TimerWheel.{take_expired}
use ffl_p2p.Core.TimerWheel.Deadlines.{elem, find-take_expired}
use ffl_p2p.Core.Workers.Loop.{
  Loop, with_operation, queue_at, queue_timer_at, expire_all, process_timers,
}
use ffl_p2p.Core.Workers.Loop.Places.{
  Fine, schedule_if_idle_self, schedule_if_idle-other, each, with_operation-other,
  with_operation-needed,
}

module _ {W : Type 0} (out : Outside W) (write_aggregate : AggregateWriter W) where
  abbrev Good : Bool → Loop W → ℕ → Type 0
  Good late l k = Fine out write_aggregate late l k

  -- A connection whose timer the wheel gave up is queued for it, unless it is stopped.
  queue_timer_at_self : (i : ℕ) (l : Loop W) → Good true l i → Good false (queue_timer_at i l) i
  unfolding queue_timer_at queue_at
  queue_timer_at_self i l v =
      if_cases (λ (m : Loop W). Good false m i) (l.connections i).stopped
        (λ h. record {
          placed = v.placed;
          between = v.between;
          busy = v.busy;
          needed = v.needed;
          timely = λ q p r. absurd (true-ne-false (sym h ∙ r));
        })
        (λ h.
          subst (λ (m : Loop W). Good false m i)
            (sym (if_false _ _ (runs (l.connections i).stopped h)))
            (schedule_if_idle_self out write_aggregate false i
              (with_operation i (internal_operation timer_expired) l) v.between v.placed
              (with_operation-needed out write_aggregate i (internal_operation timer_expired) l
                (runs (l.connections i).stopped h))))
    where
      true-ne-false : true ≢ false
      true-ne-false h = cc

      runs : (b : Bool) → b ≡ false → (b && true) ≡ false
      runs true h = h
      runs false h = refl

  queue_timer_at-other :
      (late : Bool) (i k : ℕ) (l : Loop W)
      → (k == i) ≡ false
      → (i == k) ≡ false
      → Good late l k
      → Good late (queue_timer_at i l) k
  unfolding queue_timer_at queue_at
  queue_timer_at-other late i k l h g v =
      let o = internal_operation timer_expired in
      let moved = with_operation-other out write_aggregate late i k o l h v in
      if_cases (λ (m : Loop W). Good late m k) (l.connections i).stopped (λ e. v)
        (λ e.
          if_cases (λ (m : Loop W). Good late m k)
            ((l.connections i).stopped && not (is_shutdown o.type)) (λ r. moved)
            (λ r. schedule_if_idle-other out write_aggregate late i k _ h g moved))

  pub relaxed : (late : Bool) (m : Loop W) (k : ℕ) → Good false m k → Good late m k
  relaxed late m k v = record {
    placed = v.placed;
    between = v.between;
    busy = v.busy;
    needed = v.needed;
    timely = λ q p r. v.timely refl p r;
  }

  -- `dead` are the connections that are gone, whose timers do not matter.
  expire_all-Fine :
      (dead : ℕ → Bool) (is : List ℕ) (l : Loop W)
      → ((k : ℕ) → Good (elem k is || dead k) l k)
      → (k : ℕ) → Good (dead k) (expire_all is l) k
  unfolding expire_all
  expire_all-Fine dead [] l v k = v k
  expire_all-Fine dead (i ∷ is) l v k =
      expire_all-Fine dead is (queue_timer_at i l)
        (each out write_aggregate (λ j. Good (elem j is || dead j) (queue_timer_at i l) j) i
          (relaxed (elem i is || dead i) (queue_timer_at i l) i (
            queue_timer_at_self i l
              (subst (λ b. Good (b || dead i) l i) (if_true true (elem i is) (same i)) (v i))))
          (λ j e g.
            queue_timer_at-other (elem j is || dead j) i j l e g
              (subst (λ b. Good (b || dead j) l j) (if_false true (elem j is) g) (v j))))
        k
    where
      same : (n : ℕ) → (n == n) ≡ true
      same n = ground arith

  module _ (alive : ℕ → Bool) where
    -- What holds of every connection between two iterations; the timer of one that is gone does not
    -- matter.
    abbrev pub Sound : Loop W → Type 0
    Sound l = (k : ℕ) → Good (not (alive k)) l k

    given_up :
        (now k : ℕ) (l : Loop W) (b a : Bool)
        → elem k (take_expired alive l.wheel now).0 ≡ b
        → alive k ≡ a
        → Good (not a) l k
        → Good (b || not a) (record l { wheel = (take_expired alive l.wheel now).1 }) k
    given_up now k l true a h e v = record {
      placed = v.placed;
      between = v.between;
      busy = v.busy;
      needed = v.needed;
      timely = λ q p r. cc;
    }
    given_up now k l false false h e v = record {
      placed = v.placed;
      between = v.between;
      busy = v.busy;
      needed = v.needed;
      timely = λ q p r. cc;
    }
    given_up now k l false true h e v = record {
      placed = v.placed;
      between = v.between;
      busy = v.busy;
      needed = v.needed;
      timely = λ q p r. find-take_expired alive l.wheel now k e h ∙ v.timely refl p r;
    }

    -- `processTimers`
    pub process_timers-Sound :
        (now : ℕ) (l : Loop W) → Sound l → Sound (process_timers out write_aggregate alive now l)
    unfolding process_timers
    process_timers-Sound now l v =
        expire_all-Fine (λ k. not (alive k)) (take_expired alive l.wheel now).0
          (record l { wheel = (take_expired alive l.wheel now).1 })
          (λ k.
            given_up now k l (elem k (take_expired alive l.wheel now).0) (alive k) refl refl (v k))
