-- ===== src/Core/Workers/Loop/Turns.antt =====
-- The iterations of Worker::run (native/core/Worker.cpp), and every connection of the worker.
use ffl_p2p.Prelude.{
  ℕ, ◌≤◌, ◌≡◌, refl, sym, ◌∙◌, ap, subst, Bool, true, false, not, Option, none, some, List, [], ◌∷◌,
  ◌==◌, arith, if◌then◌else◌, if_cases, if_true, if_false, is_empty, leb,
}
use ffl_p2p.Quic.Library.{Outside}
use ffl_p2p.Quic.Schedule.{ScheduleState, idle, queued, processing}
use ffl_p2p.Quic.Connection.{Connection}
use ffl_p2p.Quic.Connection.Flush.{AggregateWriter}
use ffl_p2p.Quic.Connection.Operations.{get_next_expiry}
use ffl_p2p.Quic.Connection.Operations.Ends.{process_operations-ends}
use ffl_p2p.Core.TimerWheel
use ffl_p2p.Core.TimerWheel.{TimerWheel, update, remove, take_expired}
use ffl_p2p.Core.TimerWheel.Expiry.{find, expiry_of, find-update, find-remove}
use ffl_p2p.Core.Workers.Loop.{
  Loop, set_at, operation_budget, finish_at, settle, settled, process_at, popped, timed, iterate,
}
use ffl_p2p.Core.Workers.Loop.Places.{
  idle-ne-queued, count, place, FineAt, Fine, set_at_self, schedule_if_idle_self,
  schedule_if_idle-other, each,
}
use ffl_p2p.Core.Workers.Loop.Expiries.{Sound, relaxed, process_timers-Sound}

module _ {W : Type 0} (out : Outside W) (write_aggregate : AggregateWriter W) where
  abbrev Good : Bool → Loop W → ℕ → Type 0
  Good late l k = Fine out write_aggregate late l k

  module _ (alive : ℕ → Bool) where
    -- The end of a turn, where `i` is the connection and no longer in the deque.
    finish_at_self :
        (i : ℕ) (l : Loop W)
        → count i l.queue ≡ 0
        → ((l.connections i).stopped ≡ false
            → find l.wheel i
              ≡ expiry_of (get_next_expiry out write_aggregate (l.connections i) (l.outside i)))
        → Good false (finish_at i l) i
    unfolding finish_at
    finish_at_self i l n t =
        let m : Loop W = record l { schedule = set_at i idle l.schedule } in
        let st = set_at_self out write_aggregate i idle l.schedule in
        if_cases (λ (q : Loop W). Good false q i) (is_empty (l.connections i).operations)
          (λ h. record {
            placed = n ∙ sym (ap place st);
            between = λ p. cc;
            busy = λ p. h;
            needed = λ p. absurd (idle-ne-queued out write_aggregate (sym st ∙ p));
            timely = λ q p r. t r;
          })
          (λ h.
            schedule_if_idle_self out write_aggregate false i m (λ p. cc) (n ∙ sym (ap place st)) h)

    finish_at-other :
        (late : Bool) (i k : ℕ) (l : Loop W)
        → (k == i) ≡ false
        → (i == k) ≡ false
        → Good late l k
        → Good late (finish_at i l) k
    unfolding finish_at
    finish_at-other late i k l h g v =
        let m : Loop W = record l { schedule = set_at i idle l.schedule } in
        let u : Good late m k =
          subst
            (λ s.
              FineAt out write_aggregate late (l.connections k) (l.outside k) s (count k l.queue)
                (find l.wheel k))
            (sym (if_false idle (l.schedule k) h)) v in
        if_cases (λ (q : Loop W). Good late q k) (is_empty (l.connections i).operations) (λ e. u)
          (λ e. schedule_if_idle-other out write_aggregate late i k m h g u)

    replaced :
        (late : Bool) (c d : Connection) (w v : W) (st : ScheduleState) (n : ℕ) (t u : Option ℕ)
        → d ≡ c
        → v ≡ w
        → u ≡ t
        → FineAt out write_aggregate late c w st n t
        → FineAt out write_aggregate late d v st n u
    replaced late c d w v st n t u e f g x =
        subst (λ y. FineAt out write_aggregate late y v st n u) (sym e)
          (subst (λ y. FineAt out write_aggregate late c y st n u) (sym f)
            (subst (λ y. FineAt out write_aggregate late c w st n y) (sym g) x))

    -- The wheel after a turn.
    abbrev next_wheel : ℕ → W → Connection → Loop W → TimerWheel
    next_wheel i w c l =
        if c.stopped
        then remove l.wheel i
        else update l.wheel i (get_next_expiry out write_aggregate c w)

    next_wheel_self :
        (i : ℕ) (w : W) (c : Connection) (l : Loop W)
        → c.stopped ≡ false
        → find (next_wheel i w c l) i ≡ expiry_of (get_next_expiry out write_aggregate c w)
    next_wheel_self i w c l r =
        let expiry = get_next_expiry out write_aggregate c w in
        ap (λ es. find es i) (if_false _ _ r)
        ∙ find-update l.wheel i expiry i
        ∙ if_true (expiry_of expiry) (find l.wheel i) (same i)
      where
        same : (n : ℕ) → (n == n) ≡ true
        same n = ground arith

    next_wheel-other :
        (i k : ℕ) (w : W) (c : Connection) (l : Loop W)
        → (k == i) ≡ false
        → find (next_wheel i w c l) k ≡ find l.wheel k
    next_wheel-other i k w c l h =
        if_cases (λ (es : TimerWheel). find es k ≡ find l.wheel k) c.stopped
          (λ e. find-remove l.wheel i k ∙ if_false none (find l.wheel k) h)
          (λ e. find-update l.wheel i _ k ∙ if_false _ (find l.wheel k) h)

    abbrev turned : ℕ → W → Connection → Loop W → Loop W
    turned i w c l = record l {
      connections = set_at i c l.connections;
      outside = set_at i w l.outside;
      wheel = next_wheel i w c l;
    }

    settle-Sound :
        (i : ℕ) (w : W) (c : Connection) (l : Loop W)
        → count i l.queue ≡ 0
        → ((k : ℕ) → (k == i) ≡ false → (i == k) ≡ false → Good (not (alive k)) l k)
        → Sound out write_aggregate alive (settle out write_aggregate alive i (w, c) l)
    unfolding settle
    settle-Sound i w c l n v =
        each out write_aggregate (λ k. Good (not (alive k)) (finish_at i (turned i w c l)) k) i
          (relaxed out write_aggregate (not (alive i)) (finish_at i (turned i w c l)) i
            (finish_at_self i (turned i w c l) n timer))
          (λ k e g. finish_at-other (not (alive k)) i k (turned i w c l) e g (
            replaced (not (alive k)) (l.connections k) _ (l.outside k) _ (l.schedule k)
              (count k l.queue) (find l.wheel k) _ (if_false c (l.connections k) e)
              (if_false w (l.outside k) e) (next_wheel-other i k w c l e) (v k e g)))
      where
        Timer : Connection → W → Type 0
        Timer d u =
            d.stopped ≡ false
            → find (next_wheel i w c l) i ≡ expiry_of (get_next_expiry out write_aggregate d u)

        timer : Timer (set_at i c l.connections i) (set_at i w l.outside i)
        timer =
            subst (λ d. Timer d (set_at i w l.outside i))
              (sym (set_at_self out write_aggregate i c l.connections))
              (subst (Timer c) (sym (set_at_self out write_aggregate i w l.outside))
                (next_wheel_self i w c l))

    -- The turn of the first connection of the deque ends.
    process_at-Sound :
        (i : ℕ) (is : List ℕ) (l : Loop W)
        → l.queue ≡ i ∷ is
        → Sound out write_aggregate alive l
        → (m : Loop W) × (process_at out write_aggregate alive i (record l { queue = is }) ≡ some m)
          × Sound out write_aggregate alive m
    unfolding process_at
    process_at-Sound i is l q v =
        let ((w, c), run) =
          process_operations-ends out write_aggregate operation_budget (l.connections i)
            (l.outside i) in
        let begun : Loop W = record l { queue = is; schedule = set_at i processing l.schedule } in
        (
          settle out write_aggregate alive i (w, c) begun,
          ap (λ r. settled out write_aggregate alive i r begun) run,
          settle-Sound i w c begun (once (v i) q) (λ k e g. waits k e g (v k)),
        )
      where
        place-le : (st : ScheduleState) → place st ≤ 1
        place-le idle = omega arith
        place-le queued = omega arith
        place-le processing = omega arith

        same : (n : ℕ) → ◌≡◌ {A = ℕ} (if n == n then 1 else 0) 1
        same n = ground arith

        once : Good (not (alive i)) l i → l.queue ≡ i ∷ is → count i is ≡ 0
        once x e = omega (arith, x.placed, ap (count i) e, place-le (l.schedule i), same i)

        skipped : (k : ℕ) → (i == k) ≡ false → count k is ≡ count k l.queue
        skipped k g = omega (arith, ap (count k) q, if_false {A = ℕ} {b = i == k} 1 0 g)

        waits :
            (k : ℕ)
            → (k == i) ≡ false
            → (i == k) ≡ false
            → Good (not (alive k)) l k
            → Good
                (not (alive k))
                (record l { queue = is; schedule = set_at i processing l.schedule })
                k
        waits k e g x =
            subst
              (λ n.
                FineAt out write_aggregate (not (alive k)) (l.connections k) (l.outside k)
                  (set_at i processing l.schedule k) n (find l.wheel k))
              (sym (skipped k g))
              (subst
                (λ st.
                  FineAt out write_aggregate (not (alive k)) (l.connections k) (l.outside k) st
                    (count k l.queue) (find l.wheel k))
                (sym (if_false processing (l.schedule k) e)) x)

    popped-Sound :
        (is : List ℕ) (l : Loop W)
        → l.queue ≡ is
        → Sound out write_aggregate alive l
        → (m : Loop W) × (popped out write_aggregate alive is l ≡ some m)
          × Sound out write_aggregate alive m
    popped-Sound [] l q v = (l, refl, v)
    popped-Sound (i ∷ is) l q v = process_at-Sound i is l q v

    -- Every iteration of the worker's loop ends, whatever is queued and due, and keeps every connection
    -- sound: in the deque exactly once and with operations, or out of it and without any; and where it is
    -- out of it, alive and not stopped, with the timer that it asks for.
    pub iterate-Sound :
        (now : ℕ) (l : Loop W)
        → Sound out write_aggregate alive l
        → (m : Loop W) × (iterate out write_aggregate alive now l ≡ some m)
          × Sound out write_aggregate alive m
    unfolding iterate
    iterate-Sound now l v =
        let u : Sound out write_aggregate alive (timed out write_aggregate alive now l) =
          if_cases (Sound out write_aggregate alive)
            (leb (TimerWheel.get_next_expiry alive l.wheel) now)
            (λ h. process_timers-Sound out write_aggregate alive now l v) (λ h. v) in
        popped-Sound (timed out write_aggregate alive now l).queue _ refl u
