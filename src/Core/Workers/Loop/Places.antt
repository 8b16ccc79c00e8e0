-- ===== src/Core/Workers/Loop/Places.antt =====
-- What holds of every connection between two iterations of Worker::run (native/core/Worker.cpp).
use ffl_p2p.Prelude.{
  ℕ, ◌+◌, ◌≡◌, ◌≢◌, refl, sym, ◌∙◌, ap, subst, Bool, true, false, not, ◌&&◌, Option, none, some,
  List, [], ◌∷◌, ◌++◌, ◌==◌, arith, if◌then◌else◌, if_cases, if_true, if_false, is_empty, inl, inr,
  Bool-cases,
}
use ffl_p2p.Quic.Library.{Outside, Error}
use ffl_p2p.Quic.Schedule.{ScheduleState, idle, queued, processing, exchange}
use ffl_p2p.Quic.Connection.{Connection, Operation, is_shutdown, queue_operation, complete}
use ffl_p2p.Quic.Connection.Flush.{AggregateWriter}
use ffl_p2p.Quic.Connection.Operations.{get_next_expiry}
use ffl_p2p.Core.TimerWheel.Expiry.{find, expiry_of}
use ffl_p2p.Core.Workers.Loop.{
  Loop, set_at, schedule_as, schedule_if_idle, with_operation, queue_at,
}

abbrev pub count : ℕ → List ℕ → ℕ
count k [] = 0
count k (x ∷ xs) = (if x == k then 1 else 0) + count k xs

-- The places in the deque that a connection has in each state.
abbrev pub place : ScheduleState → ℕ
place queued = 1
place _ = 0

module _ {W : Type 0} (out : Outside W) (write_aggregate : AggregateWriter W) where
  -- A connection is in the deque exactly once while it is queued, and then it has operations; idle, it
  -- has none, and if it runs, its timer is the one that it asks for. `late` says that the wheel has just
  -- given it up.
  pub record FineAt (late : Bool) (c : Connection) (w : W) (st : ScheduleState) (n : ℕ)
      (t : Option ℕ) : Type 0 where
    pub placed : n ≡ place st
    pub between : st ≢ processing
    pub busy : st ≡ idle → is_empty c.operations ≡ true
    pub needed : st ≡ queued → is_empty c.operations ≡ false
    pub timely :
        late ≡ false
        → st ≡ idle
        → c.stopped ≡ false
        → t ≡ expiry_of (get_next_expiry out write_aggregate c w)

  abbrev pub Fine : Bool → Loop W → ℕ → Type 0
  Fine late l k =
      FineAt late (l.connections k) (l.outside k) (l.schedule k) (count k l.queue) (find l.wheel k)

  pub idle-ne-queued : idle ≢ queued
  idle-ne-queued h = cc

  queued-FineAt :
      (late : Bool) (c : Connection) (w : W) (st : ScheduleState) (n : ℕ) (t : Option ℕ)
      → st ≡ queued
      → n ≡ 1
      → is_empty c.operations ≡ false
      → FineAt late c w st n t
  queued-FineAt late c w st n t e h some_work = record {
    placed = h ∙ sym (ap place e);
    between = λ p. cc;
    busy = λ p. absurd (idle-ne-queued (sym p ∙ e));
    needed = λ p. some_work;
    timely = λ q p r. absurd (idle-ne-queued (sym p ∙ e));
  }

  pub set_at_self {ℓ} : {A : Type ℓ} (i : ℕ) (x : A) (f : ℕ → A) → set_at i x f i ≡ x
  set_at_self i x f = if_true _ _ (same i)
    where
      same : (n : ℕ) → (n == n) ≡ true
      same n = ground arith

  count-snoc :
      (k i : ℕ) (q : List ℕ) → count k (q ++ i ∷ []) ≡ count k q + (if i == k then 1 else 0)
  count-snoc k i [] = omega arith
  count-snoc k i (x ∷ q) = omega (arith, count-snoc k i q)

  -- A connection that a thread schedules is queued, and in the deque once.
  schedule_as_self :
      (late : Bool) (i : ℕ) (st : ScheduleState) (l : Loop W)
      → st ≢ processing
      → count i l.queue ≡ place st
      → is_empty (l.connections i).operations ≡ false
      → Fine late (schedule_as i (exchange st) l) i
  unfolding exchange
  schedule_as_self late i idle l p n h =
      queued-FineAt late _ _ _ _ _ (set_at_self i queued l.schedule)
        (omega (arith, count-snoc i i l.queue, n, self i)) h
    where
      self : (m : ℕ) → ◌≡◌ {A = ℕ} (if m == m then 1 else 0) 1
      self m = ground arith
  schedule_as_self late i queued l p n h =
      queued-FineAt late _ _ _ _ _ (set_at_self i queued l.schedule) n h
  schedule_as_self late i processing l p n h = absurd (p refl)

  pub schedule_if_idle_self :
      (late : Bool) (i : ℕ) (l : Loop W)
      → l.schedule i ≢ processing
      → count i l.queue ≡ place (l.schedule i)
      → is_empty (l.connections i).operations ≡ false
      → Fine late (schedule_if_idle i l) i
  unfolding schedule_if_idle
  schedule_if_idle_self late i l p n h = schedule_as_self late i (l.schedule i) l p n h

  schedule_as-other :
      (late : Bool) (i k : ℕ) (r : Bool × ScheduleState) (l : Loop W)
      → (k == i) ≡ false
      → (i == k) ≡ false
      → Fine late l k
      → Fine late (schedule_as i r l) k
  schedule_as-other late i k (false, st) l h g v =
      subst (λ s. FineAt late (l.connections k) (l.outside k) s (count k l.queue) (find l.wheel k))
        (sym (if_false st (l.schedule k) h)) v
  schedule_as-other late i k (true, st) l h g v =
      subst
        (λ s.
          FineAt late (l.connections k) (l.outside k) s (count k (l.queue ++ i ∷ []))
            (find l.wheel k))
        (sym (if_false st (l.schedule k) h))
        (subst (λ n. FineAt late (l.connections k) (l.outside k) (l.schedule k) n (find l.wheel k))
          (sym (omega (arith, count-snoc k i l.queue, if_false {A = ℕ} {b = i == k} 1 0 g))) v)

  pub schedule_if_idle-other :
      (late : Bool) (i k : ℕ) (l : Loop W)
      → (k == i) ≡ false
      → (i == k) ≡ false
      → Fine late l k
      → Fine late (schedule_if_idle i l) k
  unfolding schedule_if_idle
  schedule_if_idle-other late i k l h g v =
      schedule_as-other late i k (exchange (l.schedule i)) l h g v

  complete-FineAt :
      (late : Bool) (c : Connection) (id : Option ℕ) (e : Option Error) (w : W) (st : ScheduleState)
      (n : ℕ) (t : Option ℕ)
      → FineAt late c w st n t
      → FineAt late (complete c id e) w st n t
  unfolding complete get_next_expiry
  complete-FineAt late c none e w st n t v = v
  complete-FineAt late c (some id) e w st n t v = record {
    placed = v.placed;
    between = v.between;
    busy = v.busy;
    needed = v.needed;
    timely = v.timely;
  }

  pub with_operation-other :
      (late : Bool) (i k : ℕ) (o : Operation) (l : Loop W)
      → (k == i) ≡ false
      → Fine late l k
      → Fine late (with_operation i o l) k
  with_operation-other late i k o l h v =
      subst (λ c. FineAt late c (l.outside k) (l.schedule k) (count k l.queue) (find l.wheel k))
        (sym (if_false (queue_operation (l.connections i) o) (l.connections k) h)) v

  pub refused_self :
      (late : Bool) (i : ℕ) (o : Operation) (l : Loop W)
      → ((l.connections i).stopped && not (is_shutdown o.type)) ≡ true
      → Fine late l i
      → Fine late (with_operation i o l) i
  unfolding queue_operation
  refused_self late i o l h v =
      subst (λ c. FineAt late c (l.outside i) (l.schedule i) (count i l.queue) (find l.wheel i))
        (sym (set_at_self i (queue_operation (l.connections i) o) l.connections ∙ if_true _ _ h))
        (complete-FineAt late (l.connections i) o.completion _ (l.outside i) (l.schedule i)
          (count i l.queue) (find l.wheel i) v)

  pub each :
      (P : ℕ → Type 0) (i : ℕ)
      → P i
      → ((k : ℕ) → (k == i) ≡ false → (i == k) ≡ false → P k)
      → (k : ℕ) → P k
  each P i h g k = elim (Bool-cases (k == i)) [
    | inl e ↦ subst P (equal i k e) h
    | inr e ↦ g k e (other i k e)
  ]
    where
      equal : (m n : ℕ) → (n == m) ≡ true → m ≡ n
      equal m n e = ground arith

      other : (m n : ℕ) → (n == m) ≡ false → (m == n) ≡ false
      other m n e = ground arith

  -- A connection that takes an operation has one.
  pub with_operation-needed :
      (i : ℕ) (o : Operation) (l : Loop W)
      → ((l.connections i).stopped && not (is_shutdown o.type)) ≡ false
      → is_empty ((with_operation i o l).connections i).operations ≡ false
  unfolding queue_operation
  with_operation-needed i o l h =
      ap (λ (c : Connection). is_empty c.operations)
        (set_at_self i (queue_operation (l.connections i) o) l.connections ∙ if_false _ _ h)
      ∙ behind (l.connections i).operations
    where
      behind : (os : List Operation) → is_empty (os ++ o ∷ []) ≡ false
      behind [] = refl
      behind (x ∷ os) = refl

  -- An operation that any thread queues.
  pub queue_at-Fine :
      (dead : ℕ → Bool) (i : ℕ) (o : Operation) (l : Loop W)
      → ((k : ℕ) → Fine (dead k) l k)
      → (k : ℕ) → Fine (dead k) (queue_at i o l) k
  unfolding queue_at
  queue_at-Fine dead i o l v k =
      if_cases (λ (m : Loop W). Fine (dead k) m k)
        ((l.connections i).stopped && not (is_shutdown o.type))
        (λ h.
          each (λ j. Fine (dead j) (with_operation i o l) j) i (refused_self (dead i) i o l h (v i))
            (λ j e g. with_operation-other (dead j) i j o l e (v j)) k)
        (λ h.
          each (λ j. Fine (dead j) (schedule_if_idle i (with_operation i o l)) j) i
            (schedule_if_idle_self (dead i) i (with_operation i o l) (v i).between (v i).placed
              (with_operation-needed i o l h))
            (λ j e g.
              schedule_if_idle-other (dead j) i j (with_operation i o l) e g
                (with_operation-other (dead j) i j o l e (v j)))
            k)
