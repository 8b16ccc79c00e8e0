-- ===== src/Quic/Schedule/Progress.antt =====
-- How far a queued operation of native/quic/Connection.cpp is from being run by its worker
-- (native/core/Worker.cpp), and who brings it nearer.
use ffl_p2p.Prelude.{
  subst, ◌⊎◌, inl, inr, Bool-cases, ℕ, ◌≤◌, ◌<◌, ◌≡◌, ◌≢◌, refl, Bool, true, false, ltb, ◌==◌,
  if◌then◌else◌, arith, sym, ap,
}
use ffl_p2p.Quic.Schedule.{
  WorkerState, looking, waiting, holding, running, finished, rescheduling, enqueuing, signalling,
  Runtime, start, push_operation, exchange, schedule_if_idle, enter_deque, set_ready,
  pop_connection, wake, begin_processing, pop_operation, finish_processing, look_again, reschedule,
  reenter_deque, Step, Reach,
}
use ffl_p2p.Quic.Schedule.Wakeup.{IsValid, Reach-IsValid, held, sleeps}

-- The worker, a thread that is to schedule the connection, one that is to put it into the deque, or
-- one that is to set the event.
pub data Actor : Type 0 where
  worker scheduler enterer setter : Actor

-- The steps of each, without those of other connections and without the worker's time-out.
pub data Acts (s : Runtime) : Actor → Runtime → Type 0 where
  schedules : 0 < s.pushed → Acts s scheduler (schedule_if_idle s)
  enters : 0 < s.won → Acts s enterer (enter_deque s)
  sets : 0 < s.setting → Acts s setter (set_ready s)
  pops : s.worker ≡ looking → Acts s worker (pop_connection s)
  wakes : s.worker ≡ waiting → s.signaled ≡ true → Acts s worker (wake s)
  begins : s.worker ≡ holding → Acts s worker (begin_processing s)
  looks : s.worker ≡ finished → Acts s worker (look_again s)
  reschedules : s.worker ≡ rescheduling → Acts s worker (reschedule s)
  reenters : s.worker ≡ enqueuing → Acts s worker (reenter_deque s)
  signals : s.worker ≡ signalling → Acts s worker (record s { signaled = true; worker = looking })

-- With the connection in the deque, on the way to it, or in no place.
abbrev by_place : ℕ → ℕ → ℕ → ℕ → ℕ
by_place entries won inside nowhere =
    if ltb 0 entries then inside else if ltb 0 won then 6 else nowhere

abbrev distance_of : ℕ → ℕ → Bool → WorkerState → ℕ
distance_of entries won signaled running = 0
distance_of entries won signaled holding = 1
distance_of entries won signaled enqueuing = 4
distance_of entries won signaled looking = by_place entries won 2 7
distance_of entries won signaled signalling = by_place entries won 3 7
distance_of entries won true waiting = by_place entries won 3 7
distance_of entries won false waiting = by_place entries won 5 7
distance_of entries won signaled rescheduling = by_place entries won 3 8
distance_of entries won signaled finished = by_place entries won 4 9

-- How many steps, at most, the connection is from being run.
abbrev pub distance : Runtime → ℕ
distance s = distance_of s.entries s.won s.signaled s.worker

-- Whose step is next.
abbrev pub next_actor : ℕ → Actor
next_actor n =
    if n == 7 then scheduler else if n == 6 then enterer else if n == 5 then setter else worker

abbrev Advances : Runtime → Type 0
Advances s = (t : Runtime) × Acts s (next_actor (distance s)) t × (distance t < distance s)

act :
    {s : Runtime} (k : Actor) (t : Runtime)
    → next_actor (distance s) ≡ k
    → Acts s k t
    → distance t < distance s
    → Advances s
act {s} k t e a h = (t, subst (λ m. Acts s m t) (sym e) a, h)

enters_deque : {s : Runtime} → 0 < s.won → distance s ≡ 6 → Advances s
unfolding enter_deque
enters_deque {s} h e =
    act enterer (enter_deque s) (ap next_actor e) (Acts.enters h)
      (subst (λ n. distance (enter_deque s) < n) (sym e) (ground arith))

is_scheduled :
    {s : Runtime}
    → IsValid s
    → 0 < s.pushed
    → s.entries ≡ 0
    → s.won ≡ 0
    → held s.worker ≡ 0
    → distance s ≡ 7
    → Advances s
unfolding schedule_if_idle exchange
is_scheduled {s} v h a b c e =
    act scheduler (schedule_if_idle s) (ap next_actor e) (Acts.schedules h)
      (subst (λ n. distance (schedule_if_idle s) < n) (sym e) (ground (arith, v.single)))

abbrev Place : Runtime → Type 0
Place s = (0 < s.entries) ⊎ (((s.entries ≡ 0) × (0 < s.won)) ⊎ ((s.entries ≡ 0) × (s.won ≡ 0)))

place : (s : Runtime) → Place s
place s = in_place s.entries s.won
  where
    in_place : (a b : ℕ) → (0 < a) ⊎ (((a ≡ 0) × (0 < b)) ⊎ ((a ≡ 0) × (b ≡ 0)))
    in_place a b = elim (Bool-cases (ltb 0 a)) [
      | inl e ↦ inl (ground arith)
      | inr e ↦ inr (elim (Bool-cases (ltb 0 b)) [
        | inl f ↦ inl (ground arith, ground arith)
        | inr f ↦ inr (ground arith, ground arith)
      ])
    ]

awaken :
    {s : Runtime}
    → IsValid s
    → s.worker ≡ waiting
    → 0 < s.entries
    → (s.signaled ≡ true) ⊎ (0 < s.setting)
    → Advances s
unfolding set_ready wake
awaken {s} v e a (inl on) = act worker (wake s) (ground arith) (Acts.wakes e on) (ground arith)
awaken {s} v e a (inr some_set) = elim (Bool-cases s.signaled) [
  | inl on ↦ act worker (wake s) (ground arith) (Acts.wakes e on) (ground arith)
  | inr off ↦ act setter (set_ready s) (ground arith) (Acts.sets some_set) (ground arith)
]

bring_nearer :
    {s : Runtime} (w : WorkerState)
    → s.worker ≡ w
    → IsValid s
    → 0 < s.operations
    → s.worker ≢ running
    → Advances s
unfolding enter_deque set_ready pop_connection wake begin_processing look_again reschedule exchange
    reenter_deque
bring_nearer running e v o r = absurd (r e)
bring_nearer {s} holding e v o r =
    act worker (begin_processing s) (ground arith) (Acts.begins e) (ground arith)
bring_nearer {s} enqueuing e v o r =
    act worker (reenter_deque s) (ground arith) (Acts.reenters e) (ground arith)
bring_nearer {s} looking e v o r = elim (place s) [
  | inl a ↦ act worker (pop_connection s) (ground arith) (Acts.pops e) (ground (arith, v.single))
  | inr (inl h) ↦ enters_deque h.1 (ground arith)
  | inr (inr h) ↦
      is_scheduled v (ground (arith, v.single, v.noticed)) h.0 h.1 (ground arith) (ground arith)
]
bring_nearer {s} signalling e v o r = elim (place s) [
  | inl a ↦
      act worker (record s { signaled = true; worker = looking }) (ground arith) (Acts.signals e)
        (ground arith)
  | inr (inl h) ↦ enters_deque h.1 (ground arith)
  | inr (inr h) ↦
      is_scheduled v (ground (arith, v.single, v.noticed)) h.0 h.1 (ground arith) (ground arith)
]
bring_nearer {s} waiting e v o r = elim (place s) [
  | inl a ↦ awaken v e a (v.awake (ap sleeps e) a)
  | inr (inl h) ↦ enters_deque h.1 (ground arith)
  | inr (inr h) ↦
      is_scheduled v (ground (arith, v.single, v.noticed)) h.0 h.1 (ground arith) (ground arith)
]
bring_nearer {s} rescheduling e v o r = elim (place s) [
  | inl a ↦ act worker (reschedule s) (ground arith) (Acts.reschedules e) (ground (arith, v.single))
  | inr (inl h) ↦ enters_deque h.1 (ground arith)
  | inr (inr h) ↦
      act worker (reschedule s) (ground arith) (Acts.reschedules e) (ground (arith, v.single))
]
bring_nearer {s} finished e v o r = elim (place s) [
  | inl a ↦ act worker (look_again s) (ground arith) (Acts.looks e) (ground arith)
  | inr (inl h) ↦ enters_deque h.1 (ground arith)
  | inr (inr h) ↦ act worker (look_again s) (ground arith) (Acts.looks e) (ground arith)
]

stays :
    {s t : Runtime}
    → Step s t
    → IsValid s
    → 0 < s.operations
    → s.worker ≢ running
    → (distance t ≤ distance s) × (0 < t.operations)
unfolding push_operation exchange schedule_if_idle enter_deque set_ready pop_connection wake
    begin_processing pop_operation finish_processing look_again reschedule reenter_deque
stays Step.pushes v o r = (ground arith, ground arith)
stays (Step.schedules h) v o r = ground (arith, v.single, v.runs, v.noticed, o, r)
stays (Step.enters h) v o r = ground (arith, v.single, v.runs, v.noticed, o, r)
stays (Step.sets h) v o r = ground (arith, v.single, v.runs, v.noticed, o, r)
stays Step.other_sets v o r = ground (arith, v.single, v.runs, v.noticed, o, r)
stays (Step.other_runs h) v o r = (omega arith, o)
stays (Step.pops h) v o r = ground (arith, v.single, v.runs, v.noticed, o, r)
stays (Step.wakes h e) v o r = ground (arith, v.single, v.runs, v.noticed, o, r)
stays (Step.expires h) v o r = ground (arith, v.single, v.runs, v.noticed, o, r)
stays (Step.begins h) v o r = ground (arith, v.single, v.runs, v.noticed, o, r)
stays (Step.processes h e) v o r = absurd (r h)
stays (Step.finishes h) v o r = absurd (r h)
stays (Step.looks h) v o r = ground (arith, v.single, v.runs, v.noticed, o, r)
stays (Step.reschedules h) v o r = ground (arith, v.single, v.runs, v.noticed, o, r)
stays (Step.reenters h) v o r = ground (arith, v.single, v.runs, v.noticed, o, r)
stays (Step.signals h) v o r = ground (arith, v.single, v.runs, v.noticed, o, r)

-- No queued operation is left behind. While a connection has an operation and is not being run, some
-- distance, at most 9, is left: the next actor can take a step of its own, without the help of a
-- time-out or of another connection, and this brings the connection nearer. No step of any thread takes
-- it farther away or leaves it without an operation. At distance 0 the worker runs the connection.
pub work_advances :
    {s : Runtime}
    → Reach start s
    → 0 < s.operations
    → s.worker ≢ running
    → (distance s ≤ 9)
      × (0 < distance s)
      × ((t : Runtime) × Acts s (next_actor (distance s)) t × (distance t < distance s))
      × ((t : Runtime) → Step s t → (distance t ≤ distance s) × (0 < t.operations))
work_advances {s} reach o r =
    let v = Reach-IsValid reach in
    (ground arith, ground (arith, r), bring_nearer s.worker refl v o r, λ t step. stays step v o r)
