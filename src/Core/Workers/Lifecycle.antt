-- ===== src/Core/Workers/Lifecycle.antt =====
-- Worker::start, stop and ~Worker, WorkerPool::WorkerPool and ~WorkerPool of native/core/Worker.cpp,
-- over any threads that keep the promises of native/platform/Platform.cpp. `R` and `J` are what the
-- system answers to a start and to a join.
pub mod Pools
pub mod Whole
use ffl_p2p.Prelude.{
  ℕ, ◌+◌, ◌*◌, Bool, true, false, not, Option, none, some, List, [], ◌∷◌, ◌++◌, if◌then◌else◌, ◌==◌,
  Result, ok, err,
}
use ffl_p2p.Platform.Events.{Event, set}
use ffl_p2p.Platform.Threads.{
  System, Thread, new_thread, Outcome, ThreadError, invalid_argument, destroy_thread,
}
use ffl_p2p.Platform.Threads.Owned.{Started, Joined}

pub record Threading (R J : Type 0) : Type 0 where
  pub start : Bool → ℕ → R → Thread → System → Outcome
  pub join : J → Thread → System → Outcome
  pub start-Started :
      (callable : Bool) (size : ℕ) (r : R) (t : Thread) (s : System)
      → Started t s (start callable size r t s)
  pub join-Joined : (j : J) (t : Thread) (s : System) → Joined t s (join j t s)

pub record Worker : Type 0 where
  pub index : ℕ
  pub running : Bool
  pub ready : Event
  pub thread : Thread

abbrev pub new_worker : ℕ → Worker
new_worker index = record {
  index = index;
  running = false;
  ready = record { signaled = false };
  thread = new_thread;
}

abbrev pub worker_stack_size : ℕ
worker_stack_size = 1024 * 1024

-- What the constructor gives: the workers, or an exception, or the process ends.
pub data Constructed : Type 0 where
  made : System → List Worker → Constructed
  thrown : System → ThreadError → Constructed
  terminated : Constructed

module _ {R J : Type 0} (threads : Threading R J) where
  abbrev pub after_start : Worker → Outcome → System × Worker × Result ThreadError (Unit {0})
  after_start w (s, t, ok u) = (s, record w { running = true; thread = t }, ok tt)
  after_start w (s, t, err e) = (s, record w { running = false; thread = t }, err e)

  -- `start`
  unfoldable pub start_worker :
      R → Worker → System → System × Worker × Result ThreadError (Unit {0})
  start_worker r w s =
      if w.running
      then (s, w, ok tt)
      else after_start w (threads.start true worker_stack_size r w.thread s)

  abbrev pub after_join : Worker → Outcome → System × Worker × Result ThreadError (Unit {0})
  after_join w (s, t, result) =
      (s, record w { running = false; ready = set w.ready; thread = t }, result)

  -- `stop`
  unfoldable pub stop_worker : J → Worker → System → System × Worker × Result ThreadError (Unit {0})
  stop_worker j w s =
      if not w.running then (s, w, ok tt) else after_join w (threads.join j w.thread s)

  -- `~Worker`, and the destructor of its thread: an exception in either ends the process, which is
  -- `none`.
  abbrev pub thread_destroyed : J → System × Worker × Result ThreadError (Unit {0}) → Option System
  thread_destroyed j (s, w, ok u) = destroy_thread (threads.join j) w.thread s
  thread_destroyed j (s, w, err e) = none

  unfoldable pub destroy_worker : J → Worker → System → Option System
  destroy_worker j w s = thread_destroyed j (stop_worker j w s)

  abbrev pub and_destroy : Option System → (System → Option System) → Option System
  and_destroy none next = none
  and_destroy (some s) next = next s

  -- The destructor of the vector. `j` answers to every join.
  unfoldable pub destroy_workers : J → List Worker → System → Option System
  destroy_workers j [] s = some s
  destroy_workers j (w ∷ ws) s =
      let rest = destroy_workers j ws in and_destroy (destroy_worker j w s) rest

  -- `~WorkerPool`: every worker is stopped, then the vector is destroyed.
  abbrev pub go_on_stopping :
      System × Worker × Result ThreadError (Unit {0})
      → (System → Option (System × List Worker))
      → Option (System × List Worker)
  go_on_stopping (s, w, err e) next = none
  go_on_stopping (s, w, ok u) next = elim (next s) [
    | none ↦ none
    | some (s', ws) ↦ some (s', w ∷ ws)
  ]

  unfoldable pub stop_workers : J → List Worker → System → Option (System × List Worker)
  stop_workers j [] s = some (s, [])
  stop_workers j (w ∷ ws) s =
      let rest = stop_workers j ws in go_on_stopping (stop_worker j w s) rest

  abbrev pub vector_destroyed : J → Option (System × List Worker) → Option System
  vector_destroyed j none = none
  vector_destroyed j (some (s, ws)) = destroy_workers j ws s

  unfoldable pub destroy_pool : J → List Worker → System → Option System
  destroy_pool j ws s = vector_destroyed j (stop_workers j ws s)

  abbrev pub unwound : ThreadError → Option System → Constructed
  unwound e none = terminated
  unwound e (some s) = thrown s e

  -- Where a start throws, the worker that was not started and then those of the vector are destroyed.
  abbrev pub cleaned : J → ThreadError → List Worker → Option System → Constructed
  cleaned j e ws o = unwound e (and_destroy o (destroy_workers j ws))

  abbrev pub started_next :
      J
      → List Worker
      → System × Worker × Result ThreadError (Unit {0})
      → (List Worker → System → Constructed)
      → Constructed
  started_next j ws (s, w, err e) next = cleaned j e ws (destroy_worker j w s)
  started_next j ws (s, w, ok u) next = next (ws ++ w ∷ []) s

  -- The loop of the constructor, with the answers to the starts that are still to come.
  unfoldable pub construct_workers : J → List R → ℕ → List Worker → System → Constructed
  construct_workers j [] index ws s = made s ws
  construct_workers j (r ∷ rs) index ws s =
      let rest = construct_workers j rs (index + 1) in
      started_next j ws (start_worker r (new_worker index) s) rest

  -- `WorkerPool::WorkerPool`, with one answer for each worker.
  unfoldable pub construct_pool : J → List R → System → Constructed
  construct_pool j [] s = thrown s (invalid_argument "workerCount must be positive")
  construct_pool j (r ∷ rs) s = construct_workers j (r ∷ rs) 0 [] s
