-- ===== src/Core/Workers.antt =====
-- native/core/RuntimeConfiguration.cpp, and WorkerPool of native/core/Worker.cpp with the place that a
-- connection gets. A worker is its index. `from_chars` reads an unsigned number at the start of a
-- text: the number and what is left of the text, or nothing where there is none or it is too large.
pub mod Counts
pub mod Loop
pub mod Lifecycle
mod Tests
use ffl_p2p.Prelude.{
  ℕ, ◌+◌, ◌%◌, ◌^◌, Bool, true, false, not, ◌||◌, Option, none, some, String, ltb, ◌==◌,
  if◌then◌else◌, is_empty, List, Result, ok, err,
}
use ffl_p2p.Quic.Library.{Error, message}

abbrev pub default_worker_count : ℕ
default_worker_count = 2

abbrev pub maximum_worker_count : ℕ
maximum_worker_count = 16

abbrev checked_count : ℕ → List ℕ → Result Error ℕ
checked_count parsed rest =
    if not (is_empty rest) || (parsed == 0 || ltb maximum_worker_count parsed)
    then err (message "FFL_P2P_QUIC_WORKERS must be an integer between 1 and 16")
    else ok parsed

pub parsed_count : Option (ℕ × List ℕ) → Result Error ℕ
parsed_count none = err (message "FFL_P2P_QUIC_WORKERS must be an integer between 1 and 16")
parsed_count (some (parsed, rest)) = checked_count parsed rest

module _ (from_chars : List ℕ → Option (ℕ × List ℕ)) where
  pub parse_worker_count : List ℕ → Result Error ℕ
  parse_worker_count value = parsed_count (from_chars value)

  -- The variable's value, if it is set.
  pub worker_count : Option (List ℕ) → Result Error ℕ
  worker_count none = ok default_worker_count
  worker_count (some value) = parse_worker_count value

pub record WorkerPool : Type 0 where
  pub workers : ℕ
  pub next_worker : ℕ

pub create_pool : ℕ → Result Error WorkerPool
create_pool count =
    if count == 0
    then err (message "workerCount must be positive")
    else ok (record { workers = count; next_worker = 0 })

-- `nextWorker_` is a `uint32_t`.
pub assign_connection : WorkerPool → ℕ × WorkerPool
assign_connection pool =
    (pool.next_worker % pool.workers, record pool { next_worker = (pool.next_worker + 1) % 2 ^ 32 })
