-- ===== src/Core/Workers/Counts.antt =====
-- The worker count and the workers that connections get (native/core).
use ffl_p2p.Prelude.{ℕ, ◌≤◌, ◌<◌, ◌≡◌, Option, none, some, List, ok, arith}
use ffl_p2p.Core.Workers.{
  parsed_count, parse_worker_count, worker_count, create_pool, assign_connection,
  maximum_worker_count,
}

parsed_count_lem :
    (r : Option (ℕ × List ℕ)) (count : ℕ)
    → parsed_count r ≡ ok count
    → (0 < count) × (count ≤ maximum_worker_count)
unfolding parsed_count
parsed_count_lem none count run = ground arith
parsed_count_lem (some (parsed, rest)) count run = ground arith

worker_count_lem :
    (from_chars : List ℕ → Option (ℕ × List ℕ)) (value : Option (List ℕ)) (count : ℕ)
    → worker_count from_chars value ≡ ok count
    → (0 < count) × (count ≤ maximum_worker_count)
unfolding worker_count parse_worker_count
worker_count_lem from_chars none count run = ground arith
worker_count_lem from_chars (some value) count run = parsed_count_lem (from_chars value) count run

-- The count that the configuration gives is between 1 and 16, however the text is read, so that the
-- pool of that many workers is created, and a connection's worker is one that it has.
pub worker_count-assign_connection :
    (from_chars : List ℕ → Option (ℕ × List ℕ)) (value : Option (List ℕ)) (count next : ℕ)
    → worker_count from_chars value ≡ ok count
    → (0 < count)
      × (count ≤ maximum_worker_count)
      × (create_pool count ≡ ok (record { workers = count; next_worker = 0 }))
      × ((assign_connection (record { workers = count; next_worker = next })).0 < count)
unfolding assign_connection create_pool
worker_count-assign_connection from_chars value count next run =
    let (some_count, few) = worker_count_lem from_chars value count run in
    (some_count, few, ground arith, ground arith)
