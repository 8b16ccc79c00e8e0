-- ===== src/Core/TimerWheel/Deadlines.antt =====
-- The timer wheel of native/core/TimerWheel.cpp for a single connection.
use ffl_p2p.Prelude.{
  ℕ, ◌≤◌, ◌≡◌, refl, Bool, true, false, ◌&&◌, some, List, [], ◌∷◌, ltb, ◌==◌, arith, if◌then◌else◌,
}
use ffl_p2p.Quic.Library.{infinite_timestamp}
use ffl_p2p.Core.TimerWheel.{TimerWheel, earliest, get_next_expiry, take_expired}
use ffl_p2p.Core.TimerWheel.Expiry.{find, earliest-below}

abbrev pub elem : ℕ → List ℕ → Bool
elem k [] = false
elem k (x ∷ xs) = let rest = elem k xs in if x == k then true else rest

module _ (alive : ℕ → Bool) where
  -- A live connection that is not due keeps its timer.
  pub find-take_expired :
      (es : TimerWheel) (now k : ℕ)
      → alive k ≡ true
      → elem k (take_expired alive es now).0 ≡ false
      → find (take_expired alive es now).1 k ≡ find es k
  unfolding find take_expired
  find-take_expired [] now k lives h = refl
  find-take_expired (e ∷ es) now k lives h = ground (arith, find-take_expired es now k lives)

  earliest-find :
      (es : TimerWheel) (k next expiry : ℕ)
      → alive k ≡ true
      → find es k ≡ some expiry
      → earliest alive es next ≤ expiry
  unfolding find earliest
  earliest-find [] k next expiry lives h = cc
  earliest-find (e ∷ es) k next expiry lives h =
      let next' = if alive e.connection && ltb e.expiry next then e.expiry else next in
      ground (arith, earliest-below alive es next', earliest-find es k next' expiry lives)

  -- The next expiry is no later than the timer of any live connection.
  pub get_next_expiry-find :
      (es : TimerWheel) (k expiry : ℕ)
      → alive k ≡ true
      → find es k ≡ some expiry
      → get_next_expiry alive es ≤ expiry
  unfolding get_next_expiry
  get_next_expiry-find es k expiry lives h = earliest-find es k infinite_timestamp expiry lives h

  pub get_next_expiry-infinite : (es : TimerWheel) → get_next_expiry alive es ≤ infinite_timestamp
  unfolding get_next_expiry
  get_next_expiry-infinite es = earliest-below alive es infinite_timestamp
