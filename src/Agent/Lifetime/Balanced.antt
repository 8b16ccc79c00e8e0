-- ===== src/Agent/Lifetime/Balanced.antt =====
-- What an agent object (native/P2P.c, native/Juice.c) owns, from its creation to its end.
use ffl_p2p.Prelude.{List, [], ◌∷◌, ℕ, ◌+◌, ◌≡◌, Bool, false}
use ffl_p2p.Agent.Lifetime.{Ledger, Handles, one, close_agent, queue_node, take_nodes}

-- What was allocated was freed, but for what the object has.
pub record Owns (h : Handles) (l : Ledger) : Type 0 where
  pub locks : l.locks ≡ l.locks_freed + one h.lock + one h.event_available + one h.receive_available
  pub juices : l.juices ≡ l.juices_freed + one h.juice
  pub datapaths : l.datapaths ≡ l.datapaths_freed + one h.juice
  pub agents : l.agents ≡ l.agents_freed + one h.juice
  pub nodes : l.nodes ≡ l.nodes_freed + h.queued
  pub locked : h.lock ≡ false → h.queued ≡ 0

-- What happens to an object between its beginning and its end: callbacks queue events and datagrams,
-- Python takes up to `n` of them, and closes it.
pub data Use : Type 0 where
  queues : (receive : Bool) → Use
  takes : (n : ℕ) → Use
  closes : Use

abbrev pub used : Use → Handles → Ledger → Handles × Ledger
used (queues receive) h l = queue_node receive h l
used (takes n) h l = take_nodes n h l
used closes h l = close_agent h l

abbrev pub uses : List Use → Handles × Ledger → Handles × Ledger
uses [] r = r
uses (u ∷ us) (h, l) = uses us (used u h l)
