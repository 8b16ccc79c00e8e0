-- ===== src/Quic/Setup/Tests.antt =====
-- A set-up in which everything succeeds for a client, and a server's key is refused.
use ffl_p2p.Prelude.{◌≡◌, none, some, [], ◌∷◌}
use ffl_p2p.Quic.Setup.{Answers, new_transport, set_up_client, set_up_server, release_resources}
use ffl_p2p.Quic.Setup.Outcome.{set_up-released}

abbrev answers : Answers
answers = record {
  global_init = none;
  allocate_credentials = none;
  set_key = some 34;
  set_trust = none;
  init = none;
  priority = none;
  configure = none;
  credentials_set = none;
  alpn = none;
  name = none;
  random = none;
  conn_new = none;
}

set_up-released_example :
    let c = release_resources (set_up_client answers (1 ∷ []) new_transport).0 in
    let s = release_resources (set_up_server answers (1 ∷ []) (2 ∷ []) (3 ∷ []) new_transport).0 in
    (c.allocated ≡ c.freed)
    × (s.allocated ≡ s.freed)
    × ((release_resources c).freed ≡ c.freed)
    × ((release_resources s).freed ≡ s.freed)
set_up-released_example = set_up-released answers (1 ∷ []) (2 ∷ []) (3 ∷ [])
