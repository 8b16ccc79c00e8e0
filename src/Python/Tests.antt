-- ===== src/Python/Tests.antt =====
-- Sessions of native/Quic.cpp on concrete arguments.
use ffl_p2p.Prelude.{
  ℕ, ◌≡◌, ◌⊎◌, refl, true, false, none, some, List, [], ◌∷◌, ok, err, arith, length, zero, suc,
}
use ffl_p2p.Quic.Library.{message}
use ffl_p2p.Quic.Library.Sample.{quiet}
use ffl_p2p.Ice.Binding.{attach, limit_datagram_size}
use ffl_p2p.Datapath.Buffer.{Fault}
use ffl_p2p.Quic.Connection.{Connection, queue_operation}
use ffl_p2p.Quic.Connection.Creation.{create_client, new_connection}
use ffl_p2p.Quic.Connection.Application.{start}
use ffl_p2p.Python.Credentials.{PyError, runtime_error, buffer_error}
use ffl_p2p.Python.Session.{
  Session, new_session, InitArguments, StartArguments, create_connection, initialize_session,
  require_connection, start_session, finish_start_session,
}
use ffl_p2p.Python.Session.Keeping.{agent_of}
use ffl_p2p.Python.Session.Runs.{ready, starting, Machine, called, initializes, starts, here, next}
use ffl_p2p.Python.Session.Runs.References.{Reach-referenced}
use ffl_p2p.Python.Session.Runs.Overlong.{finish_start_session-unheld}
use ffl_p2p.Python.Ports.{
  Plum, PlumReply, PortMapping, new_port_mapping, PortArguments, initialize_port_mapping,
  query_port_mapping, create_mapping, initialize_plum,
}
use ffl_p2p.Python.Ports.Queries
use ffl_p2p.Python.Ports.Queries.{elem, Reach-query}

abbrev client_arguments : InitArguments
client_arguments = record {
  role = "client";
  certificate = some (1 ∷ []);
  credentials = none;
  initial_packet = some (8 ∷ 9 ∷ []);
}

abbrev start_arguments : StartArguments
start_arguments = record {
  agent = some 7;
  aggregate = true;
  positive_timeout = true;
  max_datagram_size = some 1200;
}

abbrev fresh : Machine ℕ
fresh = record { session = new_session; phase = ready; outside = 0 }

abbrev made : Machine ℕ
made = record fresh { session = (initialize_session new_session (some client_arguments) (ok 0)).0 }

abbrev waits : Machine ℕ
waits = called (start_session quiet made.session (some start_arguments) 3 0)

made_client : made.session.connection ≡ some (create_client (1 ∷ []) 0)
unfolding initialize_session create_connection create_client new_connection
made_client = refl

waits_starting : waits.phase ≡ starting 7
unfolding initialize_session create_connection create_client new_connection start_session
    require_connection start attach limit_datagram_size
waits_starting = refl

abbrev attached_client : Connection
attached_client = (start quiet (create_client (1 ∷ []) 0) (some 7) true 1200 3 0).1

Reach-referenced_example : (waits.session.agent_object ≡ some 7) ⊎ (waits.phase ≡ starting 7)
unfolding initialize_session create_connection create_client new_connection start_session
    require_connection start attach limit_datagram_size queue_operation
Reach-referenced_example =
    Reach-referenced quiet 0 waits attached_client 7
      (next (next here (initializes (some client_arguments) (ok 0) refl))
        (starts (some start_arguments) 3 refl))
      (omega arith) refl refl

abbrev zeros : ℕ → List ℕ
zeros zero = []
zeros (suc n) = 0 ∷ zeros n

length-zeros : (n : ℕ) → length (zeros n) ≡ n
length-zeros zero = refl
length-zeros (suc n) = omega (arith, length-zeros n)

overlong : List ℕ
overlong = zeros 65536

overlong-length : length overlong ≡ 65536
unfolding overlong
overlong-length = length-zeros 65536

abbrev overlong_session : Session
overlong_session = record {
  connection = some attached_client;
  agent_object = none;
  initial_packet = some overlong;
  started = false;
}

finish_start_session-unheld_example :
    let r = finish_start_session quiet overlong_session attached_client 7 (some none) 0 in
    ((f : Fault) × (r.2 ≡ err (buffer_error f)))
    × (agent_of r.1.connection ≡ some 7)
    × (r.1.agent_object ≡ none)
unfolding create_client new_connection start attach limit_datagram_size queue_operation
finish_start_session-unheld_example =
    finish_start_session-unheld quiet overlong_session attached_client 7 overlong 0 refl
      (omega (arith, overlong-length)) refl refl refl

abbrev failed_client : Connection
failed_client = record (create_client (1 ∷ []) 0) {
  app = record ((create_client (1 ∷ []) 0).app) { error = some (message "QUIC idle timeout") };
}

abbrev failed_session : Session
failed_session = record new_session { connection = some failed_client }

abbrev idle_error : PyError
idle_error = runtime_error (message "QUIC idle timeout")

abbrev no_plum : Plum
no_plum = record { initialized = false; log_level = 6; library_level = 6; live = [] }

abbrev port_arguments : PortArguments
port_arguments = record { protocol = "tcp"; internal_port = 8000 }

abbrev fifth : PlumReply
fifth = record { started = true; allocated = true; created = some 5 }

abbrev mapped_port : PortMapping
mapped_port = (initialize_port_mapping (some port_arguments) fifth new_port_mapping no_plum).0

abbrev running_plum : Plum
running_plum = (initialize_port_mapping (some port_arguments) fifth new_port_mapping no_plum).1

asks_fifth : query_port_mapping mapped_port ≡ ok 5
unfolding query_port_mapping initialize_port_mapping create_mapping initialize_plum
asks_fifth = refl

Reach-query_example : (running_plum.initialized ≡ true) × (elem 5 running_plum.live ≡ true)
Reach-query_example =
    Reach-query 5 (Queries.initializes (some port_arguments) fifth Queries.made) asks_fifth
