-- ===== src/Agent/Methods.antt =====
-- The methods that Python has of an agent (native/P2P.c) over libjuice, whose calls are arguments: what
-- each answers, and what it makes of the outside. Arguments come as Python parsed them.
pub mod Closed
use ffl_p2p.Prelude.{
  ℕ, Bool, true, false, not, ◌&&◌, ◌||◌, Option, none, some, List, String, ltb, ◌==◌, if◌then◌else◌,
  is_empty, Result, ok, err,
}
use ffl_p2p.Quic.Library.{Error, message, juice, JuiceCode, success, again, too_large, failure}
use ffl_p2p.Python.Credentials.{PyError, runtime_error, value_error, raised}
use ffl_p2p.Agent.{Agent, Drained, Signals, drain_events, clear_event}

-- `checkJuiceResult`
unfoldable pub check_juice_result : {A : Type 0} → String → JuiceCode → A → Result PyError A
check_juice_result operation success value = ok value
check_juice_result operation code value = err (runtime_error (juice operation code))

-- `requireOpen`
unfoldable pub is_open : Agent → Bool
is_open a = a.juice && not a.closed

abbrev pub closed_error : PyError
closed_error = runtime_error (message "agent is closed")

-- The arguments of `waitForAgentEvents` and `pollAgentEvents`: `max_events` is `none` where it is
-- negative.
pub record WaitArguments : Type 0 where
  pub nonnegative_timeout : Bool
  pub max_events : Option ℕ

abbrev pub limited : Option ℕ → Result PyError ℕ
limited none = err (value_error "maxEvents must be >= 0")
limited (some n) = ok n

-- How many events `pollAgentEvents` takes at most.
unfoldable pub poll_events : Option (Option ℕ) → Result PyError ℕ
poll_events none = err raised
poll_events (some max_events) = limited max_events

abbrev pub waits : Agent → Result PyError ℕ → Result PyError (Bool × ℕ)
waits a (err e) = err e
waits a (ok n) = ok (is_empty a.events && is_empty a.receives, n)

abbrev pub wait_checked : Agent → Option WaitArguments → Result PyError (Bool × ℕ)
wait_checked a none = err raised
wait_checked a (some args) =
    if not args.nonnegative_timeout
    then err (value_error "timeout must be >= 0")
    else waits a (limited args.max_events)

-- `waitForAgentEvents` up to its waiting: whether it waits, and how many events it takes.
unfoldable pub wait_for_events : Agent → Option WaitArguments → Result PyError (Bool × ℕ)
wait_for_events a args = if not (is_open a) then err closed_error else wait_checked a args

-- Its end; `acquired` is whether it waited and got the wake-up.
unfoldable pub finish_wait : Bool → ℕ → Agent → Drained × Agent × Signals
finish_wait acquired n a = drain_events n (if acquired then clear_event a else a)

abbrev pub addresses :
    JuiceCode → (JuiceCode → Bool) → String × String → Result PyError (Option (String × String))
addresses code is_not_available pair =
    if is_not_available code
    then ok none
    else check_juice_result "selectedAddresses" code (some pair)

module _ {W : Type 0} where
  abbrev pub checked : {A : Type 0} → String → W × JuiceCode × A → W × Result PyError A
  checked operation (w, code, value) = (w, check_juice_result operation code value)

  abbrev pub opened : {A : Type 0} → Agent → W → W × Result PyError A → W × Result PyError A
  opened a w called = if not (is_open a) then (w, err closed_error) else called

  -- SIMPLE_AGENT_METHOD
  unfoldable pub simple_method :
      String → (W → W × JuiceCode × Unit {0}) → Agent → W → W × Result PyError (Unit {0})
  simple_method label call a w = opened a w (checked label (call w))

  unfoldable pub gather : (W → W × JuiceCode × Unit {0}) → Agent → W → W × Result PyError (Unit {0})
  unfolding simple_method
  gather call a w = simple_method "gather" call a w

  unfoldable pub hold_gathering :
      (W → W × JuiceCode × Unit {0}) → Agent → W → W × Result PyError (Unit {0})
  unfolding simple_method
  hold_gathering call a w = simple_method "holdGathering" call a w

  unfoldable pub release_gathering :
      (W → W × JuiceCode × Unit {0}) → Agent → W → W × Result PyError (Unit {0})
  unfolding simple_method
  release_gathering call a w = simple_method "releaseGathering" call a w

  unfoldable pub complete_remote_gathering :
      (W → W × JuiceCode × Unit {0}) → Agent → W → W × Result PyError (Unit {0})
  unfolding simple_method
  complete_remote_gathering call a w = simple_method "remoteGatheringDone" call a w

  -- `getAgentLocalPort`
  unfoldable pub get_local_port : (W → W × JuiceCode × ℕ) → Agent → W → W × Result PyError ℕ
  get_local_port call a w = opened a w (checked "localPort" (call w))

  -- `getAgentLocalDescription`
  unfoldable pub get_local_description :
      (W → W × JuiceCode × String) → Agent → W → W × Result PyError String
  get_local_description call a w = opened a w (checked "localDescription" (call w))

  abbrev pub with_text :
      String
      → (String → W → W × JuiceCode × Unit {0})
      → Option String
      → W
      → W × Result PyError (Unit {0})
  with_text label call none w = (w, err raised)
  with_text label call (some sdp) w = checked label (call sdp w)

  -- `setAgentRemoteDescription`
  unfoldable pub set_remote_description :
      (String → W → W × JuiceCode × Unit {0})
      → Agent
      → Option String
      → W
      → W × Result PyError (Unit {0})
  set_remote_description call a sdp w = opened a w (with_text "setRemoteDescription" call sdp w)

  -- `addAgentRemoteCandidate`
  unfoldable pub add_remote_candidate :
      (String → W → W × JuiceCode × Unit {0})
      → Agent
      → Option String
      → W
      → W × Result PyError (Unit {0})
  add_remote_candidate call a sdp w = opened a w (with_text "addRemoteCandidate" call sdp w)

  abbrev pub with_address :
      (String → ℕ → W → W × JuiceCode × Unit {0})
      → Option (String × ℕ)
      → W
      → W × Result PyError (Unit {0})
  with_address call none w = (w, err raised)
  with_address call (some (address, port)) w =
      if port == 0 || ltb 65535 port
      then (w, err (value_error "port out of range"))
      else checked "addMappedCandidate" (call address port w)

  -- `addAgentMappedCandidate`
  unfoldable pub add_mapped_candidate :
      (String → ℕ → W → W × JuiceCode × Unit {0})
      → Agent
      → Option (String × ℕ)
      → W
      → W × Result PyError (Unit {0})
  add_mapped_candidate call a args w = opened a w (with_address call args w)

  abbrev pub with_view :
      (List ℕ → W → W × JuiceCode × Unit {0}) → Option (List ℕ) → W → W × Result PyError (Unit {0})
  with_view call none w = (w, err raised)
  with_view call (some bytes) w = checked "send" (call bytes w)

  -- `sendAgent`
  unfoldable pub send_agent :
      (List ℕ → W → W × JuiceCode × Unit {0})
      → Agent
      → Option (List ℕ)
      → W
      → W × Result PyError (Unit {0})
  send_agent call a bytes w = opened a w (with_view call bytes w)

  abbrev pub answered : W × ℕ → W × Result PyError ℕ
  answered (w, n) = (w, ok n)

  -- `getAgentState`
  unfoldable pub get_state : (W → W × ℕ) → Agent → W → W × Result PyError ℕ
  get_state call a w = opened a w (answered (call w))

  abbrev pub selected :
      (JuiceCode → Bool)
      → W × JuiceCode × String × String
      → W × Result PyError (Option (String × String))
  selected is_not_available (w, code, local, remote) =
      (w, addresses code is_not_available (local, remote))

  -- `getAgentSelectedAddresses`; the test is for JUICE_ERR_NOT_AVAIL.
  unfoldable pub get_selected_addresses :
      (JuiceCode → Bool)
      → (W → W × JuiceCode × String × String)
      → Agent
      → W
      → W × Result PyError (Option (String × String))
  get_selected_addresses is_not_available call a w = opened a w (selected is_not_available (call w))
