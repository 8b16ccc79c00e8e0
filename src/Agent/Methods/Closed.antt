-- ===== src/Agent/Methods/Closed.antt =====
-- The methods of an agent (native/P2P.c) that was closed.
use ffl_p2p.Prelude.{ℕ, ◌≡◌, refl, Bool, Option, List, String, Result, err}
use ffl_p2p.Quic.Library.{JuiceCode}
use ffl_p2p.Python.Credentials.{PyError}
use ffl_p2p.Agent.{Agent, mark_closed, destroy_juice}
use ffl_p2p.Agent.Methods.{
  is_open, closed_error, WaitArguments, wait_for_events, opened, gather, hold_gathering,
  release_gathering, complete_remote_gathering, get_local_port, get_local_description,
  set_remote_description, add_remote_candidate, add_mapped_candidate, send_agent, get_state,
  get_selected_addresses,
}

-- `closeAgent`
abbrev pub closed_agent : Agent → Agent
closed_agent a = destroy_juice (mark_closed a)

module _ {W : Type 0} (a : Agent) (w : W) where
  refused :
      {A : Type 0} (called : W × Result PyError A)
      → opened (closed_agent a) w called ≡ (w, err closed_error)
  unfolding destroy_juice is_open
  refused called = refl

  -- Once an agent was closed, every one of its methods that calls libjuice raises the exception that
  -- it is closed and does not call libjuice, whatever libjuice would do and whatever the arguments are.
  -- waitEvents raises it too.
  pub closed_agent_refuses :
      (call : W → W × JuiceCode × Unit {0}) (port : W → W × JuiceCode × ℕ)
      (description : W → W × JuiceCode × String) (take : String → W → W × JuiceCode × Unit {0})
      (candidate : String → ℕ → W → W × JuiceCode × Unit {0})
      (send : List ℕ → W → W × JuiceCode × Unit {0}) (state : W → W × ℕ)
      (is_not_available : JuiceCode → Bool) (pair : W → W × JuiceCode × String × String)
      (text : Option String) (address : Option (String × ℕ)) (bytes : Option (List ℕ))
      (args : Option WaitArguments)
      → let c = closed_agent a in
        (gather call c w ≡ (w, err closed_error))
        × (hold_gathering call c w ≡ (w, err closed_error))
        × (release_gathering call c w ≡ (w, err closed_error))
        × (complete_remote_gathering call c w ≡ (w, err closed_error))
        × (get_local_port port c w ≡ (w, err closed_error))
        × (get_local_description description c w ≡ (w, err closed_error))
        × (set_remote_description take c text w ≡ (w, err closed_error))
        × (add_remote_candidate take c text w ≡ (w, err closed_error))
        × (add_mapped_candidate candidate c address w ≡ (w, err closed_error))
        × (send_agent send c bytes w ≡ (w, err closed_error))
        × (get_state state c w ≡ (w, err closed_error))
        × (get_selected_addresses is_not_available pair c w ≡ (w, err closed_error))
        × (wait_for_events c args ≡ err closed_error)
  unfolding gather hold_gathering release_gathering complete_remote_gathering get_local_port
      get_local_description set_remote_description add_remote_candidate add_mapped_candidate
      send_agent get_state get_selected_addresses wait_for_events is_open destroy_juice
  closed_agent_refuses call port description take candidate send state is_not_available pair text
        address bytes args =
      (refl, refl, refl, refl, refl, refl, refl, refl, refl, refl, refl, refl, refl)
