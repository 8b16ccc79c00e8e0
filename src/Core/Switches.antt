-- ===== src/Core/Switches.antt =====
-- The switches of native/core/RuntimeConfiguration.cpp, and what native/datapath/Datapath.cpp makes of
-- them. Texts are lists of their characters' codes.
use ffl_p2p.Prelude.{
  ℕ, Bool, true, false, ◌&&◌, ◌||◌, Option, none, some, List, [], ◌∷◌, ◌==◌, if◌then◌else◌,
  is_empty,
}

-- `getEnvironmentVariable` of native/platform/Platform.cpp, over `getenv`: a variable that is empty is
-- not set.
unfoldable pub get_environment_variable : Option (List ℕ) → Option (List ℕ)
get_environment_variable none = none
get_environment_variable (some value) = if is_empty value then none else some value

abbrev same_text : List ℕ → List ℕ → Bool
same_text [] [] = true
same_text [] (y ∷ ys) = false
same_text (x ∷ xs) [] = false
same_text (x ∷ xs) (y ∷ ys) = x == y && same_text xs ys

-- "1", "true", "yes" and "on".
unfoldable pub is_environment_enabled : Option (List ℕ) → Bool
is_environment_enabled none = false
is_environment_enabled (some value) =
    same_text value (49 ∷ [])
    || same_text value (116 ∷ 114 ∷ 117 ∷ 101 ∷ [])
    || same_text value (121 ∷ 101 ∷ 115 ∷ [])
    || same_text value (111 ∷ 110 ∷ [])

pub record DatapathOptions : Type 0 where
  pub disable_send_segmentation : Bool
  pub disable_receive_batching : Bool
  pub disable_receive_coalescing : Bool

-- The values of FFL_P2P_QUIC_DISABLE_GSO, _DISABLE_RECV_BATCH and _DISABLE_RECV_COALESCING.
pub record Environment : Type 0 where
  pub disable_gso : Option (List ℕ)
  pub disable_recv_batch : Option (List ℕ)
  pub disable_recv_coalescing : Option (List ℕ)

unfoldable pub is_send_segmentation_disabled : Environment → Bool
unfolding is_environment_enabled get_environment_variable
is_send_segmentation_disabled e = is_environment_enabled (get_environment_variable e.disable_gso)

unfoldable pub is_receive_batching_disabled : Environment → Bool
unfolding is_environment_enabled get_environment_variable
is_receive_batching_disabled e =
    is_environment_enabled (get_environment_variable e.disable_recv_batch)

unfoldable pub is_receive_coalescing_disabled : Environment → Bool
unfolding is_environment_enabled get_environment_variable
is_receive_coalescing_disabled e =
    is_environment_enabled (get_environment_variable e.disable_recv_coalescing)

-- The options of `createFFLP2PDatapath`.
unfoldable pub datapath_options : Environment → DatapathOptions
unfolding is_send_segmentation_disabled is_receive_batching_disabled is_receive_coalescing_disabled
datapath_options e = record {
  disable_send_segmentation = is_send_segmentation_disabled e;
  disable_receive_batching = is_receive_batching_disabled e;
  disable_receive_coalescing = is_receive_coalescing_disabled e;
}
