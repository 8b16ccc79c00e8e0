-- ===== src/Datapath/Sockets/Entry.antt =====
-- native/datapath/Datapath.cpp: what libjuice calls, over a backend `B`. An address or data is `none`
-- for a null pointer, and `is_set` says that the datapath's own pointer is not null. The pointers for
-- the results are not null.
pub mod Checked
use ffl_p2p.Prelude.{
  ℕ, ◌-◌, ◌^◌, Bool, true, false, not, ◌||◌, Option, none, some, List, [], length, ltb, ◌==◌,
  if◌then◌else◌, is_empty, Result, ok, err,
}
use ffl_p2p.Datapath.Sockets.{Datagram, ErrorNumbers}
use ffl_p2p.Core.Switches.{Environment, datapath_options}
use ffl_p2p.Datapath.Sockets.Posix.{
  AggregateResult, failed, PosixDatapathBackend, Probe, initialize_capabilities,
}
use ffl_p2p.Datapath.Sockets.Windows.{WindowsDatapathBackend}

module _ {B W : Type 0} (c : ErrorNumbers) where
  -- `sendFFLP2PDatapathAggregate`
  unfoldable pub send_datapath_aggregate :
      (List ℕ → List ℕ → ℕ → B → W → W × B × AggregateResult)
      → Bool
      → Option (List ℕ)
      → Option (List ℕ)
      → ℕ
      → B
      → W
      → W × B × AggregateResult
  send_datapath_aggregate send is_set (some destination) (some bytes) segment_size b w =
      if not is_set
        || is_empty destination
        || is_empty bytes
        || segment_size == 0
        || ltb (length bytes) segment_size
      then (w, b, failed c.einval)
      else send destination bytes segment_size b w
  send_datapath_aggregate send is_set none bytes segment_size b w = (w, b, failed c.einval)
  send_datapath_aggregate send is_set (some destination) none segment_size b w =
      (w, b, failed c.einval)

  -- `receiveFFLP2PDatapathBatch`
  unfoldable pub receive_datapath_batch :
      (ℕ → B → W → W × Option (B × Result ℕ (List Datagram)))
      → Bool
      → Bool
      → ℕ
      → B
      → W
      → W × Option (B × Result ℕ (List Datagram))
  receive_datapath_batch receive is_set has_datagrams capacity b w =
      if not is_set || not has_datagrams || capacity == 0
      then (w, some (b, err c.einval))
      else receive capacity b w

-- `createFFLP2PDatapath` for POSIX: the constructor of the backend, over what its probe gives.
unfoldable pub create_posix_datapath : Environment → Bool → Probe → Bool → PosixDatapathBackend
unfolding datapath_options initialize_capabilities
create_posix_datapath e is_linux probe is_supported =
    initialize_capabilities is_linux probe is_supported (record {
      send_segmentation_disabled = (datapath_options e).disable_send_segmentation;
      receive_batching_disabled = (datapath_options e).disable_receive_batching;
      send_segmentation_enabled = false;
      receive_batching_enabled = false;
    })

-- The same for Windows.
unfoldable pub create_windows_datapath : Environment → WindowsDatapathBackend
unfolding datapath_options
create_windows_datapath e = record {
  receive_buffer = [];
  pending_address = [];
  pending_offset = 0;
  pending_bytes = 0;
  pending_segment_size = 0;
  active_socket = 2 ^ 64 - 1;
  receive_msg = false;
  receive_coalescing_disabled = (datapath_options e).disable_receive_coalescing;
  coalescing_supported = false;
  coalescing_enabled = false;
  initialized = false;
}
