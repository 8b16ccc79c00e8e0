-- ===== src/Datapath/Sockets/Windows/Tests.antt =====
-- Runs of the backend of native/datapath/DatapathWindows.cpp.
use ffl_p2p.Prelude.{ℕ, ◌≡◌, refl, inr, true, false, some, List, [], ◌∷◌, Result, ok, err, arith}
use ffl_p2p.Datapath.Sockets.{Datagram, ErrorNumbers, is_ignored_udp_error}
use ffl_p2p.Datapath.Sockets.Retry.{now, later}
use ffl_p2p.Datapath.Sockets.Windows.{
  WindowsDatapathBackend, CoalescedMessage, WindowsCalls, emit_pending, receive_batch,
}
use ffl_p2p.Datapath.Sockets.Windows.Segments.{IsValid}
use ffl_p2p.Datapath.Sockets.Windows.Emit.{Emits, emit_pending-Emits}
use ffl_p2p.Datapath.Sockets.Windows.Receive.{Delivers, receive_batch-Delivers}

abbrev winsock_errors : ErrorNumbers
winsock_errors = record {
  einval = 10022;
  enosys = 10078;
  eopnotsupp = 10045;
  enoprotoopt = 10042;
  eagain = 10035;
  ewouldblock = 10035;
  econnreset = 10054;
  enetreset = 10052;
  econnrefused = 10061;
  emsgsize = 10040;
  eio = 10050;
}

-- A socket on which datagrams of two bytes have come, the last one shorter.
abbrev busy : WindowsDatapathBackend
busy = record {
  receive_buffer = 1 ∷ 2 ∷ 3 ∷ 4 ∷ 5 ∷ [];
  pending_address = 127 ∷ [];
  pending_offset = 0;
  pending_bytes = 5;
  pending_segment_size = 2;
  active_socket = 7;
  receive_msg = true;
  receive_coalescing_disabled = false;
  coalescing_supported = true;
  coalescing_enabled = true;
  initialized = true;
}

abbrev idle : WindowsDatapathBackend
idle = record busy { pending_bytes = 0 }

busy-IsValid : IsValid busy
busy-IsValid = record { inside = omega arith; segment = inr (omega arith) }

emit_busy :
    (emit_pending 2 busy).0
    ≡ record { bytes = 1 ∷ 2 ∷ []; source_address = 127 ∷ [] }
      ∷ record { bytes = 3 ∷ 4 ∷ []; source_address = 127 ∷ [] }
      ∷ []
unfolding emit_pending
emit_busy = refl

emit_pending-Emits_example : Emits 2 busy (emit_pending 2 busy)
emit_pending-Emits_example = emit_pending-Emits 2 busy busy-IsValid

-- The system is the list of the answers that it has ready.
abbrev World : Type 0
World = List (Result ℕ CoalescedMessage)

abbrev receive_msg : ℕ → ℕ → World → World × Result ℕ CoalescedMessage
receive_msg socket n [] = ([], err 10035)
receive_msg socket n (r ∷ rs) = (rs, r)

abbrev calls : WindowsCalls World
calls = record {
  find_receive_msg = λ socket w. (w, true);
  get_max_coalesced_size = λ socket w. (w, true);
  set_receive_buffer_size = λ socket w. w;
  set_max_coalesced_size = λ socket n w. (w, true);
  recvfrom = λ socket n w. (w, err 10035);
  receive_msg = receive_msg;
}

abbrev coalesced : CoalescedMessage
coalesced = record {
  bytes = 9 ∷ 8 ∷ 7 ∷ [];
  source_address = 127 ∷ [];
  controls = record { is_coalesced_info = true; value = 2 } ∷ [];
}

receive_batch-Delivers_example :
    (b' : WindowsDatapathBackend) × (ds : List Datagram) × (receive_batch winsock_errors 128 calls 3
        7 1 idle
        (err 10054 ∷ ok coalesced ∷ [])
      ≡ ([], some (b', ok ds)))
    × Delivers winsock_errors 128 calls coalesced b' ds
unfolding is_ignored_udp_error
receive_batch-Delivers_example =
    receive_batch-Delivers winsock_errors 128 calls 3 7 1 idle coalesced refl refl refl
      (later refl (now refl refl)) (omega arith) refl refl
