-- ===== src/Datapath/Sockets/Tests.antt =====
-- Runs of the backend of native/datapath/DatapathPOSIX.cpp.
use ffl_p2p.Prelude.{
  ℕ, ◌≤◌, ◌≡◌, refl, true, false, some, List, [], ◌∷◌, length, take, Result, ok, err, arith, subst,
  length-take,
}
use ffl_p2p.Datapath.Sockets.{Datagram, ErrorNumbers, retry, is_ignored_udp_error}
use ffl_p2p.Datapath.Sockets.Batch.{Message, Target, RawResult, receive}
use ffl_p2p.Datapath.Sockets.Posix.{
  PosixDatapathBackend, JuiceLimits, SocketCalls, handled, send_aggregate, receive_batch,
}
use ffl_p2p.Datapath.Sockets.Posix.Receive.{AllSized, IsBounded, err-ne-ok, ok-injective}
use ffl_p2p.Datapath.Sockets.Entry.{send_datapath_aggregate, receive_datapath_batch}
use ffl_p2p.Datapath.Sockets.Entry.Checked.{
  SendsOrRefuses, send_datapath_aggregate-Sends, receive_datapath_batch-AllSized,
}

abbrev linux_errors : ErrorNumbers
linux_errors = record {
  einval = 22;
  enosys = 38;
  eopnotsupp = 95;
  enoprotoopt = 92;
  eagain = 11;
  ewouldblock = 11;
  econnreset = 104;
  enetreset = 102;
  econnrefused = 111;
  emsgsize = 90;
  eio = 5;
}

abbrev juice_limits : JuiceLimits
juice_limits = record { batch_capacity = 32; address_storage_size = 128 }

-- A system that has the answers of its calls ready; a call without one fails with EAGAIN.
abbrev World : Type 0
World = List (Result ℕ (List Message))

abbrev at_most : {A : Type 0} → ℕ → List A → Result ℕ (List A)
at_most n xs = ok (take n xs)

abbrev answer : ℕ → Result ℕ (List Message) → Result ℕ (List Message)
answer n (ok ms) = at_most n ms
answer n (err e) = err e

abbrev recvmmsg : ℕ → World → World × Result ℕ (List Message)
recvmmsg n [] = ([], err 11)
recvmmsg n (r ∷ rs) = (rs, answer n r)

abbrev one : ℕ → Result ℕ (List Message) → Result ℕ Message
one n (ok []) = err 11
one n (ok (m ∷ ms)) = ok (record m { bytes = take n m.bytes })
one n (err e) = err e

abbrev recvfrom : ℕ → World → World × Result ℕ Message
recvfrom n [] = ([], err 11)
recvfrom n (r ∷ rs) = (rs, one n r)

abbrev calls : SocketCalls World
calls = record {
  batch = record { recvmmsg = recvmmsg; sys_recvmmsg = λ n w. (w, 0, RawResult.negative 38) };
  recvfrom = recvfrom;
}

abbrev hello : Message
hello = record { bytes = 104 ∷ 105 ∷ []; source_address = 127 ∷ 1 ∷ []; truncated = false }

abbrev batching : PosixDatapathBackend
batching = record {
  send_segmentation_disabled = false;
  receive_batching_disabled = false;
  send_segmentation_enabled = true;
  receive_batching_enabled = true;
}

-- A connection reset is ignored; then the system refuses batches.
abbrev refusing : World
refusing = err 104 ∷ err 38 ∷ ok (hello ∷ []) ∷ []

length-take_le : {A : Type 0} (n : ℕ) (xs : List A) → length (take n xs) ≤ n
length-take_le n xs = omega (arith, length-take n xs)

recvmmsg-bounded :
    (n : ℕ) (w : World) (ms : List Message) → (recvmmsg n w).1 ≡ ok ms → length ms ≤ n
recvmmsg-bounded n [] ms h = err-ne-ok h
recvmmsg-bounded n (ok xs ∷ w) ms h =
    subst (λ ms. length ms ≤ n) {x = take n xs} {y = ms} (ground arith) (length-take_le n xs)
recvmmsg-bounded n (err e ∷ w) ms h = err-ne-ok h

recvfrom-bounded : (n : ℕ) (w : World) (m : Message) → (recvfrom n w).1 ≡ ok m → length m.bytes ≤ n
recvfrom-bounded n [] m h = err-ne-ok h
recvfrom-bounded n (ok [] ∷ w) m h = err-ne-ok h
recvfrom-bounded n (ok (x ∷ xs) ∷ w) m h =
    subst (λ m. length m.bytes ≤ n) {x = record x { bytes = take n x.bytes }} {y = m}
      (ok-injective _ refl h) (length-take_le n x.bytes)
recvfrom-bounded n (err e ∷ w) m h = err-ne-ok h

calls-IsBounded : IsBounded linux_errors juice_limits calls Target.linux true
calls-IsBounded = record { messages = recvmmsg-bounded; bytes = recvfrom-bounded }

abbrev greeting : Datagram
greeting = record { bytes = 104 ∷ 105 ∷ []; source_address = 127 ∷ 1 ∷ [] }

receive_datapath_batch-AllSized_example :
    AllSized juice_limits (greeting ∷ []) × (length (greeting ∷ []) ≤ 16)
unfolding receive_datapath_batch receive_batch is_ignored_udp_error retry receive
receive_datapath_batch-AllSized_example =
    receive_datapath_batch-AllSized linux_errors juice_limits calls Target.linux true 3 true true 16
      batching batching (ok (hello ∷ []) ∷ []) (greeting ∷ []) calls-IsBounded refl

-- A system that keeps what was sent.
abbrev sendmsg : List ℕ → List ℕ → ℕ → List (List ℕ) → List (List ℕ) × Result ℕ ℕ
sendmsg destination bytes size w = (bytes ∷ w, ok (length bytes))

abbrev payload : List ℕ
payload = 1 ∷ 2 ∷ 3 ∷ []

send_aggregate_run :
    send_aggregate linux_errors 128 sendmsg (127 ∷ []) payload 2 batching []
    ≡ (payload ∷ [], batching, handled 3)
unfolding send_aggregate
send_aggregate_run = refl

send_datapath_aggregate-Sends_example :
    SendsOrRefuses linux_errors 128 sendmsg true (127 ∷ []) payload 2 batching [] (
      send_datapath_aggregate linux_errors
        (send_aggregate linux_errors 128 sendmsg)
        true
        (some (127 ∷ []))
        (some payload)
        2
        batching
        [])
send_datapath_aggregate-Sends_example =
    send_datapath_aggregate-Sends linux_errors 128 sendmsg true (127 ∷ []) payload 2 batching []
