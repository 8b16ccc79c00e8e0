-- ===== src/Datapath/Sockets/Posix/Receive.antt =====
-- `receiveBatch` of native/datapath/DatapathPOSIX.cpp.
use ffl_p2p.Prelude.{
  ℕ, suc, ◌≤◌, ◌≡◌, refl, ap, ◌∙◌, subst, Bool, false, not, ◌||◌, some, List, [], ◌∷◌, length, ltb,
  ◌==◌, is_empty, Result, ok, err, arith, if_cases,
}
use ffl_p2p.Datapath.Sockets.{Datagram, ErrorNumbers, retry}
use ffl_p2p.Datapath.Sockets.Batch.{
  Message, Target, receive, call_batch, finish_raw, is_supported, max_batch_size, RawResult,
  negative, messages,
}
use ffl_p2p.Datapath.Sockets.Retry.{retry-result, then_received-some}
use mathlib.Core.Option.{some-injective}
use ffl_p2p.Datapath.Sockets.Posix.{
  JuiceLimits, SocketCalls, to_datagrams, finish_single, receive_single, add_datagram, is_refused,
}

-- Every datagram fits its buffer and has an address that fits libjuice's.
pub data AllSized (l : JuiceLimits) : List Datagram → Type 0 where
  nil : AllSized l []
  cons :
      {d : Datagram} {ds : List Datagram}
      → length d.bytes ≤ 4096
      → is_empty d.source_address ≡ false
      → length d.source_address ≤ l.address_storage_size
      → AllSized l ds
      → AllSized l (d ∷ ds)

-- The datagrams of the messages, each in its place.
pub data Copies : List Message → List Datagram → Type 0 where
  nil : Copies [] []
  cons :
      {m : Message} {d : Datagram} {ms : List Message} {ds : List Datagram}
      → m.bytes ≡ d.bytes
      → m.source_address ≡ d.source_address
      → m.truncated ≡ false
      → Copies ms ds
      → Copies (m ∷ ms) (d ∷ ds)

pub ok-injective : {A : Type 0} {x y : A} (r : Result ℕ A) → r ≡ ok x → r ≡ ok y → x ≡ y
ok-injective r g h = ground arith

pub err-ne-ok : {A P : Type 0} {e : ℕ} {x : A} → err e ≡ ok x → P
err-ne-ok h = absurd (ground arith)

add_datagram_ok :
    (d : Datagram) (r : Result ℕ (List Datagram)) (ds : List Datagram)
    → add_datagram d r ≡ ok ds
    → (rest : List Datagram) × (r ≡ ok rest) × (d ∷ rest ≡ ds)
add_datagram_ok d (ok rest) ds h = (rest, refl, ground arith)
add_datagram_ok d (err e) ds h = absurd (ground arith)

pub to_datagrams-Copies :
    (c : ErrorNumbers) (l : JuiceLimits) (ms : List Message) (ds : List Datagram)
    → to_datagrams c l ms ≡ ok ds
    → Copies ms ds × AllSized l ds
unfolding to_datagrams
to_datagrams-Copies c l [] ds h =
    subst (λ ds. Copies [] ds × AllSized l ds) {x = []} {y = ds} (ground arith) (nil, nil)
to_datagrams-Copies c l (m ∷ ms) ds h =
    if_cases {A = Result ℕ (List Datagram)} (λ x. x ≡ ok ds → Copies (m ∷ ms) ds × AllSized l ds)
      (is_refused l m) (λ g e. err-ne-ok e)
      (λ g e.
        let (rest, f, q) = add_datagram_ok _ (to_datagrams c l ms) ds e in
        let (copies, sized) = to_datagrams-Copies c l ms rest f in
        subst (λ ds. Copies (m ∷ ms) ds × AllSized l ds) q
          (
            cons refl refl (ground arith) copies,
            cons (ground arith) (ground arith) (ground arith) sized,
          ))
      h

pub length-Copies : {ms : List Message} {ds : List Datagram} → Copies ms ds → length ds ≡ length ms
length-Copies nil = refl
length-Copies (cons p q t rest) = ap suc (length-Copies rest)

finish_single-AllSized :
    (c : ErrorNumbers) (l : JuiceLimits) (m : Message) (ds : List Datagram)
    → length m.bytes ≤ 4096
    → finish_single c l (ok m) ≡ ok ds
    → AllSized l ds × (length ds ≤ 1)
unfolding finish_single
finish_single-AllSized c l m ds p h =
    if_cases {A = Result ℕ (List Datagram)} (λ x. x ≡ ok ds → AllSized l ds × (length ds ≤ 1))
      (is_empty m.bytes)
      (λ g e.
        subst (λ ds. AllSized l ds × (length ds ≤ 1)) {x = []} {y = ds} (ground arith)
          (nil, omega arith))
      (λ g.
        if_cases {A = Result ℕ (List Datagram)} (λ x. x ≡ ok ds → AllSized l ds × (length ds ≤ 1))
          (is_empty m.source_address || ltb l.address_storage_size (length m.source_address))
          (λ k e. err-ne-ok e)
          (λ k e.
            subst (λ ds. AllSized l ds × (length ds ≤ 1))
              {x = record { bytes = m.bytes; source_address = m.source_address } ∷ []} {y = ds}
              (ground arith) (cons p (ground arith) (ground arith) nil, omega arith)))
      h

finish_received-AllSized :
    (c : ErrorNumbers) (l : JuiceLimits) (r : Result ℕ Message) (ds : List Datagram)
    → ((m : Message) → r ≡ ok m → length m.bytes ≤ 4096)
    → finish_single c l r ≡ ok ds
    → AllSized l ds × (length ds ≤ 1)
unfolding finish_single
finish_received-AllSized c l (ok m) ds p h = finish_single-AllSized c l m ds (p m refl) h
finish_received-AllSized c l (err e) ds p h = err-ne-ok h

finish_raw-length :
    (c : ErrorNumbers) (n errno : ℕ) (raw : RawResult) (ms : List Message)
    → finish_raw c n errno raw ≡ ok ms
    → length ms ≤ n
unfolding finish_raw
finish_raw-length c n errno (negative k) ms h = err-ne-ok h
finish_raw-length c n errno (messages xs) ms h = ground arith

module _ {W : Type 0} (c : ErrorNumbers) (l : JuiceLimits) (calls : SocketCalls W) (target : Target)
    (is_linux : Bool) where
  -- The system gives no more messages than asked for, and no more bytes than the buffer holds.
  pub record IsBounded : Type 0 where
    pub messages :
        (n : ℕ) (w : W) (ms : List Message) → (calls.batch.recvmmsg n w).1 ≡ ok ms → length ms ≤ n
    pub bytes : (n : ℕ) (w : W) (m : Message) → (calls.recvfrom n w).1 ≡ ok m → length m.bytes ≤ n

  call_batch-length :
      (target : Target) (n : ℕ) (w : W) (ms : List Message)
      → IsBounded
      → (call_batch c calls.batch target n w).1 ≡ ok ms
      → length ms ≤ n
  call_batch-length Target.linux n w ms v h = v.messages n w ms h
  call_batch-length Target.cosmopolitan n w ms v h =
      finish_raw-length c n (calls.batch.sys_recvmmsg n w).1 (calls.batch.sys_recvmmsg n w).2 ms h
  call_batch-length Target.other n w ms v h = err-ne-ok h

  pub receive-length :
      (n : ℕ) (w : W) (ms : List Message)
      → IsBounded
      → (receive c calls.batch target is_linux n w).1 ≡ ok ms
      → length ms ≤ n
  unfolding receive
  receive-length n w ms v h =
      if_cases {A = W × Result ℕ (List Message)} (λ x. x.1 ≡ ok ms → length ms ≤ n)
        (n == 0 || ltb max_batch_size n) (λ g e. err-ne-ok e)
        (λ g.
          if_cases {A = W × Result ℕ (List Message)} (λ x. x.1 ≡ ok ms → length ms ≤ n)
            (not (is_supported target is_linux)) (λ k e. err-ne-ok e)
            (λ k e. call_batch-length target n w ms v e))
        h

  pub receive_single-AllSized :
      (fuel : ℕ) (w : W) (ds : List Datagram)
      → IsBounded
      → (receive_single c l calls target is_linux fuel w).1 ≡ some (ok ds)
      → AllSized l ds × (length ds ≤ 1)
  unfolding receive_single
  receive_single-AllSized fuel w ds v h =
      let (w', r, loop, result) =
        then_received-some (retry c (calls.recvfrom 4096) fuel w)
          (λ w' r. (w', some (finish_single c l r))) (ok ds) h in
      let (u, at, e) = retry-result c (calls.recvfrom 4096) fuel w r loop in
      finish_received-AllSized c l r ds (λ m q. v.bytes 4096 u m (at ∙ q))
        (some-injective _ _ result)
