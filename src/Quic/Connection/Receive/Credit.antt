-- ===== src/Quic/Connection/Receive/Credit.antt =====
-- What reaches ngtcp2 of the credit that processReleaseStreamReceiveCredit (native/quic/Connection.cpp)
-- gives back: the outside with a meter on its two calls.
use ffl_p2p.Prelude.{
  ℕ, ◌+◌, ◌≡◌, refl, subst, sym, Bool, true, false, not, ◌||◌, ◌==◌, some, arith, if◌then◌else◌,
  Bool-cases, inl, inr, Result, ok, err,
}
use ffl_p2p.Quic.Library.{Outside, Error}
use ffl_p2p.Quic.Connection.{Connection}
use ffl_p2p.Quic.Connection.Receive.{release_to, extend_credit, process_release_credit}

-- The bytes of credit for the stream, where the call succeeds, and for the connection.
pub record Meter : Type 0 where
  pub stream : ℕ
  pub connection : ℕ

abbrev pub unmetered : Meter
unmetered = record { stream = 0; connection = 0 }

abbrev pub counted : Bool → ℕ → Meter → Meter
counted true n g = record g { stream = g.stream + n }
counted false n g = g

-- The outside `out`, with a meter for the stream `k`.
abbrev pub metered : {W : Type 0} → Outside W → ℕ → Outside (W × Meter)
metered out k = record {
  now = λ v. let (w, t) = out.now v.0 in ((w, v.1), t);
  agent_send = λ bytes v. let (w, r) = out.agent_send bytes v.0 in ((w, v.1), r);
  agent_send_aggregate =
      λ bytes n v. let (w, r, p) = out.agent_send_aggregate bytes n v.0 in ((w, v.1), r, p);
  set_sink = λ handle v. let (w, r) = out.set_sink handle v.0 in ((w, v.1), r);
  clear_sink = λ handle v. (out.clear_sink handle v.0, v.1);
  update_tx_time = λ t v. (out.update_tx_time t v.0, v.1);
  write_stream = λ r v. let (w, s) = out.write_stream r v.0 in ((w, v.1), s);
  write_pkt = λ v. let (w, r) = out.write_pkt v.0 in ((w, v.1), r);
  get_expiry = λ v. out.get_expiry v.0;
  handle_expiry = λ t v. let (w, r) = out.handle_expiry t v.0 in ((w, v.1), r);
  read_pkt = λ packet v. let (w, es, r) = out.read_pkt packet v.0 in ((w, v.1), es, r);
  open_stream = λ v. let (w, r) = out.open_stream v.0 in ((w, v.1), r);
  extend_max_stream_offset = λ stream n v.
      let (w, extended) = out.extend_max_stream_offset stream n v.0 in
      let hit = if stream == k then extended else false in ((w, counted hit n v.1), extended);
  extend_max_offset = λ n v.
      let g = v.1 in (out.extend_max_offset n v.0, record g { connection = g.connection + n });
  initialize_client =
      λ certificate v. let (w, r) = out.initialize_client certificate v.0 in ((w, v.1), r);
  initialize_server = λ certificate key original peer v.
      let (w, r) = out.initialize_server certificate key original peer v.0 in ((w, v.1), r);
  decode_version_cid = out.decode_version_cid;
}

-- The credit that is lost where there is no ngtcp2 connection or the release throws.
abbrev pub lost_of : Bool → Result Error (Unit {0}) → ℕ → ℕ
lost_of conn (err e) n = n
lost_of true (ok u) n = 0
lost_of false (ok u) n = n

abbrev Balanced :
    {W : Type 0} → Bool → ℕ → (W × Meter) × Connection × Result Error (Unit {0}) → Type 0
Balanced conn n ((w, g), d, result) =
    (g.stream + lost_of conn result n ≡ n) × (g.connection ≡ g.stream)

module _ {W : Type 0} (out : Outside W) (stream : ℕ) where
  extend_credit-Balanced :
      (c : Connection) (n : ℕ) (w : W)
      → Balanced true n (extend_credit (metered out stream) c stream n (w, unmetered))
  extend_credit-Balanced c n w = elim (Bool-cases (out.extend_max_stream_offset stream n w).1) [
    | inl extended ↦ simp (extended, same stream) (omega arith, omega arith)
    | inr refused ↦ simp (refused, same stream) (omega arith, refl)
  ]
    where
      same : (m : ℕ) → (m == m) ≡ true
      same m = ground arith

  -- A release of nothing, one without a connection, and another.
  release_cases :
      (z alive : Bool) (n : ℕ) (x y : (W × Meter) × Connection × Result Error (Unit {0}))
      → (z ≡ true → Balanced alive n x)
      → Balanced false n x
      → Balanced true n y
      → Balanced alive n (if z || not alive then x else y)
  release_cases true alive n x y nothing gone live = nothing refl
  release_cases false true n x y nothing gone live = live
  release_cases false false n x y nothing gone live = gone

  release_to-Balanced :
      (c : Connection) (n : ℕ) (w : W)
      → Balanced c.protocol.conn n
          (release_to (metered out stream) (some stream) c n (w, unmetered))
  unfolding release_to
  release_to-Balanced c n w =
      release_cases (n == 0) c.protocol.conn n ((w, unmetered), c, ok tt)
        (extend_credit (metered out stream) c stream n (w, unmetered))
        (λ nothing. (nothing_lost c.protocol.conn n nothing, refl)) (omega arith, refl)
        (extend_credit-Balanced c n w)
    where
      nothing_lost : (b : Bool) (m : ℕ) → (m == 0) ≡ true → 0 + lost_of b (ok tt) m ≡ m
      nothing_lost true m h = ground arith
      nothing_lost false m h = omega arith

  -- All the credit that was counted reaches ngtcp2, as much for the connection as for the stream, or it
  -- is lost.
  pub process_release_credit-Balanced :
      (c : Connection) (w : W)
      → c.protocol.rx_stream_id ≡ some stream
      → Balanced c.protocol.conn c.releasable_stream_receive_bytes
          (process_release_credit (metered out stream) c (w, unmetered))
  unfolding process_release_credit
  process_release_credit-Balanced c w known =
      let d = record c { releasable_stream_receive_bytes = 0 } in
      subst
        (λ r.
          Balanced c.protocol.conn c.releasable_stream_receive_bytes
            (release_to (metered out stream) r d c.releasable_stream_receive_bytes (w, unmetered)))
        (sym known) (release_to-Balanced d c.releasable_stream_receive_bytes w)
