-- ===== src/Quic/Connection/Flush/Settles.antt =====
-- flushPackets (native/quic/Connection.cpp): its end, and what it leaves for the socket.
use ffl_p2p.Prelude.{
  ℕ, zero, suc, ◌≤◌, ◌<◌, ◌≡◌, refl, sym, subst, Bool, true, false, not, Option, none, some, List,
  [], ◌∷◌, length, Result, ok, err, arith, Bool-cases, if_cases, ◌⊎◌, inl, inr,
}
use ffl_p2p.Quic.Library.{Error, Written, wrote, failed, Outside}
use ffl_p2p.Ice.Binding.{SendResult}
use ffl_p2p.Quic.Connection.{Connection, has_remaining_data, remaining_data}
use ffl_p2p.Quic.Connection.Transport.{
  TransportSendOutcome, sent, held, Outcome, flush_pending_transport_send,
}
use ffl_p2p.Quic.Connection.Transport.Sends.{
  Armed, After, send_transport_buffer-After, flush_pending_transport_send-After,
}
use ffl_p2p.Quic.Connection.Flush.{
  Flushed, AggregateWriter, flush_single, flush_aggregate, write_packets, unless_held, on_single,
  on_aggregate, flush_packets, max_packets_per_flush,
}

-- After a flush that used up its budget (`true`) nothing waits; after another, what waits has a timer,
-- set for the retry delay after the clock's last time.
abbrev pub Settled : {W : Type 0} → Outside W → Bool → W → Connection → Type 0
Settled out true w d = has_remaining_data d.pending_send ≡ false
Settled {W} out false w d =
    (has_remaining_data d.pending_send ≡ false) ⊎ ((v : W) × Armed out v w d)

abbrev Ends : {W : Type 0} → Outside W → Flushed W → Type 0
Ends out (w, d, err e) = Unit
Ends out (w, d, ok b) = Settled out b w d

-- `none` is a loop that ran out of fuel.
abbrev Settles : {W : Type 0} → Outside W → Option (Flushed W) → Type 0
Settles out none = ⊥
Settles out (some f) = Ends out f

-- What a send leaves, whatever the agent reported.
abbrev Left : {W : Type 0} → Outside W → W → Connection → TransportSendOutcome → Type 0
Left out w d sent = has_remaining_data d.pending_send ≡ false
Left {W} out w d held = (v : W) × Armed out v w d

After-Left :
    {W : Type 0} (out : Outside W) (bytes : List ℕ) (r : W × Result Error SendResult) (w : W)
    (d : Connection) (o : TransportSendOutcome)
    → After out bytes r w d o
    → Left out w d o
After-Left out bytes (v, err e) w d o h = absurd h
After-Left out bytes (v, ok r) w d sent h = h.1.nothing
After-Left out bytes (v, ok r) w d held h = (v, h.1.armed)

module _ {W : Type 0} (out : Outside W) (write_aggregate : AggregateWriter W) where
  idle :
      (d : Connection) (w : W) → has_remaining_data d.pending_send ≡ false → Settled out false w d
  idle d w none_wait = inl none_wait

  -- A send, and the rest of the flush where nothing was held back.
  unless_held_lem :
      {X : Type 0} (P : X → Type 0) (o : Outcome W) (stop : Flushed W → X)
      (next : Connection → W → X)
      → ((k : TransportSendOutcome) → o.2 ≡ ok k → Left out o.0 o.1 k)
      → ((f : Flushed W) → Ends out f → P (stop f))
      → ((d : Connection) (w : W) → has_remaining_data d.pending_send ≡ false → P (next d w))
      → P (unless_held o stop next)
  unfolding unless_held
  unless_held_lem P (w, c, err e) stop next h s n = s (w, c, err e) tt
  unless_held_lem P (w, c, ok held) stop next h s n = s (w, c, ok false) (inr (h held refl))
  unless_held_lem P (w, c, ok sent) stop next h s n = n c w (h sent refl)

  on_single-Ends :
      (r : W × Connection × Result Error (List ℕ)) (next : Connection → W → Flushed W)
      → has_remaining_data r.1.pending_send ≡ false
      → ((d : Connection) (w : W) → has_remaining_data d.pending_send ≡ false → Ends out (next d w))
      → Ends out (on_single out write_aggregate r next)
  unfolding on_single
  on_single-Ends (w, c, err e) next nothing n = tt
  on_single-Ends (w, c, ok []) next nothing n = idle c w nothing
  on_single-Ends (w, c, ok (x ∷ xs)) next nothing n =
      unless_held_lem (Ends out) _ _ next
        (λ k run.
          After-Left out (x ∷ xs) _ _ _ k
            (send_transport_buffer-After out c (x ∷ xs) (length (x ∷ xs)) 1 false w k run))
        (λ f e. e) n

  flush_single-Ends :
      (budget : ℕ) (c : Connection) (w : W)
      → has_remaining_data c.pending_send ≡ false
      → Ends out (flush_single out write_aggregate budget c w)
  unfolding flush_single
  flush_single-Ends zero c w nothing = nothing
  flush_single-Ends (suc budget) c w nothing =
      on_single-Ends _ _ nothing (λ d v h. flush_single-Ends budget d v h)

  on_aggregate-Settles :
      (w : W) (c : Connection) (e : Option Error) (written : Written) (segment packets : ℕ)
      (next : Connection → W → Option (Flushed W))
      → has_remaining_data c.pending_send ≡ false
      → ((d : Connection) (v : W)
          → 0 < packets
          → has_remaining_data d.pending_send ≡ false
          → Settles out (next d v))
      → Settles out (on_aggregate out write_aggregate w c e written segment packets next)
  unfolding on_aggregate
  on_aggregate-Settles w c e (failed code) segment packets next nothing n = tt
  on_aggregate-Settles w c e (wrote []) segment packets next nothing n = idle c w nothing
  on_aggregate-Settles w c e (wrote (x ∷ xs)) segment zero next nothing n = idle c w nothing
  on_aggregate-Settles w c e (wrote (x ∷ xs)) segment (suc packets) next nothing n =
      unless_held_lem (Settles out) _ some next
        (λ k run.
          After-Left out (x ∷ xs) _ _ _ k
            (send_transport_buffer-After out c (x ∷ xs) _ (suc packets) true w k run))
        (λ f e. e) (λ d v h. n d v (omega arith) h)

  flush_aggregate-Settles :
      (fuel budget : ℕ) (c : Connection) (w : W)
      → budget ≤ fuel
      → has_remaining_data c.pending_send ≡ false
      → Settles out (flush_aggregate out write_aggregate fuel budget c w)
  unfolding flush_aggregate
  flush_aggregate-Settles fuel zero c w enough nothing = nothing
  flush_aggregate-Settles zero (suc budget) c w enough nothing = absurd (omega arith)
  flush_aggregate-Settles (suc fuel) (suc budget) c w enough nothing =
      on_aggregate-Settles _ _ _ _ _ _ _ nothing
        (λ d v some_packets h. flush_aggregate-Settles fuel _ d v (omega arith) h)

  write_packets-Settles :
      (c : Connection) (w : W)
      → has_remaining_data c.pending_send ≡ false
      → Settles out (write_packets out write_aggregate c w)
  unfolding write_packets
  write_packets-Settles c w nothing =
      if_cases (Settles out) c.aggregate_packets
        (λ aggregates.
          flush_aggregate-Settles max_packets_per_flush max_packets_per_flush c w (omega arith)
            nothing)
        (λ singles. flush_single-Ends max_packets_per_flush c w nothing)

  no_retry :
      (c : Connection) (w : W)
      → has_remaining_data c.pending_send ≡ false
      → flush_pending_transport_send out c w ≡ (w, c, ok sent)
  unfolding flush_pending_transport_send
  no_retry c w nothing =
      if_cases (λ o. o ≡ (w, c, ok sent)) (not (has_remaining_data c.pending_send)) (λ h. refl)
        (λ h. ground arith)

  after_retry-Settles :
      (c : Connection) (w : W)
      → Settles out (
          unless_held
            (flush_pending_transport_send out c w)
            some
            (λ d v. write_packets out write_aggregate d v))
  unfolding unless_held
  after_retry-Settles c w = elim (Bool-cases (has_remaining_data c.pending_send)) [
    | inl some_wait ↦
        unless_held_lem (Settles out) (flush_pending_transport_send out c w) some
          (λ d v. write_packets out write_aggregate d v)
          (λ k run.
            After-Left out (remaining_data c.pending_send) _ _ _ k
              (flush_pending_transport_send-After out c w k some_wait run))
          (λ f e. e) (λ d v h. write_packets-Settles d v h)
    | inr nothing ↦
        subst (λ o. Settles out (unless_held o some (λ d v. write_packets out write_aggregate d v)))
          (sym (no_retry c w nothing)) (write_packets-Settles c w nothing)
  ]

  flush_packets-Settles :
      (c : Connection) (w : W)
      → c.protocol.conn ≡ true
      → Settles out (flush_packets out write_aggregate c w)
  unfolding flush_packets
  flush_packets-Settles c w alive =
      if_cases (Settles out) (not c.protocol.conn) (λ gone. ground arith)
        (λ h. after_retry-Settles c w)

  -- `flushPackets` ends: the budget of 512 packets is fuel enough, whatever ngtcp2 reports.
  pub flush_packets-ends :
      (c : Connection) (w : W) → (f : Flushed W) × (flush_packets out write_aggregate c w ≡ some f)
  unfolding flush_packets
  flush_packets-ends c w =
      if_cases (λ o. (f : Flushed W) × (o ≡ some f)) (not c.protocol.conn) (λ gone. (_, refl))
        (λ h. ends _ (after_retry-Settles c w))
    where
      ends : (o : Option (Flushed W)) → Settles out o → (f : Flushed W) × (o ≡ some f)
      ends none h = absurd h
      ends (some f) h = (f, refl)

  -- After a flush of a live connection that does not throw: if the budget is used up, nothing waits
  -- for the socket; otherwise the bytes that wait, if any, have the retry timer set for its delay
  -- after the last time that the clock gave.
  pub flush_packets-Settled :
      (c : Connection) (w w' : W) (d : Connection) (b : Bool)
      → c.protocol.conn ≡ true
      → flush_packets out write_aggregate c w ≡ some (w', d, ok b)
      → Settled out b w' d
  flush_packets-Settled c w w' d b alive run =
      subst (Settles out) run (flush_packets-Settles c w alive)
