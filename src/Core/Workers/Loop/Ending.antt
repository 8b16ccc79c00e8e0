-- ===== src/Core/Workers/Loop/Ending.antt =====
-- What becomes of the connections of a worker that ends (native/core/Worker.cpp).
use ffl_p2p.Prelude.{
  ℕ, ◌<◌, ◌≡◌, refl, sym, subst, true, false, List, [], ◌∷◌, ◌==◌, arith, is_some, inl, inr,
  Bool-cases, if_true, if_false, ◌∙◌,
}
use ffl_p2p.Quic.Library.{Error, message}
use ffl_p2p.Quic.Connection.{Connection, Operation}
use ffl_p2p.Quic.Connection.Operations.{fail_from_runtime}
use ffl_p2p.Quic.Connection.Operations.Failure.{
  AllAnswered, fail_from_runtime-AllAnswered, fail_from_runtime-keeps,
}
use ffl_p2p.Core.Workers.Loop.{Loop, set_at, drained, drain_connections}
use ffl_p2p.Core.Workers.Loop.Places.{count}

-- A connection that has come to its end, and the waiting calls of the operations `os`.
pub record Over (os : List Operation) (d : Connection) : Type 0 where
  pub stopped : d.stopped ≡ true
  pub gone : d.protocol.conn ≡ false
  pub empty : d.operations ≡ []
  pub told : is_some d.app.error ≡ true
  pub answered : AllAnswered d os

fail-Over : (c : Connection) (e : Error) → Over c.operations (fail_from_runtime c e)
fail-Over c e =
    let (s, g, o, t, a) = fail_from_runtime-AllAnswered c e in
    record { stopped = s; gone = g; empty = o; told = t; answered = a }

keeps_all :
    (os : List Operation) (c : Connection) (e : Error)
    → AllAnswered c os
    → AllAnswered (fail_from_runtime c e) os
keeps_all [] c e h = tt
keeps_all (o ∷ os) c e (a, rest) =
    (fail_from_runtime-keeps c e o.completion a, keeps_all os c e rest)

fail_again-Over :
    (os : List Operation) (c : Connection) (e : Error) → Over os c → Over os (fail_from_runtime c e)
fail_again-Over os c e v =
    let w = fail-Over c e in
    record {
      stopped = w.stopped;
      gone = w.gone;
      empty = w.empty;
      told = w.told;
      answered = keeps_all os c e v.answered;
    }

equal : (i k : ℕ) → (k == i) ≡ true → i ≡ k
equal i k e = ground arith

module _ {W : Type 0} where
  -- One connection after `i` has failed.
  abbrev after_fail : ℕ → Loop W → Loop W
  after_fail i l = record l {
    connections =
        set_at i (fail_from_runtime (l.connections i) (message "QUIC worker stopped"))
          l.connections;
  }

  drained-keeps :
      (is : List ℕ) (l : Loop W) (k : ℕ) (os : List Operation)
      → Over os (l.connections k)
      → Over os ((drained is l).connections k)
  unfolding drained
  drained-keeps [] l k os v = v
  drained-keeps (i ∷ is) l k os v =
      drained-keeps is (after_fail i l) k os (elim (Bool-cases (k == i)) [
        | inl e ↦ subst (Over os) (sym (if_true _ _ e)) (
            subst
              (λ j. Over os (fail_from_runtime (l.connections j) (message "QUIC worker stopped")))
              (sym (equal i k e)) (fail_again-Over os (l.connections k) _ v))
        | inr e ↦ subst (Over os) (sym (if_false _ _ e)) v
      ])

  drained-Over :
      (is : List ℕ) (l : Loop W) (k : ℕ)
      → 0 < count k is
      → Over (l.connections k).operations ((drained is l).connections k)
  unfolding drained
  drained-Over [] l k h = absurd (omega (arith, h))
  drained-Over (i ∷ is) l k h = elim (Bool-cases (k == i)) [
    | inl e ↦ drained-keeps is (after_fail i l) k (l.connections k).operations (
        subst (Over (l.connections k).operations) (sym (if_true _ _ e)) (
          subst
            (λ j.
              Over (l.connections k).operations
                (fail_from_runtime (l.connections j) (message "QUIC worker stopped")))
            (sym (equal i k e)) (fail-Over (l.connections k) _)))
    | inr e ↦
        subst (λ (c : Connection). Over c.operations ((drained is (after_fail i l)).connections k))
          (if_false _ (l.connections k) e) (drained-Over is (after_fail i l) k (ground (arith, h)))
  ]

  drained-other :
      (is : List ℕ) (l : Loop W) (k : ℕ)
      → count k is ≡ 0
      → (drained is l).connections k ≡ l.connections k
  unfolding drained
  drained-other [] l k h = refl
  drained-other (i ∷ is) l k h =
      drained-other is (after_fail i l) k (ground (arith, h))
      ∙ if_false {b = k == i} _ (l.connections k) (ground (arith, h))

  -- When a worker ends, every connection that is still in its deque, however often, is stopped and
  -- without its transport, has an error for the application, has an empty queue, and every call that
  -- waited for an operation of it is answered. The other connections stay as they are.
  pub drain_connections-Over :
      (l : Loop W) (k : ℕ)
      → let d = (drain_connections l).connections k in
        (0 < count k l.queue → Over (l.connections k).operations d)
        × (count k l.queue ≡ 0 → d ≡ l.connections k)
  unfolding drain_connections
  drain_connections-Over l k = (
    λ h. drained-Over l.queue (record l { queue = [] }) k h,
    λ h. drained-other l.queue (record l { queue = [] }) k h,
  )
