-- ===== src/Python/Session/Runs/References.antt =====
-- Who keeps the agent object of native/Quic.cpp alive while a connection is attached to it.
use ffl_p2p.Prelude.{ℕ, ◌≡◌, refl, ◌≢◌, ◌⊎◌, inl, inr, Option, none, some, sym, ◌∙◌, ap, subst}
use ffl_p2p.Quic.Library.{Outside}
use ffl_p2p.Quic.Connection.{Connection}
use ffl_p2p.Quic.Connection.Application.{finish_start}
use ffl_p2p.Python.Session.{
  new_session, Session, initialize_session, finish_start_session, close_session,
  finish_close_session, queue_session_async, read_session,
}
use ffl_p2p.Python.Session.Bindings.{Fits, finish_start-AfterWait, finish_close-agent}
use ffl_p2p.Python.Session.Keeping.{
  Keeps, Guarded, agent_of, same, bound, agent, initialize_session-Keeps, start_session-Keeps,
  queue_session_async-Keeps, read_session-Keeps, runs-Keeps, close_on-Keeps,
}
use ffl_p2p.Python.Session.Runs.{
  Phase, ready, starting, closing, Machine, Step, initializes, starts, started, queues, reads,
  closes, closed, others, Reach, here, next,
}

abbrev pub Held : {W : Type 0} → Machine W → Type 0
Held m = Keeps m.phase m.session

none-ne-some : (n : ℕ) → ◌≢◌ {A = Option ℕ} none (some n)
none-ne-some n h = cc

abbrev number : Option ℕ → ℕ → ℕ
number none n = n
number (some h) n = h

module _ {W : Type 0} (out : Outside W) where
  at_phase : (m : Machine W) {p : Phase} → m.phase ≡ p → Held m → Keeps p m.session
  at_phase m e v = subst (λ p. Keeps p m.session) e v

  Step-Held : {m n : Machine W} → Step out m n → Held m → Held n
  unfolding finish_start_session finish_close_session close_session
  Step-Held {m} (initializes args assigned e) v =
      subst (λ p. Keeps p (initialize_session m.session args assigned).0) (sym e)
        (initialize_session-Keeps m.session args assigned (at_phase m e v))
  Step-Held {m} (starts args id e) v =
      start_session-Keeps out m.session args id m.outside (at_phase m e v)
  Step-Held {m} (started c handle outcome e k) v =
      runs-Keeps out m.session c handle (finish_start out c outcome m.outside) k
        (finish_start-AfterWait out c outcome m.outside) (at_phase m e v)
  Step-Held {m} (queues args e) v =
      subst (λ p. Keeps p (queue_session_async m.session args).0) (sym e)
        (queue_session_async-Keeps m.session args (at_phase m e v))
  Step-Held {m} (reads allocated e) v =
      subst (λ p. Keeps p (read_session m.session allocated).0) (sym e)
        (read_session-Keeps m.session allocated (at_phase m e v))
  Step-Held {m} (closes id e) v =
      close_on-Keeps out m.session m.session.connection id m.outside refl (at_phase m e v)
  Step-Held {m} (closed c outcome e k) v = record {
    guarded = λ f. inl (finish_close-agent out c outcome m.outside);
    unstarted = λ h. refl;
  }
  Step-Held {m} (others c d w k b) v = same m.phase m.session d (bound m.session c d k (agent b)) v

  Reach-Held : {m n : Machine W} → Reach out m n → Held m → Held n
  Reach-Held here v = v
  Reach-Held (next r step) v = Step-Held step (Reach-Held r v)

  holder :
      (p : Phase) (s : Session) (handle : ℕ)
      → Guarded p s
      → Fits s.initial_packet
      → agent_of s.connection ≡ some handle
      → (s.agent_object ≡ some handle) ⊎ (p ≡ starting handle)
  holder ready s handle g f e = elim (g f) [
    | inl k ↦ absurd (none-ne-some handle (sym k ∙ e))
    | inr k ↦ inl (sym k ∙ e)
  ]
  holder closing s handle g f e = elim (g f) [
    | inl k ↦ absurd (none-ne-some handle (sym k ∙ e))
    | inr k ↦ inl (sym k ∙ e)
  ]
  holder (starting other) s handle g f e = elim g [
    | inl k ↦ absurd (none-ne-some handle (sym k ∙ e))
    | inr k ↦ inr (ap (λ o. starting (number o other)) (sym k ∙ e))
  ]

  -- Whatever calls are made on a new session, in whatever order, with whatever the worker does
  -- meanwhile: while its connection is attached to an agent, the session has a reference to this
  -- agent, or its waiting start has one. The initial packet has at most 65535 bytes.
  pub Reach-referenced :
      (w : W) (m : Machine W) (c : Connection) (handle : ℕ)
      → Reach out (record { session = new_session; phase = ready; outside = w }) m
      → Fits m.session.initial_packet
      → m.session.connection ≡ some c
      → c.binding.agent ≡ some handle
      → (m.session.agent_object ≡ some handle) ⊎ (m.phase ≡ starting handle)
  Reach-referenced w m c handle r f k e =
      holder m.phase m.session handle (Reach-Held r fresh).guarded f (ap agent_of k ∙ e)
    where
      fresh : Held (record { session = new_session; phase = ready; outside = w })
      fresh = record { guarded = λ g. inl refl; unstarted = λ h. refl }
