-- ===== src/Platform/Threads/Owned.antt =====
-- What start and join of native/platform/Platform.cpp promise their callers on either system.
use ffl_p2p.Prelude.{
  ℕ, ◌+◌, ◌≡◌, refl, Bool, true, false, not, ◌==◌, Option, none, some, ◌∷◌, arith, Result, ok, err,
  if_cases, if_true, if_false, sym, if◌then◌else◌, ltb,
}
use ffl_p2p.Platform.Threads.{
  System, Thread, Outcome, PosixReply, checked, begin_posix, create_posix, start_posix,
  begin_windows, start_windows, removed, remove_live, join_posix, join_windows, wait_windows,
}

-- A call that succeeds has created one thread, which is the object's; one that fails has changed
-- nothing. The attributes are destroyed on every way.
abbrev pub Started : Thread → System → Outcome → Type 0
Started t s (s', t', ok u) =
    (t.joinable ≡ false)
    × (t'.joinable ≡ true)
    × (s'.live ≡ t'.handle ∷ s.live)
    × (s'.attributes ≡ s.attributes)
Started t s (s', t', err e) =
    (t'.joinable ≡ t.joinable)
    × (t'.handle ≡ t.handle)
    × (s'.live ≡ s.live)
    × (s'.attributes ≡ s.attributes)

-- A call that succeeds leaves no thread to join, and the one that there was is gone.
abbrev pub Joined : Thread → System → Outcome → Type 0
Joined t s (s', t', ok u) =
    (t'.joinable ≡ false)
    × (s'.live ≡ (if t.joinable then removed t.handle s.live else s.live))
    × (s'.attributes ≡ s.attributes)
Joined t s (s', t', err e) =
    (t'.joinable ≡ t.joinable)
    × (t'.handle ≡ t.handle)
    × (s'.live ≡ s.live)
    × (s'.attributes ≡ s.attributes)

checked-Started :
    (callable : Bool) (t : Thread) (s : System) (begun : Outcome)
    → (t.joinable ≡ false → Started t s begun)
    → Started t s (checked callable t s begun)
checked-Started callable t s begun h =
    if_cases (Started t s) (not callable) (λ e. (refl, refl, refl, refl))
      (λ e. if_cases (Started t s) t.joinable (λ k. (refl, refl, refl, refl)) h)

-- `start` on POSIX.
pub start_posix-Started :
    (callable : Bool) (size : ℕ) (r : PosixReply) (t : Thread) (s : System)
    → Started t s (start_posix callable size r t s)
unfolding start_posix
start_posix-Started callable size r t s =
    checked-Started callable t s (begin_posix size r t s) (λ h.
      if_cases (Started t s) (not (r.attr_init == 0)) (λ e. (refl, refl, refl, refl))
        (λ e.
          if_cases (Started t s) (size == 0) (λ k. created h)
            (λ k.
              if_cases (Started t s) (not (r.set_stack == 0)) (λ l. (refl, refl, refl, omega arith))
                (λ l. created h))))
  where
    created :
        t.joinable ≡ false
        → Started t s (create_posix size r t (record s { attributes = s.attributes + 1 }))
    created h =
        if_cases (Started t s) (not (r.create == 0)) (λ e. (refl, refl, refl, omega arith))
          (λ e. (h, refl, refl, omega arith))

-- `start` on Windows.
pub start_windows-Started :
    (limit : ℕ) (callable : Bool) (size : ℕ) (r : Result ℕ ℕ) (t : Thread) (s : System)
    → Started t s (start_windows limit callable size r t s)
unfolding start_windows
start_windows-Started limit callable size r t s =
    checked-Started callable t s _ (λ h.
      if_cases (Started t s) (ltb limit size) (λ e. (refl, refl, refl, refl)) (λ e. begun h r))
  where
    begun : t.joinable ≡ false → (q : Result ℕ ℕ) → Started t s (begin_windows size q t s)
    begun h (ok handle) = (h, refl, refl, refl)
    begun h (err code) = (refl, refl, refl, refl)

not-true : (b : Bool) → not b ≡ true → b ≡ false
not-true true h = sym h
not-true false h = refl

not-false : (b : Bool) → not b ≡ false → b ≡ true
not-false true h = refl
not-false false h = sym h

idle : (t : Thread) (s : System) → not t.joinable ≡ true → Joined t s (s, t, ok tt)
idle t s h =
    let e = not-true t.joinable h in (e, sym (if_false (removed t.handle s.live) s.live e), refl)

gone :
    (t : Thread) (s : System)
    → not t.joinable ≡ false
    → Joined t s (remove_live t.handle s, record t { joinable = false }, ok tt)
gone t s h = (refl, sym (if_true (removed t.handle s.live) s.live (not-false t.joinable h)), refl)

-- `join` on POSIX.
pub join_posix-Joined : (result : ℕ) (t : Thread) (s : System) → Joined t s (join_posix result t s)
unfolding join_posix
join_posix-Joined result t s = if_cases (Joined t s) (not t.joinable) (idle t s) (λ h.
    if_cases (Joined t s) (not (result == 0)) (λ k. (refl, refl, refl, refl)) (λ k. gone t s h))

waited-Joined :
    (waited closed : Option ℕ) (t : Thread) (s : System)
    → not t.joinable ≡ false
    → Joined t s (wait_windows waited closed t s)
waited-Joined none none t s h = gone t s h
waited-Joined none (some code) t s h = (refl, refl, refl, refl)
waited-Joined (some code) closed t s h = (refl, refl, refl, refl)

-- `join` on Windows.
pub join_windows-Joined :
    (replies : Option ℕ × Option ℕ) (t : Thread) (s : System)
    → Joined t s (join_windows replies t s)
unfolding join_windows
join_windows-Joined (waited, closed) t s =
    if_cases (Joined t s) (not t.joinable) (idle t s) (waited-Joined waited closed t s)
