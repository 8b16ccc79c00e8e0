-- ===== src/Datapath/Sockets/Retry.antt =====
-- The loop around the receiving calls of native/datapath/DatapathPOSIX.cpp and DatapathWindows.cpp.
use ffl_p2p.Prelude.{
  ℕ, zero, suc, ◌<◌, ◌≡◌, refl, subst, true, false, Option, none, some, Result, arith, if_cases,
}
use mathlib.Core.Option.{some-injective, none-ne-some}
use ffl_p2p.Datapath.Sockets.{ErrorNumbers, is_ignored, retry, then_received}

module _ {A W : Type 0} (c : ErrorNumbers) (call : W → W × Result ℕ A) where
  -- `k` calls from `w` meet ignored errors and leave the system as `w'`; the next gives `r`, which is
  -- not ignored.
  pub data Answers : ℕ → W → W → Result ℕ A → Type 0 where
    now : {w w' : W} {r : Result ℕ A} → call w ≡ (w', r) → is_ignored c r ≡ false → Answers 0 w w' r
    later :
        {k : ℕ} {w w' : W} {r : Result ℕ A}
        → is_ignored c (call w).1 ≡ true
        → Answers k (call w).0 w' r
        → Answers (suc k) w w' r

  -- With more fuel than there are ignored errors, the loop gives the first result that is not ignored.
  pub retry_lem :
      (n : ℕ) {k : ℕ} {w w' : W} {r : Result ℕ A}
      → Answers k w w' r
      → k < n
      → retry c call n w ≡ (w', some r)
  unfolding retry
  retry_lem zero a h = absurd (omega arith)
  retry_lem (suc n) (now e g) h = rw (e, g) refl
  retry_lem (suc n) (later g a) h = rw g (retry_lem n a (omega arith))

  -- What the loop gives is what the call gave at some point, and no ignored error.
  pub retry-result :
      (n : ℕ) (w : W) (r : Result ℕ A)
      → (retry c call n w).1 ≡ some r
      → (v : W) × ((call v).1 ≡ r) × (is_ignored c r ≡ false)
  unfolding retry
  retry-result zero w r h = absurd (none-ne-some r h)
  retry-result (suc n) w r h =
      if_cases {A = W × Option (Result ℕ A)}
        (λ x. x.1 ≡ some r → (v : W) × ((call v).1 ≡ r) × (is_ignored c r ≡ false))
        (is_ignored c (call w).1) (λ g e. retry-result n (call w).0 r e)
        (λ g e.
          let q = some-injective (call w).1 r e in (w, q, subst (λ t. is_ignored c t ≡ false) q g))
        h

-- A result after a loop comes from a result of the loop.
pub then_received-some :
    {A B W : Type 0} (x : W × Option (Result ℕ A)) (f : W → Result ℕ A → W × Option B) (y : B)
    → (then_received x f).1 ≡ some y
    → (w : W) × (r : Result ℕ A) × (x.1 ≡ some r) × ((f w r).1 ≡ some y)
then_received-some (w, none) f y h = absurd (none-ne-some y h)
then_received-some (w, some r) f y h = (w, r, refl, h)
