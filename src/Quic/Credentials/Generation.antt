-- ===== src/Quic/Credentials/Generation.antt =====
-- What generateCredentials (native/quic/Credentials.cpp) gives and leaves.
use ffl_p2p.Prelude.{ℕ, ◌≡◌, Bool, Option, String, arith, Result, ok, err}
use ffl_p2p.Quic.Library.{Error}
use ffl_p2p.Quic.Credentials.{
  Ledger, Credentials, certificate_calls, check_calls, copied, with_certificate, generated,
  with_key, ensured, ensure_gnutls, generate_credentials, take_key, take_certificate,
}

-- Every key and every certificate was given back.
pub record Balanced (l : Ledger) : Type 0 where
  pub keys : l.keys ≡ l.keys_freed
  pub certificates : l.certificates ≡ l.certificates_freed

module _ (answer : String → Option ℕ) (pems : Credentials) (l : Ledger) (v : Balanced l) where
  copied-Balanced :
      (r : Result Error (Unit {0}))
      → Balanced (copied answer pems (take_certificate (take_key l)) r).0
  copied-Balanced (ok u) = omega (arith, v.keys, v.certificates)
  copied-Balanced (err e) = omega (arith, v.keys, v.certificates)

  with_certificate-Balanced :
      (r : Result Error (Unit {0})) → Balanced (with_certificate answer pems (take_key l) r).0
  with_certificate-Balanced (ok u) = copied-Balanced (check_calls answer pems certificate_calls)
  with_certificate-Balanced (err e) = omega (arith, v.keys, v.certificates)

  generated-Balanced :
      (r : Result Error (Unit {0})) → Balanced (generated answer pems (take_key l) r).0
  generated-Balanced (ok u) = with_certificate-Balanced _
  generated-Balanced (err e) = omega (arith, v.keys, v.certificates)

  with_key-Balanced : (r : Result Error (Unit {0})) → Balanced (with_key answer pems l r).0
  with_key-Balanced (ok u) = generated-Balanced _
  with_key-Balanced (err e) = v

  ensured-Balanced : (r : Result Error (Unit {0})) → Balanced (ensured answer pems l r).0
  ensured-Balanced (ok u) = with_key-Balanced _
  ensured-Balanced (err e) = v

  -- Whichever function of gnutls fails, or none: generating credentials gives back every key and every
  -- certificate that gnutls gave, and none twice.
  pub generate_credentials-Balanced :
      (done : Bool) → Balanced (generate_credentials answer pems done l).0
  unfolding generate_credentials
  generate_credentials-Balanced done =
      ensured-Balanced (ensure_gnutls (answer "gnutls_global_init") done).1
