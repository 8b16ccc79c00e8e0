-- ===== src/Quic/Credentials.antt =====
-- native/quic/Credentials.cpp. What gnutls answers to each of its functions is an argument: nothing, or
-- the code of its failure. `Ledger` counts the keys and certificates that gnutls gave and took back.
pub mod Generation
use ffl_p2p.Prelude.{
  ℕ, ◌+◌, Bool, true, false, Option, none, some, List, [], ◌∷◌, String, Result, ok, err,
}
use ffl_p2p.Quic.Library.{Error, library, other}

pub record Ledger : Type 0 where
  pub keys : ℕ
  pub keys_freed : ℕ
  pub certificates : ℕ
  pub certificates_freed : ℕ

pub record Credentials : Type 0 where
  pub certificate_pem : List ℕ
  pub private_key_pem : List ℕ

-- `checkGnuTLS`
abbrev pub check_gnutls : String → Option ℕ → Result Error (Unit {0})
check_gnutls operation none = ok tt
check_gnutls operation (some code) = err (library operation (other code))

-- `ensureGnuTLS`: the initialisation is tried again where it has failed. Whether it is done, and the
-- result.
unfoldable pub ensure_gnutls : Option ℕ → Bool → Bool × Result Error (Unit {0})
ensure_gnutls answer true = (true, ok tt)
ensure_gnutls none false = (true, ok tt)
ensure_gnutls (some code) false = (false, err (library "gnutls_global_init" (other code)))

-- The calls between the certificate's creation and the copies, in their order.
abbrev pub certificate_calls : List String
certificate_calls =
    "gnutls_x509_crt_set_version" ∷ "gnutls_rnd(serial)" ∷ "gnutls_x509_crt_set_serial"
    ∷ "gnutls_x509_crt_set_activation_time" ∷ "gnutls_x509_crt_set_expiration_time"
    ∷ "gnutls_x509_crt_set_dn_by_oid" ∷ "gnutls_x509_crt_set_subject_alt_name"
    ∷ "gnutls_x509_crt_set_key" ∷ "gnutls_x509_crt_set_basic_constraints"
    ∷ "gnutls_x509_crt_set_key_usage" ∷ "gnutls_x509_crt_set_key_purpose_oid"
    ∷ "gnutls_x509_crt_sign2" ∷ "gnutls_x509_crt_export2" ∷ "gnutls_x509_privkey_export2" ∷ []

abbrev pub take_key : Ledger → Ledger
take_key l = record l { keys = l.keys + 1 }

abbrev pub free_key : Ledger → Ledger
free_key l = record l { keys_freed = l.keys_freed + 1 }

abbrev pub take_certificate : Ledger → Ledger
take_certificate l = record l { certificates = l.certificates + 1 }

abbrev pub free_both : Ledger → Ledger
free_both l = record l {
  certificates_freed = l.certificates_freed + 1;
  keys_freed = l.keys_freed + 1;
}

module _ (answer : String → Option ℕ) (pems : Credentials) where
  -- One after the other, up to the first that fails.
  unfoldable pub check_calls : List String → Result Error (Unit {0})
  check_calls [] = ok tt
  check_calls (operation ∷ rest) =
      let later = check_calls rest in
      elim (check_gnutls operation (answer operation)) [ ok u ↦ later | err e ↦ err e ]

  abbrev pub copied : Ledger → Result Error (Unit {0}) → Ledger × Result Error Credentials
  copied l (err e) = (free_both l, err e)
  copied l (ok u) = (free_both l, ok pems)

  -- After gnutls_x509_crt_init.
  abbrev pub with_certificate : Ledger → Result Error (Unit {0}) → Ledger × Result Error Credentials
  with_certificate l (err e) = (free_key l, err e)
  with_certificate l (ok u) = copied (take_certificate l) (check_calls certificate_calls)

  -- After gnutls_x509_privkey_generate.
  abbrev pub generated : Ledger → Result Error (Unit {0}) → Ledger × Result Error Credentials
  generated l (err e) = (free_key l, err e)
  generated l (ok u) =
      with_certificate l (check_gnutls "gnutls_x509_crt_init" (answer "gnutls_x509_crt_init"))

  -- After gnutls_x509_privkey_init.
  abbrev pub with_key : Ledger → Result Error (Unit {0}) → Ledger × Result Error Credentials
  with_key l (err e) = (l, err e)
  with_key l (ok u) =
      generated (take_key l)
        (check_gnutls "gnutls_x509_privkey_generate" (answer "gnutls_x509_privkey_generate"))

  abbrev pub ensured : Ledger → Result Error (Unit {0}) → Ledger × Result Error Credentials
  ensured l (err e) = (l, err e)
  ensured l (ok u) =
      with_key l (check_gnutls "gnutls_x509_privkey_init" (answer "gnutls_x509_privkey_init"))

  -- `generateCredentials`; `done` is whether gnutls is initialised. `pems` are the copies.
  unfoldable pub generate_credentials : Bool → Ledger → Ledger × Result Error Credentials
  generate_credentials done l = ensured l (ensure_gnutls (answer "gnutls_global_init") done).1
