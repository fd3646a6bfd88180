-- ===== src/Crypto/Tss.antt =====
-- bccrypto/tss/threshold.go: the threshold signer, a wrapper of the kyber library. What kyber
-- computes is a parameter: a signer holds its answers, `none` where kyber returns an error.
use dcschain.Base.{ℕ, Bool, List, Option, Bytes}

pub record Signer : Type 0 where
  pub tbls_sign : List ℕ → Option Bytes  -- tbls.Sign with this node's key share
  pub tbls_recover : List ℕ → List Bytes → Option Bytes  -- tbls.Recover with the shared key
  pub bdn_verify : List ℕ → Bytes → Bool  -- bdn.Verify answers without an error
  pub sign_num : ℕ
  pub threshold : ℕ

unfoldable pub threshold_sign : Signer → List ℕ → Option Bytes
threshold_sign s msg = s.tbls_sign msg

unfoldable pub combine_sig : Signer → List ℕ → List Bytes → Option Bytes
combine_sig s msg shares = s.tbls_recover msg shares

unfoldable pub threshold_sign_verify : Signer → List ℕ → Bytes → Bool
threshold_sign_verify s msg sig = s.bdn_verify msg sig
