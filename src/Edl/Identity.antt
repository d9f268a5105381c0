-- ===== src/Edl/Identity.antt =====
-- types.rs: what is known of a programmer file.
use rusty_cortex.Base.{ℕ, Bool, List, Option}

pub data HashAlgorithm : Type 0 where
  sha256 sha384 : HashAlgorithm

pub record ProgrammerIdentity : Type 0 where
  pub hw_id : List ℕ
  pub pk_hash : List ℕ
  pub hash_algorithm : HashAlgorithm
  pub msm_id : ℕ
  pub oem_id : ℕ
  pub model_id : ℕ
  pub chipset : Option (List ℕ)
  pub hwid_from_filename : Bool
