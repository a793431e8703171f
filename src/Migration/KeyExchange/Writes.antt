-- ===== src/Migration/KeyExchange/Writes.antt =====
-- What `exchange_msk` of src/migtd/src/migration/session.rs writes to the target TD, and when.
use mig_td.Base.{ℕ, ◌+◌, ◌≡◌, ◌≢◌, List, [], ◌∷◌}
use mig_td.Migration.Status.{Result, ok}
use mig_td.Migration.Info.{MigtdMigrationInformation}
use mig_td.Migration.Version.{ExchangeInformation}
use mig_td.Migration.KeyExchange.{Machine, tdcs_field_mig_dec_key, tdcs_field_mig_version}
use mig_td.Migration.KeyExchange.Log.{WriteLog, Puts}
use mig_td.Migration.KeyExchange.Prepare.{Agreed}

module _ {S : Type 0} {m : Machine S} (l : WriteLog m) where
  open l use {writes}

  -- The key's limbs and the fields that they go to, from the field of limb `idx` on.
  pub key_fields : ℕ → List ℕ → List (ℕ × ℕ)
  key_fields idx [] = []
  key_fields idx (x ∷ xs) = (tdcs_field_mig_dec_key + idx, x) ∷ key_fields (idx + 1) xs

  module _ (info : MigtdMigrationInformation) where
    -- What `exchange_msk` may write: the agreed version first, then the limbs of the peer's key.
    pub all_fields : ℕ → ExchangeInformation → List (ℕ × ℕ)
    all_fields ver remote = (tdcs_field_mig_version, ver) ∷ key_fields 0 remote.key.fields

    -- How `exchange_msk` may end: without an answer and without a write, or, once all has been
    -- agreed and checked, by writing the fields.
    pub data Exchanged (s : S) (r : Result (Unit {0}) × S) : Type 0 where
      untouched : r.0 ≢ ok tt → writes r.1 ≡ writes s → Exchanged s r
      committed :
          (ver : ℕ) (remote : ExchangeInformation)
          → Agreed l info ver remote
          → Puts l s r (all_fields ver remote)
          → Exchanged s r
