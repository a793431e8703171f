-- ===== src/Tests/Machines.antt =====
-- A machine whose state is the log of what was written to the target TD.
use mig_td.Base.{ℕ, ◌≡◌, refl, true, none, some, List, [], ◌∷◌, ◌++◌, length, replicate}
use mig_td.Migration.Status.{ok}
use mig_td.Migration.Info.{MigtdMigrationInformation}
use mig_td.Migration.Version.{ExchangeInformation, exchange_as_bytes}
use mig_td.Migration.KeyExchange.{Machine}
use mig_td.Migration.KeyExchange.Log.{WriteLog}

abbrev pub Log : Type 0
Log = List (ℕ × ℕ)

abbrev pub peer_exchange : ExchangeInformation
peer_exchange = record {
  key = record { fields = 11 ∷ 22 ∷ 33 ∷ 44 ∷ [] };
  min_ver = 1;
  max_ver = 1;
  reserved = 0 ∷ 0 ∷ 0 ∷ 0 ∷ [];
}

abbrev pub machine : Machine Log
machine = record {
  servtd_rd = λ h f u s. (some 0, s);
  servtd_wr = λ h f v u s. (some tt, s ++ ((f, v) ∷ []));
  sys_rd = λ f s. (some 1, s);
  verify_init_migtd_data_policy_binding = λ i s. (true, s);
  setup_transport = λ id s. (ok tt, s);
  pre_session_data_exchange = λ s. (ok [], s);
  ratls_setup = λ b d s. (ok tt, s);
  ratls_write = λ d s. (ok (length d), s);
  ratls_read = λ n s. (ok (exchange_as_bytes peer_exchange), s);
  shutdown_transport = λ id s. (ok tt, s);
}

pub some_tt : ¬ (some (tt {0}) ≡ none)
some_tt e = cc

abbrev pub machine_log : WriteLog machine
machine_log = record {
  writes = λ s. s;
  wr_some = λ h f v u s e. refl;
  wr_none = λ h f v u s e. absurd (some_tt e);
  rd_same = λ h f u s. refl;
  sys_same = λ f s. refl;
  init_same = λ i s. refl;
  setup_same = λ id s. refl;
  pre_session_same = λ s. refl;
  ratls_setup_same = λ b d s. refl;
  ratls_write_same = λ d s. refl;
  ratls_read_same = λ n s. refl;
  shutdown_same = λ id s. refl;
}

abbrev pub source_info : MigtdMigrationInformation
source_info = record {
  mig_request_id = 7;
  migration_source = 1;
  has_init_data = 0;
  reserved = replicate 6 0;
  target_td_uuid = 1 ∷ 2 ∷ 3 ∷ 4 ∷ [];
  binding_handle = 9;
  init_td_info = [];
}
