-- ===== src/Migration/PreSession/Exchange/Honest.antt =====
-- Two peers that run `pre_session_data_exchange` of
-- src/migtd/src/migration/pre_session_data.rs agree, as long as the channel does not fail.
use mig_td.Migration.Transport.{Transport}
