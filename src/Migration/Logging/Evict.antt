-- ===== src/Migration/Logging/Evict.antt =====
-- The eviction loop of `entrylog`: src/migtd/src/migration/logging.rs.
use mig_td.Base.{ℕ, zero, suc, arith, replicate, IsBytes}

pub replicate-IsBytes : (n : ℕ) → IsBytes (replicate n 0)
replicate-IsBytes zero = tt
replicate-IsBytes (suc n) = (omega arith, replicate-IsBytes n)
