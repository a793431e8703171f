-- ===== src/Migration/Logging/Level.antt =====
-- Log levels as bytes: src/migtd/src/migration/logging.rs. The orders are those of the crate log.
use mig_td.Base.{ℕ, Option, none, some, Bool, leb, ◌==◌, if◌then◌else◌}

pub data Level : Type 0 where
  error : Level
  warn : Level
  info : Level
  debug : Level
  trace : Level

pub data LevelFilter : Type 0 where
  off : LevelFilter
  up_to : Level → LevelFilter

unfoldable pub u8_to_levelfilter : ℕ → LevelFilter
u8_to_levelfilter value =
    if value == 0
    then off
    else if value == 1
    then up_to error
    else if value == 2
    then up_to warn
    else if value == 3
    then up_to info
    else if value == 4
    then up_to debug
    else up_to trace

unfoldable pub u8_to_loglevel : ℕ → Option Level
u8_to_loglevel value =
    if value == 1
    then some error
    else if value == 2
    then some warn
    else if value == 3
    then some info
    else if value == 4
    then some debug
    else if value == 5
    then some trace
    else none

unfoldable pub loglevel_to_u8 : Level → ℕ
loglevel_to_u8 error = 1
loglevel_to_u8 warn = 2
loglevel_to_u8 info = 3
loglevel_to_u8 debug = 4
loglevel_to_u8 trace = 5

-- The number of a filter in its order.
unfoldable pub filter_rank : LevelFilter → ℕ
unfolding loglevel_to_u8
filter_rank off = 0
filter_rank (up_to l) = loglevel_to_u8 l

-- `level <= filter`
unfoldable pub level_le : Level → LevelFilter → Bool
unfolding loglevel_to_u8 filter_rank
level_le l f = leb (loglevel_to_u8 l) (filter_rank f)
