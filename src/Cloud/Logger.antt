-- ===== src/Cloud/Logger.antt =====
-- scaleway/logger.go: which messages of the SDK reach klog. `enabled` is klog's V(level).Enabled.
use scaleway_cloud_controlle.Base.{ℕ, String, Bool, true, Option, none, some, if◌then◌else◌}

-- logger.LogLevel
pub data LogLevel : Type 0 where
  error warning info debug : LogLevel
  other_level : ℕ → LogLevel

-- The call of klog, with the text.
pub data Entry : Type 0 where
  info_depth warning_depth error_depth : String → Entry

module _ (enabled : ℕ → Bool) where
  unfoldable pub debugf : String → Option Entry
  debugf text = if enabled 4 then some (info_depth text) else none

  unfoldable pub infof : String → Option Entry
  infof text = if enabled 2 then some (info_depth text) else none

  unfoldable pub warningf : String → Option Entry
  warningf text = some (warning_depth text)

  unfoldable pub errorf : String → Option Entry
  errorf text = some (error_depth text)

  unfoldable pub should_log : LogLevel → Bool
  should_log error = true
  should_log warning = true
  should_log info = enabled 2
  should_log debug = enabled 5
  should_log (other_level n) = true
