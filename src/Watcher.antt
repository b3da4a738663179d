-- ===== src/Watcher.antt =====
-- The shared types of the watcher: src/internal/watcher/contracts.go.
pub mod Paths
pub mod Changes
pub mod Snapshots
pub mod Controller
pub mod Lock
pub mod Ownership
pub mod Worker
mod Tests
mod LockTests
mod StateTests
use gocodemunch_mcp.Base.{ℕ, Text, Bool, codes, Option}

-- A string type with three named values; `other` is any other string.
pub data ChangeType : Type 0 where
  added modified deleted : ChangeType
  other : Text → ChangeType

-- The string behind the type.
unfoldable pub change_text : ChangeType → Text
change_text added = codes "added"
change_text modified = codes "modified"
change_text deleted = codes "deleted"
change_text (other t) = t

pub record WatcherChange : Type 0 where
  pub change_type : ChangeType
  pub path : Text
  pub old_hash : Text

pub record Status : Type 0 where
  pub repo : Text
  pub fresh : Bool
  pub index_stale : Bool
  pub reindex_in_progress : Bool
  pub stale_since_ms : Option ℕ
  pub last_error : Text
  pub reindex_failures : ℕ

pub record RuntimeBackpressure : Type 0 where
  pub pending_events : ℕ
  pub pending_batch : Bool
  pub in_flight : Bool
  pub last_error : Text
