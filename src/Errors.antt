-- ===== src/Errors.antt =====
-- The error types of crates/entangle/src/error.rs. Free texts of reasons are left out.
use Prim.Native.String.{String}
use entangle.Prelude.{ℕ}
use entangle.Platform.Errors.{PlatformError}
use entangle.Transport.Contracts.{LoanError, SendError, ReceiveError}

pub data ServiceError : Type 0 where
  already_exists not_found : (name : String) → ServiceError
  incompatible_qos corrupted : ServiceError
  version_mismatch : (expected found : ℕ) → ServiceError
  platform : PlatformError → ServiceError

pub data PortError : Type 0 where
  loan : LoanError → PortError
  send : SendError → PortError
  receive : ReceiveError → PortError
  connection_lost : (peer_id : ℕ) → PortError

pub data IpcError : Type 0 where
  service : ServiceError → IpcError
  port : PortError → IpcError
  platform : PlatformError → IpcError
