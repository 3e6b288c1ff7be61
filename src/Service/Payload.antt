-- ===== src/Service/Payload.antt =====
-- What the builders of services share: the facts of a payload's type, and the answer of the lifecycle.
use Prim.Native.String.{String}
use entangle.Prelude.{ℕ, Result, ok, err}
use entangle.Errors.{ServiceError, IpcError, service}
use entangle.Service.Registry.{Files}

-- `type_name`, `size_of` and `align_of` of the type.
pub record Payload : Type 0 where
  pub type_name : String
  pub size : ℕ
  pub align : ℕ

-- `?` on the lifecycle's answer, and then the service.
abbrev pub serve : {A B : Type 0} → B → Result ServiceError A × Files → Result IpcError B × Files
serve s (ok done, files) = (ok s, files)
serve s (err e, files) = (err (service e), files)
