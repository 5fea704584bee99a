-- ===== src/Core/Classes.antt =====
-- crates/fineco-core/src/lib.rs: the coarse classes of errors.
use fineco_helper.Base.{String}

pub data ErrorClass : Type 0 where
  upstream auth validation rate_limit conflict not_found internal : ErrorClass

-- `ErrorClass::as_str`
unfoldable pub as_str : ErrorClass → String
as_str ErrorClass.upstream = "upstream"
as_str ErrorClass.auth = "auth"
as_str ErrorClass.validation = "validation"
as_str ErrorClass.rate_limit = "rate_limit"
as_str ErrorClass.conflict = "conflict"
as_str ErrorClass.not_found = "not_found"
as_str ErrorClass.internal = "internal"
