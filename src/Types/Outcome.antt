-- ===== src/Types/Outcome.antt =====
-- internal/types/exception/app_exception.go, and how a Go call ends: with a value, with an error,
-- or with a panic (a nil pointer that is read). A message made by `fmt.Errorf` is kept as the
-- constructor that names it, with the values that it prints.
use group_buy_market.Prelude.{ℕ, String, Option, none, some}
use group_buy_market.Types.Codes.{ResponseCode}

pub record AppException : Type 0 where
  pub code : String
  pub info : String

pub data GoError : Type 0 where
  app : AppException → GoError
  database : String → GoError
  record_not_found : GoError
  illegal_transition : ℕ → ℕ → GoError
  unsupported_refund : ℕ → ℕ → GoError
  unknown_refund_type : String → GoError

abbrev pub new_app_exception : ResponseCode → GoError
new_app_exception rc = app (record { code = rc.code; info = rc.info })

unfoldable pub as_app_exception : GoError → Option AppException
as_app_exception (app e) = some e
as_app_exception _ = none

pub data Result {ℓ} (A : Type ℓ) : Type ℓ where
  ok : A → Result A
  err : GoError → Result A
  panic : Result A
