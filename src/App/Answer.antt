-- ===== src/App/Answer.antt =====
-- internal/api/response/response.go, and how a use case turns the outcome of a service into an answer.
use group_buy_market.Prelude.{String, Option, none, some}
use group_buy_market.Types.Codes.{ResponseCode, un_error}
use group_buy_market.Types.Outcome.{AppException, as_app_exception, Result, ok, err, panic}
use group_buy_market.Store.Rows.{World}

pub record Response (T : Type 0) : Type 0 where
  pub code : String
  pub info : String
  pub payload : T

module _ {T : Type 0} where
  abbrev pub succeed : T → Response T
  succeed body = record { code = "0000"; info = "成功"; payload = body }

  abbrev pub fail : T → ResponseCode → Response T
  fail zero rc = record { code = rc.code; info = rc.info; payload = zero }

  -- A business exception answers with its code, any other error with the code of unknown failures.
  abbrev pub fail_with : T → Option AppException → Response T
  fail_with zero (some ae) = record { code = ae.code; info = ae.info; payload = zero }
  fail_with zero none = fail zero un_error

module _ {D A T : Type 0} where
  abbrev pub answer : T → (A → Response T) → Result A × World D → Result (Response T) × World D
  answer zero f (ok a, w) = (ok (f a), w)
  answer zero f (err e, w) = (ok (fail_with zero (as_app_exception e)), w)
  answer zero f (panic, w) = (panic, w)
