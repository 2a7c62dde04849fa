-- ===== src/Errors.antt =====
-- The exceptions of the program, with what their handlers and their messages read.
use fembin.Base.{ℕ, Text, Option, none, some}
use fembin.Base.Int.{ℤ}
use fembin.Exec.{Result, ok, err}

-- app/busy/client.py: what one call of BUSY came back with
pub record BusyResponse : Type 0 where
  pub status_code : ℕ
  pub result : Option Text
  pub description : Option Text
  pub body : Text

-- Why an item of a quotation could not be verified (the messages of `ItemMismatchError`).
pub data Mismatch : Type 0 where
  no_code : Text → Mismatch
  unreadable : ℤ → Text → BusyResponse → Mismatch
  bad_shape : ℤ → Mismatch
  name_differs : ℤ → Text → Text → Mismatch

pub data Exn : Type 0 where
  busy_error : Text → BusyResponse → Exn
  http_error value_error key_error type_error invalid_operation integrity_error zero_division : Exn
  overflow_error : Exn
  item_mismatch : Mismatch → Exn
  vch_series_unresolved : Exn
  duplicate_username unknown_material_center invalid_credentials invalid_token : Exn
  product_not_found duplicate_barcode : Exn
  woo_error : ℕ → Text → Exn

-- `none` of a parser is its exception
abbrev pub or_error : {A : Type 0} → Exn → Option A → Result Exn A
or_error e none = err e
or_error e (some a) = ok a
