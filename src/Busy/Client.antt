-- ===== src/Busy/Client.antt =====
-- app/busy/client.py: `BusyClient`. The HTTP library is a parameter: a GET with headers, on the
-- state of the outside world, which returns a response or raises.
use fembin.Base.{ℕ, Text, codes, text_eq, Option, none, some, List, [], ◌∷◌, if◌then◌else◌}
use fembin.Base.Int.{ℤ}
use fembin.Exec.{Exec, ok, err, pure, ◌>>=◌}
use fembin.Errors.{Exn, busy_error, BusyResponse}
use fembin.Strings.{print_ℕ, print_ℤ}
use fembin.Busy.Constants.{
  service_code, get_xml_from_recordset, add_voucher as sc_add_voucher,
  get_voucher_xml as sc_get_voucher_xml, get_master_xml as sc_get_master_xml,
}

abbrev pub Headers : Type 0
Headers = List (Text × Text)

-- httpx's response, its headers read by `get`
pub record HttpResponse : Type 0 where
  pub status_code : ℕ
  pub header : Text → Option Text
  pub text : Text

pub record BusyClient (W : Type 0) : Type 0 where
  pub username : Text
  pub password : Text
  pub http_get : Headers → Exec Exn W HttpResponse

-- `if response.result != "T": raise BusyError(operation, response)`
unfoldable pub answer : {W : Type 0} → Text → BusyResponse → Exec Exn W Text
answer operation response w = (
  elim response.result [
    | none ↦ err (busy_error operation response)
    | some r ↦
        if text_eq r (codes "T") then ok response.body else err (busy_error operation response)
  ],
  w,
)

module _ {W : Type 0} (client : BusyClient W) where
  unfoldable pub call : Headers → Exec Exn W BusyResponse
  call extra_headers = do
    response ←
        client.http_get
          ((codes "UserName", client.username) ∷ (codes "Pwd", client.password) ∷ extra_headers)
    pure (record {
      status_code = response.status_code;
      result = response.header (codes "Result");
      description = response.header (codes "Description");
      body = response.text;
    })

  unfoldable pub run_query : Text → Exec Exn W Text
  run_query sql = do
    response ←
        call ((codes "SC", print_ℕ (service_code get_xml_from_recordset)) ∷ (codes "Qry", sql) ∷ [])
    answer (codes "Query") response

  unfoldable pub get_master_xml : ℤ → Exec Exn W Text
  get_master_xml master_code = do
    response ← call (
        (codes "SC", print_ℕ (service_code sc_get_master_xml))
        ∷ (codes "MasterCode", print_ℤ master_code)
        ∷ [])
    answer (codes "GetMasterXML") response

  unfoldable pub get_voucher_xml : ℤ → Exec Exn W Text
  get_voucher_xml vch_code = do
    response ← call (
        (codes "SC", print_ℕ (service_code sc_get_voucher_xml))
        ∷ (codes "VchCode", print_ℤ vch_code)
        ∷ [])
    answer (codes "GetVchXML") response

  unfoldable pub add_voucher : ℕ → Text → Exec Exn W Text
  add_voucher vch_type vch_xml = do
    response ← call (
        (codes "SC", print_ℕ (service_code sc_add_voucher))
        ∷ (codes "VchType", print_ℕ vch_type)
        ∷ (codes "VchXml", vch_xml)
        ∷ [])
    answer (codes "AddVoucher") response
