-- ===== src/Tests/Data.antt =====
-- Test data: a table of jobs, a quotation, and a BUSY server that knows one item.
use fembin.Base.{
  ℕ, suc, Text, codes, text_eq, Option, none, some, List, [], ◌∷◌, Bool, true, false, if◌then◌else◌,
}
use fembin.Base.Int.{ℤ, pos}
use fembin.Base.Dict.{lookup}
use fembin.Exec.{ok}
use fembin.Errors.{Exn}
use fembin.Json.{null}
use fembin.Outbox.Models.{OutboxJob, Outbox, OutboxStatus}
use fembin.Outbox.Worker.{Handler}
use fembin.Db.{Db, Product}
use fembin.Busy.Client.{BusyClient, HttpResponse}
use fembin.Busy.Element.{XmlEntry}
use fembin.Orders.Items.{QuotationItem, QuotationRequest}
use fembin.Orders.Queue.{Origin}

abbrev pub job : ℕ → Text → OutboxStatus → OutboxJob
job i key status = record {
  id = i;
  job_type = codes "add_voucher";
  payload = null;
  status = status;
  attempts = 0;
  idempotency_key = key;
  result = none;
  last_error = none;
}

abbrev pub two_jobs : Outbox
two_jobs = record {
  jobs = job 3 (codes "a") OutboxStatus.done ∷ job 5 (codes "b") OutboxStatus.queued ∷ [];
  next_id = 6;
}

abbrev pub no_name : Exn → Text
no_name e = []

abbrev pub counting : Handler Exn ℕ
counting payload n = (ok payload, suc n)

abbrev pub counting_handlers : List (Text × Handler Exn ℕ)
counting_handlers = (codes "add_voucher", counting) ∷ []

-- 2.5 x 10.00
abbrev pub item : QuotationItem
item = record {
  item_name = codes "Bolt & Nut";
  unit_name = codes "Pcs.";
  qty = record { neg = false; coeff = 25; exp = ℤ.negsuc 0 };
  price = record { neg = false; coeff = 1000; exp = ℤ.negsuc 1 };
  amount = record { neg = false; coeff = 2500; exp = ℤ.negsuc 1 };
  busy_code = some (pos 7);
}

abbrev pub request : QuotationRequest
request = record {
  vch_series_name = codes "Main";
  vch_no_prefix = codes "WH";
  date = codes "01-04-2026";
  sale_type_name = codes "Local";
  customer_name = codes "Walk-in";
  material_center_name = codes "Shop";
  items = item ∷ [];
}

abbrev pub origin : Origin
origin = record {
  created_by_user_id = 4;
  created_by_username = codes "ann";
  material_center_code = pos 201;
  sales_person_id = pos 12;
  sales_person_name = codes "Bob";
}

abbrev pub product : Product
product = record {
  busy_code = pos 7;
  name = codes "Bolt";
  price = record { neg = false; coeff = 900; exp = ℤ.negsuc 1 };
  unit = codes "Pcs.";
  item_group = codes "Hardware";
  tracks_stock = true;
  is_active = true;
  woo_product_id = none;
  woo_synced_price = none;
  woo_synced_name = none;
  woo_hidden = false;
  barcode = none;
}

abbrev pub db : Db
db = record {
  sync_state = [];
  material_centers = [];
  categories = [];
  products = product ∷ [];
  users = [];
  next_user_id = 1;
  salesmen = [];
  woo_sync_state = none;
}

abbrev reply : Text → HttpResponse
reply body = record {
  status_code = 200;
  header = λ name. if text_eq name (codes "Result") then some (codes "T") else none;
  text = body;
}

abbrev answers : Option Text → HttpResponse
answers none = reply []
answers (some sc) =
    if text_eq sc (codes "9")
    then reply (codes "<Item><Name>Bolt</Name><SalePrice>12.5</SalePrice></Item>")
    else if text_eq sc (codes "1")
    then reply (codes "<rs:data><z:row VchNo='WH-41'/><z:row VchNo='WH-9'/></rs:data>")
    else reply (codes "9001")

abbrev pub busy : BusyClient Unit
busy = record {
  username = codes "u";
  password = codes "p";
  http_get = λ headers w. (ok (answers (lookup (codes "SC") headers)), w);
}

-- a page with an active and a blocked item
abbrev pub masters : Option Text → HttpResponse
masters none = reply []
masters (some sc) =
    if text_eq sc (codes "9")
    then reply (
        codes
          "<Item><Name>Bolt</Name><SalePrice>12.5</SalePrice><ParentGroup>Hardware</ParentGroup></Item>")
    else reply (
        codes
          "<rs:data><z:row Code='7' Name='Bolt' Stamp='3' BlockedMaster='False' DeactiveMaster='False'/><z:row Code='8' Name='Old' Stamp='4' BlockedMaster='True' DeactiveMaster='False'/></rs:data>")

abbrev pub catalog : BusyClient Unit
catalog = record {
  username = codes "u";
  password = codes "p";
  http_get = λ headers w. (ok (masters (lookup (codes "SC") headers)), w);
}

abbrev pub repr : XmlEntry → Text
repr e = []

abbrev pub accepts : ℤ → Bool
accepts code = true
