-- ===== src/Busy/Constants.antt =====
-- app/busy/constants.py: the enumerations and their values.
use fembin.Base.{ℕ}

pub data ServiceCode : Type 0 where
  get_xml_from_recordset add_voucher modify_voucher_by_no modify_voucher_by_code : ServiceCode
  add_master modify_master_by_code modify_master_by_name : ServiceCode
  get_voucher_xml get_master_xml : ServiceCode

abbrev pub service_code : ServiceCode → ℕ
service_code get_xml_from_recordset = 1
service_code add_voucher = 2
service_code modify_voucher_by_no = 3
service_code modify_voucher_by_code = 4
service_code add_master = 5
service_code modify_master_by_code = 6
service_code modify_master_by_name = 7
service_code get_voucher_xml = 8
service_code get_master_xml = 9

-- the master types that the program names
pub data MasterType : Type 0 where
  item material_center broker voucher_series : MasterType

abbrev pub master_type : MasterType → ℕ
master_type item = 6
master_type material_center = 11
master_type broker = 19
master_type voucher_series = 21

pub data VchType : Type 0 where
  purchase sale_return material_receipt stock_transfer production unassemble : VchType
  stock_journal sale purchase_return material_issue sale_order purchase_order : VchType
  receipt contra journal debit_note credit_note payment forms_received forms_issued : VchType
  sale_quotation purchase_quotation salary_calculation call_receipt : VchType
  call_allocation purchase_indent call_report physical_stock : VchType

abbrev pub vch_type : VchType → ℕ
vch_type purchase = 2
vch_type sale_return = 3
vch_type material_receipt = 4
vch_type stock_transfer = 5
vch_type production = 6
vch_type unassemble = 7
vch_type stock_journal = 8
vch_type sale = 9
vch_type purchase_return = 10
vch_type material_issue = 11
vch_type sale_order = 12
vch_type purchase_order = 13
vch_type receipt = 14
vch_type contra = 15
vch_type journal = 16
vch_type debit_note = 17
vch_type credit_note = 18
vch_type payment = 19
vch_type forms_received = 21
vch_type forms_issued = 22
vch_type sale_quotation = 26
vch_type purchase_quotation = 27
vch_type salary_calculation = 28
vch_type call_receipt = 29
vch_type call_allocation = 30
vch_type purchase_indent = 31
vch_type call_report = 32
vch_type physical_stock = 61
