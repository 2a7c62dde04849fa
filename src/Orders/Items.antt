-- ===== src/Orders/Items.antt =====
-- app/domain/orders/quotations.py: the request of a sale quotation, and its XML for BUSY.
use fembin.Base.{ℕ, ◌+◌, Text, codes, Option, List, [], ◌∷◌, ◌++◌}
use fembin.Base.Int.{ℤ}
use fembin.Decimal.{Decimal, print_decimal}
use fembin.Strings.{print_ℕ}
use fembin.Busy.Constants.{vch_type, sale_quotation}
use fembin.Busy.XmlText.{encode_xml_entities}

pub record QuotationItem : Type 0 where
  pub item_name : Text
  pub unit_name : Text
  pub qty : Decimal
  pub price : Decimal
  pub amount : Decimal
  pub busy_code : Option ℤ

pub record QuotationRequest : Type 0 where
  pub vch_series_name : Text
  pub vch_no_prefix : Text
  pub date : Text
  pub sale_type_name : Text
  pub customer_name : Text
  pub material_center_name : Text
  pub items : List QuotationItem

-- f"<{tag}>{inner}</{tag}>"
abbrev pub element : Text → Text → Text
element tag inner =
    codes "<" ++ (tag ++ (codes ">" ++ (inner ++ (codes "</" ++ (tag ++ codes ">")))))

item_xml : Text → ℕ → QuotationItem → Text
item_xml material_center_name i item = element (codes "ItemDetail") (
    element (codes "SrNo") (print_ℕ i)
    ++ (element (codes "ItemName") (encode_xml_entities item.item_name)
        ++ (element (codes "UnitName") (encode_xml_entities item.unit_name)
            ++ (element (codes "Qty") (print_decimal item.qty)
                ++ (element (codes "Price") (print_decimal item.price)
                    ++ (element (codes "Amt") (print_decimal item.amount)
                        ++ element (codes "MC") (encode_xml_entities material_center_name)))))))

-- the tags of the items, numbered from `i`
item_tags : Text → ℕ → List QuotationItem → Text
unfolding item_xml
item_tags material_center_name i [] = []
item_tags material_center_name i (item ∷ items) =
    item_xml material_center_name i item ++ item_tags material_center_name (i + 1) items

unfoldable pub build_quotation_xml : QuotationRequest → Text → Text
unfolding item_tags
build_quotation_xml request vch_no = element (codes "SaleQuotation") (
    element (codes "VchSeriesName") (encode_xml_entities request.vch_series_name)
    ++ (element (codes "Date") request.date
        ++ (element (codes "VchType") (print_ℕ (vch_type sale_quotation))
            ++ (element (codes "VchNo") (encode_xml_entities vch_no)
                ++ (element (codes "STPTName") (encode_xml_entities request.sale_type_name)
                    ++ (element (codes "MasterName1") (encode_xml_entities request.customer_name)
                        ++ (element (codes "MasterName2")
                              (encode_xml_entities request.material_center_name)
                            ++ element (codes "ItemEntries")
                                (item_tags request.material_center_name 1 request.items))))))))
