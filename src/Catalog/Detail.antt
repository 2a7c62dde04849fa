-- ===== src/Catalog/Detail.antt =====
-- app/domain/catalog/sync.py: `_map_item_fields`, the fields of an item's XML. `repr` is Python's
-- text for a dict or a list, which `str` gives where a tag holds other tags or stands twice.
use fembin.Base.{Text, codes, text_eq, Option, none, some, [], Bool, true, not}
use fembin.Exec.{Result, ok, err}
use fembin.Errors.{Exn, value_error, invalid_operation}
use fembin.Decimal.{Decimal, parse_decimal}
use fembin.Busy.Element.{XmlValue, text, dict, XmlFields, XmlEntry, one, many, get_entry}

pub record ItemDetail : Type 0 where
  pub name : Text
  pub price : Decimal
  pub unit : Text
  pub item_group : Text
  pub tracks_stock : Bool

abbrev pub uncategorised : Text
uncategorised = codes "Uncategorised"

-- `parsed["Item"]` where the dict has that key, else the dict; it must be a dict again
unfoldable pub item_node : XmlValue → Option XmlFields
item_node (text t) = none
item_node (dict d) = elim (get_entry (codes "Item") d) [
  | none ↦ some d
  | some (one (dict d')) ↦ some d'
  | some _ ↦ none
]

module _ (repr : XmlEntry → Text) where
  -- str(entry)
  unfoldable pub entry_str : XmlEntry → Text
  entry_str (one (text t)) = t
  entry_str (one (dict d)) = repr (one (dict d))
  entry_str (many vs) = repr (many vs)

  -- str(node.get(key, ""))
  unfoldable pub entry_or : Option XmlEntry → Text
  unfolding entry_str
  entry_or none = []
  entry_or (some e) = entry_str e

  -- str(node.get(key) or default)
  unfoldable pub entry_or_default : Text → Option XmlEntry → Text
  unfolding entry_str
  entry_or_default default none = default
  entry_or_default default (some (one (text []))) = default
  entry_or_default default (some e) = entry_str e

  -- Decimal(str(node.get("SalePrice") or 0))
  unfoldable pub item_price : XmlFields → Option Decimal
  unfolding entry_or_default
  item_price d = parse_decimal (entry_or_default (codes "0") (get_entry (codes "SalePrice") d))

  -- item.get("DoNotMaintainStkBal") != "True"
  unfoldable pub keeps_stock : Option XmlEntry → Bool
  keeps_stock (some (one (text t))) = not (text_eq t (codes "True"))
  keeps_stock _ = true

  unfoldable pub map_item_fields : XmlValue → Result Exn ItemDetail
  unfolding item_node entry_or entry_or_default item_price keeps_stock
  map_item_fields parsed = elim (item_node parsed) [
    | none ↦ err value_error
    | some item ↦ elim (item_price item) [
      | none ↦ err invalid_operation
      | some price ↦ ok (record {
        name = entry_or (get_entry (codes "Name") item);
        price = price;
        unit = entry_or_default [] (get_entry (codes "MainUnit") item);
        item_group = entry_or_default uncategorised (get_entry (codes "ParentGroup") item);
        tracks_stock = keeps_stock (get_entry (codes "DoNotMaintainStkBal") item);
      })
    ]
  ]
