-- ===== src/Tests/Busy.antt =====
-- The BUSY texts at concrete inputs.
use fembin.Base.{◌≡◌, ◌≢◌, refl, codes, List, [], ◌∷◌, All}
use fembin.Exec.{ok, err}
use fembin.Errors.{overflow_error}
use fembin.Busy.Element.{parse_element_xml, dict, field, one, many, text, end, more, none_left}
use fembin.Busy.Rowset.{Row, parse_rowset_xml}
use fembin.Busy.XmlText.{encode_xml_entities, decode_xml_entities, decode_refs, decode_named}
use fembin.Busy.XmlText.RoundTrip.{decode-encode, encode_has_no_tag}
use fembin.Busy.VchNumbering.{row_vch_no, next_vch_no}
use fembin.Busy.VchNumbering.Fresh.{next_vch_no_fresh}

parses_element :
    parse_element_xml
      (codes "<Item><Name>A &amp; B</Name>\n <X/><Row a='1' b=\"2\">1</Row><Row>2</Row></Item>")
    ≡ ok (
        dict (
          field
            (codes "Item")
            (one (
              dict (
                field (codes "Name") (one (text (codes "A & B"))) (
                  field (codes "X") (one (text [])) (
                    field
                      (codes "Row")
                      (many (more (text (codes "1")) (more (text (codes "2")) none_left)))
                      end)))))
            end))
unfolding parse_element_xml
parses_element = refl

parses_rowset :
    parse_rowset_xml (
      codes
        "<xml><rs:data>\n<z:row Code='1' Name=\"it's\"/><z:row  Code='2' Name='&lt;x&#39;'/></rs:data>")
    ≡ ok (
        ((codes "Code", codes "1") ∷ (codes "Name", codes "it's") ∷ [])
        ∷ ((codes "Code", codes "2") ∷ (codes "Name", codes "<x'") ∷ [])
        ∷ [])
unfolding parse_rowset_xml
parses_rowset = refl

too_large : decode_xml_entities (codes "&#4294967296;") ≡ err overflow_error
unfolding decode_xml_entities decode_refs decode_named
too_large = refl

decode-encode_example :
    decode_xml_entities (encode_xml_entities (codes "A & <B>")) ≡ ok (codes "A & <B>")
decode-encode_example = decode-encode (codes "A & <B>")

encode_has_no_tag_example :
    All (λ c. (c ≢ b'<') × (c ≢ b'>')) (encode_xml_entities (codes "</Name>"))
encode_has_no_tag_example = encode_has_no_tag (codes "</Name>")

abbrev rows : List Row
rows = ((codes "VchNo", codes "WH-9") ∷ []) ∷ ((codes "VchNo", codes " WH-41 ") ∷ []) ∷ []

next_vch_no_fresh_example : All (λ row. row_vch_no row ≢ next_vch_no (codes "WH") rows) rows
next_vch_no_fresh_example = next_vch_no_fresh (codes "WH") rows
