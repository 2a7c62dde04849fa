-- ===== src/Woo/Client.antt =====
-- app/integrations/woocommerce.py: `WooCommerceClient`. The HTTP request is a parameter; `repr` is
-- Python's text for a JSON value that is not a text.
use fembin.Base.{ℕ, Text, codes, text_eq, Option, none, some, [], ◌∷◌, ◌++◌, true, false, leb}
use fembin.Base.Int.{ℤ}
use fembin.Exec.{Exec, Result, ok, err, lift, ◌>>=◌}
use fembin.Errors.{Exn, value_error, type_error, woo_error, or_error}
use fembin.Strings.{lower, print_ℤ}
use fembin.Json.{Json, str, arr, obj, Items, nil, cons, Fields, end, field, get_field}
use fembin.Woo.Quote.{quote}

-- httpx's response; `json` is `none` where `response.json()` is a ValueError
pub record WooResponse : Type 0 where
  pub status_code : ℕ
  pub text : Text
  pub json : Option Json

pub record WooClient (W : Type 0) : Type 0 where
  pub send : Text → Text → Option Json → Exec Exn W WooResponse
  pub repr : Json → Text

unfoldable pub json_str : (Json → Text) → Json → Text
json_str repr (str t) = t
json_str repr j = repr j

-- str(response.json().get("message", response.text)); a body that is no object has no `get`
unfoldable pub error_text : (Json → Text) → WooResponse → Option Text
unfolding json_str
error_text repr response = elim response.json [
  | none ↦ some response.text
  | some (obj d) ↦ elim (get_field (codes "message") d) [
    | none ↦ some response.text
    | some message ↦ some (json_str repr message)
  ]
  | some _ ↦ none
]

unfoldable pub failure : (Json → Text) → WooResponse → Exn
unfolding error_text
failure repr response = elim (error_text repr response) [
  | none ↦ type_error
  | some message ↦ woo_error response.status_code message
]

unfoldable pub success : WooResponse → Result Exn Json
success response = elim response.text [
  | [] ↦ ok (obj end)
  | c ∷ t ↦ or_error value_error response.json
]

-- `_request`
unfoldable pub checked : (Json → Text) → WooResponse → Result Exn Json
unfolding failure success
checked repr response = elim (leb 400 response.status_code) [
  | true ↦ err (failure repr response)
  | false ↦ success response
]

-- matches[0] if matches else None
unfoldable pub first_match : Json → Result Exn (Option Json)
first_match (arr nil) = ok none
first_match (arr (cons j js)) = ok (some j)
first_match j = err (woo_error 200 (codes "unexpected response shape"))

unfoldable pub name_of : (Json → Text) → Fields → Text
unfolding json_str
name_of repr d = elim (get_field (codes "name") d) [ none ↦ [] | some j ↦ json_str repr j ]

-- the first object whose name is the one asked for, but for its case
unfoldable pub named : (Json → Text) → Text → Items → Option Fields
unfolding name_of lower
named repr name nil = none
named repr name (cons (obj d) js) = elim (text_eq (lower (name_of repr d)) (lower name)) [
  | true ↦ some d
  | false ↦ named repr name js
]
named repr name (cons j js) = named repr name js

unfoldable pub named_match : (Json → Text) → Text → Json → Result Exn (Option Fields)
unfolding named
named_match repr name (arr js) = ok (named repr name js)
named_match repr name j = err (woo_error 200 (codes "unexpected response shape (expected a list)"))

module _ {W : Type 0} (woo : WooClient W) where
  unfoldable pub request : Text → Text → Option Json → Exec Exn W Json
  request method path body = do
    response ← woo.send method path body
    lift (checked woo.repr response)

  unfoldable pub create_product : Json → Exec Exn W Json
  create_product data' = request (codes "POST") (codes "/products") (some data')

  unfoldable pub find_product_by_sku : Text → Exec Exn W (Option Json)
  find_product_by_sku sku = do
    matches ← request (codes "GET") (codes "/products?sku=" ++ quote sku) none
    lift (first_match matches)

  unfoldable pub update_product : ℤ → Json → Exec Exn W Json
  update_product product_id data' =
      request (codes "PUT") (codes "/products/" ++ print_ℤ product_id) (some data')

  unfoldable pub find_category_by_name : Text → Exec Exn W (Option Fields)
  find_category_by_name name = do
    matches ←
        request (codes "GET")
          (codes "/products/categories?search=" ++ (quote name ++ codes "&per_page=100")) none
    lift (named_match woo.repr name matches)

  unfoldable pub create_category : Text → Exec Exn W Json
  create_category name =
      request (codes "POST") (codes "/products/categories")
        (some (obj (field (codes "name") (str name) end)))
