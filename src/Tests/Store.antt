-- ===== src/Tests/Store.antt =====
-- The WooCommerce push with one product, against a store that makes everything with the id 5.
use fembin.Base.{
  ℕ, ◌≡◌, refl, Text, codes, text_eq, some, [], ◌∷◌, true, map, length, if◌then◌else◌, suc,
}
use fembin.Base.Int.{pos}
use fembin.Exec.{ok}
use fembin.Json.{get_field, num, arr, obj, nil, end, field}
use fembin.Db.{State}
use fembin.Woo.Client.{
  WooClient, WooResponse, find_category_by_name, request, find_product_by_sku, create_product,
  create_category, checked, success, first_match, named_match, named,
}
use fembin.Woo.Push.{
  fresh_state, no_products, to_push, push_products_to_woocommerce, get_woo_sync_state,
  push_products, push_product, attempt, push_new, ensure_category, new_category_id,
  create_or_adopt_product, save_product, set_category_id, count,
}
use fembin.Woo.Push.Counts.{total, push_products_to_woocommerce-total}
use fembin.Woo.Push.SeedMode.{push_products_to_woocommerce_seeds}
use fembin.Woo.ByCode.{push_products_by_code, item_result, not_found, push_code}
use fembin.Woo.ByCode.Answers.{push_products_by_code_answers}
use fembin.Woo.Payload.{id_of}
use fembin.Table.Named.{get_named, upsert_named}
use fembin.Table.{get_row}
use fembin.Tests.Data.{db, no_name}

abbrev store_reply : Text → WooResponse
store_reply method = record {
  status_code = 200;
  text = codes "{}";
  json = some (
      if text_eq method (codes "GET") then arr nil else obj (field (codes "id") (num (pos 5)) end));
}

-- the outside counts the requests
abbrev pub store : WooClient ℕ
store = record { send = λ method path body n. (ok (store_reply method), suc n); repr = λ j. [] }

abbrev begun : State ℕ
begun = record { session = record { saved = db; now = db }; net = 0 }

push_products_to_woocommerce_seeds_example :
    let (r, t) = push_products_to_woocommerce store 100 (codes "private") begun in
    (r ≡ ok (record no_products { seeded = length (to_push db.products) }))
    × (t.net ≡ 0)
    × (t.session.now.products ≡ db.products)
push_products_to_woocommerce_seeds_example =
    push_products_to_woocommerce_seeds store 100 (codes "private") begun refl (refl, tt)

-- after the import was confirmed
abbrev live : State ℕ
live = record {
  session = record {
    saved = db;
    now = record db { woo_sync_state = some (record fresh_state { seeded = true }) };
  };
  net = 0;
}

one_created :
    (push_products_to_woocommerce store 100 (codes "private") live).0
    ≡ ok (record no_products { created = 1 })
unfolding push_products_to_woocommerce get_woo_sync_state push_products to_push push_product attempt
    push_new ensure_category get_named new_category_id find_category_by_name request codes text_eq
    create_or_adopt_product find_product_by_sku create_product create_category checked success
    first_match named_match named id_of save_product set_category_id upsert_named count get_field
one_created = refl

push_products_to_woocommerce-total_example :
    total (record no_products { created = 1 }) ≡ length (to_push live.session.now.products)
push_products_to_woocommerce-total_example =
    push_products_to_woocommerce-total store 100 (codes "private") live
      (record no_products { created = 1 }) one_created

missing_answered :
    (push_products_by_code store no_name (codes "private") (pos 9 ∷ []) live).0
    ≡ ok (item_result (pos 9) [] not_found ∷ [])
unfolding push_products_by_code push_code get_row
missing_answered = refl

push_products_by_code_answers_example :
    map (λ r. r.busy_code) (item_result (pos 9) [] not_found ∷ []) ≡ pos 9 ∷ []
push_products_by_code_answers_example =
    push_products_by_code_answers store no_name (codes "private") (pos 9 ∷ []) live
      (item_result (pos 9) [] not_found ∷ []) missing_answered
