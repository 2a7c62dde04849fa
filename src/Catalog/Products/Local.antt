-- ===== src/Catalog/Products/Local.antt =====
-- What the sync of the products leaves alone: no product is deleted, and the columns that are not
-- BUSY's (the store's and the barcode) stay as they were.
use fembin.Base.{
  ◌+◌, ◌≡◌, refl, ◌∙◌, Text, codes, Option, none, some, List, [], ◌∷◌, ◌++◌, true, false, arith,
  Bool-cases, inl, inr,
}
use fembin.Base.Int.{ℤ, eqb_ℤ, eqb_ℤ_iff, max_ℤ}
use fembin.Exec.{lift, >>=-rel}
use fembin.Table.{get_row, upsert_row, get_row-upsert_row}
use fembin.Db.{Db, Product}
use fembin.Busy.Rowset.{Row}
use fembin.Busy.BitColumns.{is_master_active}
use fembin.Busy.Pagination.{int_at, text_at}
use fembin.Catalog.Detail.{ItemDetail}
use fembin.Catalog.Stamps.{upsert_category}
use fembin.Catalog.Products.{
  new_product, blocked, as_blocked, with_detail, put_blocked, put_active, Scan, scan_rows, Tally,
  store_details,
}

pub record SameLocal (p q : Product) : Type 0 where
  pub woo_product_id : q.woo_product_id ≡ p.woo_product_id
  pub woo_synced_price : q.woo_synced_price ≡ p.woo_synced_price
  pub woo_synced_name : q.woo_synced_name ≡ p.woo_synced_name
  pub woo_hidden : q.woo_hidden ≡ p.woo_hidden
  pub barcode : q.barcode ≡ p.barcode

-- every product is still there, its local columns unchanged
abbrev pub Kept : List Product → List Product → Type 0
Kept before after =
    (k : ℤ) (p : Product)
    → get_row (λ x. x.busy_code) k before ≡ some p
    → (q : Product) × (get_row (λ x. x.busy_code) k after ≡ some q) × SameLocal p q

SameLocal-refl : (p : Product) → SameLocal p p
SameLocal-refl p = record {
  woo_product_id = refl;
  woo_synced_price = refl;
  woo_synced_name = refl;
  woo_hidden = refl;
  barcode = refl;
}

SameLocal-trans : (p q r : Product) → SameLocal p q → SameLocal q r → SameLocal p r
SameLocal-trans p q r f g = record {
  woo_product_id = g.woo_product_id ∙ f.woo_product_id;
  woo_synced_price = g.woo_synced_price ∙ f.woo_synced_price;
  woo_synced_name = g.woo_synced_name ∙ f.woo_synced_name;
  woo_hidden = g.woo_hidden ∙ f.woo_hidden;
  barcode = g.barcode ∙ f.barcode;
}

pub Kept-refl : (ps : List Product) → Kept ps ps
Kept-refl ps k p e = (p, e, SameLocal-refl p)

pub Kept-trans : (a b c : List Product) → Kept a b → Kept b c → Kept a c
Kept-trans a b c f g k p e =
    let (q, there, same) = f k p e in
    let (r, there', same') = g k q there in (r, there', SameLocal-trans p q r same same')

-- an upsert that changes no local column and not the code
Kept-upsert_row :
    (code : ℤ) (new : Product) (change : Product → Product) (ps : List Product)
    → new.busy_code ≡ code
    → ((p : Product) → (change p).busy_code ≡ p.busy_code)
    → ((p : Product) → SameLocal p (change p))
    → Kept ps (upsert_row (λ x. x.busy_code) code new change ps)
Kept-upsert_row code new change ps e keep same k p there =
    let found = get_row-upsert_row (λ x. x.busy_code) code k new change ps e keep in
    elim (Bool-cases (eqb_ℤ code k)) [
      | inl hit ↦
          let here : code ≡ k = ground (arith, eqb_ℤ_iff code k) in
          (change p, ground (arith, found, here), same p)
      | inr miss ↦ (p, ground (arith, found), SameLocal-refl p)
    ]

-- on the whole database
abbrev pub KeptDb : Db → Db → Type 0
KeptDb d e = Kept d.products e.products

pub KeptDb-trans : (a b c : Db) → KeptDb a b → KeptDb b c → KeptDb a c
KeptDb-trans a b c = Kept-trans a.products b.products c.products

KeptDb-put_blocked : (code : ℤ) (name : Text) (db : Db) → KeptDb db (put_blocked code name db)
unfolding put_blocked
KeptDb-put_blocked code name db =
    Kept-upsert_row code (new_product code (blocked name) false) (as_blocked name) db.products refl
      (λ p. refl)
      (λ p. record {
        woo_product_id = refl;
        woo_synced_price = refl;
        woo_synced_name = refl;
        woo_hidden = refl;
        barcode = refl;
      })

KeptDb-put_active :
    (code : ℤ) (detail : ItemDetail) (db : Db) → KeptDb db (put_active code detail db)
unfolding put_active
KeptDb-put_active code detail db =
    Kept-upsert_row code (new_product code detail true) (with_detail detail) db.products refl
      (λ p. refl)
      (λ p. record {
        woo_product_id = refl;
        woo_synced_price = refl;
        woo_synced_name = refl;
        woo_hidden = refl;
        barcode = refl;
      })

pub KeptDb-upsert_category : (group : Text) (db : Db) → KeptDb db (upsert_category group db)
unfolding upsert_category
KeptDb-upsert_category group db = Kept-refl db.products

pub scan_rows-KeptDb :
    (rows : List Row) (scan : Scan) (db : Db) → KeptDb db (scan_rows scan rows db).1
unfolding scan_rows
scan_rows-KeptDb [] scan db = Kept-refl db.products
scan_rows-KeptDb (row ∷ rows) scan db =
    >>=-rel KeptDb KeptDb-trans (lift (int_at (codes "Code") row)) _ (λ s. Kept-refl s.products)
      (λ code t.
        >>=-rel KeptDb KeptDb-trans (lift (int_at (codes "Stamp") row)) _
          (λ s. Kept-refl s.products)
          (λ stamp u. elim (Bool-cases (is_master_active row)) [
            | inl e ↦ rw e (
                scan_rows-KeptDb rows
                  (record scan {
                    max_stamp = max_ℤ scan.max_stamp stamp;
                    active = scan.active ++ code ∷ [];
                  })
                  u)
            | inr e ↦ rw e (
                >>=-rel KeptDb KeptDb-trans (lift (text_at (codes "Name") row)) _
                  (λ s. Kept-refl s.products)
                  (λ name v.
                    let scan' : Scan = record scan {
                      max_stamp = max_ℤ scan.max_stamp stamp;
                      stored = scan.stored + 1;
                    } in
                    KeptDb-trans v (put_blocked code name v)
                      (scan_rows scan' rows (put_blocked code name v)).1
                      (KeptDb-put_blocked code name v)
                      (scan_rows-KeptDb rows scan' (put_blocked code name v)))
                  u)
          ])
          t)
      db

pub store_details-KeptDb :
    (fetched : List (ℤ × Option ItemDetail)) (tally : Tally) (db : Db)
    → KeptDb db (store_details tally fetched db).1
unfolding store_details
store_details-KeptDb [] tally db = Kept-refl db.products
store_details-KeptDb ((code, none) ∷ fetched) tally db =
    store_details-KeptDb fetched (record tally { failed = tally.failed + 1 }) db
store_details-KeptDb ((code, some detail) ∷ fetched) tally db =
    let one = upsert_category detail.item_group db in
    let two = put_active code detail one in
    let tally' : Tally = record tally { stored = tally.stored + 1 } in
    let end = (store_details tally' fetched two).1 in
    KeptDb-trans db one end (KeptDb-upsert_category detail.item_group db) (
      KeptDb-trans one two end (KeptDb-put_active code detail one)
        (store_details-KeptDb fetched tally' two))
