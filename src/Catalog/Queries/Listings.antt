-- ===== src/Catalog/Queries/Listings.antt =====
-- What the listings of app/domain/catalog/queries.py show, and in which order.
use fembin.Base.{
  ◌≡◌, refl, ap, ◌∙◌, Text, Option, none, some, List, [], ◌∷◌, Bool, true, false, not, ◌&&◌, arith,
}
use mathlib.Core.List.{Perm}
use mathlib.Core.Path.{subst}
use fembin.Db.{Product, Session}
use fembin.Table.Order.{
  Collation, select_where, select_where-twice, select_where_all, order_by, IsOrdered,
  order_by-IsOrdered, order_by-perm,
}
use fembin.Catalog.Queries.{where_text, where_active, found_by, list_products}

-- one optional condition on a row
abbrev pub holds : Option Text → (Text → Product → Bool) → Product → Bool
holds none test p = true
holds (some []) test p = true
holds (some (c ∷ t)) test p = test (c ∷ t) p

abbrev pub has_state : Option Bool → Product → Bool
has_state none p = true
has_state (some true) p = p.is_active
has_state (some false) p = not p.is_active

abbrev pub in_category : Collation → Text → Product → Bool
in_category collation t p = collation.equal p.item_group t

-- what a listing asks of a product, as one test
abbrev pub is_asked_for : Collation → Option Text → Option Text → Option Bool → Product → Bool
is_asked_for collation search category active p =
    (holds search (found_by collation) p && holds category (in_category collation) p)
    && has_state active p

where_text_lem :
    (t : Option Text) (test : Text → Product → Bool) (rows : List Product)
    → where_text t test rows ≡ select_where (holds t test) rows
unfolding where_text
where_text_lem none test rows = ground (arith, select_where_all (holds none test) rows (λ p. refl))
where_text_lem (some []) test rows =
    ground (arith, select_where_all (holds (some []) test) rows (λ p. refl))
where_text_lem (some (c ∷ t)) test rows = refl

where_active_lem :
    (active : Option Bool) (rows : List Product)
    → where_active active rows ≡ select_where (has_state active) rows
unfolding where_active
where_active_lem none rows = ground (arith, select_where_all (has_state none) rows (λ p. refl))
where_active_lem (some true) rows = refl
where_active_lem (some false) rows = refl

filters_lem :
    (collation : Collation) (search category : Option Text) (active : Option Bool)
    (rows : List Product)
    → where_active active
        (where_text category (in_category collation) (where_text search (found_by collation) rows))
      ≡ select_where (is_asked_for collation search category active) rows
filters_lem collation search category active rows =
    let found = holds search (found_by collation) in
    let kept = holds category (in_category collation) in
    where_active_lem active _
    ∙ ap (select_where (has_state active)) (
        where_text_lem category (in_category collation) _
        ∙ ap (select_where kept) (where_text_lem search (found_by collation) rows)
        ∙ select_where-twice found kept rows)
    ∙ select_where-twice (λ p. found p && kept p) (has_state active) rows

-- The listing of the products is in the order of their names, and it holds each row that meets all
-- the conditions as often as the table does, and no other row; a blank search or category is no
-- condition.
pub list_products_exact :
    (collation : Collation) (search category : Option Text) (active : Option Bool) (s : Session)
    → let rows = list_products collation search category active s in
      IsOrdered collation (λ p. p.name) rows
      × Perm rows (select_where (is_asked_for collation search category active) s.now.products)
unfolding list_products
list_products_exact collation search category active s =
    let rows = where_active active (
      where_text category (in_category collation)
        (where_text search (found_by collation) s.now.products)) in
    (
      order_by-IsOrdered collation (λ p. p.name) rows,
      subst (λ r. Perm (order_by collation (λ p. p.name) rows) r)
          (filters_lem collation search category active s.now.products)
          (order_by-perm collation (λ p. p.name) rows),
    )
