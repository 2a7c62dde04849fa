-- ===== src/Woo/ByCode/Answers.antt =====
-- What a push of picked products answers: one result for each code, in order.
use fembin.Base.{◌≡◌, Text, List, [], ◌∷◌, map, arith, Option-cases, Bool-cases, inl, inr}
use fembin.Base.Int.{ℤ}
use fembin.Exec.{Result, ok, err, Result-cases}
use fembin.Errors.{Exn}
use fembin.Table.{get_row, get_row-key}
use fembin.Db.{Product, State}
use fembin.Woo.Client.{WooClient}
use fembin.Woo.Push.{Action}
use fembin.Woo.ByCode.{WooPushItemResult, settled, push_picked, push_code, push_products_by_code}

module _ {W : Type 0} (woo : WooClient W) (str_of : Exn → Text) where
  settled-code :
      (product : Product) (out : Result Exn Action × State W) (r : WooPushItemResult)
      → (settled woo str_of product out).0 ≡ ok r
      → r.busy_code ≡ product.busy_code
  unfolding settled
  settled-code product (ok action, s) r e = ground arith
  settled-code product (err x, s) r e = ground arith

  push_code-code :
      (status : Text) (code : ℤ) (s : State W) (r : WooPushItemResult)
      → (push_code woo str_of status code s).0 ≡ ok r
      → r.busy_code ≡ code
  unfolding push_code
  push_code-code status code s r e =
      elim (Option-cases (get_row (λ p. p.busy_code) code s.session.now.products)) [
        | inl missing ↦ ground arith
        | inr (product, found) ↦
            let key = get_row-key (λ p. p.busy_code) code s.session.now.products found in
            elim (Bool-cases product.is_active) [
              | inr off ↦ ground (arith, key)
              | inl on ↦
                  ground (arith, key, settled-code product (push_picked woo status product s) r)
            ]
      ]

  -- A push of picked products that returns has one result for each code that was asked for, in
  -- their order, also for the codes that are unknown, inactive or refused by the store.
  pub push_products_by_code_answers :
      (status : Text) (codes : List ℤ) (s : State W) (results : List WooPushItemResult)
      → (push_products_by_code woo str_of status codes s).0 ≡ ok results
      → map (λ r. r.busy_code) results ≡ codes
  unfolding push_products_by_code
  push_products_by_code_answers status [] s results e = ground arith
  push_products_by_code_answers status (code ∷ more) s results e =
      let s' = (push_code woo str_of status code s).1 in
      elim (Result-cases (push_code woo str_of status code s).0) [
        | inr (x, failed) ↦ absurd (ground arith)
        | inl (r, one) ↦ elim (Result-cases (push_products_by_code woo str_of status more s').0) [
          | inr (x, failed) ↦ absurd (ground arith)
          | inl (rs, rest) ↦ ground (
            arith,
            push_code-code status code s r one,
            push_products_by_code_answers status more s' rs rest,
          )
        ]
      ]
