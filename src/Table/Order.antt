-- ===== src/Table/Order.antt =====
-- SELECT ... WHERE ... ORDER BY a text column. The database's collation is a parameter: the order of
-- texts, their comparison by = and the operator ILIKE. Rows that tie are shown in the order of the table.
use fembin.Base.{
  ◌≡◌, Text, List, [], ◌∷◌, Bool, true, false, ◌&&◌, if◌then◌else◌, All, arith, Bool-cases, inl,
  inr, refl,
}
use mathlib.Core.List.{Perm}
use mathlib.Core.List.Perm

pub record Collation : Type 0 where
  pub le : Text → Text → Bool
  pub equal : Text → Text → Bool
  pub ilike : Text → Text → Bool
  pub le_total : (a b : Text) → le a b ≡ false → le b a ≡ true
  pub le_trans : (a b c : Text) → le a b ≡ true → le b c ≡ true → le a c ≡ true

module _ {A : Type 0} where
  unfoldable pub select_where : (A → Bool) → List A → List A
  select_where p [] = []
  select_where p (x ∷ xs) = let rest = select_where p xs in if p x then x ∷ rest else rest

  pub select_where-twice :
      (p q : A → Bool) (xs : List A)
      → select_where q (select_where p xs) ≡ select_where (λ x. p x && q x) xs
  unfolding select_where
  select_where-twice p q [] = refl
  select_where-twice p q (x ∷ xs) = ground (arith, select_where-twice p q xs)

  pub select_where_all :
      (p : A → Bool) (xs : List A) → ((x : A) → p x ≡ true) → select_where p xs ≡ xs
  unfolding select_where
  select_where_all p [] h = refl
  select_where_all p (x ∷ xs) h = ground (arith, h x, select_where_all p xs)

module _ {A : Type 0} (c : Collation) (key : A → Text) where
  put_in_order : A → List A → List A
  put_in_order x [] = x ∷ []
  put_in_order x (y ∷ ys) = if c.le (key x) (key y) then x ∷ y ∷ ys else y ∷ put_in_order x ys

  unfoldable pub order_by : List A → List A
  unfolding put_in_order
  order_by [] = []
  order_by (x ∷ xs) = put_in_order x (order_by xs)

  abbrev pub IsBelow : Text → List A → Type 0
  IsBelow k xs = All (λ y. c.le k (key y) ≡ true) xs

  -- each row's text is not behind that of a later row
  abbrev pub IsOrdered : List A → Type 0
  IsOrdered [] = Unit
  IsOrdered (x ∷ xs) = IsBelow (key x) xs × IsOrdered xs

  IsBelow-le : (k l : Text) (xs : List A) → c.le k l ≡ true → IsBelow l xs → IsBelow k xs
  IsBelow-le k l [] h b = tt
  IsBelow-le k l (x ∷ xs) h b = (c.le_trans k l (key x) h b.0, IsBelow-le k l xs h b.1)

  IsBelow-put_in_order :
      (k : Text) (x : A) (ys : List A)
      → c.le k (key x) ≡ true
      → IsBelow k ys
      → IsBelow k (put_in_order x ys)
  unfolding put_in_order
  IsBelow-put_in_order k x [] h b = (h, tt)
  IsBelow-put_in_order k x (y ∷ ys) h b = elim (Bool-cases (c.le (key x) (key y))) [
    | inl first ↦ rw first (h, b)
    | inr later ↦ rw later (b.0, IsBelow-put_in_order k x ys h b.1)
  ]

  put_in_order-IsOrdered : (x : A) (ys : List A) → IsOrdered ys → IsOrdered (put_in_order x ys)
  unfolding put_in_order
  put_in_order-IsOrdered x [] o = (tt, tt)
  put_in_order-IsOrdered x (y ∷ ys) o = elim (Bool-cases (c.le (key x) (key y))) [
    | inl first ↦ rw first ((first, IsBelow-le (key x) (key y) ys first o.0), o)
    | inr later ↦ rw later (
      IsBelow-put_in_order (key y) x ys (c.le_total (key x) (key y) later) o.0,
      put_in_order-IsOrdered x ys o.1,
    )
  ]

  pub order_by-IsOrdered : (xs : List A) → IsOrdered (order_by xs)
  unfolding order_by
  order_by-IsOrdered [] = tt
  order_by-IsOrdered (x ∷ xs) = put_in_order-IsOrdered x (order_by xs) (order_by-IsOrdered xs)

  put_in_order-perm : (x : A) (ys : List A) → Perm (put_in_order x ys) (x ∷ ys)
  unfolding put_in_order
  put_in_order-perm x [] = Perm.rfl
  put_in_order-perm x (y ∷ ys) = elim (Bool-cases (c.le (key x) (key y))) [
    | inl first ↦ rw first Perm.rfl
    | inr later ↦ rw later (Perm.trans (Perm.cons y (put_in_order-perm x ys)) (Perm.swap x y ys))
  ]

  pub order_by-perm : (xs : List A) → Perm (order_by xs) xs
  unfolding order_by
  order_by-perm [] = Perm.rfl
  order_by-perm (x ∷ xs) =
      Perm.trans (put_in_order-perm x (order_by xs)) (Perm.cons x (order_by-perm xs))
