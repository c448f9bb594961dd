-- ===== src/Store/Reader/Rows.antt =====
-- Sorting, filtering and cutting lists of rows.
use chain_watch.Prelude.{
  ℕ, zero, suc, ◌<◌, ◌≡◌, ◌∙◌, refl, sym, ap, Bool, true, nat_eq, List, [], ◌∷◌, ◌++◌, All, length,
  take, drop, Bool-cases, inl, inr, arith, if◌then◌else◌,
}
use chain_watch.Store.{TransferRow}
use chain_watch.Store.Reader.{precedes, insert_row, order_rows, where_rows}
use chain_watch.Store.Reader.Order.{
  IsNatural, Differ, NoTies, Precedes, InOrder, Precedes-trans, precedes_asym, precedes_irrefl,
  precedes_total,
}

module _ (P : TransferRow → Type 0) where
  pub All-insert_row :
      (x : TransferRow) (ys : List TransferRow) → P x → All P ys → All P (insert_row x ys)
  unfolding insert_row
  All-insert_row x [] p h = (p, tt)
  All-insert_row x (y ∷ ys) p (q, h) = elim (Bool-cases (precedes y x)) [
    | inl later ↦ rw later (q, All-insert_row x ys p h)
    | inr first ↦ rw first (p, (q, h))
  ]

  pub All-order_rows : (xs : List TransferRow) → All P xs → All P (order_rows xs)
  unfolding order_rows
  All-order_rows [] h = tt
  All-order_rows (x ∷ xs) (p, h) = All-insert_row x (order_rows xs) p (All-order_rows xs h)

  pub All-where_rows :
      (test : TransferRow → Bool) (xs : List TransferRow) → All P xs → All P (where_rows test xs)
  unfolding where_rows
  All-where_rows test [] h = tt
  All-where_rows test (x ∷ xs) (p, h) = elim (Bool-cases (test x)) [
    | inl kept ↦ rw kept (p, All-where_rows test xs h)
    | inr dropped ↦ rw dropped (All-where_rows test xs h)
  ]

All-pair :
    (P Q R : TransferRow → Type 0) (xs : List TransferRow)
    → ((a : TransferRow) → P a → Q a → R a)
    → All P xs
    → All Q xs
    → All R xs
All-pair P Q R [] f hp hq = tt
All-pair P Q R (x ∷ xs) f (p, hp) (q, hq) = (f x p q, All-pair P Q R xs f hp hq)

abbrev pub AllNatural : List TransferRow → Type 0
AllNatural = All IsNatural

insert_row-InOrder :
    (x : TransferRow) (ys : List TransferRow)
    → IsNatural x
    → AllNatural ys
    → All (Differ x) ys
    → InOrder ys
    → InOrder (insert_row x ys)
unfolding insert_row
insert_row-InOrder x [] nx ny d o = (tt, tt)
insert_row-InOrder x (y ∷ ys) nx (ny, nys) (d, ds) (o, os) = elim (Bool-cases (precedes y x)) [
  | inl later ↦
      rw later (All-insert_row (Precedes y) x ys later o, insert_row-InOrder x ys nx nys ds os)
  | inr first ↦
      let front : Precedes x y = precedes_total x y nx ny d first in
      rw first (
        (
          front,
          All-pair IsNatural (Precedes y) (Precedes x) ys
              (λ z nz h. Precedes-trans x y z nx ny nz front h) nys o,
        ),
        (o, os),
      )
]

pub order_rows-InOrder :
    (xs : List TransferRow) → AllNatural xs → NoTies xs → InOrder (order_rows xs)
unfolding order_rows
order_rows-InOrder [] n t = tt
order_rows-InOrder (x ∷ xs) (nx, n) (d, t) =
    insert_row-InOrder x (order_rows xs) nx (All-order_rows IsNatural xs n)
      (All-order_rows (Differ x) xs d) (order_rows-InOrder xs n t)

pub where_rows-NoTies :
    (test : TransferRow → Bool) (xs : List TransferRow) → NoTies xs → NoTies (where_rows test xs)
unfolding where_rows
where_rows-NoTies test [] t = tt
where_rows-NoTies test (x ∷ xs) (d, t) = elim (Bool-cases (test x)) [
  | inl kept ↦ rw kept (All-where_rows (Differ x) test xs d, where_rows-NoTies test xs t)
  | inr dropped ↦ rw dropped (where_rows-NoTies test xs t)
]

-- A row before all others is inserted at the front.
insert_row_front :
    (x : TransferRow) (ys : List TransferRow)
    → IsNatural x
    → AllNatural ys
    → All (Precedes x) ys
    → insert_row x ys ≡ x ∷ ys
unfolding insert_row
insert_row_front x [] nx n h = refl
insert_row_front x (y ∷ ys) nx (ny, n) (p, h) = rw (precedes_asym x y nx ny p) refl

where_rows-insert_row :
    (test : TransferRow → Bool) (x : TransferRow) (ys : List TransferRow)
    → IsNatural x
    → AllNatural ys
    → All (Differ x) ys
    → InOrder ys
    → where_rows test (insert_row x ys)
      ≡ (if test x then insert_row x (where_rows test ys) else where_rows test ys)
unfolding insert_row where_rows
where_rows-insert_row test x [] nx n d o = ground arith
where_rows-insert_row test x (y ∷ ys) nx (ny, n) (d, ds) (o, os) =
    elim (Bool-cases (precedes y x)) [
      | inl later ↦ rw later (behind (where_rows-insert_row test x ys nx n ds os) later)
      | inr first ↦
          let front : Precedes x y = precedes_total x y nx ny d first in
          rw first (
            ahead (
              insert_row_front x (where_rows test (y ∷ ys)) nx
                (All-where_rows IsNatural test (y ∷ ys) (ny, n))
                (All-where_rows (Precedes x) test (y ∷ ys) (
                  front,
                  All-pair IsNatural (Precedes y) (Precedes x) ys
                      (λ z nz h. Precedes-trans x y z nx ny nz front h) n o,
                ))))
    ]
  where
    behind :
        where_rows test (insert_row x ys)
          ≡ (if test x then insert_row x (where_rows test ys) else where_rows test ys)
        → precedes y x ≡ true
        → where_rows test (y ∷ insert_row x ys)
          ≡ (if test x then insert_row x (where_rows test (y ∷ ys)) else where_rows test (y ∷ ys))
    behind ih later = ground arith

    ahead :
        insert_row x (where_rows test (y ∷ ys)) ≡ x ∷ where_rows test (y ∷ ys)
        → where_rows test (x ∷ y ∷ ys)
          ≡ (if test x then insert_row x (where_rows test (y ∷ ys)) else where_rows test (y ∷ ys))
    ahead front = elim (Bool-cases (test x)) [
      | inl kept ↦ rw kept (sym front)
      | inr dropped ↦ rw dropped refl
    ]

-- `WHERE` before `ORDER BY` is `WHERE` behind it.
pub order-where_rows :
    (test : TransferRow → Bool) (xs : List TransferRow)
    → AllNatural xs
    → NoTies xs
    → order_rows (where_rows test xs) ≡ where_rows test (order_rows xs)
unfolding order_rows where_rows
order-where_rows test [] n t = refl
order-where_rows test (x ∷ xs) (nx, n) (d, t) =
    let moved =
      where_rows-insert_row test x (order_rows xs) nx (All-order_rows IsNatural xs n)
        (All-order_rows (Differ x) xs d) (order_rows-InOrder xs n t) in
    let ih = order-where_rows test xs n t in
    elim (Bool-cases (test x)) [
      | inl kept ↦ rw kept (ap (insert_row x) ih ∙ sym (rw kept at moved))
      | inr dropped ↦ rw dropped (ih ∙ sym (rw dropped at moved))
    ]

-- The rows behind `x` in a list in order are those that follow it.
pub where_rows-behind :
    (front : List TransferRow) (x : TransferRow) (back : List TransferRow)
    → AllNatural (front ++ x ∷ back)
    → InOrder (front ++ x ∷ back)
    → where_rows (precedes x) (front ++ x ∷ back) ≡ back
unfolding where_rows
where_rows-behind [] x back (nx, n) (o, os) = rw (precedes_irrefl x nx) (all_kept back o)
  where
    all_kept : (ys : List TransferRow) → All (Precedes x) ys → where_rows (precedes x) ys ≡ ys
    all_kept [] h = refl
    all_kept (y ∷ ys) (p, h) = rw p (ap (λ zs. y ∷ zs) (all_kept ys h))
where_rows-behind (a ∷ front) x back (na, n) (o, os) =
    let (natural, earlier) = middle front o n in
    rw (precedes_asym a x na natural earlier) (where_rows-behind front x back n os)
  where
    middle :
        (front : List TransferRow)
        → All (Precedes a) (front ++ x ∷ back)
        → AllNatural (front ++ x ∷ back)
        → IsNatural x × Precedes a x
    middle [] (p, h) (nx, n) = (nx, p)
    middle (b ∷ front) (p, h) (nb, n) = middle front h n

-- A cut that leaves something behind ends in a row.
pub take_last :
    (k : ℕ) (xs : List TransferRow)
    → suc k < length xs
    → (front : List TransferRow) × (x : TransferRow) × (take (suc k) xs ≡ front ++ x ∷ [])
      × (xs ≡ front ++ x ∷ drop (suc k) xs)
take_last k [] h = absurd (omega arith)
take_last zero (x ∷ xs) h = ([], x, refl, refl)
take_last (suc k) (x ∷ xs) h =
    let (front, y, cut, whole) = take_last k xs (omega arith) in
    (x ∷ front, y, ap (λ zs. x ∷ zs) cut, ap (λ zs. x ∷ zs) whole)
