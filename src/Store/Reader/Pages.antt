-- ===== src/Store/Reader/Pages.antt =====
-- Following the cursors of the pages.
use chain_watch.Prelude.{
  ℕ, zero, suc, ◌≤◌, ◌<◌, ◌≡◌, ◌∙◌, refl, ap, String, Bool, true, false, ◌&&◌, nat_eq, Option, none,
  some, List, [], ◌∷◌, ◌++◌, map, All, length, take, drop, length-append, take-append-drop, ltb, ℤ,
  arith,
}
use chain_watch.Errors.{GoError, ok}
use chain_watch.Api.{TransferCursor}
use chain_watch.Store.{TransferRow, is_negative}
use chain_watch.Store.Reader.{
  StoredErc20Transfer, where_rows, last_transfer, page_of, stored, with_value, scan_transfer,
  scan_rows,
}
use chain_watch.Store.Reader.Order.{IsNatural}

pub length-map : {A B : Type 0} (f : A → B) (xs : List A) → length (map f xs) ≡ length xs
length-map f [] = refl
length-map f (x ∷ xs) = omega (arith, length-map f xs)

pub take-map :
    {A B : Type 0} (f : A → B) (k : ℕ) (xs : List A) → take k (map f xs) ≡ map f (take k xs)
take-map f zero xs = refl
take-map f (suc k) [] = refl
take-map f (suc k) (x ∷ xs) = ap (λ ys. f x ∷ ys) (take-map f k xs)

pub take-take-suc : {A : Type 0} (k : ℕ) (xs : List A) → take k (take (suc k) xs) ≡ take k xs
take-take-suc zero xs = refl
take-take-suc (suc k) [] = refl
take-take-suc (suc k) (x ∷ xs) = ap (λ ys. x ∷ ys) (take-take-suc k xs)

pub take_all : {A : Type 0} (k : ℕ) (xs : List A) → length xs ≤ k → take k xs ≡ xs
take_all zero [] h = refl
take_all zero (x ∷ xs) h = absurd (omega arith)
take_all (suc k) [] h = refl
take_all (suc k) (x ∷ xs) h = ap (λ ys. x ∷ ys) (take_all k xs (omega arith))

pub length-take : {A : Type 0} (k : ℕ) (xs : List A) → k ≤ length xs → length (take k xs) ≡ k
length-take zero xs h = refl
length-take (suc k) [] h = absurd (omega arith)
length-take (suc k) (x ∷ xs) h = omega (arith, length-take k xs (omega arith))

pub length-drop-suc :
    {A : Type 0} (k : ℕ) (xs : List A) → suc k < length xs → length (drop (suc k) xs) < length xs
length-drop-suc k xs h = omega (
  arith,
  ap length (take-append-drop (suc k) xs),
  length-append (take (suc k) xs) (drop (suc k) xs),
  length-take (suc k) xs (omega arith),
)

pub map-append :
    {A B : Type 0} (f : A → B) (xs ys : List A) → map f (xs ++ ys) ≡ map f xs ++ map f ys
map-append f [] ys = refl
map-append f (x ∷ xs) ys = ap (λ zs. f x ∷ zs) (map-append f xs ys)

pub where_rows-and :
    (p q : TransferRow → Bool) (rows : List TransferRow)
    → where_rows (λ r. p r && q r) rows ≡ where_rows q (where_rows p rows)
unfolding where_rows
where_rows-and p q [] = refl
where_rows-and p q (r ∷ rows) = ground (arith, where_rows-and p q rows)

module _ (fault : ℕ → GoError) (delivered : ℕ → ℕ) (lower : String → String)
    (parse_value : String → Option ℤ) where
  -- A row that the reader can turn into a transfer.
  abbrev pub IsReadable : TransferRow → Type 0
  IsReadable row = IsNatural row × (v : ℤ) × (parse_value row.value ≡ some v)

  abbrev pub to_stored : TransferRow → StoredErc20Transfer
  to_stored = stored fault delivered lower parse_value

  scan_transfer-readable :
      (row : TransferRow)
      → IsReadable row
      → scan_transfer fault delivered lower parse_value row ≡ ok (to_stored row)
  unfolding scan_transfer
  scan_transfer-readable row ((p, q), v, parsed) =
      let block : is_negative row.block_number ≡ false = ground arith in
      let log : is_negative row.log_index ≡ false = ground arith in
      rw (block, log) (ap (with_value fault delivered lower parse_value row) parsed)

  pub scan_rows-readable :
      (rows : List TransferRow)
      → All IsReadable rows
      → scan_rows fault delivered lower parse_value rows ≡ ok (map to_stored rows)
  unfolding scan_rows
  scan_rows-readable [] h = refl
  scan_rows-readable (row ∷ rows) (r, h) =
      rw (scan_transfer-readable row r, scan_rows-readable rows h) refl

  last-stored :
      (front : List TransferRow) (x : TransferRow)
      → last_transfer (map to_stored (front ++ x ∷ [])) ≡ some (to_stored x)
  unfolding last_transfer
  last-stored [] x = refl
  last-stored (a ∷ []) x = refl
  last-stored (a ∷ b ∷ front) x = last-stored (b ∷ front) x

  abbrev pub cursor_of : TransferRow → TransferCursor
  cursor_of x = record { block_number = x.block_number; log_index = x.log_index }

  pub page_last :
      (limit : ℕ) (back : List TransferRow)
      → length back ≤ limit
      → page_of limit (map to_stored (take (suc limit) back))
        ≡ record { transfers = map to_stored back; next_cursor = none }
  unfolding page_of
  page_last limit back few = rw (take_all (suc limit) back (omega arith)) (
      let fits : ltb limit (length (map to_stored back)) ≡ false =
        ground (arith, length-map to_stored back) in
      rw fits refl)

  pub page_more :
      (limit : ℕ) (back front : List TransferRow) (x : TransferRow)
      → limit < length back
      → take limit back ≡ front ++ x ∷ []
      → page_of limit (map to_stored (take (suc limit) back))
        ≡ record { transfers = map to_stored (take limit back); next_cursor = some (cursor_of x) }
  unfolding page_of stored
  page_more limit back front x many cut =
      let over : ltb limit (length (map to_stored (take (suc limit) back))) ≡ true =
        ground
          (arith, length-map to_stored (take (suc limit) back), length-take (suc limit) back) in
      let shown : take limit (map to_stored (take (suc limit) back))
          ≡ map to_stored (take limit back) =
        take-map to_stored limit (take (suc limit) back)
        ∙ ap (map to_stored) (take-take-suc limit back) in
      let last : last_transfer (map to_stored (take limit back)) ≡ some (to_stored x) =
        ap (λ ys. last_transfer (map to_stored ys)) cut ∙ last-stored front x in
      rw (over, shown, last) refl
