-- ===== src/Store/Reader/Walk.antt =====
-- Following the cursors from the first page to the last.
use chain_watch.Prelude.{
  ℕ, zero, suc, ◌+◌, ◌-◌, ◌<◌, ◌≡◌, ◌∙◌, refl, sym, ap, String, true, nat_eq, Option, none, some,
  List, [], ◌∷◌, ◌++◌, map, All, All-map, length, take, drop, take-append-drop, append_assoc, ltb,
  ltb→lt, ltb_false→le, Bool-cases, inl, inr, ℤ, pos, negsuc, arith,
}
use chain_watch.Errors.{GoError, is_nil, Result, ok, err, text}
use chain_watch.Effects.{bind-result, Action, pure, fail, ◌>>=◌}
use chain_watch.Api.{TransferCursor, TransferQuery}
use chain_watch.Store.{TransferRow, Database, statement}
use chain_watch.Store.Reader.{
  StoredErc20Transfer, TransferPage, clamp_limit, precedes, order_rows, where_rows, after_cursor,
  page_of, selects, matches, select_rows, read_rows, list_transfers,
}
use chain_watch.Store.Reader.Order.{IsNatural, NoTies}
use chain_watch.Store.Reader.Rows.{
  All-order_rows, All-where_rows, order_rows-InOrder, where_rows-NoTies, order-where_rows,
  where_rows-behind, take_last,
}
use chain_watch.Store.Reader.Pages.{
  IsReadable, to_stored, cursor_of, scan_rows-readable, page_last, page_more, length-drop-suc,
  map-append, where_rows-and,
}

All-take : (P : TransferRow → Type 0) (k : ℕ) (xs : List TransferRow) → All P xs → All P (take k xs)
All-take P zero xs h = tt
All-take P (suc k) [] h = tt
All-take P (suc k) (x ∷ xs) (p, h) = (p, All-take P k xs h)

-- The limit that the reader uses is at least one.
clamp_limit_pos : (z : ℤ) → (k : ℕ) × (clamp_limit z ≡ suc k)
unfolding clamp_limit
clamp_limit_pos (pos n) = (clamp_limit (pos n) - 1, ground arith)
clamp_limit_pos (negsuc n) = (99, refl)

-- Behind a page: the page itself, or with the pages from its cursor on.
unfoldable pub follow :
    (TransferCursor → Action Database (List StoredErc20Transfer))
    → TransferPage
    → Option TransferCursor
    → Action Database (List StoredErc20Transfer)
follow next page none = pure page.transfers
follow next page (some c) = next c >>= λ rest. pure (page.transfers ++ rest)

append-result :
    {A : Type 0} (m : Action Database (List A)) (xs : List A) (d : Database) {ys : List A}
    → (m d).0 ≡ ok ys
    → ((m >>= λ rest. pure (xs ++ rest)) d).0 ≡ ok (xs ++ ys)
unfolding ◌>>=◌
append-result {A} m xs d {ys} e = go (m d) e
  where
    go :
        (r : Result (List A) × Database)
        → r.0 ≡ ok ys
        → (((λ (_ : Database). r) >>= λ rest. pure (xs ++ rest)) d).0 ≡ ok (xs ++ ys)
    go (ok zs, w) e = cc
    go (err x, w) e = cc

all_kept : (rows : List TransferRow) → where_rows (λ r. true) rows ≡ rows
unfolding where_rows
all_kept [] = refl
all_kept (r ∷ rows) = ap (λ rs. r ∷ rs) (all_kept rows)

module _ (fault : ℕ → GoError) (delivered : ℕ → ℕ) (lower : String → String)
    (parse_value : String → Option ℤ) where
  -- What a client does that asks for page after page, with the cursor of the one before.
  unfoldable pub all_pages : ℕ → TransferQuery → Action Database (List StoredErc20Transfer)
  all_pages zero query = fail (text "out of fuel")
  all_pages (suc fuel) query =
      let next = λ (c : TransferCursor). all_pages fuel (record query { cursor = some c }) in
      list_transfers fault delivered lower parse_value query >>= λ page.
      follow next page page.next_cursor

  abbrev shown : List TransferRow → List StoredErc20Transfer
  shown rows = map (to_stored fault delivered lower parse_value) rows

  -- All rows that a query selects, without its cursor and its limit.
  unfoldable pub selected : TransferQuery → List TransferRow → List TransferRow
  selected query rows =
      order_rows (where_rows (selects fault delivered lower parse_value query) rows)

  -- Those that are left behind its cursor.
  unfoldable pub remaining : TransferQuery → List TransferRow → List TransferRow
  remaining query rows =
      order_rows (where_rows (matches fault delivered lower parse_value query) rows)

  remaining-cursor :
      (query : TransferQuery) (x : TransferRow) (front back rows : List TransferRow)
      → All IsNatural rows
      → NoTies rows
      → selected query rows ≡ front ++ x ∷ back
      → remaining
          (record query { cursor = some (cursor_of fault delivered lower parse_value x) })
          rows
        ≡ back
  unfolding selected remaining matches selects after_cursor precedes
  remaining-cursor query x front back rows n t whole =
      let kept = where_rows (selects fault delivered lower parse_value query) rows in
      ap order_rows
        (where_rows-and (selects fault delivered lower parse_value query) (precedes x) rows)
      ∙ order-where_rows (precedes x) kept (All-where_rows IsNatural _ rows n)
          (where_rows-NoTies _ rows t)
      ∙ ap (where_rows (precedes x)) whole
      ∙ where_rows-behind front x back
          (rw (← whole) (All-order_rows IsNatural kept (All-where_rows IsNatural _ rows n)))
          (rw (← whole) (
            order_rows-InOrder kept (All-where_rows IsNatural _ rows n)
              (where_rows-NoTies _ rows t)))

  same_selected :
      (query : TransferQuery) (x : TransferRow) (rows : List TransferRow)
      → selected
          (record query { cursor = some (cursor_of fault delivered lower parse_value x) })
          rows
        ≡ selected query rows
  unfolding selected selects
  same_selected query x rows = refl

  without_cursor :
      (query : TransferQuery) (rows : List TransferRow)
      → selected (record query { cursor = none }) rows ≡ selected query rows
  unfolding selected selects
  without_cursor query rows = refl

  -- Without a cursor all selected rows remain.
  first_page :
      (query : TransferQuery) (rows : List TransferRow)
      → remaining (record query { cursor = none }) rows ≡ selected query rows
  unfolding selected remaining matches selects
  first_page query rows = ap order_rows (
      where_rows-and (selects fault delivered lower parse_value query) (λ r. true) rows
      ∙ all_kept (where_rows (selects fault delivered lower parse_value query) rows))

  module _ (working : (k : ℕ) → is_nil (fault k) ≡ true) where
    list-page :
        (query : TransferQuery) (limit : ℕ) (d : Database)
        → clamp_limit (pos query.limit) ≡ limit
        → All (IsReadable fault delivered lower parse_value) d.tables.erc20_transfers
        → (after : Database) × (list_transfers fault delivered lower parse_value query d ≡ (
          ok (page_of limit (shown (take (suc limit) (remaining query d.tables.erc20_transfers)))),
          after,
        ))
          × (after.tables ≡ d.tables)
    unfolding list_transfers statement read_rows select_rows remaining ◌>>=◌
    list-page query limit d same readable =
        let rows = take (suc limit) (remaining query d.tables.erc20_transfers) in
        let all_readable : All (IsReadable fault delivered lower parse_value) rows =
          All-take _ (suc limit) _
            (All-order_rows _ _ (All-where_rows _ _ d.tables.erc20_transfers readable)) in
        let one : limit + 1 ≡ suc limit = omega arith in
        (
          record d { statements = d.statements + 1 + 1 },
          rw
              (
                same,
                working d.statements,
                one,
                working (d.statements + 1),
                scan_rows-readable fault delivered lower parse_value rows all_readable,
              )
              refl,
          refl,
        )

    -- A page with a cursor, and the pages from there on.
    walk-more :
        (k : ℕ) (next : TransferCursor → Action Database (List StoredErc20Transfer))
        (back before : List TransferRow) (x : TransferRow) (after : Database)
        → suc k < length back
        → take (suc k) back ≡ before ++ x ∷ []
        → (next (cursor_of fault delivered lower parse_value x) after).0
          ≡ ok (shown (drop (suc k) back))
        → (follow next
            (page_of (suc k) (shown (take (suc (suc k)) back)))
            (page_of (suc k) (shown (take (suc (suc k)) back))).next_cursor
            after).0
          ≡ ok (shown back)
    unfolding follow
    walk-more k next back before x after many cut rest =
        ap (λ p. (follow next p p.next_cursor after).0)
          (page_more fault delivered lower parse_value (suc k) back before x many cut)
        ∙ append-result (next (cursor_of fault delivered lower parse_value x))
            (shown (take (suc k) back)) after rest
        ∙ ap ok (
            sym (map-append _ (take (suc k) back) (drop (suc k) back))
            ∙ ap shown (take-append-drop (suc k) back))

    -- The pages from a query on whose remaining rows are `back`.
    walk-from :
        (fuel : ℕ) (query : TransferQuery) (front back : List TransferRow) (d : Database)
        → All (IsReadable fault delivered lower parse_value) d.tables.erc20_transfers
        → NoTies d.tables.erc20_transfers
        → selected query d.tables.erc20_transfers ≡ front ++ back
        → remaining query d.tables.erc20_transfers ≡ back
        → length back < fuel
        → (all_pages fuel query d).0 ≡ ok (shown back)
    unfolding all_pages follow ◌>>=◌
    walk-from zero query front back d readable ties whole left enough = absurd (omega arith)
    walk-from (suc fuel) query front back d readable ties whole left enough =
        let (k, limited) = clamp_limit_pos (pos query.limit) in
        let (after, listed, kept) = list-page query (suc k) d limited readable in
        let next = λ (c : TransferCursor). all_pages fuel (record query { cursor = some c }) in
        let page = page_of (suc k) (shown (take (suc (suc k)) back)) in
        ap (λ r. r.0)
          (bind-result (list_transfers fault delivered lower parse_value query)
            (λ (p : TransferPage). follow next p p.next_cursor) d (rw left at listed))
        ∙ (elim (Bool-cases (ltb (suc k) (length back))) [
          | inr few ↦
              ap (λ p. (follow next p p.next_cursor after).0)
                (page_last fault delivered lower parse_value (suc k) back
                  (ltb_false→le (suc k) (length back) few))
          | inl many ↦
              let (before, x, cut, split) = take_last k back (ltb→lt (suc k) (length back) many) in
              let rest = drop (suc k) back in
              let at : selected query d.tables.erc20_transfers ≡ (front ++ before) ++ x ∷ rest =
                whole ∙ ap (λ ys. front ++ ys) split ∙ sym (append_assoc front before (x ∷ rest)) in
              walk-more k next back before x after (ltb→lt (suc k) (length back) many) cut (
                walk-from fuel
                  (record query { cursor = some (cursor_of fault delivered lower parse_value x) })
                  ((front ++ before) ++ x ∷ []) rest after (rw kept readable) (rw kept ties)
                  (rw kept (
                    same_selected query x d.tables.erc20_transfers
                    ∙ at
                    ∙ sym (append_assoc (front ++ before) (x ∷ []) rest)))
                  (rw kept (
                    remaining-cursor query x (front ++ before) rest d.tables.erc20_transfers
                      (All-map _ IsNatural d.tables.erc20_transfers (λ row r. r.0) readable) ties
                      at))
                  (omega (arith, length-drop-suc k back (ltb→lt (suc k) (length back) many))))
        ])

    -- Where no statement fails, every row can be read and no two rows have the same block number and
    -- log index: following the cursors from the first page, with more requests allowed than rows are
    -- selected, returns exactly the rows that the query selects, in order, each once.
    pub all_pages_complete :
        (fuel : ℕ) (query : TransferQuery) (d : Database)
        → All (IsReadable fault delivered lower parse_value) d.tables.erc20_transfers
        → NoTies d.tables.erc20_transfers
        → length (selected query d.tables.erc20_transfers) < fuel
        → (all_pages fuel (record query { cursor = none }) d).0
          ≡ ok (shown (selected query d.tables.erc20_transfers))
    unfolding selected
    all_pages_complete fuel query d readable ties enough =
        walk-from fuel (record query { cursor = none }) [] (selected query d.tables.erc20_transfers)
          d readable ties (without_cursor query _) (first_page query d.tables.erc20_transfers)
          enough
