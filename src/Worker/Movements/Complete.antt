-- ===== src/Worker/Movements/Complete.antt =====
-- crates/fineco-worker/src/lib.rs: a walk over honest pages brings the whole statement.
use fineco_helper.Core.SafeError.{SafeError}
use mathlib.Core.List.{append_assoc}
use fineco_helper.Worker.Movements.{
  RawMovementItem, MovementsApiResponse, MovementsApiRequest, to_raw_movement, to_raw_movements,
  walk, fetch_movement_pages, after_page, next_offset, Fetched, RawMovement, to_movements_summary,
  is_incomplete, no_summary,
}
use fineco_helper.Base.{
  [], ◌∷◌, true, false, inl, inr, ok, suc, refl, Option, List, ℕ, ◌++◌, Bool, Result, ◌≡◌, ◌+◌,
  take, length, ◌<◌, ap, drop, ◌≤◌, arith, none, some, zero, Text, ◌∙◌, if◌then◌else◌,
  take-length_le, ◌==◌, drop-append, sym, length-append, ◌||◌, append-take-drop, Bool-cases, ==_iff,
  length-take,
}
use fineco_helper.Worker.Parse.{filter_map, add_some}
use fineco_helper.Store.Rows.{MovementsSummary}

add_some-append :
    {B : Type 0} (o : Option B) (xs ys : List B) → add_some o (xs ++ ys) ≡ add_some o xs ++ ys
add_some-append none xs ys = refl
add_some-append (some b) xs ys = refl

filter_map-append :
    {A B : Type 0} (f : A → Option B) (xs ys : List A)
    → filter_map f (xs ++ ys) ≡ filter_map f xs ++ filter_map f ys
filter_map-append f [] ys = refl
filter_map-append f (x ∷ xs) ys =
    ap (add_some (f x)) (filter_map-append f xs ys)
    ∙ add_some-append (f x) (filter_map f xs) (filter_map f ys)

to_raw_movements-append :
    (xs ys : List RawMovementItem)
    → to_raw_movements (xs ++ ys) ≡ to_raw_movements xs ++ to_raw_movements ys
unfolding to_raw_movements
to_raw_movements-append xs ys = filter_map-append to_raw_movement xs ys

-- A statement at Fineco: its rows, how many more rows than one the n-th page has, which pages say that
-- they are the last, and the balances on each page.
pub record Statement : Type 0 where
  pub rows : List RawMovementItem
  pub extra : ℕ → ℕ
  pub last : ℕ → ℕ → Bool
  pub balances : ℕ → MovementsSummary

unfoldable pub page_of : Statement → ℕ → MovementsApiRequest → Result SafeError MovementsApiResponse
page_of s n request = ok (record {
  movimenti = take (suc (s.extra n)) (drop request.offset s.rows);
  last_page = s.last n request.offset;
  limited_result = false;
  missing_data = 0;
  balance_at_movement = (s.balances n).balance_at_movement;
  balance_at_search_date = (s.balances n).balance_at_search_date;
  current_month_credit_spending = (s.balances n).current_month_credit_spending;
  current_month_debit_spending = (s.balances n).current_month_debit_spending;
})

-- A page that says so ends the statement.
pub record IsHonest (s : Statement) : Type 0 where
  pub ends : (n offset : ℕ) → s.last n offset ≡ true → length s.rows ≤ offset + suc (s.extra n)

next_offset_lem : (offset len : ℕ) → offset + len < 400 → next_offset offset len ≡ offset + len
unfolding next_offset
next_offset_lem offset len h = ground arith

after_page_lem :
    (resp : MovementsApiResponse) (all : List RawMovement) (summary : MovementsSummary)
    (more goal : Fetched)
    → is_incomplete resp ≡ false
    → (resp.last_page || (length resp.movimenti == 0) ≡ true → ok (all, summary) ≡ goal)
    → (resp.last_page || (length resp.movimenti == 0) ≡ false → more ≡ goal)
    → after_page resp all summary more ≡ goal
unfolding after_page
after_page_lem resp all summary more goal complete stop go =
    rw complete (elim (Bool-cases (resp.last_page || (length resp.movimenti == 0))) [
      | inl e ↦ rw e (stop e)
      | inr e ↦ rw e (go e)
    ])

module _ (s : Statement) (honest : IsHonest s) (date_from date_to : Text) where
  -- The summary that a walk from a page on ends with.
  abbrev summary_from : ℕ → MovementsSummary → MovementsSummary
  summary_from page summary = if page == 0 then s.balances 0 else summary

  -- A page's rows are the next ones.
  page_rows :
      (page : ℕ) (done rest : List RawMovementItem)
      → s.rows ≡ done ++ rest
      → take (suc (s.extra page)) (drop (length done) s.rows) ≡ take (suc (s.extra page)) rest
  page_rows page done rest e =
      ap (take (suc (s.extra page))) (ap (drop (length done)) e ∙ drop-append done rest)

  -- The whole statement is read when the rest is on the page.
  all_read :
      (done rest : List RawMovementItem) (n : ℕ)
      → s.rows ≡ done ++ rest
      → length rest ≤ n
      → to_raw_movements done ++ to_raw_movements (take n rest) ≡ to_raw_movements s.rows
  all_read done rest n e h =
      ap (λ r. to_raw_movements done ++ to_raw_movements r) (take-length_le n rest h)
      ∙ (sym (to_raw_movements-append done rest) ∙ ap to_raw_movements (sym e))

  -- The rows of the page, and those behind it.
  abbrev got : ℕ → List RawMovementItem → List RawMovementItem
  got page rest = take (suc (s.extra page)) rest

  abbrev left_over : ℕ → List RawMovementItem → List RawMovementItem
  left_over page rest = drop (suc (s.extra page)) rest

  length-got :
      (page : ℕ) (rest : List RawMovementItem)
      → length (got page rest) + length (left_over page rest) ≡ length rest
  length-got page rest =
      sym (length-append (got page rest) (left_over page rest))
      ∙ ap length (append-take-drop (suc (s.extra page)) rest)

  -- A walk stops only at the end.
  stop_lem :
      (page : ℕ) (done rest : List RawMovementItem)
      → s.rows ≡ done ++ rest
      → s.last page (length done) || (length (got page rest) == 0) ≡ true
      → length rest ≤ suc (s.extra page)
  stop_lem page done rest e h = elim (Bool-cases (s.last page (length done))) [
    | inl p ↦ omega (arith, honest.ends page (length done) p, ap length e, length-append done rest)
    | inr p ↦
        let none_got : length (got page rest) ≡ 0 =
          (==_iff _ 0).0 (sym (ap (λ b. b || (length (got page rest) == 0)) p) ∙ h) in
        omega (arith, none_got, length-take (suc (s.extra page)) rest)
  ]

  -- A walk goes on only after a page with rows.
  go_lem :
      (page : ℕ) (done rest : List RawMovementItem)
      → s.last page (length done) || (length (got page rest) == 0) ≡ false
      → 1 ≤ length (got page rest)
  go_lem page done rest h = ground arith

  rows_after :
      (page : ℕ) (done rest : List RawMovementItem)
      → s.rows ≡ done ++ rest
      → s.rows ≡ (done ++ got page rest) ++ left_over page rest
  rows_after page done rest e =
      e
      ∙ (ap (λ r. done ++ r) (sym (append-take-drop (suc (s.extra page)) rest))
          ∙ sym (append_assoc done (got page rest) (left_over page rest)))

  not_first : (page : ℕ) → (suc page == 0) ≡ false
  not_first page = ground arith

  summary_suc : (page : ℕ) (summary : MovementsSummary) → summary_from (suc page) summary ≡ summary
  summary_suc page summary = ap (λ b. if b then s.balances 0 else summary) (not_first page)

  summary_lem :
      (page : ℕ) (summary : MovementsSummary)
      → (if page == 0 then s.balances page else summary) ≡ summary_from page summary
  summary_lem zero summary = refl
  summary_lem (suc page) summary =
      ap (λ b. if b then s.balances (suc page) else summary) (not_first page)
      ∙ sym (ap (λ b. if b then s.balances 0 else summary) (not_first page))

  -- The walk from a page on, with what was read before.
  abbrev walk_from : ℕ → ℕ → ℕ → List RawMovement → MovementsSummary → Fetched
  walk_from = walk (page_of s) date_from date_to

  walk_lem :
      (left page : ℕ) (done rest : List RawMovementItem) (summary : MovementsSummary)
      → s.rows ≡ done ++ rest
      → length rest < left
      → length done + length rest < 400
      → walk (page_of s) date_from date_to left page (length done) (to_raw_movements done) summary
        ≡ ok (to_raw_movements s.rows, summary_from page summary)
  unfolding walk page_of to_movements_summary
  walk_lem zero page done rest summary e h k = absurd (omega arith)
  walk_lem (suc left) page done rest summary e h k =
      rw (page_rows page done rest e, summary_lem page summary)
        (after_page_lem _ _ _ _ _ refl
          (λ stop.
            ap (λ r. ok (r, summary_from page summary))
              (all_read done rest (suc (s.extra page)) e (stop_lem page done rest e stop)))
          (λ go.
            let more = go_lem page done rest go in
            let parts = length-got page rest in
            let sm = summary_from page summary in
            let behind = done ++ got page rest in
            ap
              (λ o.
                walk_from left (suc page) o
                  (to_raw_movements done ++ to_raw_movements (got page rest)) sm)
              (next_offset_lem (length done) (length (got page rest)) (omega (arith, parts))
                ∙ sym (length-append done (got page rest)))
            ∙ (ap (λ c. walk_from left (suc page) (length behind) c sm)
                  (sym (to_raw_movements-append done (got page rest)))
                ∙ (walk_lem left (suc page) behind (left_over page rest) sm
                      (rows_after page done rest e) (omega (arith, parts, more))
                      (omega (arith, parts, length-append done (got page rest)))
                    ∙ ap (λ m. ok (to_raw_movements s.rows, m)) (summary_suc page sm)))))

-- For any statement of fewer than 400 rows at Fineco, cut into pages of any sizes but 0, of which only
-- those that end it may say that they are the last: the walk reads every row exactly once and in order,
-- and takes the balances of the first page.
pub fetch_movement_pages_complete :
    (s : Statement) (date_from date_to : Text)
    → IsHonest s
    → length s.rows < 400
    → fetch_movement_pages (page_of s) date_from date_to
      ≡ ok (to_raw_movements s.rows, s.balances 0)
unfolding fetch_movement_pages to_raw_movements
fetch_movement_pages_complete s date_from date_to honest h =
    walk_lem s honest date_from date_to 400 0 [] s.rows no_summary refl h (omega arith)
