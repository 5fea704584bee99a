-- ===== src/Worker/Movements.antt =====
-- crates/fineco-worker/src/lib.rs and src/parse.rs: walking the pages of the movements. A text is a list
-- of code points; an offset is an `i32`, which is not negative here.
pub mod Complete
use fineco_helper.Core.SafeError
use fineco_helper.Core.SafeError.{SafeError}
use fineco_helper.Base.Maybe
use mathlib.Core.Option
use fineco_helper.Base.{
  [], ◌∷◌, none, some, false, ok, err, zero, suc, Option, List, Text, ℕ, Bool, Result, not,
  if◌then◌else◌, min, ◌||◌, ◌++◌, ◌+◌, ◌==◌, length, leb,
}
use fineco_helper.Store.Rows.{MovementsSummary, F64}
use fineco_helper.Core.Text.{sanitize_text, is_whitespace}
use fineco_helper.Worker.Parse.{filter_map}

pub record RawMovementItem : Type 0 where
  pub progressivo_movimento : Option Text
  pub causale : Option Text
  pub descrizione : Option Text
  pub descrizione_breve : Option Text
  pub importo : Option F64
  pub tipo_movimento : Option Text
  pub data_operazione : Option Text
  pub data_registrazione : Option Text
  pub data_valuta : Option Text
  pub causale_movimento : Option Text
  pub categoria_id : Option Text
  pub sottocategoria_id : Option Text

-- `missing_data` is how many parts Fineco says are missing.
pub record MovementsApiResponse : Type 0 where
  pub movimenti : List RawMovementItem
  pub last_page : Bool
  pub limited_result : Bool
  pub missing_data : ℕ
  pub balance_at_movement : Option F64
  pub balance_at_search_date : Option F64
  pub current_month_credit_spending : Option F64
  pub current_month_debit_spending : Option F64

pub record MovementsApiRequest : Type 0 where
  pub date_from : Text
  pub date_to : Text
  pub offset : ℕ
  pub limit : ℕ
  pub keyword : Text

pub record RawMovement : Type 0 where
  pub movement_id : Text
  pub causale : Option Text
  pub descrizione : Option Text
  pub descrizione_breve : Option Text
  pub importo : Option F64
  pub tipo_movimento : Option Text
  pub data_operazione : Option Text
  pub data_registrazione : Option Text
  pub data_valuta : Option Text
  pub causale_movimento : Option Text
  pub categoria_id : Option Text
  pub sottocategoria_id : Option Text

abbrev non_blank : Text → Bool
non_blank [] = false
non_blank (c ∷ cs) = not (is_whitespace c) || non_blank cs

-- The id of an item, if it has one that is not blank.
abbrev pub usable_id : Option Text → Option Text
usable_id none = none
usable_id (some id) = if non_blank id then some id else none

unfoldable pub to_raw_movement : RawMovementItem → Option RawMovement
to_raw_movement item =
    Option.map
      (λ id. record {
        movement_id = id;
        causale = Option.map sanitize_text item.causale;
        descrizione = Option.map sanitize_text item.descrizione;
        descrizione_breve = Option.map sanitize_text item.descrizione_breve;
        importo = item.importo;
        tipo_movimento = Option.map sanitize_text item.tipo_movimento;
        data_operazione = item.data_operazione;
        data_registrazione = item.data_registrazione;
        data_valuta = item.data_valuta;
        causale_movimento = Option.map sanitize_text item.causale_movimento;
        categoria_id = Option.map sanitize_text item.categoria_id;
        sottocategoria_id = Option.map sanitize_text item.sottocategoria_id;
      })
      (usable_id item.progressivo_movimento)

unfoldable pub to_raw_movements : List RawMovementItem → List RawMovement
to_raw_movements items = filter_map to_raw_movement items

unfoldable pub to_movements_summary : MovementsApiResponse → MovementsSummary
to_movements_summary resp = record {
  balance_at_movement = resp.balance_at_movement;
  balance_at_search_date = resp.balance_at_search_date;
  current_month_credit_spending = resp.current_month_credit_spending;
  current_month_debit_spending = resp.current_month_debit_spending;
}

-- `MovementsSummary::default`
abbrev pub no_summary : MovementsSummary
no_summary = record {
  balance_at_movement = none;
  balance_at_search_date = none;
  current_month_credit_spending = none;
  current_month_debit_spending = none;
}

abbrev pub movements_page_size : ℕ
movements_page_size = 15

abbrev pub max_movements_pages : ℕ
max_movements_pages = 400

abbrev i32_max : ℕ
i32_max = 2147483647

-- `i32::try_from(..).unwrap_or(MOVEMENTS_PAGE_SIZE)`, added with saturation
unfoldable pub next_offset : ℕ → ℕ → ℕ
next_offset offset len =
    min i32_max (offset + (if leb len i32_max then len else movements_page_size))

abbrev pub is_incomplete : MovementsApiResponse → Bool
is_incomplete resp = resp.limited_result || not (resp.missing_data == 0)

abbrev pub Fetched : Type 0
Fetched = Result SafeError (List RawMovement × MovementsSummary)

abbrev pub page_request : Text → Text → ℕ → MovementsApiRequest
page_request date_from date_to offset = record {
  date_from = date_from;
  date_to = date_to;
  offset = offset;
  limit = movements_page_size;
  keyword = [];
}

-- What follows a page; `more` is the rest of the walk.
unfoldable pub after_page :
    MovementsApiResponse → List RawMovement → MovementsSummary → Fetched → Fetched
after_page resp all summary more =
    if is_incomplete resp
    then err SafeError.internal
    else if resp.last_page || (length resp.movimenti == 0)
    then ok (all, summary)
    else more

-- `post` answers the request that is sent as the n-th of the walk.
module _ (post : ℕ → MovementsApiRequest → Result SafeError MovementsApiResponse)
    (date_from date_to : Text) where
  -- The pages from the `page`-th on, of which `left` may still be asked for.
  unfoldable pub walk : ℕ → ℕ → ℕ → List RawMovement → MovementsSummary → Fetched
  walk zero page offset all summary = err SafeError.internal
  walk (suc left) page offset all summary =
      elim (post page (page_request date_from date_to offset)) [
        | err e ↦ err e
        | ok resp ↦
            let all' = all ++ to_raw_movements resp.movimenti in
            let summary' = if page == 0 then to_movements_summary resp else summary in
            let more =
              walk left (suc page) (next_offset offset (length resp.movimenti)) all' summary' in
            after_page resp all' summary' more
      ]

  unfoldable pub fetch_movement_pages : Fetched
  fetch_movement_pages = walk max_movements_pages 0 0 [] no_summary
