-- ===== src/Query/Dividends.antt =====
-- crates/fineco-query/src/dividends.rs: the pairing of dividend legs. Text is code points, of which the
-- order is that of their UTF-8 bytes. `cents_of` stands for the rounding of an `f64` to cents; the
-- sums of cents are integers, and stay far inside an `i64`. The map of groups is a list in the order
-- of the keys.
pub mod Totals
use fineco_helper.Base.Int.{ℤ, pos, ◌+ℤ◌, ◌-ℤ◌}
use fineco_helper.Store.Rows.{F64}
use fineco_helper.Base.{
  [], ◌∷◌, none, some, true, false, String, Option, Text, List, Bool, if◌then◌else◌, codes, text_eq,
  text_lt, or_else, map, take, ◌&&◌, ◌||◌, to_lower, length, drop,
}
use fineco_helper.Core.Validate.{trim}
use fineco_helper.Store.Movements.{MovementRow}
use fineco_helper.Store.Jobs.{find_first}

pub data Leg : Type 0 where
  gross withholding : Leg

pub data DividendKind : Type 0 where
  dividend remunerated_portfolio : DividendKind

-- `DividendKind::as_str`
unfoldable pub kind_name : DividendKind → String
kind_name DividendKind.dividend = "dividend"
kind_name DividendKind.remunerated_portfolio = "remunerated_portfolio"

pub data UnpairedLeg : Type 0 where
  gross withholding : UnpairedLeg

-- `UnpairedLeg::as_str`
unfoldable pub unpaired_name : UnpairedLeg → String
unpaired_name UnpairedLeg.gross = "gross"
unpaired_name UnpairedLeg.withholding = "withholding"

pub record DividendEvent : Type 0 where
  pub pay_date : Option Text
  pub security : Option Text
  pub kind : DividendKind
  pub gross_cents : Option ℤ
  pub withholding_cents : Option ℤ
  pub net_cents : Option ℤ
  pub unpaired : Option UnpairedLeg

-- A row of `LEGS`.
pub record LegCode : Type 0 where
  pub code : Text
  pub leg : Leg
  pub kind : DividendKind
  pub prefix : Text

abbrev leg_code : String → Leg → DividendKind → String → LegCode
leg_code c l k p = record { code = codes c; leg = l; kind = k; prefix = codes p }

abbrev legs : List LegCode
legs =
    leg_code "DII" Leg.gross DividendKind.dividend "Div.su "
    ∷ leg_code "DIR" Leg.withholding DividendKind.dividend "Rit.div.su "
    ∷ leg_code "DER" Leg.withholding DividendKind.dividend "Rit.div.su "
    ∷ leg_code "DPR" Leg.gross DividendKind.remunerated_portfolio "Acc.div.Port.Rem. "
    ∷ leg_code "RPR" Leg.withholding DividendKind.remunerated_portfolio "Add.rit.Port.Rem. "
    ∷ []

-- `eq_ignore_ascii_case`
abbrev same_letters : Text → Text → Bool
same_letters a b = text_eq (map to_lower a) (map to_lower b)

label_of : Text → Option Text
label_of [] = none
label_of (c ∷ cs) = some (c ∷ cs)

-- The label after the prefix: the prefix is ASCII, so its bytes are matched by as many code points.
unfoldable pub security_label : Option Text → Text → Option Text
unfolding label_of
security_label none prefix = none
security_label (some description) prefix =
    let trimmed = trim description in
    if same_letters (take (length prefix) trimmed) prefix
    then label_of (trim (drop (length prefix) trimmed))
    else none

-- What stands for a group while its legs are read, with the defaults of `Group::default`.
pub record Group : Type 0 where
  pub pay_date : Option Text
  pub security : Option Text
  pub gross_cents : Option ℤ
  pub withholding_cents : Option ℤ
  pub saw_gross : Bool
  pub saw_withholding : Bool
  pub gross_unreadable : Bool
  pub withholding_unreadable : Bool

abbrev pub new_group : Group
new_group = record {
  pay_date = none;
  security = none;
  gross_cents = none;
  withholding_cents = none;
  saw_gross = false;
  saw_withholding = false;
  gross_unreadable = false;
  withholding_unreadable = false;
}

pub record Key : Type 0 where
  pub date : Text
  pub kind : DividendKind
  pub label : Text

abbrev kind_eq : DividendKind → DividendKind → Bool
kind_eq DividendKind.dividend DividendKind.dividend = true
kind_eq DividendKind.remunerated_portfolio DividendKind.remunerated_portfolio = true
kind_eq _ _ = false

abbrev kind_lt : DividendKind → DividendKind → Bool
kind_lt DividendKind.dividend DividendKind.remunerated_portfolio = true
kind_lt _ _ = false

abbrev pub key_eq : Key → Key → Bool
key_eq a b = text_eq a.date b.date && kind_eq a.kind b.kind && text_eq a.label b.label

-- The order of the tuple
abbrev pub key_lt : Key → Key → Bool
key_lt a b =
    text_lt a.date b.date
    || (text_eq a.date b.date
        && (kind_lt a.kind b.kind || (kind_eq a.kind b.kind && text_lt a.label b.label)))

abbrev pub Groups : Type 0
Groups = List (Key × Group)

-- `groups.entry(key).or_default()`, changed by what follows
unfoldable pub at_entry : Key → (Group → Group) → Groups → Groups
at_entry key f [] = (key, f new_group) ∷ []
at_entry key f ((k, g) ∷ rest) =
    let later = at_entry key f rest in
    if key_eq key k
    then (k, f g) ∷ rest
    else if key_lt key k
    then (key, f new_group) ∷ (k, g) ∷ rest
    else (k, g) ∷ later

-- The sums of a side; an amount that cannot be read marks it.
unfoldable pub add_leg : Leg → Option ℤ → Group → Group
add_leg Leg.gross (some value) g = record g {
  saw_gross = true;
  gross_cents = some (or_else g.gross_cents (pos 0) +ℤ value);
}
add_leg Leg.gross none g = record g { saw_gross = true; gross_unreadable = true }
add_leg Leg.withholding (some value) g = record g {
  saw_withholding = true;
  withholding_cents = some (or_else g.withholding_cents (pos 0) -ℤ value);
}
add_leg Leg.withholding none g = record g { saw_withholding = true; withholding_unreadable = true }

-- `a.or(b)`
abbrev first_of : Option Text → Option Text → Option Text
first_of (some a) b = some a
first_of none b = b

unfoldable pub add_names : Option Text → Option Text → Group → Group
add_names date label g = record g {
  pay_date = first_of g.pay_date date;
  security = first_of g.security label;
}

-- The leg of a row, by its code.
unfoldable pub leg_of : MovementRow → Option LegCode
leg_of row =
    let code = trim (or_else row.value.causale_movimento []) in
    find_first (λ l. same_letters l.code code) legs

module _ (cents_of : F64 → Option ℤ) where
  unfoldable pub to_cents : Option F64 → Option ℤ
  to_cents none = none
  to_cents (some amount) = cents_of amount

  unfoldable pub add_row : LegCode → MovementRow → Groups → Groups
  add_row l row groups =
      let label = security_label row.value.descrizione l.prefix in
      let key : Key = record {
        date = or_else row.value.data_operazione [];
        kind = l.kind;
        label = or_else label row.value.movement_id_hash;
      } in
      at_entry key
        (λ g.
          add_leg l.leg (to_cents row.value.importo) (add_names row.value.data_operazione label g))
        groups

  -- A row without a leg is skipped.
  unfoldable pub read_leg : Option LegCode → MovementRow → Groups → Groups
  read_leg none row groups = groups
  read_leg (some l) row groups = add_row l row groups

  unfoldable pub read_row : MovementRow → Groups → Groups
  read_row row groups = read_leg (leg_of row) row groups

  -- The rows are read in order.
  unfoldable pub gather : List MovementRow → Groups → Groups
  gather [] groups = groups
  gather (row ∷ rows) groups = gather rows (read_row row groups)

abbrev pub readable : Bool → Option ℤ → Option ℤ
readable unreadable cents = if unreadable then none else cents

abbrev pub net_of : Option ℤ → Bool → Option ℤ → Option ℤ
net_of none saw withheld = none
net_of (some paid) false withheld = some paid
net_of (some paid) true none = none
net_of (some paid) true (some charge) = some (paid -ℤ charge)

abbrev missing_leg : Bool → Bool → Option UnpairedLeg
missing_leg true true = none
missing_leg true false = some UnpairedLeg.withholding
missing_leg false _ = some UnpairedLeg.gross

unfoldable pub event_of : Key × Group → DividendEvent
event_of (key, g) =
    let paid = readable g.gross_unreadable g.gross_cents in
    let withheld = readable g.withholding_unreadable g.withholding_cents in
    record {
      pay_date = g.pay_date;
      security = g.security;
      kind = key.kind;
      gross_cents = paid;
      withholding_cents = withheld;
      net_cents = net_of paid g.saw_withholding withheld;
      unpaired = missing_leg g.saw_gross g.saw_withholding;
    }

unfoldable pub pair_dividends : (F64 → Option ℤ) → List MovementRow → List DividendEvent
pair_dividends cents_of rows = map event_of (gather cents_of rows [])
