-- ===== src/Query/Dividends/Totals.antt =====
-- crates/fineco-query/src/dividends.rs and lib.rs: the totals of the events are the sums of their nets.
use fineco_helper.Base.Int.{ℤ, pos, ◌+ℤ◌, ◌-ℤ◌, +ℤ_parts, -ℤ_parts, eq_of_parts}
use fineco_helper.Store.Rows.{F64}
use fineco_helper.Base.{
  [], ◌∷◌, none, some, true, false, inl, inr, refl, Option, ◌≡◌, Bool, List, or_else, arith, All,
  not, subst, map, is_some, Bool-cases, Option-cases, sym, ◌+◌, ◌∙◌, count, if◌then◌else◌, ap, suc,
  ℕ,
}
use fineco_helper.Query.Dividends.{
  Key, at_entry, add_leg, DividendEvent, event_of, Groups, Group, Leg, add_row, read_row, gather,
  net_of, readable, new_group, add_names, LegCode, key_eq, leg_of, key_lt, read_leg, pair_dividends,
}
use fineco_helper.Store.Movements.{MovementRow}
use fineco_helper.Query.Answer.{Totals, add_event, totals_from, totals_of, net_total}

-- A group that has seen no withholding has no sum of withholdings.
abbrev IsSeen : Key × Group → Type 0
IsSeen kg = kg.1.saw_withholding ≡ false → kg.1.withholding_cents ≡ none

at_entry-IsSeen :
    (key : Key) (f : Group → Group) (groups : Groups)
    → ((g : Group)
        → (g.saw_withholding ≡ false → g.withholding_cents ≡ none)
        → (f g).saw_withholding ≡ false
        → (f g).withholding_cents ≡ none)
    → All IsSeen groups
    → All IsSeen (at_entry key f groups)
unfolding at_entry
at_entry-IsSeen key f [] k h = (k new_group (λ e. refl), tt)
at_entry-IsSeen key f ((k1, g) ∷ rest) k h = elim (Bool-cases (key_eq key k1)) [
  | inl same ↦ rw same (k g h.0, h.1)
  | inr other ↦ elim (Bool-cases (key_lt key k1)) [
    | inl before ↦ rw other (rw before (k new_group (λ e. refl), h))
    | inr past ↦ rw other (rw past (h.0, at_entry-IsSeen key f rest k h.1))
  ]
]

add_leg-IsSeen :
    (l : Leg) (c : Option ℤ) (g : Group)
    → (g.saw_withholding ≡ false → g.withholding_cents ≡ none)
    → (add_leg l c g).saw_withholding ≡ false
    → (add_leg l c g).withholding_cents ≡ none
unfolding add_leg
add_leg-IsSeen Leg.gross (some v) g h e = h e
add_leg-IsSeen Leg.gross none g h e = h e
add_leg-IsSeen Leg.withholding (some v) g h e = absurd cc
add_leg-IsSeen Leg.withholding none g h e = absurd cc

module _ (cents_of : F64 → Option ℤ) where
  add_row-IsSeen :
      (l : LegCode) (row : MovementRow) (groups : Groups)
      → All IsSeen groups
      → All IsSeen (add_row cents_of l row groups)
  unfolding add_row add_names
  add_row-IsSeen l row groups h =
      at_entry-IsSeen _ _ groups (λ g k. add_leg-IsSeen l.leg _ (add_names _ _ g) k) h

  read_leg-IsSeen :
      (o : Option LegCode) (row : MovementRow) (groups : Groups)
      → All IsSeen groups
      → All IsSeen (read_leg cents_of o row groups)
  unfolding read_leg
  read_leg-IsSeen none row groups h = h
  read_leg-IsSeen (some l) row groups h = add_row-IsSeen l row groups h

  gather-IsSeen :
      (rows : List MovementRow) (groups : Groups)
      → All IsSeen groups
      → All IsSeen (gather cents_of rows groups)
  unfolding gather read_row
  gather-IsSeen [] groups h = h
  gather-IsSeen (row ∷ rows) groups h =
      gather-IsSeen rows (read_row cents_of row groups) (read_leg-IsSeen (leg_of row) row groups h)

-- The net of an event, if it has one, is its gross less its withholding.
abbrev IsBalanced : DividendEvent → Type 0
IsBalanced e =
    (n : ℤ)
    → e.net_cents ≡ some n
    → n ≡ or_else e.gross_cents (pos 0) -ℤ or_else e.withholding_cents (pos 0)

minus_nothing : (a : ℤ) → a ≡ a -ℤ pos 0
minus_nothing a = eq_of_parts a (a -ℤ pos 0) (omega (arith, -ℤ_parts a (pos 0)))

net_of-IsBalanced :
    (paid withheld : Option ℤ) (saw : Bool)
    → (saw ≡ false → withheld ≡ none)
    → (n : ℤ) → net_of paid saw withheld ≡ some n
    → n ≡ or_else paid (pos 0) -ℤ or_else withheld (pos 0)
net_of-IsBalanced none w saw s n h = absurd cc
net_of-IsBalanced (some p) w false s n h =
    let none_withheld = s refl in
    subst (λ o. n ≡ p -ℤ or_else o (pos 0)) (sym none_withheld)
      (subst (λ x. x ≡ p -ℤ pos 0) (some_inj p n h) (minus_nothing p))
  where
    some_inj : (a b : ℤ) → some a ≡ some b → a ≡ b
    some_inj a b e = cc
net_of-IsBalanced (some p) none true s n h = absurd cc
net_of-IsBalanced (some p) (some w) true s n h = cc

readable-none : (b : Bool) (o : Option ℤ) → o ≡ none → readable b o ≡ none
readable-none true o h = refl
readable-none false o h = h

event_of-IsBalanced : (kg : Key × Group) → IsSeen kg → IsBalanced (event_of kg)
unfolding event_of
event_of-IsBalanced (key, g) h =
    net_of-IsBalanced (readable g.gross_unreadable g.gross_cents)
      (readable g.withholding_unreadable g.withholding_cents) g.saw_withholding
      (λ e. readable-none g.withholding_unreadable g.withholding_cents (h e))

events-IsBalanced : (groups : Groups) → All IsSeen groups → All IsBalanced (map event_of groups)
events-IsBalanced [] h = tt
events-IsBalanced (kg ∷ rest) h = (event_of-IsBalanced kg h.0, events-IsBalanced rest h.1)

-- The sum of the nets that there are.
abbrev pub sum_of_nets : List DividendEvent → ℤ
sum_of_nets [] = pos 0
sum_of_nets (e ∷ es) = or_else e.net_cents (pos 0) +ℤ sum_of_nets es

abbrev pub has_no_net : DividendEvent → Bool
has_no_net e = not (is_some e.net_cents)

exchange : (a b c d : ℤ) → (a +ℤ b) -ℤ (c +ℤ d) ≡ (a -ℤ c) +ℤ (b -ℤ d)
exchange a b c d = eq_of_parts _ _ (
    omega (
      arith,
      +ℤ_parts a b,
      +ℤ_parts c d,
      -ℤ_parts (a +ℤ b) (c +ℤ d),
      -ℤ_parts a c,
      -ℤ_parts b d,
      +ℤ_parts (a -ℤ c) (b -ℤ d),
    ))

add_assoc : (a b c : ℤ) → (a +ℤ b) +ℤ c ≡ a +ℤ (b +ℤ c)
add_assoc a b c =
    eq_of_parts _ _
      (omega (arith, +ℤ_parts a b, +ℤ_parts (a +ℤ b) c, +ℤ_parts b c, +ℤ_parts a (b +ℤ c)))

add_zero : (a : ℤ) → a ≡ a +ℤ pos 0
add_zero a = eq_of_parts a (a +ℤ pos 0) (omega (arith, +ℤ_parts a (pos 0)))

zero_add : (a : ℤ) → a ≡ pos 0 +ℤ a
zero_add a = eq_of_parts a (pos 0 +ℤ a) (omega (arith, +ℤ_parts (pos 0) a))

-- What the fold makes of the nets and of the events without one.
abbrev IsTotal : Totals → List DividendEvent → Totals → Type 0
IsTotal t es u =
    (net_total u ≡ net_total t +ℤ sum_of_nets es)
    × (u.events_excluded ≡ t.events_excluded + count has_no_net es)

add_event-net :
    (t : Totals) (e : DividendEvent)
    → IsBalanced e
    → (net_total (add_event t e) ≡ net_total t +ℤ or_else e.net_cents (pos 0))
      × ((add_event t e).events_excluded ≡ t.events_excluded + (if has_no_net e then 1 else 0))
unfolding add_event
add_event-net t e b = elim (Option-cases e.net_cents) [
  | inl lacks ↦ rw lacks (add_zero (net_total t), omega arith)
  | inr (n, has) ↦ rw has (
    exchange t.gross_cents (or_else e.gross_cents (pos 0)) t.withholding_cents
          (or_else e.withholding_cents (pos 0))
        ∙ ap (λ x. net_total t +ℤ x) (sym (b n has)),
    omega arith,
  )
]

counted_on :
    (b : Bool) (x y n : ℕ) → y ≡ x + (if b then 1 else 0) → y + n ≡ x + (if b then suc n else n)
counted_on true x y n h = omega (arith, h)
counted_on false x y n h = omega (arith, h)

totals_from-IsTotal :
    (t : Totals) (es : List DividendEvent) → All IsBalanced es → IsTotal t es (totals_from t es)
unfolding totals_from
totals_from-IsTotal t [] h = (add_zero (net_total t), omega arith)
totals_from-IsTotal t (e ∷ es) h =
    let (nets, excluded) = totals_from-IsTotal (add_event t e) es h.1 in
    let (net, lacks) = add_event-net t e h.0 in
    (
      nets ∙ ap (λ x. x +ℤ sum_of_nets es) net ∙ add_assoc (net_total t) _ (sum_of_nets es),
      excluded ∙ counted_on (has_no_net e) t.events_excluded _ (count has_no_net es) lacks,
    )

-- The net total of the dividends answer is the sum of the nets of its events, and its excluded events
-- are those without a net, for any captured movements and any rounding of amounts.
pub totals_of-pair_dividends :
    (cents_of : F64 → Option ℤ) (rows : List MovementRow)
    → (net_total (totals_of (pair_dividends cents_of rows))
        ≡ sum_of_nets (pair_dividends cents_of rows))
      × ((totals_of (pair_dividends cents_of rows)).events_excluded
          ≡ count has_no_net (pair_dividends cents_of rows))
unfolding totals_of pair_dividends
totals_of-pair_dividends cents_of rows =
    let zero_totals : Totals = record {
      gross_cents = pos 0;
      withholding_cents = pos 0;
      events_excluded = 0;
    } in
    let (nets, excluded) =
      totals_from-IsTotal zero_totals (map event_of (gather cents_of rows []))
        (events-IsBalanced (gather cents_of rows []) (gather-IsSeen cents_of rows [] tt)) in
    (
      nets
          ∙ ap (λ x. x +ℤ sum_of_nets (map event_of (gather cents_of rows [])))
              (sym (minus_nothing (pos 0)))
          ∙ sym (zero_add _),
      omega (arith, excluded),
    )
