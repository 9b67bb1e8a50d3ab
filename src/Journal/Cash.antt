-- ===== src/Journal/Cash.antt =====
-- The realised P&L of the round trips against the cash that the executions moved.
use optix.Base.{
  ℕ, ◌+◌, ◌≡◌, inl, inr, refl, List, [], ◌∷◌, ◌++◌, map, arith, ltb, if◌then◌else◌, Bool-cases,
}
use optix.Base.Int.{
  ℤ, pos, neg, ◌+ℤ◌, ◌-ℤ◌, ◌*ℤ◌, int_laws, *ℤ_add, *ℤ_sub, *ℤ_add_units, parts_of_eq,
}
use optix.Base.Text.{codes, text_eq}
use optix.Base.Time.{Instant}
use optix.Journal.Types.{
  Execution, Lot, InstrumentKey, RoundTrip, Direction, long, short, opened, closed, expired,
}
use optix.Journal.Fill.{FrontCase, front_case}
use optix.Journal.Match.{
  Book, close_pnl, closed_trip, close_lots, push_lot, is_buy, is_sell, match_one, match_all,
  expiry_pnl, emit_open, finish, match_group, multiplier_for, no_lots,
}

-- The sum of an amount over a list.
abbrev pub sum {ℓ} : {A : Type ℓ} → (A → ℤ) → List A → ℤ
sum m [] = pos 0
sum m (x ∷ xs) = m x +ℤ sum m xs

pub sum-append {ℓ} :
    {A : Type ℓ} (m : A → ℤ) (xs ys : List A) → sum m (xs ++ ys) ≡ sum m xs +ℤ sum m ys
sum-append m [] ys = omega int_laws
sum-append m (x ∷ xs) ys = rw (sum-append m xs ys) (omega int_laws)

-- What `n` units at a price come to.
unfoldable pub value : ℤ → ℤ → ℕ → ℤ
value mult p n = p *ℤ pos n *ℤ mult

-- The cash that opening on a side brings in: a sale earns the value, a purchase costs it.
abbrev pub signed : Direction → ℤ → ℤ
signed long x = pos 0 -ℤ x
signed short x = x

abbrev pub exec_cash : ℤ → Execution → ℤ
exec_cash mult e =
    if is_buy e
    then signed long (value mult e.avg_price e.shares)
    else if is_sell e
    then signed short (value mult e.avg_price e.shares)
    else pos 0

abbrev pub lot_cash : ℤ → Direction → Lot → ℤ
lot_cash mult dir lo = signed dir (value mult lo.avg_price lo.qty)

-- The P&L that a round trip realised; for one that is still open, the cash that it opened with.
abbrev pub trip_cash : RoundTrip → ℤ
trip_cash t = elim t.status [
  | opened ↦ signed t.direction (value t.multiplier t.open_avg_price t.open_qty)
  | closed ↦ t.realized_pnl
  | expired ↦ t.realized_pnl
]

value_add : (mult p : ℤ) (m n : ℕ) → value mult p (m + n) ≡ value mult p m +ℤ value mult p n
unfolding value
value_add mult p m n = rw (*ℤ_add_units p m n) (*ℤ_add (p *ℤ pos m) (p *ℤ pos n) mult)

value_zero : (mult p : ℤ) → value mult p 0 ≡ pos 0
value_zero mult p = omega (int_laws, parts_of_eq (value_add mult p 0 0))

close_pnl-value :
    (mult : ℤ) (dir : Direction) (o c : ℤ) (n : ℕ)
    → close_pnl dir o c n mult +ℤ signed dir (value mult c n) ≡ signed dir (value mult o n)
unfolding close_pnl value
close_pnl-value mult long o c n =
    rw (*ℤ_sub c o (pos n), *ℤ_sub (c *ℤ pos n) (o *ℤ pos n) mult) (omega int_laws)
close_pnl-value mult short o c n =
    rw (*ℤ_sub o c (pos n), *ℤ_sub (o *ℤ pos n) (c *ℤ pos n) mult) (omega int_laws)

signed-value_add :
    (mult : ℤ) (dir : Direction) (p : ℤ) {n : ℕ} (a b : ℕ)
    → n ≡ a + b
    → signed dir (value mult p n) ≡ signed dir (value mult p a) +ℤ signed dir (value mult p b)
signed-value_add mult long p a b h = rw (h, value_add mult p a b) (omega int_laws)
signed-value_add mult short p a b h = rw (h, value_add mult p a b) (omega int_laws)

signed-value_zero :
    (mult : ℤ) (dir : Direction) (p : ℤ) {n : ℕ} → n ≡ 0 → signed dir (value mult p n) ≡ pos 0
signed-value_zero mult long p h = rw (h, value_zero mult p) (omega int_laws)
signed-value_zero mult short p h = rw (h, value_zero mult p) (omega int_laws)

module _ (k : InstrumentKey) (mult : ℤ) (e : Execution) where
  closed_trip-cash :
      (dir : Direction) (l : Lot) (n : ℕ)
      → trip_cash (closed_trip k mult dir e l n) +ℤ signed dir (value mult e.avg_price n)
        ≡ signed dir (value mult l.avg_price n)
  unfolding closed_trip
  closed_trip-cash dir l n = close_pnl-value mult dir l.avg_price e.avg_price n

  -- Closing trades the cash of the lots for P&L, at the price of the execution.
  close_lots-cash :
      (dir : Direction) (qty : ℕ) (lots : List Lot)
      → let f = close_lots k mult dir e qty lots in
        sum trip_cash f.trips
          +ℤ sum (lot_cash mult dir) f.queue
          +ℤ signed dir (value mult e.avg_price qty)
        ≡ sum (lot_cash mult dir) lots +ℤ signed dir (value mult e.avg_price f.rest)
  unfolding close_lots
  close_lots-cash dir qty [] = omega int_laws
  close_lots-cash dir qty (l ∷ ls) = elim (front_case k mult dir e qty l ls) [
    | FrontCase.placed h eq ↦ rw (eq, h) (omega int_laws)
    | FrontCase.used_up more h eq ↦ rw eq (
        omega (
          int_laws,
          parts_of_eq (close_lots-cash dir more ls),
          parts_of_eq (signed-value_add mult dir e.avg_price l.qty more h),
          parts_of_eq (closed_trip-cash dir l l.qty),
        ))
    | FrontCase.remains left _ h eq ↦ rw eq (
        omega (
          int_laws,
          parts_of_eq (signed-value_add mult dir l.avg_price qty left h),
          parts_of_eq (signed-value_zero mult dir e.avg_price {n = 0} refl),
          parts_of_eq (closed_trip-cash dir l qty),
        ))
  ]

  push_lot-cash :
      (dir : Direction) (qty : ℕ) (lots : List Lot)
      → sum (lot_cash mult dir) (push_lot e qty lots)
        ≡ sum (lot_cash mult dir) lots +ℤ signed dir (value mult e.avg_price qty)
  unfolding push_lot
  push_lot-cash dir qty lots = elim (Bool-cases (ltb 0 qty)) [
    | inr none_left ↦ rw none_left (
        omega
          (int_laws, parts_of_eq (signed-value_zero mult dir e.avg_price {n = qty} (ground arith))))
    | inl some_left ↦ rw (some_left, sum-append (lot_cash mult dir) lots) (omega int_laws)
  ]

-- The cash that a book stands for: P&L so far, and what its open lots were opened with.
abbrev book_cash : ℤ → Book → ℤ
book_cash mult b =
    sum trip_cash b.trips +ℤ sum (lot_cash mult long) b.longs +ℤ sum (lot_cash mult short) b.shorts

match_one-cash :
    (k : InstrumentKey) (mult : ℤ) (e : Execution) (b : Book)
    → book_cash mult (match_one k mult e b) ≡ book_cash mult b +ℤ exec_cash mult e
unfolding match_one
match_one-cash k mult e b =
    let bf = close_lots k mult short e e.shares b.shorts in
    let sf = close_lots k mult long e e.shares b.longs in
    elim (Bool-cases (is_buy e)) [
      | inl buys ↦ rw buys (
          omega (
            int_laws,
            parts_of_eq (sum-append trip_cash b.trips bf.trips),
            parts_of_eq (close_lots-cash k mult e short e.shares b.shorts),
            parts_of_eq (push_lot-cash k mult e long bf.rest b.longs),
          ))
      | inr no_buy ↦ elim (Bool-cases (text_eq e.side (codes "SLD"))) [
        | inl sells ↦
            rw (no_buy, sells)
              (omega (
                int_laws,
                parts_of_eq (sum-append trip_cash b.trips sf.trips),
                parts_of_eq (close_lots-cash k mult e long e.shares b.longs),
                parts_of_eq (push_lot-cash k mult e short sf.rest b.shorts),
              ))
        | inr no_sale ↦ rw (no_buy, no_sale) (omega int_laws)
      ]
    ]

match_all-cash :
    (k : InstrumentKey) (mult : ℤ) (es : List Execution) (b : Book)
    → book_cash mult (match_all k mult es b) ≡ book_cash mult b +ℤ sum (exec_cash mult) es
unfolding match_all
match_all-cash k mult [] b = omega int_laws
match_all-cash k mult (e ∷ es) b = omega (
  int_laws,
  parts_of_eq (match_one-cash k mult e b),
  parts_of_eq (match_all-cash k mult es (match_one k mult e b)),
)

zero-*ℤ : (a : ℤ) → pos 0 *ℤ a ≡ pos 0
unfolding ◌*ℤ◌
zero-*ℤ a = ground arith

neg-*ℤ : (a b : ℤ) → neg a *ℤ b ≡ pos 0 -ℤ a *ℤ b
unfolding ◌*ℤ◌ ◌-ℤ◌
neg-*ℤ a b = ground arith

expiry_pnl-value :
    (dir : Direction) (lo : Lot) (mult : ℤ)
    → expiry_pnl dir lo mult ≡ signed dir (value mult lo.avg_price lo.qty)
unfolding expiry_pnl value
expiry_pnl-value long lo mult =
    rw (neg-*ℤ lo.avg_price (pos lo.qty), *ℤ_sub (pos 0) (lo.avg_price *ℤ pos lo.qty) mult)
      (omega (int_laws, parts_of_eq (zero-*ℤ mult)))
expiry_pnl-value short lo mult = refl

emit_open-cash :
    (k : InstrumentKey) (mult : ℤ) (as_of : Instant) (dir : Direction) (lo : Lot)
    → trip_cash (emit_open k lo dir mult as_of) ≡ lot_cash mult dir lo
unfolding emit_open
emit_open-cash k mult as_of dir lo = ground (arith, expiry_pnl-value dir lo mult)

emitted-cash :
    (k : InstrumentKey) (mult : ℤ) (as_of : Instant) (dir : Direction) (los : List Lot)
    → sum trip_cash (map (λ lo. emit_open k lo dir mult as_of) los) ≡ sum (lot_cash mult dir) los
emitted-cash k mult as_of dir [] = refl
emitted-cash k mult as_of dir (l ∷ ls) =
    rw (emit_open-cash k mult as_of dir l, emitted-cash k mult as_of dir ls)

-- The P&L that the round trips of an instrument realise, with the cash that its open ones opened
-- with, is exactly the cash that its executions moved, at the instrument's multiplier.
pub match_group_cash :
    (k : InstrumentKey) (execs : List Execution) (as_of : Instant)
    → sum trip_cash (match_group k execs as_of) ≡ sum (exec_cash (multiplier_for k.sec_type)) execs
unfolding match_group finish
match_group_cash k execs as_of =
    let mult = multiplier_for k.sec_type in
    let b = match_all k mult execs no_lots in
    let open_longs = map (λ lo. emit_open k lo long mult as_of) b.longs in
    let open_shorts = map (λ so. emit_open k so short mult as_of) b.shorts in
    omega (
      int_laws,
      parts_of_eq (sum-append trip_cash b.trips (open_longs ++ open_shorts)),
      parts_of_eq (sum-append trip_cash open_longs open_shorts),
      parts_of_eq (emitted-cash k mult as_of long b.longs),
      parts_of_eq (emitted-cash k mult as_of short b.shorts),
      parts_of_eq (match_all-cash k mult execs no_lots),
    )
