-- ===== src/Journal/Accounting.antt =====
-- Every share that `MatchRoundTrips` is given turns up in the round trips, on its side, once.
use optix.Base.{
  total, total-append, ℕ, ◌+◌, ◌≡◌, refl, List, [], ◌∷◌, ◌++◌, map, arith, if◌then◌else◌, ltb, ◌-◌,
}
use optix.Base.Int.{ℤ}
use optix.Base.Time.{Instant}
use optix.Journal.Types.{Execution, Lot, InstrumentKey, RoundTrip, Direction, long, short}
use optix.Journal.Match.{
  Book, Filled, closed_trip, close_lots, push_lot, is_buy, is_sell, match_one, match_all, emit_open,
  finish, match_group, multiplier_for, no_lots,
}

abbrev pub lot_qty : Lot → ℕ
lot_qty lo = lo.qty

abbrev pub held : List Lot → ℕ
held = total lot_qty

abbrev by_direction {ℓ} : {A : Type ℓ} → Direction → A → A → A
by_direction long x y = x
by_direction short x y = y

-- The units that a round trip bought: it opened by buying if it is long, and closed so if short.
abbrev pub trip_bought : RoundTrip → ℕ
trip_bought t = by_direction t.direction t.open_qty t.close_qty

abbrev pub trip_sold : RoundTrip → ℕ
trip_sold t = by_direction t.direction t.close_qty t.open_qty

abbrev pub exec_bought : Execution → ℕ
exec_bought e = if is_buy e then e.shares else 0

abbrev pub exec_sold : Execution → ℕ
exec_sold e = if is_sell e then e.shares else 0

-- What a loop closes, it takes from the units of the execution and from the queue alike.
record Closes (m : RoundTrip → ℕ) (qty : ℕ) (lots : List Lot) (f : Filled) : Type 0 where
  placed : total m f.trips + f.rest ≡ qty
  released : total m f.trips + held f.queue ≡ held lots

close_lots-Closes_bought :
    (k : InstrumentKey) (mult : ℤ) (dir : Direction) (e : Execution) (qty : ℕ) (lots : List Lot)
    → Closes trip_bought qty lots (close_lots k mult dir e qty lots)
unfolding close_lots closed_trip
close_lots-Closes_bought k mult dir e qty [] = ground arith
close_lots-Closes_bought k mult dir e qty (l ∷ ls) =
    let take = if ltb l.qty qty then l.qty else qty in
    ground (arith, close_lots-Closes_bought k mult dir e (qty - take) ls)

close_lots-Closes_sold :
    (k : InstrumentKey) (mult : ℤ) (dir : Direction) (e : Execution) (qty : ℕ) (lots : List Lot)
    → Closes trip_sold qty lots (close_lots k mult dir e qty lots)
unfolding close_lots closed_trip
close_lots-Closes_sold k mult dir e qty [] = ground arith
close_lots-Closes_sold k mult dir e qty (l ∷ ls) =
    let take = if ltb l.qty qty then l.qty else qty in
    ground (arith, close_lots-Closes_sold k mult dir e (qty - take) ls)

held-push_lot :
    (e : Execution) (qty : ℕ) (lots : List Lot) → held (push_lot e qty lots) ≡ held lots + qty
unfolding push_lot
held-push_lot e qty lots = ground (
  arith,
  total-append lot_qty lots
      (record { time = e.time; qty = qty; avg_price = e.avg_price; exec_id = e.exec_id } ∷ []),
)

abbrev book_bought : Book → ℕ
book_bought b = total trip_bought b.trips + held b.longs

abbrev book_sold : Book → ℕ
book_sold b = total trip_sold b.trips + held b.shorts

match_one-accounts :
    (k : InstrumentKey) (mult : ℤ) (e : Execution) (b : Book)
    → (book_bought (match_one k mult e b) ≡ book_bought b + exec_bought e)
      × (book_sold (match_one k mult e b) ≡ book_sold b + exec_sold e)
unfolding match_one
match_one-accounts k mult e b = ground (
  arith,
  close_lots-Closes_bought k mult short e e.shares b.shorts,
  close_lots-Closes_sold k mult short e e.shares b.shorts,
  close_lots-Closes_bought k mult long e e.shares b.longs,
  close_lots-Closes_sold k mult long e e.shares b.longs,
  held-push_lot e (close_lots k mult short e e.shares b.shorts).rest b.longs,
  held-push_lot e (close_lots k mult long e e.shares b.longs).rest b.shorts,
  total-append trip_bought b.trips (close_lots k mult short e e.shares b.shorts).trips,
  total-append trip_sold b.trips (close_lots k mult short e e.shares b.shorts).trips,
  total-append trip_bought b.trips (close_lots k mult long e e.shares b.longs).trips,
  total-append trip_sold b.trips (close_lots k mult long e e.shares b.longs).trips,
)

match_all-accounts :
    (k : InstrumentKey) (mult : ℤ) (es : List Execution) (b : Book)
    → (book_bought (match_all k mult es b) ≡ book_bought b + total exec_bought es)
      × (book_sold (match_all k mult es b) ≡ book_sold b + total exec_sold es)
unfolding match_all
match_all-accounts k mult [] b = omega arith
match_all-accounts k mult (e ∷ es) b =
    omega
      (arith, match_one-accounts k mult e b, match_all-accounts k mult es (match_one k mult e b))

-- A lot that is left open is a round trip that opened with its units and closed none.
emit_open-units :
    (k : InstrumentKey) (mult : ℤ) (as_of : Instant) (lo : Lot) (dir : Direction)
    → (trip_bought (emit_open k lo dir mult as_of) ≡ by_direction dir lo.qty 0)
      × (trip_sold (emit_open k lo dir mult as_of) ≡ by_direction dir 0 lo.qty)
unfolding emit_open
emit_open-units k mult as_of lo long = ground arith
emit_open-units k mult as_of lo short = ground arith

module _ (k : InstrumentKey) (mult : ℤ) (as_of : Instant) where
  emitted-units :
      (dir : Direction) (los : List Lot)
      → (total trip_bought (map (λ lo. emit_open k lo dir mult as_of) los)
          ≡ by_direction dir (held los) 0)
        × (total trip_sold (map (λ lo. emit_open k lo dir mult as_of) los)
            ≡ by_direction dir 0 (held los))
  emitted-units long [] = (refl, refl)
  emitted-units short [] = (refl, refl)
  emitted-units long (l ∷ ls) =
      omega (arith, emit_open-units k mult as_of l long, emitted-units long ls)
  emitted-units short (l ∷ ls) =
      omega (arith, emit_open-units k mult as_of l short, emitted-units short ls)

  finish-units :
      (b : Book)
      → (total trip_bought (finish k mult as_of b) ≡ book_bought b)
        × (total trip_sold (finish k mult as_of b) ≡ book_sold b)
  unfolding finish
  finish-units b =
      let open_longs = map (λ lo. emit_open k lo long mult as_of) b.longs in
      let open_shorts = map (λ so. emit_open k so short mult as_of) b.shorts in
      omega (
        arith,
        total-append trip_bought b.trips (open_longs ++ open_shorts),
        total-append trip_sold b.trips (open_longs ++ open_shorts),
        total-append trip_bought open_longs open_shorts,
        total-append trip_sold open_longs open_shorts,
        emitted-units long b.longs,
        emitted-units short b.shorts,
      )

-- The units that the round trips of an instrument bought and sold are those that its executions
-- bought and sold, whatever their order.
pub match_group_accounts :
    (k : InstrumentKey) (execs : List Execution) (as_of : Instant)
    → (total trip_bought (match_group k execs as_of) ≡ total exec_bought execs)
      × (total trip_sold (match_group k execs as_of) ≡ total exec_sold execs)
unfolding match_group
match_group_accounts k execs as_of =
    let mult = multiplier_for k.sec_type in
    omega (
      arith,
      finish-units k mult as_of (match_all k mult execs no_lots),
      match_all-accounts k mult execs no_lots,
    )
