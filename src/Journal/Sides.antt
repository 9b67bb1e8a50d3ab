-- ===== src/Journal/Sides.antt =====
-- What holds of every round trip of an instrument: its quantities, and on which side it may be open.
use optix.Base.{
  ℕ, ◌-◌, ◌≡◌, ◌≢◌, ◌<◌, ◌⊎◌, inl, inr, refl, List, [], ◌∷◌, map, arith, ltb, if◌then◌else◌, All,
  All-append,
}
use optix.Base.Int.{ℤ}
use optix.Base.Time.{Instant}
use optix.Journal.Types.{Execution, Lot, InstrumentKey, RoundTrip, Direction, long, short, closed}
use optix.Journal.Match.{
  Book, Filled, closed_trip, close_lots, push_lot, match_one, match_all, emit_open, finish,
  match_group, multiplier_for, no_lots,
}

abbrev pub HasUnits : Lot → Type 0
HasUnits lo = 0 < lo.qty

-- A round trip is of at least one unit; it closes all of its units or none, as its status says.
pub record IsWhole (t : RoundTrip) : Type 0 where
  pub some_units : 0 < t.open_qty
  pub all_closed : t.status ≡ closed → t.close_qty ≡ t.open_qty
  pub none_closed : t.status ≢ closed → t.close_qty ≡ 0

abbrev pub IsClosed : RoundTrip → Type 0
IsClosed t = t.status ≡ closed

record FillsWhole (f : Filled) : Type 0 where
  trips_whole : All IsWhole f.trips
  trips_closed : All IsClosed f.trips
  lots_left : All HasUnits f.queue
  one_is_spent : 0 < f.rest → f.queue ≡ []

closed_trip-IsWhole :
    (k : InstrumentKey) (mult : ℤ) (dir : Direction) (e : Execution) (l : Lot) (n : ℕ)
    → 0 < n
    → IsWhole (closed_trip k mult dir e l n)
unfolding closed_trip
closed_trip-IsWhole k mult dir e l n h = record {
  some_units = h;
  all_closed = λ _. refl;
  none_closed = λ ne. absurd (ne refl);
}

closed_trip-IsClosed :
    (k : InstrumentKey) (mult : ℤ) (dir : Direction) (e : Execution) (l : Lot) (n : ℕ)
    → (closed_trip k mult dir e l n).status ≡ closed
unfolding closed_trip
closed_trip-IsClosed k mult dir e l n = refl

close_lots-FillsWhole :
    (k : InstrumentKey) (mult : ℤ) (dir : Direction) (e : Execution) (qty : ℕ) (lots : List Lot)
    → All HasUnits lots
    → FillsWhole (close_lots k mult dir e qty lots)
unfolding close_lots
close_lots-FillsWhole k mult dir e qty [] h = ground arith
close_lots-FillsWhole k mult dir e qty (l ∷ ls) h =
    let take = if ltb l.qty qty then l.qty else qty in
    ground (
      arith,
      closed_trip-IsWhole k mult dir e l take,
      closed_trip-IsClosed k mult dir e l take,
      close_lots-FillsWhole k mult dir e (qty - take) ls h.1,
    )

push_lot-HasUnits :
    (e : Execution) (qty : ℕ) (lots : List Lot)
    → All HasUnits lots
    → All HasUnits (push_lot e qty lots)
unfolding push_lot
push_lot-HasUnits e qty lots h = ground (
  arith,
  All-append HasUnits lots
      (record { time = e.time; qty = qty; avg_price = e.avg_price; exec_id = e.exec_id } ∷ []) h,
)

-- If one queue was empty before an execution is matched against `lots`, one is after.
one_side_after :
    (k : InstrumentKey) (mult : ℤ) (dir : Direction) (e : Execution) (qty : ℕ) (own lots : List Lot)
    → All HasUnits lots
    → (own ≡ []) ⊎ (lots ≡ [])
    → let f = close_lots k mult dir e qty lots in (push_lot e f.rest own ≡ []) ⊎ (f.queue ≡ [])
unfolding push_lot close_lots
one_side_after k mult dir e qty own [] h s = inr refl
one_side_after k mult dir e qty own (l ∷ ls) h s =
    ground (arith, (close_lots-FillsWhole k mult dir e qty (l ∷ ls) h).one_is_spent)

-- At most one of the two queues holds lots.
pub record IsOneSided (b : Book) : Type 0 where
  pub trips_whole : All IsWhole b.trips
  pub trips_closed : All IsClosed b.trips
  pub longs_left : All HasUnits b.longs
  pub shorts_left : All HasUnits b.shorts
  pub one_side : (b.longs ≡ []) ⊎ (b.shorts ≡ [])

pub no_lots-IsOneSided : IsOneSided no_lots
no_lots-IsOneSided = record {
  trips_whole = tt;
  trips_closed = tt;
  longs_left = tt;
  shorts_left = tt;
  one_side = inl refl;
}

match_one-IsOneSided :
    (k : InstrumentKey) (mult : ℤ) (e : Execution) (b : Book)
    → IsOneSided b
    → IsOneSided (match_one k mult e b)
unfolding match_one
match_one-IsOneSided k mult e b h =
    let bf = close_lots k mult short e e.shares b.shorts in
    let sf = close_lots k mult long e e.shares b.longs in
    let bw = close_lots-FillsWhole k mult short e e.shares b.shorts h.shorts_left in
    let sw = close_lots-FillsWhole k mult long e e.shares b.longs h.longs_left in
    ground (
      arith,
      bw.lots_left,
      sw.lots_left,
      All-append IsWhole b.trips bf.trips h.trips_whole bw.trips_whole,
      All-append IsWhole b.trips sf.trips h.trips_whole sw.trips_whole,
      All-append IsClosed b.trips bf.trips h.trips_closed bw.trips_closed,
      All-append IsClosed b.trips sf.trips h.trips_closed sw.trips_closed,
      push_lot-HasUnits e bf.rest b.longs h.longs_left,
      push_lot-HasUnits e sf.rest b.shorts h.shorts_left,
      one_side_after k mult short e e.shares b.longs b.shorts h.shorts_left h.one_side,
      one_side_after k mult long e e.shares b.shorts b.longs h.longs_left,
    )

pub match_all-IsOneSided :
    (k : InstrumentKey) (mult : ℤ) (es : List Execution) (b : Book)
    → IsOneSided b
    → IsOneSided (match_all k mult es b)
unfolding match_all
match_all-IsOneSided k mult [] b h = h
match_all-IsOneSided k mult (e ∷ es) b h =
    match_all-IsOneSided k mult es (match_one k mult e b) (match_one-IsOneSided k mult e b h)

-- A round trip that is not closed lies on the given side.
abbrev pub OpenOn : Direction → RoundTrip → Type 0
OpenOn d t = IsWhole t × (t.status ≢ closed → t.direction ≡ d)

emit_open-OpenOn :
    (k : InstrumentKey) (mult : ℤ) (as_of : Instant) (dir : Direction) (lo : Lot)
    → HasUnits lo
    → OpenOn dir (emit_open k lo dir mult as_of)
unfolding emit_open
emit_open-OpenOn k mult as_of dir lo h = ground arith

emitted-OpenOn :
    (k : InstrumentKey) (mult : ℤ) (as_of : Instant) (dir : Direction) (los : List Lot)
    → All HasUnits los
    → All (OpenOn dir) (map (λ lo. emit_open k lo dir mult as_of) los)
emitted-OpenOn k mult as_of dir [] h = tt
emitted-OpenOn k mult as_of dir (l ∷ ls) h =
    (emit_open-OpenOn k mult as_of dir l h.0, emitted-OpenOn k mult as_of dir ls h.1)

closed-OpenOn :
    (d : Direction) (ts : List RoundTrip) → All IsWhole ts → All IsClosed ts → All (OpenOn d) ts
closed-OpenOn d [] w c = tt
closed-OpenOn d (t ∷ ts) w c = ((w.0, λ ne. absurd (ne c.0)), closed-OpenOn d ts w.1 c.1)

none-OpenOn :
    (k : InstrumentKey) (mult : ℤ) (as_of : Instant) (d dir : Direction) (los : List Lot)
    → los ≡ []
    → All (OpenOn d) (map (λ lo. emit_open k lo dir mult as_of) los)
none-OpenOn k mult as_of d dir los e = rw e tt

finish-OpenOn :
    (k : InstrumentKey) (mult : ℤ) (as_of : Instant) (b : Book)
    → IsOneSided b
    → (d : Direction) × All (OpenOn d) (finish k mult as_of b)
unfolding finish
finish-OpenOn k mult as_of b h = elim h.one_side [
  | inl e ↦ (
    short,
    joined short (none-OpenOn k mult as_of short long b.longs e)
        (emitted-OpenOn k mult as_of short b.shorts h.shorts_left),
  )
  | inr e ↦ (
    long,
    joined long (emitted-OpenOn k mult as_of long b.longs h.longs_left)
        (none-OpenOn k mult as_of long short b.shorts e),
  )
]
  where
    joined :
        (d : Direction)
        → All (OpenOn d) (map (λ lo. emit_open k lo long mult as_of) b.longs)
        → All (OpenOn d) (map (λ so. emit_open k so short mult as_of) b.shorts)
        → All (OpenOn d) (finish k mult as_of b)
    joined d hl hs =
        All-append (OpenOn d) b.trips _ (closed-OpenOn d b.trips h.trips_whole h.trips_closed)
          (All-append (OpenOn d) (map (λ lo. emit_open k lo long mult as_of) b.longs) _ hl hs)

-- Every round trip of an instrument is of at least one unit and closes all or none of its units as
-- its status says, and those that are not closed all lie on one side: the matcher never reports an
-- instrument as held long and short at once.
pub match_group_one_sided :
    (k : InstrumentKey) (execs : List Execution) (as_of : Instant)
    → (d : Direction) × All (OpenOn d) (match_group k execs as_of)
unfolding match_group
match_group_one_sided k execs as_of =
    let mult = multiplier_for k.sec_type in
    finish-OpenOn k mult as_of (match_all k mult execs no_lots)
      (match_all-IsOneSided k mult execs no_lots no_lots-IsOneSided)
