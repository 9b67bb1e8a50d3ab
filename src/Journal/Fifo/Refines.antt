-- ===== src/Journal/Fifo/Refines.antt =====
-- `matchGroup` keeps the queue discipline of the module above.
use native.Mathlib.Nat.{suc-add, zero-add}
use mathlib.Core.List.{map-append}
use optix.Base.{
  ℕ, zero, suc, ◌+◌, ◌-◌, ◌≡◌, refl, ap, sym, ◌∙◌, List, [], ◌∷◌, ◌++◌, map, append-nil,
  append_assoc, arith, length, take, drop, replicate, Bool-cases, ltb, inl, inr, All, if◌then◌else◌,
  spread, spread-append, Bool, true, false,
}
use optix.Base.Int.{ℤ}
use optix.Base.Text.{codes, text_eq}
use optix.Base.Time.{Instant}
use optix.Journal.Types.{Execution, Lot, InstrumentKey, RoundTrip, Direction, long, short}
use optix.Journal.Fill.{FrontCase, front_case}
use optix.Journal.Match.{
  Book, Filled, closed_trip, close_lots, push_lot, is_buy, match_one, match_all, emit_open, finish,
  match_group, multiplier_for, no_lots,
}
use optix.Journal.Sides.{IsClosed, match_all-IsOneSided, no_lots-IsOneSided}
use optix.Journal.Fifo.{
  same_side, Share, ShareTrip, Queues, exec_share, close_share, buy_shares, sell_shares, fifo_one,
  fifo_all, no_shares, lot_share, lot_shares, closed_shares, open_shares, book_shares,
}

take-replicate :
    {A : Type 0} (n m : ℕ) (a : A) (r : List A)
    → take (n + m) (replicate n a ++ r) ≡ replicate n a ++ take m r
take-replicate zero m a r = rw zero-add
take-replicate (suc n) m a r = rw suc-add (ap (◌∷◌ a) (take-replicate n m a r))

drop-replicate :
    {A : Type 0} (n m : ℕ) (a : A) (r : List A) → drop (n + m) (replicate n a ++ r) ≡ drop m r
drop-replicate zero m a r = rw zero-add
drop-replicate (suc n) m a r = rw suc-add (drop-replicate n m a r)

length-replicate :
    {A : Type 0} (n : ℕ) (a : A) (r : List A) → length (replicate n a ++ r) ≡ n + length r
length-replicate zero a r = omega arith
length-replicate (suc n) a r = omega (arith, length-replicate n a r)

map-replicate :
    {A B : Type 0} (f : A → B) (n : ℕ) (a : A) → map f (replicate n a) ≡ replicate n (f a)
map-replicate f zero a = refl
map-replicate f (suc n) a = ap (◌∷◌ (f a)) (map-replicate f n a)

take_within :
    {A : Type 0} (n m left : ℕ) (a : A) (r : List A)
    → m ≡ n + left
    → take n (replicate m a ++ r) ≡ replicate n a
take_within zero m left a r h = refl
take_within (suc n) zero left a r h = absurd (omega arith)
take_within (suc n) (suc m) left a r h = ap (◌∷◌ a) (take_within n m left a r (omega arith))

drop_within :
    {A : Type 0} (n m left : ℕ) (a : A) (r : List A)
    → m ≡ n + left
    → drop n (replicate m a ++ r) ≡ replicate left a ++ r
drop_within zero m left a r h = let e : m ≡ left = omega arith in rw e
drop_within (suc n) zero left a r h = absurd (omega arith)
drop_within (suc n) (suc m) left a r h = drop_within n m left a r (omega arith)

take_nil : {A : Type 0} (n : ℕ) → take {A = A} n [] ≡ []
take_nil zero = refl
take_nil (suc n) = refl

drop_nil : {A : Type 0} (n : ℕ) → drop {A = A} n [] ≡ []
drop_nil zero = refl
drop_nil (suc n) = refl

queues_eq :
    {l l' s s' : List Share} {t t' : List ShareTrip}
    → l ≡ l'
    → s ≡ s'
    → t ≡ t'
    → ◌≡◌ {A = Queues}
        (record { longs = l; shorts = s; trips = t })
        (record { longs = l'; shorts = s'; trips = t' })
queues_eq p q r = cc

-- A share that is added before `n` more is one of `suc n`.
held_more :
    (n m : ℕ) (l : List Share) (a : Share)
    → m ≡ suc n
    → (l ++ a ∷ []) ++ replicate n a ≡ l ++ replicate m a
held_more n m l a h = rw (h, append_assoc)

trips_more :
    (d : Direction) (e : Execution) (t : List ShareTrip) (x : Share) (xs : List Share)
    → (t ++ close_share d e x ∷ []) ++ map (close_share d e) xs
      ≡ t ++ map (close_share d e) (x ∷ xs)
trips_more d e t x xs = rw append_assoc

none_held : (n : ℕ) (l : List Share) (a : Share) → n ≡ 0 → l ++ replicate n a ≡ l
none_held n l a h = rw (h, append-nil)

same_held : {n m : ℕ} (l : List Share) (a : Share) → n ≡ m → l ++ replicate n a ≡ l ++ replicate m a
same_held l a h = rw h

-- Buying share by share takes the oldest short shares and holds what is left of the order.
buy_shares_lem :
    (n : ℕ) (e : Execution) (l s : List Share) (t : List ShareTrip)
    → buy_shares n e (record { longs = l; shorts = s; trips = t }) ≡ record {
      longs = l ++ replicate (n - length s) (exec_share e);
      shorts = drop n s;
      trips = t ++ map (close_share short e) (take n s);
    }
unfolding buy_shares
buy_shares_lem zero e l s t =
    queues_eq (sym (none_held (0 - length s) l _ (omega arith))) refl (sym (append-nil t))
buy_shares_lem (suc n) e l [] t =
    rw
      (
        buy_shares_lem n e (l ++ exec_share e ∷ []) [] t,
        drop_nil {A = Share} n,
        take_nil {A = Share} n,
      )
      (queues_eq (held_more (n - 0) (suc n - 0) l (exec_share e) (omega arith)) refl refl)
buy_shares_lem (suc n) e l (x ∷ xs) t =
    rw (buy_shares_lem n e l xs (t ++ close_share short e x ∷ [])) (
      queues_eq (same_held l (exec_share e) (omega arith)) refl
        (trips_more short e t x (take n xs)))

sell_shares_lem :
    (n : ℕ) (e : Execution) (l s : List Share) (t : List ShareTrip)
    → sell_shares n e (record { longs = l; shorts = s; trips = t }) ≡ record {
      longs = drop n l;
      shorts = s ++ replicate (n - length l) (exec_share e);
      trips = t ++ map (close_share long e) (take n l);
    }
unfolding sell_shares
sell_shares_lem zero e l s t =
    queues_eq refl (sym (none_held (0 - length l) s _ (omega arith))) (sym (append-nil t))
sell_shares_lem (suc n) e [] s t =
    rw
      (
        sell_shares_lem n e [] (s ++ exec_share e ∷ []) t,
        drop_nil {A = Share} n,
        take_nil {A = Share} n,
      )
      (queues_eq refl (held_more (n - 0) (suc n - 0) s (exec_share e) (omega arith)) refl)
sell_shares_lem (suc n) e (x ∷ xs) s t =
    rw (sell_shares_lem n e xs s (t ++ close_share long e x ∷ [])) (
      queues_eq refl (same_held s (exec_share e) (omega arith)) (trips_more long e t x (take n xs)))

-- What a loop over the lots of a queue does, read share by share.
record FillsShares (dir : Direction) (e : Execution) (qty : ℕ) (q : List Share) (f : Filled)
    : Type 0 where
  closes : spread closed_shares f.trips ≡ map (close_share dir e) (take qty q)
  keeps : spread lot_shares f.queue ≡ drop qty q
  leaves : f.rest ≡ qty - length q

module _ (k : InstrumentKey) (mult : ℤ) (dir : Direction) (e : Execution) where
  closed_trip-shares :
      (n : ℕ) (l : Lot)
      → closed_shares (closed_trip k mult dir e l n)
        ≡ map (close_share dir e) (lot_shares (record l { qty = n }))
  unfolding closed_trip
  closed_trip-shares n l = rw map-replicate

  close_lots-FillsShares :
      (qty : ℕ) (lots : List Lot)
      → FillsShares dir e qty (spread lot_shares lots) (close_lots k mult dir e qty lots)
  unfolding close_lots
  close_lots-FillsShares qty [] = record {
    closes = rw (take_nil {A = Share} qty);
    keeps = rw (drop_nil {A = Share} qty);
    leaves = omega arith;
  }
  close_lots-FillsShares qty (l ∷ ls) =
      let u = lot_share l in
      let r = spread lot_shares ls in
      elim (front_case k mult dir e qty l ls) [
        | FrontCase.placed h eq ↦
            rw (eq, h) (record { closes = refl; keeps = refl; leaves = omega arith })
        | FrontCase.used_up more h eq ↦
            let rest = close_lots-FillsShares more ls in
            rw (eq, h)
              (record {
                closes = rw (
                  take-replicate l.qty more u r,
                  map-append,
                  closed_trip-shares l.qty l,
                  rest.closes,
                );
                keeps = rest.keeps ∙ sym (drop-replicate l.qty more u r);
                leaves = omega (arith, rest.leaves, length-replicate l.qty u r);
              })
        | FrontCase.remains left some h eq ↦ rw eq (record {
          closes = rw (take_within qty l.qty left u r h, append-nil, closed_trip-shares qty l);
          keeps = sym (drop_within qty l.qty left u r h);
          leaves = omega (arith, length-replicate l.qty u r);
        })
      ]

push_lot-shares :
    (e : Execution) (qty : ℕ) (lots : List Lot)
    → spread lot_shares (push_lot e qty lots)
      ≡ spread lot_shares lots ++ replicate qty (exec_share e)
unfolding push_lot
push_lot-shares e qty lots = elim (Bool-cases (ltb 0 qty)) [
  | inl some_left ↦ rw (some_left, spread-append lot_shares lots) (rw append-nil)
  | inr none_left ↦ rw none_left (sym (none_held qty _ (exec_share e) (ground arith)))
]

match_one-shares :
    (k : InstrumentKey) (mult : ℤ) (e : Execution) (b : Book)
    → book_shares (match_one k mult e b) ≡ fifo_one e (book_shares b)
unfolding match_one fifo_one
match_one-shares k mult e b =
    let bf = close_lots-FillsShares k mult short e e.shares b.shorts in
    let sf = close_lots-FillsShares k mult long e e.shares b.longs in
    elim (Bool-cases (is_buy e)) [
      | inl buys ↦ rw buys (
          queues_eq
            (push_lot-shares e _ b.longs
              ∙ same_held (spread lot_shares b.longs) (exec_share e) bf.leaves)
            bf.keeps
            (spread-append closed_shares b.trips _
              ∙ ap (◌++◌ (spread closed_shares b.trips)) bf.closes)
          ∙ sym (buy_shares_lem e.shares e _ _ _))
      | inr no_buy ↦ elim (Bool-cases (text_eq e.side (codes "SLD"))) [
        | inl sells ↦
            rw (no_buy, sells)
              (queues_eq sf.keeps
                  (push_lot-shares e _ b.shorts
                    ∙ same_held (spread lot_shares b.shorts) (exec_share e) sf.leaves)
                  (spread-append closed_shares b.trips _
                    ∙ ap (◌++◌ (spread closed_shares b.trips)) sf.closes)
                ∙ sym (sell_shares_lem e.shares e _ _ _))
        | inr no_sale ↦ rw (no_buy, no_sale)
      ]
    ]

match_all-shares :
    (k : InstrumentKey) (mult : ℤ) (es : List Execution) (b : Book)
    → book_shares (match_all k mult es b) ≡ fifo_all es (book_shares b)
unfolding match_all fifo_all
match_all-shares k mult [] b = refl
match_all-shares k mult (e ∷ es) b =
    match_all-shares k mult es (match_one k mult e b)
    ∙ ap (fifo_all es) (match_one-shares k mult e b)

if-append :
    {A : Type 0} (c : Bool) (xs ys : List A)
    → (if c then xs else []) ++ (if c then ys else []) ≡ (if c then xs ++ ys else [])
if-append true xs ys = refl
if-append false xs ys = refl

module _ (k : InstrumentKey) (mult : ℤ) (as_of : Instant) where
  emit_open-shares :
      (dir d : Direction) (lo : Lot)
      → (closed_shares (emit_open k lo dir mult as_of) ≡ [])
        × (open_shares d (emit_open k lo dir mult as_of)
            ≡ (if same_side d dir then lot_shares lo else []))
  unfolding emit_open
  emit_open-shares dir d lo = ground arith

  emitted-shares :
      (dir d : Direction) (los : List Lot)
      → let ts = map (λ lo. emit_open k lo dir mult as_of) los in
        (spread closed_shares ts ≡ [])
        × (spread (open_shares d) ts ≡ (if same_side d dir then spread lot_shares los else []))
  emitted-shares dir d [] = ground arith
  emitted-shares dir d (l ∷ ls) =
      let here = emit_open-shares dir d l in
      let there = emitted-shares dir d ls in
      (rw (here.0, there.0), rw (here.1, there.1) (if-append (same_side d dir) _ _))

closed-open_shares :
    (d : Direction) (ts : List RoundTrip) → All IsClosed ts → spread (open_shares d) ts ≡ []
closed-open_shares d [] h = refl
closed-open_shares d (t ∷ ts) h = rw (closed-open_shares d ts h.1) (ground (arith, h.0))

module _ (k : InstrumentKey) (mult : ℤ) (as_of : Instant) (b : Book) where
  finish-closed : spread closed_shares (finish k mult as_of b) ≡ spread closed_shares b.trips
  unfolding finish
  finish-closed =
      let ls = map (λ lo. emit_open k lo long mult as_of) b.longs in
      let ss = map (λ so. emit_open k so short mult as_of) b.shorts in
      rw (
        spread-append closed_shares b.trips (ls ++ ss),
        spread-append closed_shares ls ss,
        (emitted-shares k mult as_of long long b.longs).0,
        (emitted-shares k mult as_of short long b.shorts).0,
        append-nil,
      )

  finish-open :
      (d : Direction)
      → All IsClosed b.trips
      → spread (open_shares d) (finish k mult as_of b)
        ≡ (if same_side d long then spread lot_shares b.longs else [])
          ++ (if same_side d short then spread lot_shares b.shorts else [])
  unfolding finish
  finish-open d h =
      let ls = map (λ lo. emit_open k lo long mult as_of) b.longs in
      let ss = map (λ so. emit_open k so short mult as_of) b.shorts in
      rw (
        spread-append (open_shares d) b.trips (ls ++ ss),
        spread-append (open_shares d) ls ss,
        closed-open_shares d b.trips h,
        (emitted-shares k mult as_of long d b.longs).1,
        (emitted-shares k mult as_of short d b.shorts).1,
      )

-- Share by share, the round trips of an instrument are those of first in, first out: the closed
-- ones pair each closing share with the oldest open one, in order, and the others hold the shares
-- that are left, oldest first, each with the time, price and execution that opened it.
pub match_group_fifo :
    (k : InstrumentKey) (execs : List Execution) (as_of : Instant)
    → let ts = match_group k execs as_of in
      let q = fifo_all execs no_shares in
      (spread closed_shares ts ≡ q.trips)
      × (spread (open_shares long) ts ≡ q.longs)
      × (spread (open_shares short) ts ≡ q.shorts)
unfolding match_group
match_group_fifo k execs as_of =
    let mult = multiplier_for k.sec_type in
    let b = match_all k mult execs no_lots in
    let q = match_all-shares k mult execs no_lots in
    let all_closed = (match_all-IsOneSided k mult execs no_lots no_lots-IsOneSided).trips_closed in
    (
      finish-closed k mult as_of b ∙ ap (λ (r : Queues). r.trips) q,
      finish-open k mult as_of b long all_closed ∙ append-nil _ ∙ ap (λ (r : Queues). r.longs) q,
      finish-open k mult as_of b short all_closed ∙ ap (λ (r : Queues). r.shorts) q,
    )
