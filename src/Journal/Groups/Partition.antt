-- ===== src/Journal/Groups/Partition.antt =====
-- Grouping loses no execution and makes up none, in whatever order a map is visited.
use mathlib.Core.List.{Perm, Permᴰ, Perm-prop, perm_middle, perm_append_comm}
use mathlib.Core.Logic.{∥∥₁_elim}
use mathlib.Core.List.Perm
use optix.Base.{
  ℕ, ◌≡◌, refl, Bool, true, false, List, [], ◌∷◌, ◌++◌, none, ◌+◌, append_assoc, append-nil,
  if◌then◌else◌, Bool-cases, inl, inr, arith, spread, spread-append, All, map, total, total-append,
  total-spread, total-Perm, ◌∙◌, sym, subst,
}
use optix.Base.Sort.{stable_sort, stable_sort-perm, stable_sort-IsSorted, IsSorted}
use optix.Base.Text.{text_lt_asym}
use optix.Base.Time.{Instant}
use optix.Journal.Types.{Execution, InstrumentKey, RoundTrip}
use optix.Journal.Match.{match_group}
use optix.Journal.Accounting.{trip_bought, trip_sold, exec_bought, exec_sold, match_group_accounts}
use optix.Journal.Groups.{
  is_bag, normalize_bag_price, enrich_bag_from_legs, gather, Legs, no_legs, add_to, group_into,
  values, same_perm_key, perm_key, has_perm_id, with_id, without_id, group_by_perm_id, preprocess,
  before, trip_before, Groups, match_entry, by_instrument, same_key, key_of, match_round_trips,
}

-- The groups, one after the other.
abbrev pub concat : {V : Type 0} → List (List V) → List V
concat gs = spread (λ g. g) gs

module _ {K V : Type 0} (same : K → K → Bool) where
  add_to-perm :
      (k : K) (v : V) (m : List (K × List V))
      → Perm (concat (values (add_to same k v m))) (v ∷ concat (values m))
  unfolding add_to
  add_to-perm k v [] = Perm.refl _
  add_to-perm k v ((j, vs) ∷ m) = elim (Bool-cases (same j k)) [
    | inl found ↦ rw (found, append_assoc) (perm_middle vs (concat (values m)))
    | inr other ↦
        rw other (
          Perm.trans (Perm.append_left vs (add_to-perm k v m)) (perm_middle vs (concat (values m))))
  ]

  pub group_into-perm :
      (key : V → K) (vs : List V) (m : List (K × List V))
      → Perm (concat (values (group_into same key vs m))) (vs ++ concat (values m))
  unfolding group_into
  group_into-perm key [] m = Perm.refl _
  group_into-perm key (v ∷ vs) m = Perm.trans (group_into-perm key vs (add_to same (key v) v m)) (
      Perm.trans (Perm.append_left vs (add_to-perm (key v) v m))
        (perm_middle vs (concat (values m))))

split_id-perm : (execs : List Execution) → Perm (with_id execs ++ concat (without_id execs)) execs
unfolding with_id without_id
split_id-perm [] = Perm.refl _
split_id-perm (e ∷ es) = elim (Bool-cases (has_perm_id e)) [
  | inl has ↦ rw has (Perm.cons e (split_id-perm es))
  | inr has_not ↦ rw has_not (
      Perm.trans (perm_middle (with_id es) (concat (without_id es)))
        (Perm.cons e (split_id-perm es)))
]

swap_fronts : {V : Type 0} (x y l : List V) → Perm (x ++ (y ++ l)) (y ++ (x ++ l))
swap_fronts x y l =
    rw (← append_assoc x y l, ← append_assoc y x l) (Perm.append_right l (perm_append_comm x y))

concat-permᴰ : {V : Type 0} {gs hs : List (List V)} → Permᴰ gs hs → Perm (concat gs) (concat hs)
concat-permᴰ Permᴰ.nil = Perm.refl _
concat-permᴰ (Permᴰ.cons {a = a} e p) =
    Perm.append (subst (Perm a) e (Perm.refl a)) (concat-permᴰ p)
concat-permᴰ (Permᴰ.swap {a' = a'} {b' = b'} {l = l} e f) = rw (e, f) (swap_fronts b' a' (concat l))
concat-permᴰ (Permᴰ.trans p q) = Perm.trans (concat-permᴰ p) (concat-permᴰ q)

concat-perm : {V : Type 0} {gs hs : List (List V)} → Perm gs hs → Perm (concat gs) (concat hs)
concat-perm p = ∥∥₁_elim p Perm-prop concat-permᴰ

-- The groups of `groupByPermID` hold the given executions, each once.
pub group_by_perm_id_partition :
    (visit : List (List Execution) → List (List Execution)) (execs : List Execution)
    → ((gs : List (List Execution)) → Perm (visit gs) gs)
    → Perm (concat (group_by_perm_id visit execs)) execs
unfolding group_by_perm_id
group_by_perm_id_partition visit execs visits =
    let groups = values (group_into same_perm_key perm_key (with_id execs) []) in
    let grouped = Perm.trans (concat-perm (visits groups)) (
      rw (append-nil (with_id execs)) at
        (group_into-perm same_perm_key perm_key (with_id execs) [])) in
    rw (spread-append (λ (g : List Execution). g) (visit groups) (without_id execs))
      (Perm.trans (Perm.append_right (concat (without_id execs)) grouped) (split_id-perm execs))

abbrev pub bag_count : Execution → ℕ
bag_count e = if is_bag e then 1 else 0

total-bag_count : (es : List Execution) → All (λ e. is_bag e ≡ false) es → total bag_count es ≡ 0
total-bag_count [] h = refl
total-bag_count (e ∷ es) h = ground (arith, h.0, total-bag_count es h.1)

gather-no_bag :
    (es : List Execution) (legs : Legs)
    → total bag_count es ≡ 0
    → legs.bag ≡ none
    → (gather es legs).bag ≡ none
unfolding gather
gather-no_bag [] legs h b = b
gather-no_bag (e ∷ es) legs h b = gather-no_bag es _ (ground arith) (ground arith)

-- A group with no combination row goes through unchanged.
enrich_bag_from_legs-no_bag :
    (g : List Execution) → total bag_count g ≡ 0 → enrich_bag_from_legs g ≡ g
unfolding enrich_bag_from_legs
enrich_bag_from_legs-no_bag g h = rw (gather-no_bag g no_legs h refl, enrich_bag_from_legs)

map-normalize : (g : List Execution) → total bag_count g ≡ 0 → map normalize_bag_price g ≡ g
unfolding normalize_bag_price
map-normalize [] h = refl
map-normalize (e ∷ es) h = ground (arith, map-normalize es)

spread-no_bag :
    (gs : List (List Execution))
    → total bag_count (concat gs) ≡ 0
    → spread (λ g. map normalize_bag_price (enrich_bag_from_legs g)) gs ≡ concat gs
spread-no_bag [] h = refl
spread-no_bag (g ∷ gs) h =
    let both : total bag_count g + total bag_count (concat gs) ≡ 0 =
      sym (total-append bag_count g (concat gs)) ∙ h in
    rw (
      enrich_bag_from_legs-no_bag g (omega arith),
      map-normalize g (omega arith),
      spread-no_bag gs (omega arith),
    )

-- Without a combination row among them, the executions go through as they are.
pub preprocess-perm :
    (visit : List (List Execution) → List (List Execution)) (execs : List Execution)
    → ((gs : List (List Execution)) → Perm (visit gs) gs)
    → All (λ e. is_bag e ≡ false) execs
    → Perm (preprocess visit execs) execs
unfolding preprocess
preprocess-perm visit execs visits h =
    let p = group_by_perm_id_partition visit execs visits in
    rw
      (spread-no_bag (group_by_perm_id visit execs)
        (total-Perm bag_count p ∙ total-bag_count execs h))
      p

module _ (w : RoundTrip → ℕ) (u : Execution → ℕ) where
  -- A measure of round trips that agrees with one of executions, instrument by instrument.
  abbrev Agree : Type 0
  Agree =
      (k : InstrumentKey) (es : List Execution) (as_of : Instant)
      → total w (match_group k es as_of) ≡ total u es

  total-entries :
      Agree
      → (as_of : Instant) (gs : Groups)
      → total w (spread (match_entry as_of) gs) ≡ total u (concat (values gs))
  unfolding match_entry
  total-entries agree as_of [] = refl
  total-entries agree as_of ((k, g) ∷ gs) = omega (
    arith,
    total-append w (match_group k (stable_sort before g) as_of) (spread (match_entry as_of) gs),
    total-append u g (concat (values gs)),
    agree k (stable_sort before g) as_of,
    total-Perm u (stable_sort-perm before g),
    total-entries agree as_of gs,
  )

  module _ (visit_groups : List (List Execution) → List (List Execution))
      (visit_keys : Groups → Groups) where
    total-match_round_trips :
        Agree
        → ((gs : Groups) → Perm (visit_keys gs) gs)
        → (execs : List Execution) (as_of : Instant)
        → total w (match_round_trips visit_groups visit_keys execs as_of)
          ≡ total u (preprocess visit_groups execs)
    unfolding match_round_trips
    total-match_round_trips agree visits execs as_of =
        let processed = preprocess visit_groups execs in
        let gs = by_instrument processed in
        let trips = spread (match_entry as_of) (visit_keys gs) in
        let entry : InstrumentKey × List Execution → ℕ = λ g. total w (match_entry as_of g) in
        let by_key : Perm (concat (values gs)) processed =
          rw (append-nil processed) at (group_into-perm same_key key_of processed []) in
        total-Perm w (stable_sort-perm trip_before trips)
        ∙ total-spread w (match_entry as_of) (visit_keys gs)
        ∙ total-Perm entry (visits gs)
        ∙ sym (total-spread w (match_entry as_of) gs)
        ∙ total-entries agree as_of gs
        ∙ total-Perm u by_key

module _ (visit_groups : List (List Execution) → List (List Execution))
    (visit_keys : Groups → Groups) (execs : List Execution) (as_of : Instant)
    (visits_groups : (gs : List (List Execution)) → Perm (visit_groups gs) gs)
    (visits_keys : (gs : Groups) → Perm (visit_keys gs) gs) where
  -- The round trips that `MatchRoundTrips` returns bought and sold in total exactly the units of the
  -- executions that are left once the legs of combinations are folded into them, in whatever order
  -- the maps are visited.
  pub match_round_trips_accounts :
      let ts = match_round_trips visit_groups visit_keys execs as_of in
      let rows = preprocess visit_groups execs in
      (total trip_bought ts ≡ total exec_bought rows) × (total trip_sold ts ≡ total exec_sold rows)
  match_round_trips_accounts = (
    total-match_round_trips trip_bought exec_bought visit_groups visit_keys
        (λ k es t. (match_group_accounts k es t).0) visits_keys execs as_of,
    total-match_round_trips trip_sold exec_sold visit_groups visit_keys
        (λ k es t. (match_group_accounts k es t).1) visits_keys execs as_of,
  )

  -- Where no execution is a combination row, the round trips bought and sold in total exactly the
  -- units that the executions did, in whatever order the maps are visited.
  pub match_round_trips_plain :
      All (λ e. is_bag e ≡ false) execs
      → let ts = match_round_trips visit_groups visit_keys execs as_of in
        (total trip_bought ts ≡ total exec_bought execs)
        × (total trip_sold ts ≡ total exec_sold execs)
  match_round_trips_plain h =
      let (bought, sold) = match_round_trips_accounts in
      let same = preprocess-perm visit_groups execs visits_groups h in
      (bought ∙ total-Perm exec_bought same, sold ∙ total-Perm exec_sold same)

trip_before-asym : (a b : RoundTrip) → trip_before a b ≡ true → trip_before b a ≡ false
unfolding trip_before
trip_before-asym a b h = ground (arith, text_lt_asym a.symbol b.symbol)

-- The round trips come ordered by the time they opened, then the time they closed, then the symbol.
pub match_round_trips-IsSorted :
    (visit_groups : List (List Execution) → List (List Execution)) (visit_keys : Groups → Groups)
    (execs : List Execution) (as_of : Instant)
    → IsSorted trip_before (match_round_trips visit_groups visit_keys execs as_of)
unfolding match_round_trips
match_round_trips-IsSorted vg vk execs as_of =
    stable_sort-IsSorted trip_before trip_before-asym
      (spread (match_entry as_of) (vk (by_instrument (preprocess vg execs))))
