-- ===== src/Journal/Groups.antt =====
-- The steps of `MatchRoundTrips` (internal/journal/matcher.go) before and around the matching:
-- `groupByPermID`, `enrichBAGFromLegs`, `normalizeBAGPrice`, `keyOf`, and the grouping by instrument.
-- A Go map is an association list in the order in which its keys were first seen; the order in
-- which a `range` over it visits the entries is a parameter of the definitions.
pub mod Partition
pub mod Bags
use optix.Base.{
  Bool, ◌&&◌, not, List, [], ◌∷◌, ◌++◌, map, Option, none, some, ltb, ◌==◌, if◌then◌else◌, spread,
}
use optix.Base.Int.{ℤ, pos, eqb_ℤ, abs}
use optix.Base.Text.{Text, codes, text_eq, text_lt}
use optix.Base.Time.{Instant}
use optix.Base.Sort.{stable_sort}
use optix.Model.Currency.{normalize_currency}
use optix.Journal.Types.{Execution, InstrumentKey, RoundTrip}
use optix.Journal.Match.{match_group}

unfoldable pub key_of : Execution → InstrumentKey
key_of e = record {
  account = e.account;
  symbol = e.symbol;
  sec_type = e.sec_type;
  currency = normalize_currency e.currency;
  expiration = e.expiration;
  strike = e.strike;
  right = e.right;
}

-- `==` on the keys of the map.
unfoldable pub same_key : InstrumentKey → InstrumentKey → Bool
same_key a b =
    text_eq a.account b.account
    && text_eq a.symbol b.symbol
    && text_eq a.sec_type b.sec_type
    && text_eq a.currency b.currency
    && text_eq a.expiration b.expiration
    && eqb_ℤ a.strike b.strike
    && text_eq a.right b.right

abbrev pub is_bag : Execution → Bool
is_bag e = text_eq e.sec_type (codes "BAG")

abbrev pub is_opt : Execution → Bool
is_opt e = text_eq e.sec_type (codes "OPT")

unfoldable pub normalize_bag_price : Execution → Execution
normalize_bag_price e =
    if not (is_bag e) then e else record e { avg_price = abs e.avg_price; price = abs e.price }

-- What the loop of `enrichBAGFromLegs` gathers: the last BAG row, the expirations of the option
-- legs, and the first currency that one of them names.
pub record Legs : Type 0 where
  pub bag : Option Execution
  pub expirations : List Text
  pub currency : Text

abbrev pub leg_expirations : Execution → List Text
leg_expirations e =
    if not (is_bag e) && is_opt e && not (text_eq e.expiration []) then e.expiration ∷ [] else []

abbrev pub leg_currency : Execution → Text → Text
leg_currency e current =
    if is_opt e && text_eq current [] && not (text_eq e.currency []) then e.currency else current

abbrev pub take_row : Execution → Legs → Legs
take_row e legs = record {
  bag = if is_bag e then some e else legs.bag;
  expirations = legs.expirations ++ leg_expirations e;
  currency = leg_currency e legs.currency;
}

unfoldable pub gather : List Execution → Legs → Legs
gather [] legs = legs
gather (e ∷ es) legs = gather es (take_row e legs)

-- The last of a sorted list of expirations, if there is any.
unfoldable pub last_or : Text → List Text → Text
last_or d [] = d
last_or d (x ∷ xs) = last_or x xs

unfoldable pub enrich_bag : Execution → Legs → Execution
unfolding last_or
enrich_bag bag legs = record bag {
  expiration = last_or bag.expiration (stable_sort text_lt legs.expirations);
  currency = if text_eq bag.currency [] then legs.currency else bag.currency;
}

abbrev pub no_legs : Legs
no_legs = record { bag = none; expirations = []; currency = [] }

unfoldable pub enrich_bag_from_legs : List Execution → List Execution
unfolding gather enrich_bag
enrich_bag_from_legs group =
    let legs = gather group no_legs in
    elim (legs.bag) [ none ↦ group | some bag ↦ enrich_bag bag legs ∷ [] ]

-- `m[k] = append(m[k], v)` on a map of slices.
module _ {K V : Type 0} (same : K → K → Bool) where
  unfoldable pub add_to : K → V → List (K × List V) → List (K × List V)
  add_to k v [] = (k, v ∷ []) ∷ []
  add_to k v ((j, vs) ∷ m) = if same j k then (j, vs ++ v ∷ []) ∷ m else (j, vs) ∷ add_to k v m

  unfoldable pub group_into : (V → K) → List V → List (K × List V) → List (K × List V)
  unfolding add_to
  group_into key [] m = m
  group_into key (v ∷ vs) m = group_into key vs (add_to (key v) v m)

abbrev pub values : {K V : Type 0} → List (K × V) → List V
values [] = []
values ((_, v) ∷ m) = v ∷ values m

abbrev pub PermKey : Type 0
PermKey = Text × ℤ

abbrev pub same_perm_key : PermKey → PermKey → Bool
same_perm_key a b = text_eq a.0 b.0 && eqb_ℤ a.1 b.1

abbrev pub perm_key : Execution → PermKey
perm_key e = (e.account, e.perm_id)

abbrev pub has_perm_id : Execution → Bool
has_perm_id e = not (eqb_ℤ e.perm_id (pos 0))

-- The rows that carry a PermID, and one group for each row that carries none.
unfoldable pub with_id : List Execution → List Execution
with_id [] = []
with_id (e ∷ es) = if has_perm_id e then e ∷ with_id es else with_id es

unfoldable pub without_id : List Execution → List (List Execution)
without_id [] = []
without_id (e ∷ es) = if has_perm_id e then without_id es else (e ∷ []) ∷ without_id es

module _ (visit_groups : List (List Execution) → List (List Execution)) where
  unfoldable pub group_by_perm_id : List Execution → List (List Execution)
  unfolding with_id without_id group_into
  group_by_perm_id execs =
      visit_groups (values (group_into same_perm_key perm_key (with_id execs) []))
      ++ without_id execs

  unfoldable pub preprocess : List Execution → List Execution
  unfolding group_by_perm_id
  preprocess execs =
      spread (λ g. map normalize_bag_price (enrich_bag_from_legs g)) (group_by_perm_id execs)

abbrev pub before : Execution → Execution → Bool
before a b = ltb a.time b.time

unfoldable pub trip_before : RoundTrip → RoundTrip → Bool
trip_before a b =
    if not (a.open_time == b.open_time)
    then ltb a.open_time b.open_time
    else if not (a.close_time == b.close_time)
    then ltb a.close_time b.close_time
    else text_lt a.symbol b.symbol

abbrev pub Groups : Type 0
Groups = List (InstrumentKey × List Execution)

unfoldable pub match_entry : Instant → InstrumentKey × List Execution → List RoundTrip
match_entry as_of (k, group) = match_group k (stable_sort before group) as_of

unfoldable pub by_instrument : List Execution → Groups
unfolding group_into
by_instrument processed = group_into same_key key_of processed []

module _ (visit_groups : List (List Execution) → List (List Execution))
    (visit_keys : Groups → Groups) where
  unfoldable pub match_round_trips : List Execution → Instant → List RoundTrip
  unfolding preprocess by_instrument match_entry
  match_round_trips execs as_of =
      stable_sort trip_before
        (spread (match_entry as_of) (visit_keys (by_instrument (preprocess visit_groups execs))))
