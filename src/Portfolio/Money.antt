-- ===== src/Portfolio/Money.antt =====
-- `fmtMoney` (internal/portfolio/concentration.go), of an amount in hundredths.
pub mod Read
use optix.Base.{
  ℕ, zero, suc, ◌+◌, ◌*◌, ◌/◌, ◌%◌, Bool, true, false, ◌&&◌, List, [], ◌∷◌, ◌++◌, ltb, leb,
  if◌then◌else◌, length, take, drop,
}
use optix.Base.Int.{ℤ, pos, negsuc, pos_part, neg_part}
use optix.Base.Text.{Text, codes}

-- The digits of a number, in front of a text; `%d` of a number that is not negative.
unfoldable pub digits_before : ℕ → ℕ → Text → Text
digits_before zero n s = s
digits_before (suc fuel) n s = elim (ltb n 10) [
  | true ↦ (b'0' + n) ∷ s
  | false ↦ digits_before fuel (n / 10) ((b'0' + n % 10) ∷ s)
]

-- A number has fewer digits than its successor counts.
unfoldable pub decimal : ℕ → Text
unfolding digits_before
decimal n = digits_before (suc n) n []

-- The loop that writes three digits at a time, with a comma unless they are the last.
unfoldable pub threes : Text → Text
threes (a ∷ b ∷ c ∷ d ∷ s) = a ∷ b ∷ c ∷ b',' ∷ threes (d ∷ s)
threes s = s

unfoldable pub with_commas : Text → Text
unfolding threes
with_commas s =
    let n = length s in
    let pre = n % 3 in
    let comma : Text = if ltb 0 pre && ltb pre n then b',' ∷ [] else [] in
    if leb n 3 then s else take pre s ++ comma ++ threes (drop pre s)

-- `math.Round` of the amount without its sign: half of a unit goes up.
abbrev pub rounded : ℤ → ℕ
rounded v = (pos_part v + neg_part v + 50) / 100

abbrev pub is_negative : ℤ → Bool
is_negative (pos n) = false
is_negative (negsuc n) = true

unfoldable pub fmt_money : ℤ → Text
unfolding decimal with_commas
fmt_money v = let s = with_commas (decimal (rounded v)) in if is_negative v then b'-' ∷ s else s
