-- ===== src/Portfolio/Money/Read.antt =====
-- The amount can be read back, rounded.

use optix.Base.{
  ltb→lt, ℕ, zero, suc, ◌+◌, ◌-◌, ◌*◌, ◌/◌, ◌%◌, ◌≡◌, ◌≢◌, ◌≤◌, ◌<◌, refl, sym, ◌∙◌, ap, ap₂, Bool,
  true, false, ◌&&◌, [], ◌∷◌, ◌++◌, Option, none, some, ltb, leb, ◌==◌, if◌then◌else◌, length, take,
  drop, arith, All, All-append, All-map, append-nil, take-append-drop, Bool-cases, inl, inr,
}
use optix.Base.Int.{ℤ, pos, negsuc}
use optix.Base.Text.{Text}
use optix.Base.Time.{number}
use optix.Portfolio.Money.{
  digits_before, decimal, threes, with_commas, rounded, is_negative, fmt_money,
}

abbrev pub without_commas : Text → Text
without_commas [] = []
without_commas (c ∷ s) = if c == b',' then without_commas s else c ∷ without_commas s

-- A sign or none, and digits among commas.
abbrev pub read_money : Text → Option (Bool × ℕ)
read_money [] = none
read_money (c ∷ s) =
    if c == b'-'
    then elim (number 0 (without_commas s)) [ none ↦ none | some n ↦ some (true, n) ]
    else elim (number 0 (without_commas (c ∷ s))) [ none ↦ none | some n ↦ some (false, n) ]

number-digit :
    (m d n : ℕ) (s : Text) → d < 10 → m * 10 + d ≡ n → number m ((b'0' + d) ∷ s) ≡ number n s
unfolding number
number-digit m d n s small e =
    let sum : m * 10 + (b'0' + d - b'0') ≡ n = omega (arith, e) in rw sum (ground arith)

digits_before-small :
    (fuel n : ℕ) (s : Text) → n < 10 → digits_before (suc fuel) n s ≡ (b'0' + n) ∷ s
unfolding digits_before
digits_before-small fuel n s h = ground arith

digits_before-large :
    (fuel n : ℕ) (s : Text)
    → 10 ≤ n
    → digits_before (suc fuel) n s ≡ digits_before fuel (n / 10) ((b'0' + n % 10) ∷ s)
unfolding digits_before
digits_before-large fuel n s h = ground arith

number-digits_before :
    (fuel n : ℕ) (s : Text) → n < fuel → number 0 (digits_before fuel n s) ≡ number n s
unfolding digits_before
number-digits_before zero n s h = ground arith
number-digits_before (suc fuel) n s h = elim (Bool-cases (ltb n 10)) [
  | inl small ↦
      rw (digits_before-small fuel n s (ltb→lt n 10 small))
        (number-digit 0 n n s (ltb→lt n 10 small) (omega arith))
  | inr large ↦ rw (digits_before-large fuel n s (ground arith)) (
      number-digits_before fuel (n / 10) ((b'0' + n % 10) ∷ s) (ground arith)
      ∙ number-digit (n / 10) (n % 10) n s (omega arith) (omega arith))
]

-- Every digit is one.
abbrev IsDigit : ℕ → Type 0
IsDigit c = (b'0' ≤ c) × (c ≤ b'9')

digits_before-All : (fuel n : ℕ) (s : Text) → All IsDigit s → All IsDigit (digits_before fuel n s)
unfolding digits_before
digits_before-All zero n s h = h
digits_before-All (suc fuel) n s h = elim (Bool-cases (ltb n 10)) [
  | inl small ↦
      rw (digits_before-small fuel n s (ltb→lt n 10 small)) (omega (arith, ltb→lt n 10 small), h)
  | inr large ↦
      rw (digits_before-large fuel n s (ground arith))
        (digits_before-All fuel (n / 10) ((b'0' + n % 10) ∷ s) ((omega arith, omega arith), h))
]

without_commas-append :
    (s t : Text) → without_commas (s ++ t) ≡ without_commas s ++ without_commas t
without_commas-append [] t = refl
without_commas-append (c ∷ s) t = ground (arith, without_commas-append s t)

without_commas-threes : (s : Text) → without_commas (threes s) ≡ without_commas s
unfolding threes
without_commas-threes [] = refl
without_commas-threes (a ∷ []) = refl
without_commas-threes (a ∷ b ∷ []) = refl
without_commas-threes (a ∷ b ∷ c ∷ []) = refl
without_commas-threes (a ∷ b ∷ c ∷ d ∷ s) = rw (without_commas-threes (d ∷ s)) refl

without_commas-digits : (s : Text) → All IsDigit s → without_commas s ≡ s
without_commas-digits [] h = refl
without_commas-digits (c ∷ s) h = ground (arith, h.0, without_commas-digits s h.1)

without_commas-with_commas : (s : Text) → without_commas (with_commas s) ≡ without_commas s
unfolding with_commas
without_commas-with_commas s =
    let pre = length s % 3 in
    let comma : Text = if ltb 0 pre && ltb pre (length s) then b',' ∷ [] else [] in
    let gone : without_commas comma ≡ [] = ground arith in
    let joined : without_commas (take pre s ++ comma ++ threes (drop pre s)) ≡ without_commas s =
      without_commas-append (take pre s ++ comma) (threes (drop pre s))
      ∙ ap₂ ◌++◌
          (without_commas-append (take pre s) comma
            ∙ ap (◌++◌ (without_commas (take pre s))) gone
            ∙ append-nil (without_commas (take pre s)))
          (without_commas-threes (drop pre s))
      ∙ sym (without_commas-append (take pre s) (drop pre s))
      ∙ ap without_commas (take-append-drop pre s) in
    elim (Bool-cases (leb (length s) 3)) [ inl short ↦ rw short refl | inr long ↦ rw long joined ]

IsPlain : ℕ → Type 0
IsPlain c = (c == b'-') ≡ false

threes-All : (s : Text) → All IsDigit s → All IsPlain (threes s)
unfolding threes IsPlain
threes-All [] h = tt
threes-All (a ∷ []) h = ground arith
threes-All (a ∷ b ∷ []) h = ground arith
threes-All (a ∷ b ∷ c ∷ []) h = ground arith
threes-All (a ∷ b ∷ c ∷ d ∷ s) h =
    (ground arith, (ground arith, (ground arith, (refl, threes-All (d ∷ s) h.1.1.1))))

digits-All : (s : Text) → All IsDigit s → All IsPlain s
unfolding IsPlain
digits-All s h = All-map IsDigit IsPlain s (λ c k. ground arith) h

take-All : (k : ℕ) (s : Text) → All IsDigit s → All IsDigit (take k s)
take-All zero s h = tt
take-All (suc k) [] h = tt
take-All (suc k) (c ∷ s) h = (h.0, take-All k s h.1)

drop-All : (k : ℕ) (s : Text) → All IsDigit s → All IsDigit (drop k s)
drop-All zero s h = h
drop-All (suc k) [] h = tt
drop-All (suc k) (c ∷ s) h = drop-All k s h.1

comma-All : (b : Bool) → All IsPlain (if b then b',' ∷ [] else [])
unfolding IsPlain
comma-All true = (refl, tt)
comma-All false = tt

with_commas-All : (s : Text) → All IsDigit s → All IsPlain (with_commas s)
unfolding with_commas
with_commas-All s h =
    let pre = length s % 3 in
    let joined =
      All-append IsPlain _ (threes (drop pre s))
        (All-append IsPlain (take pre s) _ (digits-All (take pre s) (take-All pre s h))
          (comma-All (ltb 0 pre && ltb pre (length s))))
        (threes-All (drop pre s) (drop-All pre s h)) in
    elim (Bool-cases (leb (length s) 3)) [
      | inl short ↦ rw short (digits-All s h)
      | inr long ↦ rw long joined
    ]

-- What is read of a text that has digits and commas.
read_money-plain :
    (s : Text) (n : ℕ)
    → All IsPlain s
    → number 0 (without_commas s) ≡ some n
    → length (without_commas s) ≢ 0
    → read_money s ≡ some (false, n)
unfolding IsPlain
read_money-plain [] n h k m = absurd (m refl)
read_money-plain (c ∷ s) n h k m = rw h.0 (rw k refl)

digits_before-longer : (fuel n : ℕ) (s : Text) → length s ≤ length (digits_before fuel n s)
unfolding digits_before
digits_before-longer zero n s = omega arith
digits_before-longer (suc fuel) n s =
    ground (arith, digits_before-longer fuel (n / 10) ((b'0' + n % 10) ∷ s))

decimal-length : (n : ℕ) → length (decimal n) ≢ 0
unfolding decimal
decimal-length n h = elim (Bool-cases (ltb n 10)) [
  | inl small ↦ omega (arith, ap length (digits_before-small n n [] (ltb→lt n 10 small)), h)
  | inr large ↦ omega (
    arith,
    ap length (digits_before-large n n [] (ground arith)),
    digits_before-longer n (n / 10) ((b'0' + n % 10) ∷ []),
    h,
  )
]

-- The text of the number, with its commas.
module _ (n : ℕ) where
  abbrev body : Text
  body = with_commas (decimal n)

  digits : All IsDigit (decimal n)
  digits = unfold decimal in digits_before-All (suc n) n [] tt

  body-digits : without_commas body ≡ decimal n
  body-digits = without_commas-with_commas (decimal n) ∙ without_commas-digits (decimal n) digits

  body-number : number 0 (without_commas body) ≡ some n
  body-number =
      ap (number 0) body-digits
      ∙ unfold decimal in number-digits_before (suc n) n [] (omega arith) ∙ unfold number in refl

  read_money-body : read_money body ≡ some (false, n)
  read_money-body =
      read_money-plain body n (with_commas-All (decimal n) digits) body-number
        (λ h. decimal-length n (ap length (sym body-digits) ∙ h))

-- An amount, formatted with its sign and its commas, can be read back: as its sign, and its size
-- rounded to whole units.
pub read_money-fmt_money : (v : ℤ) → read_money (fmt_money v) ≡ some (is_negative v, rounded v)
unfolding fmt_money
read_money-fmt_money (pos m) = read_money-body (rounded (pos m))
read_money-fmt_money (negsuc m) = rw (body-number (rounded (negsuc m))) refl
