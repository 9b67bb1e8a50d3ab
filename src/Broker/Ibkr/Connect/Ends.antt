-- ===== src/Broker/Ibkr/Connect/Ends.antt =====
-- What the attempts of a connection have heard, and why they end (runClientIDAttempts).
use optix.Base.{
  ℕ, suc, ◌+◌, ◌≡◌, ◌⊎◌, ◌≤◌, subst, ap, Bool, true, false, ◌&&◌, List, [], ◌∷◌, none, some, arith,
  length, total, inl, inr, if◌then◌else◌,
}
use optix.Base.Int.{ℤ}
use optix.Broker.Ibkr.Connect.{ConnectError, Answers, Outcome, failed}

abbrev pub timeouts : List ConnectError → ℕ
timeouts es = total (λ (e : ConnectError). if e.timeout then 1 else 0) es

abbrev pub are_retryable : List ConnectError → Bool
are_retryable [] = true
are_retryable (e ∷ es) = e.retryable && are_retryable es

-- The errors are the answers to the attempts, from a number on.
abbrev pub AreHeard : Answers → ℕ → List ConnectError → Type 0
AreHeard a n [] = Unit
AreHeard a n (e ∷ es) = (a.connect n ≡ some e) × AreHeard a (suc n) es

-- The context was done before or after one of the attempts up to a number.
abbrev pub IsCancelledBy : Answers → ℕ → Type 0
IsCancelledBy a n = (m : ℕ) × (m ≤ n) × ((a.is_done m ≡ true) ⊎ (a.is_done_waiting m ≡ true))

-- Why there is no other attempt: all the identifiers were dialled, an error was not to be retried, or
-- there was a second timeout.
abbrev pub IsUp : ℕ → List ℤ → Outcome → Type 0
IsUp retries ids o =
    (o.dialled ≡ ids) ⊎ (are_retryable o.errors ≡ false) ⊎ (timeouts o.errors + retries ≡ 2)

-- The end of the attempts from a number on, so many timeouts after the first.
abbrev pub IsEnd : Answers → ℕ → ℕ → List ℤ → Outcome → Type 0
IsEnd a attempt retries ids o =
    ((id : ℤ) × (o.connected ≡ some id) × (a.connect (attempt + length o.errors) ≡ none))
    ⊎ ((o.connected ≡ none) × (o.is_cancelled ≡ true) × IsCancelledBy a (attempt + length o.errors))
    ⊎ ((o.connected ≡ none) × (o.is_cancelled ≡ false) × IsUp retries ids o)

pub failed-IsEnd :
    (a : Answers) (attempt retries more : ℕ) (ids : List ℤ) (id : ℤ) (e : ConnectError)
    (o : Outcome)
    → e.retryable ≡ true
    → (if e.timeout then 1 else 0) + retries ≡ more
    → IsEnd a (suc attempt) more ids o
    → IsEnd a attempt retries (id ∷ ids) (failed id e o)
failed-IsEnd a attempt retries more ids id e o h k (inl (i, c, n)) =
    inl (i, c, subst (λ m. a.connect m ≡ none) (omega arith) n)
failed-IsEnd a attempt retries more ids id e o h k (inr (inl (c, x, (m, b, d)))) =
    inr (inl (c, x, (m, omega (arith, b), d)))
failed-IsEnd a attempt retries more ids id e o h k (inr (inr (c, x, inl all))) =
    inr (inr (c, x, inl (ap (◌∷◌ id) all)))
failed-IsEnd a attempt retries more ids id e o h k (inr (inr (c, x, inr (inl bad)))) =
    inr (inr (c, x, inr (inl (ground (arith, h, bad)))))
failed-IsEnd a attempt retries more ids id e o h k (inr (inr (c, x, inr (inr two)))) =
    inr (inr (c, x, inr (inr (omega (arith, two, k)))))
