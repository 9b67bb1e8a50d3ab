-- ===== src/Broker/Ibkr/Connect.antt =====
-- The client identifiers that a connection tries (internal/broker/ibkr/client.go). The answers of the
-- gateway, and whether the context is done before an attempt or in the wait after it, are parameters,
-- by the number of the attempt.
pub mod Attempts
pub mod Candidates
pub mod Ends
use optix.Base.{
  ℕ, zero, suc, ◌+◌, ◌*◌, ◌%◌, Bool, true, false, ◌&&◌, ◌||◌, not, List, [], ◌∷◌, Option, none,
  some, leb, if◌then◌else◌,
}
use optix.Base.Int.{ℤ, pos, negsuc, eqb_ℤ}

-- Go's remainder, without its sign.
unfoldable pub part : ℤ → ℕ → ℕ
part (pos n) m = n % m
part (negsuc n) m = suc n % m

unfoldable pub first_fallback : ℤ → ℤ → ℕ
unfolding part
first_fallback primary pid = 100000 + part pid 10000 * 200000 + part primary 100000 * 2

-- So many more candidates from a number on, without the primary one; the loop skips one number at
-- most, so that its fuel is one more than the candidates that are missing.
unfoldable pub fallbacks : ℕ → ℕ → ℤ → ℕ → List ℤ
fallbacks zero missing primary n = []
fallbacks (suc fuel) zero primary n = []
fallbacks (suc fuel) (suc missing) primary n =
    let skipped = fallbacks fuel (suc missing) primary (suc n) in
    let taken = fallbacks fuel missing primary (suc n) in
    if eqb_ℤ (pos n) primary then skipped else pos n ∷ taken

unfoldable pub client_id_candidates : ℤ → ℤ → List ℤ
unfolding fallbacks first_fallback
client_id_candidates primary pid =
    if eqb_ℤ primary (pos 0)
    then pos 0 ∷ []
    else primary ∷ fallbacks 3 2 primary (first_fallback primary pid)

-- An `ibConnectError`, or another error, which is neither.
pub record ConnectError : Type 0 where
  pub retryable : Bool
  pub timeout : Bool

pub record Answers : Type 0 where
  pub connect : ℕ → Option ConnectError
  pub is_done : ℕ → Bool
  pub is_done_waiting : ℕ → Bool

-- The identifiers dialled, in order, and what `runClientIDAttempts` returns.
pub record Outcome : Type 0 where
  pub dialled : List ℤ
  pub connected : Option ℤ
  pub errors : List ConnectError
  pub is_cancelled : Bool

abbrev pub stopped : Bool → Outcome
stopped b = record { dialled = []; connected = none; errors = []; is_cancelled = b }

abbrev pub failed : ℤ → ConnectError → Outcome → Outcome
failed id e o = record o { dialled = id ∷ o.dialled; errors = e ∷ o.errors }

abbrev pub max_timeout_retries : ℕ
max_timeout_retries = 1

abbrev pub is_last : List ℤ → Bool
is_last [] = true
is_last (id ∷ ids) = false

unfoldable pub run_attempts : Answers → ℕ → ℕ → List ℤ → Outcome
run_attempts a attempt retries [] = stopped false
run_attempts a attempt retries (id ∷ ids) =
    let again = run_attempts a (suc attempt) (suc retries) ids in
    let next = run_attempts a (suc attempt) retries ids in
    if a.is_done attempt then stopped true else elim (a.connect attempt) [
      | none ↦ record { dialled = id ∷ []; connected = some id; errors = []; is_cancelled = false }
      | some e ↦
          if not e.retryable || is_last ids
          then failed id e (stopped false)
          else if e.timeout && leb max_timeout_retries retries
          then failed id e (stopped false)
          else if a.is_done_waiting attempt
          then failed id e (stopped true)
          else failed id e (if e.timeout then again else next)
    ]

unfoldable pub run_client_id_attempts : Answers → List ℤ → Outcome
unfolding run_attempts
run_client_id_attempts a ids = run_attempts a 0 0 ids
