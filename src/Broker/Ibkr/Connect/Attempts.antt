-- ===== src/Broker/Ibkr/Connect/Attempts.antt =====
-- What the attempts of a connection can do.
use optix.Base.{
  ℕ, suc, ◌+◌, ◌≡◌, ◌≤◌, refl, ap, subst, Bool, true, false, ◌&&◌, ◌||◌, not, List, [], ◌∷◌, ◌++◌,
  Option, none, some, leb, if◌then◌else◌, arith, length, take, Option-cases, Bool-cases, inl, inr,
}
use optix.Base.Int.{ℤ}
use optix.Broker.Ibkr.Connect.Candidates.{AreCandidates, client_id_candidates-AreCandidates}
use optix.Broker.Ibkr.Connect.Ends.{timeouts, AreHeard, IsEnd, failed-IsEnd}
use optix.Broker.Ibkr.Connect.{
  client_id_candidates, ConnectError, Answers, Outcome, run_attempts, run_client_id_attempts,
  stopped, failed, is_last, max_timeout_retries,
}

abbrev goes_on : List ConnectError → Option ℤ → Bool
goes_on [] none = false
goes_on [] (some id) = true
goes_on (e ∷ es) c = true

-- An error that another attempt followed is one to retry.
abbrev pub are_retried : List ConnectError → Option ℤ → Bool
are_retried [] c = true
are_retried (e ∷ es) c = (not (goes_on es c) || e.retryable) && are_retried es c

-- The identifiers are dialled in order, each fails but one that connects, which is the last.
abbrev pub Connects : List ℤ → Option ℤ → List ConnectError → List ℤ → Type 0
Connects ids none es dialled = (dialled ≡ take (length es) ids)
Connects ids (some id) es dialled =
    (dialled ≡ take (suc (length es)) ids) × (dialled ≡ take (length es) ids ++ id ∷ [])

abbrev IsTold : Answers → ℕ → ℕ → List ℤ → Outcome → Type 0
IsTold a attempt retries ids o =
    Connects ids o.connected o.errors o.dialled
    × (timeouts o.errors + retries ≤ 2)
    × (are_retried o.errors o.connected ≡ true)
    × AreHeard a attempt o.errors
    × IsEnd a attempt retries ids o

failed-Connects :
    (ids : List ℤ) (id : ℤ) (e : ConnectError) (c : Option ℤ) (es : List ConnectError)
    (dialled : List ℤ)
    → Connects ids c es dialled
    → Connects (id ∷ ids) c (e ∷ es) (id ∷ dialled)
failed-Connects ids id e none es dialled h = ap (◌∷◌ id) h
failed-Connects ids id e (some i) es dialled h = (ap (◌∷◌ id) h.0, ap (◌∷◌ id) h.1)

failed-IsTold :
    (a : Answers) (attempt retries more : ℕ) (ids : List ℤ) (id : ℤ) (e : ConnectError)
    (o : Outcome)
    → a.connect attempt ≡ some e
    → e.retryable ≡ true
    → (if e.timeout then 1 else 0) + retries ≡ more
    → IsTold a (suc attempt) more ids o
    → IsTold a attempt retries (id ∷ ids) (failed id e o)
failed-IsTold a attempt retries more ids id e o c h k (told, few, again, heard, end) = (
  failed-Connects ids id e o.connected o.errors o.dialled told,
  omega (arith, few, k),
  ground (arith, h, again),
  (c, heard),
  failed-IsEnd a attempt retries more ids id e o h k end,
)

-- The last attempt, whatever its error.
failed_last-IsTold :
    (a : Answers) (attempt retries : ℕ) (ids : List ℤ) (id : ℤ) (e : ConnectError) (b : Bool)
    → a.connect attempt ≡ some e
    → retries ≤ 1
    → IsEnd a attempt retries (id ∷ ids) (failed id e (stopped b))
    → IsTold a attempt retries (id ∷ ids) (failed id e (stopped b))
failed_last-IsTold a attempt retries ids id e b c h end =
    (refl, ground arith, ground arith, (c, tt), end)

-- An error that is not to be retried, or that of the last identifier.
refused-IsEnd :
    (a : Answers) (attempt retries : ℕ) (ids : List ℤ) (id : ℤ) (e : ConnectError)
    → (not e.retryable || is_last ids) ≡ true
    → IsEnd a attempt retries (id ∷ ids) (failed id e (stopped false))
refused-IsEnd a attempt retries [] id e h = inr (inr (refl, refl, inl refl))
refused-IsEnd a attempt retries (j ∷ ids) id e h =
    inr (inr (refl, refl, inr (inl (ground (arith, h)))))

-- A second timeout.
timed_out-IsEnd :
    (a : Answers) (attempt retries : ℕ) (ids : List ℤ) (id : ℤ) (e : ConnectError)
    → retries ≤ 1
    → (e.timeout && leb max_timeout_retries retries) ≡ true
    → IsEnd a attempt retries (id ∷ ids) (failed id e (stopped false))
timed_out-IsEnd a attempt retries ids id e h r =
    inr (inr (refl, refl, inr (inr (ground (arith, h, r)))))

choose-IsTold :
    (a : Answers) (attempt : ℕ) (b : Bool) (retries : ℕ) (ids : List ℤ) (x y : Outcome)
    → (b ≡ true → IsTold a attempt (suc retries) ids x)
    → (b ≡ false → IsTold a attempt retries ids y)
    → IsTold a attempt ((if b then 1 else 0) + retries) ids (if b then x else y)
choose-IsTold a attempt true retries ids x y h k =
    subst (λ n. IsTold a attempt n ids x) (omega arith) (h refl)
choose-IsTold a attempt false retries ids x y h k =
    subst (λ n. IsTold a attempt n ids y) (omega arith) (k refl)

run_attempts-IsTold :
    (a : Answers) (attempt retries : ℕ) (ids : List ℤ)
    → retries ≤ 1
    → IsTold a attempt retries ids (run_attempts a attempt retries ids)
unfolding run_attempts
run_attempts-IsTold a attempt retries [] h =
    (refl, omega arith, refl, tt, inr (inr (refl, refl, inl refl)))
run_attempts-IsTold a attempt retries (id ∷ ids) h = elim (Bool-cases (a.is_done attempt)) [
  | inl e ↦
      rw e (refl, omega arith, refl, tt, inr (inl (refl, refl, (attempt, omega arith, inl e))))
  | inr e ↦ elim (Option-cases (a.connect attempt)) [
    | inl k ↦ rw e (
        rw k (
          (refl, refl),
          omega arith,
          refl,
          tt,
          inl (id, refl, subst (λ n. a.connect n ≡ none) (omega arith) k),
        ))
    | inr (err, k) ↦ elim (Bool-cases (not err.retryable || is_last ids)) [
      | inl q ↦ rw e (
          rw k (
            rw q (
              failed_last-IsTold a attempt retries ids id err false k h
                (refused-IsEnd a attempt retries ids id err q))))
      | inr q ↦ elim (Bool-cases (err.timeout && leb max_timeout_retries retries)) [
        | inl r ↦ rw e (
            rw k (
              rw q (
                rw r (
                  failed_last-IsTold a attempt retries ids id err false k h
                    (timed_out-IsEnd a attempt retries ids id err h r)))))
        | inr r ↦ elim (Bool-cases (a.is_done_waiting attempt)) [
          | inl w ↦ rw e (
              rw k (
                rw q (
                  rw r (
                    rw w (
                      failed_last-IsTold a attempt retries ids id err true k h
                        (inr (inl (refl, refl, (attempt, omega arith, inr w)))))))))
          | inr w ↦
              let retryable : err.retryable ≡ true = ground (arith, q) in
              let again = run_attempts a (suc attempt) (suc retries) ids in
              let next = run_attempts a (suc attempt) retries ids in
              let o : Outcome = if err.timeout then again else next in
              let told =
                choose-IsTold a (suc attempt) err.timeout retries ids again next
                  (λ t.
                    run_attempts-IsTold a (suc attempt) (suc retries) ids (ground (arith, r, t, h)))
                  (λ t. run_attempts-IsTold a (suc attempt) retries ids h) in
              rw e (
                rw k (
                  rw q (
                    rw r (
                      rw w
                        (failed-IsTold a attempt retries _ ids id err o k retryable refl told)))))
        ]
      ]
    ]
  ]
]

-- What the client identifiers of a connection can lead to: they are zero alone, or the primary one and
-- two others that differ from it and from one another and fit an int32. They are dialled in their
-- order, and all but the last one dialled fail, with the errors that the attempts answer; the last
-- one is the one connected, if any. No more than two attempts end in a timeout, and only errors to
-- retry are followed by another attempt. The attempts end with one that succeeds, with a context that
-- is done before or after one of them, or else with all the identifiers dialled, with an error that
-- is not to be retried, or with a second timeout.
pub run_client_id_attempts_lem :
    (a : Answers) (primary pid : ℤ)
    → let ids = client_id_candidates primary pid in
      let o = run_client_id_attempts a ids in
      AreCandidates primary ids
      × Connects ids o.connected o.errors o.dialled
      × (timeouts o.errors ≤ 2)
      × (are_retried o.errors o.connected ≡ true)
      × AreHeard a 0 o.errors
      × IsEnd a 0 0 ids o
unfolding run_client_id_attempts
run_client_id_attempts_lem a primary pid =
    let ids = client_id_candidates primary pid in
    let (told, few, again, heard, end) = run_attempts-IsTold a 0 0 ids (omega arith) in
    (client_id_candidates-AreCandidates primary pid, told, omega (arith, few), again, heard, end)
