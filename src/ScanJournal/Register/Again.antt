-- ===== src/ScanJournal/Register/Again.antt =====
-- What a registration leaves in the store.
use optix.Base.{
  ℕ, suc, ◌+◌, ◌≡◌, refl, sym, ◌∙◌, ap, true, List, [], ◌∷◌, ◌⊎◌, inl, inr, none, some, arith,
  Bool-cases, Option-cases, length, drop, subst, All, All-append, map,
}
use optix.Base.Int.{pos, ltb_ℤ}
use optix.Base.Text.{Text, text_lt}
use optix.Base.Time.{Instant}
use optix.ScanJournal.Types.{CandidateInput, RegisterPayload, ScanCandidate}
use optix.ScanJournal.Store.{
  Store, has_candidate, Inserted, insert_one, insert_each, insert_scan_candidates,
}
use optix.ScanJournal.Store.Unique.{IsUnique, insert_each-IsUnique, AllThere, insert_each-AllThere}
use optix.ScanJournal.Register.{
  RegisterError, RegisterResult, check_input, candidate_of, build, scan_date_of, register_on,
  register, is_date,
}

-- The counts of an insertion add up.
insert_each-counts :
    (cs : List ScanCandidate) (s : Inserted)
    → (insert_each cs s).registered + (insert_each cs s).skipped
      ≡ s.registered + s.skipped + length cs
unfolding insert_each insert_one
insert_each-counts [] s = omega arith
insert_each-counts (c ∷ cs) s = ground (arith, insert_each-counts cs (insert_one c s))

-- Rows that are there already are all skipped.
insert_each-there :
    (cs : List ScanCandidate) (s : Inserted)
    → AllThere cs s.rows
    → insert_each cs s ≡ record s { skipped = s.skipped + length cs }
unfolding insert_each insert_one
insert_each-there [] s h = ground arith
insert_each-there (c ∷ cs) s h =
    rw (h.0) (insert_each-there cs (record s { skipped = s.skipped + 1 }) h.1 ∙ ground arith)

abbrev dated : Instant → ScanCandidate → ScanCandidate
dated t c = record c { created_at = t }

dated_all : Instant → RegisterError ⊎ List ScanCandidate → RegisterError ⊎ List ScanCandidate
dated_all t (inl e) = inl e
dated_all t (inr cs) = inr (map (dated t) cs)

-- Only the time of creation depends on the time of the registration.
build-dated :
    (d src : Text) (now later : Instant) (i : ℕ) (ins : List CandidateInput)
    → build d src later i ins ≡ dated_all later (build d src now i ins)
unfolding build dated_all candidate_of
build-dated d src now later i [] = refl
build-dated d src now later i (in_ ∷ ins) = ground (arith, build-dated d src now later (suc i) ins)

AllThere-dated :
    (t : Instant) (cs rows : List ScanCandidate)
    → AllThere cs rows
    → AllThere (map (dated t) cs) rows
AllThere-dated t [] rows h = h
AllThere-dated t (c ∷ cs) rows h = (h.0, AllThere-dated t cs rows h.1)

length-dated : (t : Instant) (cs : List ScanCandidate) → length (map (dated t) cs) ≡ length cs
length-dated t [] = refl
length-dated t (c ∷ cs) = ground (arith, length-dated t cs)

-- What a batch that is accepted is made of.
build_cons :
    (d src : Text) (now : Instant) (i : ℕ) (in_ : CandidateInput) (ins : List CandidateInput)
    (cs : List ScanCandidate)
    → build d src now i (in_ ∷ ins) ≡ inr cs
    → (cs ≡ candidate_of d src now in_ ∷ drop 1 cs)
      × (build d src now (suc i) ins ≡ inr (drop 1 cs))
      × (check_input d i in_ ≡ none)
unfolding build
build_cons d src now i in_ ins cs h = ground arith

length-build :
    (d src : Text) (now : Instant) (i : ℕ) (ins : List CandidateInput) (cs : List ScanCandidate)
    → build d src now i ins ≡ inr cs
    → length cs ≡ length ins
unfolding build
length-build d src now i [] cs h = ground arith
length-build d src now i (in_ ∷ ins) cs h =
    let (e, f, ok) = build_cons d src now i in_ ins cs h in
    ap length e ∙ ap suc (length-build d src now (suc i) ins (drop 1 cs) f)

-- What `Register` has checked of a stored candidate.
abbrev pub IsValid : ScanCandidate → Type 0
IsValid c =
    (ltb_ℤ (pos 0) c.candidate_id.strike ≡ true)
    × (ltb_ℤ (pos 0) c.input.spot ≡ true)
    × (ltb_ℤ (pos 0) c.input.bid ≡ true)
    × (is_date c.candidate_id.expiry ≡ true)
    × (text_lt c.candidate_id.scan_date c.candidate_id.expiry ≡ true)

candidate_of-IsValid :
    (d src : Text) (now : Instant) (i : ℕ) (in_ : CandidateInput)
    → check_input d i in_ ≡ none
    → IsValid (candidate_of d src now in_)
unfolding check_input candidate_of
candidate_of-IsValid d src now i in_ h = ground arith

build-IsValid :
    (d src : Text) (now : Instant) (i : ℕ) (ins : List CandidateInput) (cs : List ScanCandidate)
    → build d src now i ins ≡ inr cs
    → All IsValid cs
unfolding build
build-IsValid d src now i [] cs h = ground arith
build-IsValid d src now i (in_ ∷ ins) cs h =
    let (e, f, ok) = build_cons d src now i in_ ins cs h in
    subst (All IsValid) (sym e)
      (candidate_of-IsValid d src now i in_ ok, build-IsValid d src now (suc i) ins (drop 1 cs) f)

insert_one-IsValid :
    (c : ScanCandidate) (s : Inserted)
    → IsValid c
    → All IsValid s.rows
    → All IsValid (insert_one c s).rows
unfolding insert_one
insert_one-IsValid c s h k = elim (Bool-cases (has_candidate c.candidate_id s.rows)) [
  | inl there ↦ rw (there, All) k
  | inr new ↦ rw (new, All) (All-append IsValid s.rows (c ∷ []) k (h, tt))
]

insert_each-IsValid :
    (cs : List ScanCandidate) (s : Inserted)
    → All IsValid cs
    → All IsValid s.rows
    → All IsValid (insert_each cs s).rows
unfolding insert_each
insert_each-IsValid [] s h k = k
insert_each-IsValid (c ∷ cs) s h k =
    insert_each-IsValid cs (insert_one c s) h.1 (insert_one-IsValid c s h.0 k)

-- The rows that every registration keeps: no two of one identifier, and each as `Register` checks it.
abbrev pub IsSound : Store → Type 0
IsSound st = IsUnique st.candidates × All IsValid st.candidates

batch : RegisterError ⊎ List ScanCandidate → List ScanCandidate
batch (inl e) = []
batch (inr cs) = cs

abbrev batch_of : Text → Instant → RegisterPayload → List ScanCandidate
batch_of d now p = batch (build d p.symbol_source now 1 p.candidates)

abbrev rows_after : List ScanCandidate → Store → Inserted
rows_after cs st = insert_each cs (record { rows = st.candidates; registered = 0; skipped = 0 })

register_on-success :
    (d : Text) (now : Instant) (p : RegisterPayload) (st : Store) (r : RegisterResult)
    → (register_on d now p st).0 ≡ inr r
    → (build d p.symbol_source now 1 p.candidates ≡ inr (batch_of d now p))
      × ((register_on d now p st).1
          ≡ record st { candidates = (rows_after (batch_of d now p) st).rows })
      × (r.registered ≡ (rows_after (batch_of d now p) st).registered)
      × (r.skipped ≡ (rows_after (batch_of d now p) st).skipped)
      × (r.scan_date ≡ d)
unfolding register_on insert_scan_candidates batch
register_on-success d now p st r h = ground arith

register-success :
    (today : Text) (now : Instant) (p : RegisterPayload) (st : Store) (r : RegisterResult)
    → (register today now p st).0 ≡ inr r
    → (scan_date_of today p.scan_date ≡ some r.scan_date)
      × (register today now p st ≡ register_on r.scan_date now p st)
unfolding register
register-success today now p st r h = elim (Option-cases (scan_date_of today p.scan_date)) [
  | inl e ↦ ground arith
  | inr (d, e) ↦ ground (arith, register_on-success d now p st r)
]

register_on-again :
    (d : Text) (now later : Instant) (p : RegisterPayload) (st st' : Store) (r : RegisterResult)
    → (register_on d now p st).0 ≡ inr r
    → st' ≡ record st { candidates = (rows_after (batch_of d now p) st).rows }
    → register_on d later p st'
      ≡ (inr (record { registered = 0; skipped = length p.candidates; scan_date = d }), st')
unfolding register_on insert_scan_candidates dated_all
register_on-again d now later p st st' r h e =
    let (built, after, _, _, _) = register_on-success d now p st r h in
    let cs = batch_of d now p in
    let rows = (rows_after cs st).rows in
    let again : build d p.symbol_source later 1 p.candidates ≡ inr (map (dated later) cs) =
      build-dated d p.symbol_source now later 1 p.candidates ∙ ap (dated_all later) built in
    let there : AllThere (map (dated later) cs) rows =
      AllThere-dated later cs rows
        (insert_each-AllThere cs (record { rows = st.candidates; registered = 0; skipped = 0 })) in
    ground (
      arith,
      h,
      again,
      insert_each-there (map (dated later) cs) (record { rows = rows; registered = 0; skipped = 0 })
          there,
      length-dated later cs,
      length-build d p.symbol_source now 1 p.candidates cs built,
    )

register-dated :
    (today d : Text) (now : Instant) (p : RegisterPayload) (st : Store)
    → scan_date_of today p.scan_date ≡ some d
    → register today now p st ≡ register_on d now p st
unfolding register
register-dated today d now p st e = rw (e, register)

-- A batch that has been registered is registered again at no cost: whatever the time of day, the
-- second registration of it on the same day leaves the store as it is, and reports that none of the
-- candidates were registered and all of them skipped.
pub register_again :
    (today : Text) (now later : Instant) (p : RegisterPayload) (st : Store) (r : RegisterResult)
    → (register today now p st).0 ≡ inr r
    → register today later p (register today now p st).1 ≡ (
      inr (record { registered = 0; skipped = length p.candidates; scan_date = r.scan_date }),
      (register today now p st).1,
    )
register_again today now later p st r h =
    let (on, e) = register-success today now p st r h in
    let success = ap (λ x. x.0) (sym e) ∙ h in
    let (built, after, _, _, _) = register_on-success r.scan_date now p st r success in
    register-dated today r.scan_date later p _ on
    ∙ register_on-again r.scan_date now later p st _ r success (ap (λ x. x.1) e ∙ after)

-- A successful registration accounts for the whole batch: the registered and the skipped add up to
-- its length. It keeps the store sound: no identifier has two rows, and every row has a positive
-- strike, spot and bid and an expiry, a date, after its scan date.
pub register-IsSound :
    (today : Text) (now : Instant) (p : RegisterPayload) (st : Store) (r : RegisterResult)
    → IsSound st
    → (register today now p st).0 ≡ inr r
    → IsSound (register today now p st).1 × (r.registered + r.skipped ≡ length p.candidates)
register-IsSound today now p st r (unique, valid) h =
    let (on, e) = register-success today now p st r h in
    let (built, after, n, k, _) =
      register_on-success r.scan_date now p st r (ap (λ x. x.0) (sym e) ∙ h) in
    let cs = batch_of r.scan_date now p in
    let s : Inserted = record { rows = st.candidates; registered = 0; skipped = 0 } in
    (
      subst IsSound (sym (ap (λ x. x.1) e ∙ after)) (
        insert_each-IsUnique cs s unique,
        insert_each-IsValid cs s
            (build-IsValid r.scan_date p.symbol_source now 1 p.candidates cs built) valid,
      ),
      omega (
        arith,
        n,
        k,
        insert_each-counts cs s,
        length-build r.scan_date p.symbol_source now 1 p.candidates cs built,
      ),
    )
