-- ===== src/Deploy/ErrorBounds.antt =====
-- The error history of a deploy item.
use potter_controller.Prelude.{
  Bool-cases, List, Option, String, [], ap, arith, eq_iff, if_lem, inl, inr, leb, length,
  length-append_one, ltb, ltb→le, ltb→lt, none, refl, some, suc, ℕ, ◌++◌, ◌==◌, ◌∷◌, ◌≡◌, ◌≤◌, ◌⊎◌,
}
use potter_controller.Api.{ErrorEntry, Time, state_failed}
use potter_controller.Deploy.ErrorHistory.{
  before, compute_error_history, extend_history, first_tries, renew, replace_entry,
  sort_error_entries,
}

length-before : (e : ErrorEntry) (l : List ErrorEntry) → length (before e l) ≡ suc (length l)
length-before e [] = refl
length-before e (x ∷ xs) = ground (arith, length-before e xs)

length-sort : (l : List ErrorEntry) → length (sort_error_entries l) ≡ length l
length-sort [] = refl
length-sort (x ∷ xs) = omega (arith, length-before x (sort_error_entries xs), length-sort xs)

-- At least one entry has this description and time.
abbrev pub Records : String → Time → List ErrorEntry → Type 0
Records description now [] = ⊥
Records description now (e ∷ es) =
    ((e.description ≡ description) × (e.time ≡ now)) ⊎ Records description now es

Records-before :
    (d : String) (now : Time) (e : ErrorEntry) (l : List ErrorEntry)
    → Records d now (e ∷ l)
    → Records d now (before e l)
Records-before d now e [] h = h
Records-before d now e (x ∷ xs) h =
    if_lem (Records d now) (leb e.time x.time) (λ _. h) (λ _. behind (Records-before d now e xs) h)
  where
    behind :
        (Records d now (e ∷ xs) → Records d now (before e xs))
        → Records d now (e ∷ x ∷ xs)
        → Records d now (x ∷ before e xs)
    behind rec (inl p) = inr (rec (inl p))
    behind rec (inr (inl q)) = inl q
    behind rec (inr (inr t)) = inr (rec (inr t))

Records-sort :
    (d : String) (now : Time) (l : List ErrorEntry)
    → Records d now l
    → Records d now (sort_error_entries l)
Records-sort d now [] h = h
Records-sort d now (e ∷ es) (inl h) = Records-before d now e (sort_error_entries es) (inl h)
Records-sort d now (e ∷ es) (inr h) =
    Records-before d now e (sort_error_entries es) (inr (Records-sort d now es h))

Records-append_one :
    (d : String) (now : Time) (l : List ErrorEntry)
    → Records d now (l ++ record { description = d; time = now } ∷ [])
Records-append_one d now [] = inl (refl, refl)
Records-append_one d now (e ∷ es) = inr (Records-append_one d now es)

-- A renewed list has as many entries, one of them the new one.
abbrev pub Renewed : String → Time → ℕ → Option (List ErrorEntry) → Type 0
Renewed d now n none = Unit
Renewed d now n (some r) = (length r ≡ n) × Records d now r

renew_lem :
    (d : String) (now : Time) (l : List ErrorEntry) → Renewed d now (length l) (renew d now l)
renew_lem d now [] = _
renew_lem d now (e ∷ es) =
    if_lem (Renewed d now (suc (length es))) (e.description == d)
      (λ h. (refl, inl (ground (arith, h, eq_iff e.description d), refl)))
      (λ _. go (renew d now es) (renew_lem d now es))
  where
    go :
        (o : Option (List ErrorEntry))
        → Renewed d now (length es) o
        → Renewed d now (suc (length es)) (elim o [ none ↦ none | some r ↦ some (e ∷ r) ])
    go none h = h
    go (some r) (len, rec) = (ap suc len, inr rec)

replace_lem :
    (d : String) (now : Time) (l : List ErrorEntry)
    → 2 ≤ length l
    → (length (replace_entry d now l) ≡ length l) × Records d now (replace_entry d now l)
replace_lem d now [] h = absurd (omega (arith, h))
replace_lem d now (first ∷ []) h = absurd (omega (arith, h))
replace_lem d now (first ∷ e ∷ es) h = go (renew d now (e ∷ es)) (renew_lem d now (e ∷ es))
  where
    pick : Option (List ErrorEntry) → List ErrorEntry
    pick (some r) = first ∷ r
    pick none = first ∷ record { description = d; time = now } ∷ es

    go :
        (o : Option (List ErrorEntry))
        → Renewed d now (suc (length es)) o
        → (length (pick o) ≡ suc (suc (length es))) × Records d now (pick o)
    go none h' = (refl, inr (inl (refl, refl)))
    go (some r) (len, rec) = (ap suc len, inr rec)

-- What is kept of the errors: at most 5, the last one among them.
abbrev pub Kept : String → Time → List ErrorEntry → Type 0
Kept d now l = (1 ≤ length l) × (length l ≤ 5) × Records d now l

extend_lem :
    (es : List ErrorEntry) (d : String) (now : Time)
    → length es ≤ 5
    → Kept d now (extend_history d now es)
unfolding extend_history
extend_lem es d now h =
    let new : ErrorEntry = record { description = d; time = now } in
    if_lem (Kept d now) (ltb (length es) 5)
      (λ lt. (
        omega (arith, length-sort (es ++ new ∷ []), length-append_one es new),
        omega (
          arith,
          ltb→lt (length es) 5 lt,
          length-sort (es ++ new ∷ []),
          length-append_one es new,
        ),
        Records-sort d now (es ++ new ∷ []) (Records-append_one d now es),
      ))
      (λ ge.
        (let n = length-sort es in
          let (len, rec) =
            replace_lem d now (sort_error_entries es) (omega (arith, ltb→le (length es) 5 ge, n)) in
          let m = length-sort (replace_entry d now (sort_error_entries es)) in
          (
            omega (arith, ltb→le (length es) 5 ge, n, len, m),
            omega (arith, h, n, len, m),
            Records-sort d now (replace_entry d now (sort_error_entries es)) rec,
          )))

-- `computeErrorHistory` for a failed operation, where there is a history of at most 5 entries: it
-- returns one of at least one and at most 5 entries, and the new error is in it with the time of the
-- operation.
pub error_history_bounded :
    (es : List ErrorEntry) (d : String) (tries : ℕ) (now : Time)
    → length es ≤ 5
    → (l : List ErrorEntry) × (compute_error_history (some es) state_failed d tries now ≡ some l)
      × Kept d now l
unfolding compute_error_history
error_history_bounded es d tries now h = elim (Bool-cases (first_tries tries)) [
  | inl e ↦ (
    record { description = d; time = now } ∷ [],
    ground (arith, e),
    (omega arith, omega arith, inl (refl, refl)),
  )
  | inr e ↦ (extend_history d now es, ground (arith, e), extend_lem es d now h)
]
