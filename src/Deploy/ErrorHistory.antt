-- ===== src/Deploy/ErrorHistory.antt =====
-- `computeErrorHistory` and `sortErrorEntries` of pkg/deployutil/deploydata.go.
use potter_controller.Prelude.{
  Bool, List, Option, String, [], if◌then◌else◌, leb, length, ltb, none, some, ℕ, ◌++◌, ◌==◌, ◌||◌,
  ◌∷◌,
}
use potter_controller.Api.{ErrorEntry, State, Time, state_failed}

abbrev pub before : ErrorEntry → List ErrorEntry → List ErrorEntry
before e [] = e ∷ []
before e (x ∷ xs) = let rest = before e xs in if leb e.time x.time then e ∷ x ∷ xs else x ∷ rest

-- sort.Slice by the time; it leaves entries of one time in any order, this in the given one.
abbrev pub sort_error_entries : List ErrorEntry → List ErrorEntry
sort_error_entries [] = []
sort_error_entries (e ∷ es) = before e (sort_error_entries es)

-- The loop from the second entry on: the first entry of that description gets the new time.
abbrev pub renew : String → Time → List ErrorEntry → Option (List ErrorEntry)
renew description now [] = none
renew description now (e ∷ es) =
    let rest = renew description now es in
    if e.description == description
    then some (record e { time = now } ∷ es)
    else elim rest [ none ↦ none | some r ↦ some (e ∷ r) ]

-- `errorEntries[1]` is overwritten where no entry was renewed.
abbrev pub replace_entry : String → Time → List ErrorEntry → List ErrorEntry
replace_entry description now [] = []
replace_entry description now (first ∷ []) = first ∷ []
replace_entry description now (first ∷ second_entry ∷ es) =
    elim (renew description now (second_entry ∷ es)) [
      | some r ↦ first ∷ r
      | none ↦ first ∷ record { description = description; time = now } ∷ es
    ]

-- `numberOfTries < 2` of an int32
abbrev pub first_tries : ℕ → Bool
first_tries tries = ltb tries 2 || leb 2147483648 tries

unfoldable pub extend_history : String → Time → List ErrorEntry → List ErrorEntry
extend_history description now es =
    if ltb (length es) 5
    then sort_error_entries (es ++ record { description = description; time = now } ∷ [])
    else sort_error_entries (replace_entry description now (sort_error_entries es))

-- The history that was there, the state and description of the operation, its number of tries.
unfoldable pub compute_error_history :
    Option (List ErrorEntry) → State → String → ℕ → Time → Option (List ErrorEntry)
unfolding extend_history
compute_error_history old state_failed description tries now =
    let single = some (record { description = description; time = now } ∷ []) in
    elim old [
      | none ↦ single
      | some es ↦ if first_tries tries then single else some (extend_history description now es)
    ]
compute_error_history old _ description tries now = none
