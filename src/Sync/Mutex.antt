-- ===== src/Sync/Mutex.antt =====
-- `mutexMap`: one counted mutex for each key that is in use.
use potter_controller.Prelude.{
  Map, String, delete, eqb, if◌then◌else◌, insert, lookup, none, some, ℕ, ◌+◌, ◌-◌,
}

-- A text for a key; the map holds the counters of the entries.
unfoldable pub get_mutex : String → Map ℕ → Map ℕ
get_mutex key m = elim (lookup key m) [ none ↦ insert key 1 m | some n ↦ insert key (n + 1) m ]

unfoldable pub release_mutex : String → Map ℕ → Map ℕ
release_mutex key m = elim (lookup key m) [
  | none ↦ m
  | some n ↦ if eqb (n - 1) 0 then delete key m else insert key (n - 1) m
]
