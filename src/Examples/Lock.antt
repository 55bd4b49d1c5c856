-- ===== src/Examples/Lock.antt =====
-- One process that gets the lock of a clusterbom, at an API server that holds one object.
use Prim.Native.String.{◌∷◌, count}
use Prim.Native.String.count
use mathlib.Core.Path.{subst}
use native.Mathlib.Decide.{ℕ_discrete}
use potter_controller.Prelude.{
  Bool, Option, String, ap, arith, eqb, false, if◌then◌else◌, none, refl, set_at, some, some_inj,
  suc, sym, true, zero, ℕ, ◌+◌, ◌<◌, ◌∙◌, ◌≡◌, ◌≤◌,
}
use potter_controller.Api.{NamespacedName, second}
use potter_controller.Sync.Decision.{ClusterBomSync, decide_block, new_cluster_bom_sync}
use potter_controller.Sync.Exclusion.{grant_is_stored, mutual_exclusion}
use potter_controller.Sync.System.{
  ApiServer, Reach, System, blocking, created, creating, extended, fetch_missing, fetched, goto,
  idle, kept, started,
}

-- The object, or the version of the last one that was deleted.
data Cell : Type 0 where
  full : ClusterBomSync → Cell
  gone : ℕ → Cell

abbrev read_cell : Cell → Option ClusterBomSync
read_cell (full o) = some o
read_cell (gone n) = none

abbrev version_of : Cell → ℕ
version_of (full o) = o.version
version_of (gone n) = n

abbrev create_cell : Cell → ClusterBomSync → Option Cell
create_cell (full o) n = none
create_cell (gone v) n = some (full (record n { version = suc v }))

abbrev update_cell : Cell → ClusterBomSync → Option Cell
update_cell (full o) n =
    if eqb o.version n.version then some (full (record n { version = suc o.version })) else none
update_cell (gone v) n = none

create_cell_lem :
    (s t : Cell) (o : ClusterBomSync)
    → create_cell s o ≡ some t
    → (read_cell s ≡ none)
      × (read_cell t ≡ some (record o { until = o.until; version = version_of t }))
      × (version_of s < version_of t)
create_cell_lem (full c) t o h = cc
create_cell_lem (gone v) t o h =
    subst
      (λ (t : Cell).
        (read_cell (gone v) ≡ none)
        × (read_cell t ≡ some (record o { version = version_of t }))
        × (v < version_of t))
      (some_inj h) (refl, refl, omega arith)

update_cell_lem :
    (s t : Cell) (o : ClusterBomSync)
    → update_cell s o ≡ some t
    → (c : ClusterBomSync) × (read_cell s ≡ some c)
      × (c.version ≡ o.version)
      × (read_cell t ≡ some (record o { until = o.until; version = version_of t }))
      × (version_of s < version_of t)
update_cell_lem (full c) t o h = go (eqb c.version o.version) refl h
  where
    go :
        (b : Bool)
        → eqb c.version o.version ≡ b
        → (if b then some (full (record o { version = suc c.version })) else none) ≡ some t
        → (d : ClusterBomSync) × (some c ≡ some d)
          × (d.version ≡ o.version)
          × (read_cell t ≡ some (record o { version = version_of t }))
          × (c.version < version_of t)
    go false e h = cc
    go true e h =
        subst
          (λ (t : Cell).
            (d : ClusterBomSync) × (some c ≡ some d)
            × (d.version ≡ o.version)
            × (read_cell t ≡ some (record o { version = version_of t }))
            × (c.version < version_of t))
          (some_inj h) (c, refl, ground (arith, e), refl, omega arith)
update_cell_lem (gone v) t o h = cc

read_cell-version :
    (s : Cell) (o : ClusterBomSync) → read_cell s ≡ some o → o.version ≤ version_of s
read_cell-version (full c) o h = omega (arith, ap (λ (z : ClusterBomSync). z.version) (some_inj h))
read_cell-version (gone v) o h = cc

remove_cell_lem :
    (s : Cell)
    → (read_cell (gone (version_of s)) ≡ none) × (version_of s ≤ version_of (gone (version_of s)))
remove_cell_lem s = (refl, omega arith)

abbrev server : ApiServer
server = record {
  Store = Cell;
  read = read_cell;
  revision = version_of;
  stored = λ t. t;
  create = create_cell;
  update = update_cell;
  remove = λ s. gone (version_of s);
  stored-le = λ t. omega arith;
  stored-lt = λ t. omega arith;
  stored_mono = λ t u h. h;
  read-stored = λ s o h. refl;
  read-revision = read_cell-version;
  create_lem = create_cell_lem;
  update_lem = update_cell_lem;
  remove_lem = remove_cell_lem;
}

-- A process is known by a text of as many characters as its number says.
abbrev ids : ℕ → String
ids zero = ""
ids (suc n) = "p" ∷ ids n

count-ids : (n : ℕ) → count (ids n) ≡ n
count-ids zero = count.nil
count-ids (suc n) = count.cons "p" (ids n) ∙ ap suc (count-ids n)

ids_inj : (a b : ℕ) → ids a ≡ ids b → a ≡ b
ids_inj a b h = sym (count-ids a) ∙ ap count h ∙ count-ids b

abbrev bom_key : NamespacedName
bom_key = record { namespace = "garden"; name = "bom" }

abbrev Run : System server bom_key ids → Type 0
Run s = Reach server bom_key ids (gone 0) s

abbrev s0 : System server bom_key ids
s0 = record { time = 100; store = gone 0; pc = λ _. idle; grant = λ _. 0 }

abbrev fresh : ClusterBomSync
fresh = record { key = bom_key; id = ""; timestamp = 100; until = 150; version = 0 }

abbrev held : ClusterBomSync
held = record { key = bom_key; id = ""; timestamp = 100; until = 150; version = 1 }

abbrev s1 : System server bom_key ids
s1 = goto server bom_key ids s0 0 (creating 50 fresh)

abbrev s2 : System server bom_key ids
s2 = record (goto server bom_key ids s1 0 (fetched blocking 50 held)) { store = full held }

abbrev s3 : System server bom_key ids
s3 = record (goto server bom_key ids s2 0 idle) { grant = set_at s2.grant 0 150 }

-- The process finds no object, creates one, and keeps it as its own.
reach_s3 : Run s3
unfolding decide_block new_cluster_bom_sync ℕ_discrete
reach_s3 =
    let r0 : Run s0 = started 100 in
    let r1 : Run s1 = extended r0 (fetch_missing 0 50 refl refl) in
    let r2 : Run s2 = extended r1 (created 0 50 fresh held (full held) refl refl refl) in
    extended r2 (kept 0 blocking 50 held refl refl)

mutual_exclusion_example : ◌≡◌ {A = ℕ} 0 0
unfolding ℕ_discrete
mutual_exclusion_example =
    mutual_exclusion server bom_key ids ids_inj reach_s3 0 0 (omega arith) (omega arith)

grant_is_stored_example :
    (o : ClusterBomSync) × (read_cell s3.store ≡ some o)
    × (o.id ≡ ids 0)
    × (s3.grant 0 < o.until + second)
unfolding ℕ_discrete
grant_is_stored_example = grant_is_stored server bom_key ids ids_inj reach_s3 0 (omega arith)
