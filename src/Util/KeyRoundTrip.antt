-- ===== src/Util/KeyRoundTrip.antt =====
-- The clusterbom that a deploy item's name names.
use Prim.Native.Char.{Char}
use Prim.Native.String.{String, [], ◌∷◌, ◌++◌}
use Prim.Native.String.append
use potter_controller.Prelude.{Bool, ap, arith, false, none, refl, some, sym, true, ◌&&◌, ◌∙◌, ◌≡◌}
use potter_controller.Util.Keys.{
  before_last, create_deploy_item_name, get_cluster_bom_key_from_deploy_item_key, is_dash,
  separator, starts_double, starts_single,
}

before_last-eq-none :
    (p : String → Bool) (c : Char) (s : String)
    → before_last p (c ∷ s) ≡ none
    → (before_last p s ≡ none) × (p (c ∷ s) ≡ false)
unfolding before_last
before_last-eq-none p c s h = ground arith

before_last-none :
    (p : String → Bool) (c : Char) (s : String)
    → before_last p s ≡ none
    → p (c ∷ s) ≡ false
    → before_last p (c ∷ s) ≡ none
unfolding before_last
before_last-none p c s h h' = ground arith

before_last-some :
    (p : String → Bool) (c : Char) (s r : String)
    → before_last p s ≡ some r
    → before_last p (c ∷ s) ≡ some (c ∷ r)
unfolding before_last
before_last-some p c s r h = ground arith

before_last_here :
    (p : String → Bool) (c : Char) (s : String)
    → before_last p s ≡ none
    → p (c ∷ s) ≡ true
    → before_last p (c ∷ s) ≡ some []
unfolding before_last
before_last_here p c s h h' = ground arith

abbrev dash : Char
dash = "-"

dash_append : (s : String) → separator ++ s ≡ dash ∷ s
dash_append s = append.cons dash "" s ∙ ap (λ t. dash ∷ t) (append.nil s)

-- Without a single separator there is no double one.
no_double : (s : String) → before_last starts_single s ≡ none → before_last starts_double s ≡ none
unfolding before_last
no_double [] h = refl
no_double (c ∷ s) h =
    let (h1, h2) = before_last-eq-none starts_single c s h in
    before_last-none starts_double c s (no_double s h1) (ground (arith, h2))

no_first : (s : String) → before_last starts_single s ≡ none → starts_single s ≡ false
no_first [] h = refl
no_first (c ∷ s) h = (before_last-eq-none starts_single c s h).1

single_lem :
    (bom app : String)
    → before_last starts_single app ≡ none
    → before_last starts_single (bom ++ separator ++ app) ≡ some bom
unfolding before_last
single_lem [] app h =
    ap (before_last starts_single) (append.nil (separator ++ app) ∙ dash_append app)
    ∙ before_last_here starts_single dash app h refl
single_lem (c ∷ bom) app h =
    ap (before_last starts_single) (append.cons c bom (separator ++ app))
    ∙ before_last-some starts_single c (bom ++ separator ++ app) bom (single_lem bom app h)

-- A name goes on with its first character.
first_same :
    (bom app : String) → starts_single (bom ++ separator ++ app) ≡ starts_single (bom ++ separator)
first_same [] app =
    ap starts_single (append.nil (separator ++ app) ∙ dash_append app)
    ∙ sym (ap starts_single (append.nil separator))
first_same (c ∷ bom) app =
    ap starts_single (append.cons c bom (separator ++ app))
    ∙ sym (ap starts_single (append.cons c bom separator))

double_lem :
    (bom app : String)
    → before_last starts_double (bom ++ separator) ≡ none
    → before_last starts_single app ≡ none
    → before_last starts_double (bom ++ separator ++ app) ≡ none
double_lem [] app h h' =
    ap (before_last starts_double) (append.nil (separator ++ app) ∙ dash_append app)
    ∙ before_last-none starts_double dash app (no_double app h') (no_first app h')
double_lem (c ∷ bom) app h h' =
    let (h1, h2) =
      before_last-eq-none starts_double c (bom ++ separator)
        (sym (ap (before_last starts_double) (append.cons c bom separator)) ∙ h) in
    ap (before_last starts_double) (append.cons c bom (separator ++ app))
    ∙ before_last-none starts_double c (bom ++ separator ++ app) (double_lem bom app h1 h')
        (ap (λ b. is_dash c && b) (first_same bom app) ∙ h2)

-- The key of the clusterbom is read back off the name of a deploy item, where the name of the
-- clusterbom has no double separator and does not end with a separator, and the id of the application
-- has no separator.
pub deploy_item_key_round_trip :
    (namespace bom app : String)
    → before_last starts_double (bom ++ separator) ≡ none
    → before_last starts_single app ≡ none
    → get_cluster_bom_key_from_deploy_item_key
        (record { namespace = namespace; name = create_deploy_item_name bom app })
      ≡ some (record { namespace = namespace; name = bom })
unfolding get_cluster_bom_key_from_deploy_item_key create_deploy_item_name
deploy_item_key_round_trip namespace bom app h h' =
    ground (arith, double_lem bom app h h', single_lem bom app h')
