-- ===== src/Util/ObjectLaws.antt =====
-- Finalizers, and the comparison of condition lists.
use potter_controller.Prelude.{
  List, String, [], any, arith, eq_iff, eq_refl, false, if◌then◌else◌, is_empty, refl, suc, true, ℕ,
  ◌&&◌, ◌++◌, ◌==◌, ◌||◌, ◌∷◌, ◌≡◌, ◌≢◌,
}
use potter_controller.Api.{Condition, ObjectMeta}
use potter_controller.Util.Condition.{
  all_hdc_conditions, is_equal_hdc_condition_list, match_hdc_condition, succeeds,
}
use potter_controller.Util.Objects.{add_finalizer, has_finalizer, remove_finalizer, without}

any-append :
    (f : String) (l : List String) (x : String)
    → any (λ fin. fin == f) (l ++ x ∷ []) ≡ (any (λ fin. fin == f) l || (x == f))
any-append f [] x = ground arith
any-append f (y ∷ ys) x = ground (arith, any-append f ys x)

any-without :
    (f g : String) (l : List String)
    → any (λ fin. fin == g) (without f l) ≡ (if f == g then false else any (λ fin. fin == g) l)
unfolding without
any-without f g [] = ground arith
any-without f g (x ∷ xs) = ground (arith, any-without f g xs, eq_iff x f, eq_iff x g, eq_iff f g)

-- After a finalizer was added it is there, and after it was removed it is not; every other finalizer is
-- there then if and only if it was before.
pub finalizer_round_trip :
    (m : ObjectMeta) (f g : String)
    → (has_finalizer (add_finalizer m f) f ≡ true)
      × (has_finalizer (remove_finalizer (add_finalizer m f) f) g
          ≡ (if f == g then false else has_finalizer m g))
unfolding has_finalizer add_finalizer remove_finalizer
finalizer_round_trip m f g = (
  ground (arith, any-append f m.finalizers f, eq_refl f),
  ground (arith, any-without f g (m.finalizers ++ f ∷ []), any-append g m.finalizers f, eq_iff f g),
)

-- No address of one array is one of another.
match_hdc_lem :
    (a b i j : ℕ) (old : Condition) (new : List Condition)
    → a ≢ b
    → succeeds (
        match_hdc_condition old
          (record { array = a; index = i })
          new
          (record { array = b; index = j })
          false)
      ≡ false
unfolding match_hdc_condition
match_hdc_lem a b i j old [] ne = refl
match_hdc_lem a b i j old (c ∷ new) ne = ground (arith, ne, match_hdc_lem a b i (suc j) old new ne)

-- Two condition lists in different arrays are equal to `IsEqualHdcConditionList` exactly if both are
-- empty.
pub hdc_lists_equal_iff_empty :
    (a b : ℕ) (old new : List Condition)
    → a ≢ b
    → is_equal_hdc_condition_list a old b new ≡ (is_empty old && is_empty new)
unfolding is_equal_hdc_condition_list all_hdc_conditions
hdc_lists_equal_iff_empty a b [] [] ne = refl
hdc_lists_equal_iff_empty a b [] (n ∷ new) ne = ground arith
hdc_lists_equal_iff_empty a b (c ∷ old) [] ne = ground arith
hdc_lists_equal_iff_empty a b (c ∷ old) (n ∷ new) ne =
    ground (arith, match_hdc_lem a b 0 0 c (n ∷ new) ne)
