-- ===== src/Deploy/WorseState.antt =====
-- `WorseState` of pkg/deployutil/deployutil.go, and the tests of a state against its constants.
use potter_controller.Prelude.{
  Bool, List, any, arith, false, if◌then◌else◌, refl, true, ◌||◌, ◌∷◌, ◌≡◌,
}
use potter_controller.Api.{
  State, state_failed, state_finally_failed, state_ok, state_pending, state_unknown,
}

abbrev pub is_finally_failed : State → Bool
is_finally_failed state_finally_failed = true
is_finally_failed _ = false

abbrev pub is_failed : State → Bool
is_failed state_failed = true
is_failed _ = false

abbrev pub is_state_unknown : State → Bool
is_state_unknown state_unknown = true
is_state_unknown _ = false

abbrev pub is_pending : State → Bool
is_pending state_pending = true
is_pending _ = false

abbrev pub is_ok : State → Bool
is_ok state_ok = true
is_ok _ = false

unfoldable pub worse_state : State → State → State
worse_state a b =
    if is_finally_failed a || is_finally_failed b
    then state_finally_failed
    else if is_failed a || is_failed b
    then state_failed
    else if is_state_unknown a || is_state_unknown b
    then state_unknown
    else if is_pending a || is_pending b
    then state_pending
    else state_ok

-- The worst of the states of a list: the first of the four bad states, in their order of severity,
-- that occurs in it; `ok` where none does.
abbrev pub worst_of : List State → State
worst_of l =
    if any is_finally_failed l
    then state_finally_failed
    else if any is_failed l
    then state_failed
    else if any is_state_unknown l
    then state_unknown
    else if any is_pending l
    then state_pending
    else state_ok

-- Worsening by one state and then by a list is worsening by the worst of them all.
pub worse_state-worst_of :
    (a s : State) (l : List State)
    → worse_state (worse_state a s) (worst_of l) ≡ worse_state a (worst_of (s ∷ l))
unfolding worse_state
worse_state-worst_of a s l = ground arith

-- From `ok`, worsening by a worst state gives it.
pub worse_state-ok : (l : List State) → worse_state state_ok (worst_of l) ≡ worst_of l
unfolding worse_state
worse_state-ok l = ground arith

-- What `worse_state` returns, worsening by `ok` leaves.
pub worse_state_idem : (a b : State) → worse_state (worse_state a b) state_ok ≡ worse_state a b
unfolding worse_state
worse_state_idem a b = ground arith

pub worse_state_ok_ok : worse_state state_ok state_ok ≡ state_ok
unfolding worse_state
worse_state_ok_ok = refl
