-- ===== src/Admission/Verdict.antt =====
-- The checks of a review: `none` is no objection, `some` the message of the first `report.deny`, after which
-- a check and the review end.
use potter_controller.Prelude.{Bool, Option, String, eqb, false, leb, none, some, true, ℕ, ◌||◌}
use potter_controller.Util.Text.{contains_text}

-- The result of json.Unmarshal, or the text of its error.
pub data Decoded (A : Type 0) : Type 0 where
  decoded : A → Decoded A
  undecoded : String → Decoded A

abbrev pub Denial : Type 0
Denial = Option String

-- A test that denies with a message, and the checks after it.
abbrev pub deny_if : Bool → String → Denial → Denial
deny_if true message rest = some message
deny_if false message rest = rest

infixr 4 ◌then_check◌
abbrev pub ◌then_check◌ : Denial → Denial → Denial
some message then_check rest = some message
none then_check rest = rest

abbrev pub is_spiff_template : String → Bool
is_spiff_template s = contains_text "((" s

-- A signed 64-bit integer that is not positive, by its bit pattern.
abbrev pub not_positive : Option ℕ → Bool
not_positive none = false
not_positive (some n) = eqb n 0 || leb 9223372036854775808 n
