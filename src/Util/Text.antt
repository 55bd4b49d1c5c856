-- ===== src/Util/Text.antt =====
-- The functions of Go's package strings that the code calls.
use Prim.Native.Char.{Char, code}
use Prim.Native.String.{String, [], ◌∷◌}
use potter_controller.Prelude.{
  Bool, Option, eqb, false, if◌then◌else◌, none, some, suc, true, ℕ, ◌&&◌, ◌||◌,
}

abbrev pub same_char : Char → Char → Bool
same_char x y = eqb (code x) (code y)

-- strings.HasPrefix, with the prefix first
abbrev pub has_prefix : String → String → Bool
has_prefix [] s = true
has_prefix (x ∷ p) [] = false
has_prefix (x ∷ p) (y ∷ s) = same_char x y && has_prefix p s

-- strings.Contains, with the part first
abbrev pub contains_text : String → String → Bool
contains_text part [] = has_prefix part []
contains_text part (x ∷ s) = has_prefix part (x ∷ s) || contains_text part s

-- `len` of a text of ASCII characters
abbrev pub text_length : String → ℕ
text_length [] = 0
text_length (x ∷ s) = suc (text_length s)

abbrev pub all_chars : (Char → Bool) → String → Bool
all_chars p [] = true
all_chars p (x ∷ s) = p x && all_chars p s

-- strings.Split at a slash: the first part, and what follows the slash.
abbrev pub part_before_slash : String → String
part_before_slash [] = []
part_before_slash (x ∷ s) =
    let rest = part_before_slash s in if eqb (code x) 47 then [] else x ∷ rest

abbrev pub after_slash : String → Option String
after_slash [] = none
after_slash (x ∷ s) = let rest = after_slash s in if eqb (code x) 47 then some s else rest
