-- ===== src/Regex.antt =====
-- JavaScript's regular expressions, as far as the program's validation patterns use them: an
-- anchored pattern without backreferences, tested against a whole text by derivatives.
pub mod Language
use tru_budget.Base.{ℕ, Bool, true, false, ◌&&◌, ◌||◌, List, [], ◌∷◌, if◌then◌else◌}

pub data Regex : Type 0 where
  never : Regex
  empty : Regex
  one : (ℕ → Bool) → Regex
  seq : Regex → Regex → Regex
  alt : Regex → Regex → Regex
  star : Regex → Regex

-- Whether the pattern takes the empty text.
pub nullable : Regex → Bool
nullable never = false
nullable empty = true
nullable (one p) = false
nullable (seq r q) = nullable r && nullable q
nullable (alt r q) = nullable r || nullable q
nullable (star r) = true

-- What is left of the pattern after a character.
pub derive : ℕ → Regex → Regex
unfolding nullable
derive c never = never
derive c empty = never
derive c (one p) = if p c then empty else never
derive c (seq r q) =
    if nullable r then alt (seq (derive c r) q) (derive c q) else seq (derive c r) q
derive c (alt r q) = alt (derive c r) (derive c q)
derive c (star r) = seq (derive c r) (star r)

-- `/^…$/.test(text)`
unfoldable pub test : Regex → List ℕ → Bool
unfolding nullable derive
test r [] = nullable r
test r (c ∷ cs) = test (derive c r) cs

-- `r?`, `r+` and `r{1,3}`
abbrev pub optional : Regex → Regex
optional r = alt empty r

abbrev pub plus : Regex → Regex
plus r = seq r (star r)

abbrev pub one_to_three : Regex → Regex
one_to_three r = seq r (optional (seq r (optional r)))
