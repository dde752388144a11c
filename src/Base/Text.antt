-- ===== src/Base/Text.antt =====
-- Texts: equality as the program's `===`, the order of JavaScript's `<` on texts.
use Prim.Native.Nat.{ℕ}
use Prim.Native.Char.{code}
use Prim.Native.String.{String}
use mathlib.Core.Path.{◌≡◌}
use mathlib.Core.Logic.{◌≢◌, ◌⊎◌}
use mathlib.Core.Bool.{Bool, true, false}
use mathlib.Core.List.{List, [], ◌∷◌}
use native.Mathlib.Omega.{arith}
use text.Mathlib.Text.{◌==◌ as text_eq}
use text.Mathlib.TextEquality.{eq_iff}

-- `===` on texts
infix 50 ◌===◌
abbrev pub ◌===◌ : String → String → Bool
s === t = text_eq s t

pub ===_eq : (s t : String) → (s === t) ≡ true → s ≡ t
===_eq s t h = (eq_iff s t).0 h

pub eq_=== : (s t : String) → s ≡ t → (s === t) ≡ true
eq_=== s t h = (eq_iff s t).1 h

pub ===_self : (s : String) → (s === s) ≡ true
===_self s = (eq_iff s s).1 (λ i. s)

pub ===_ne : (s t : String) → (s === t) ≡ false → s ≢ t
===_ne s t h e = cc (eq_=== s t e)

pub ===_cases : (s t : String) → (s ≡ t) × ((s === t) ≡ true) ⊎ (s ≢ t) × ((s === t) ≡ false)
===_cases s t = ground (arith, eq_iff s t)

-- The code points of a text.
abbrev pub codes : String → List ℕ
codes String.[] = []
codes (String.◌∷◌ c s) = code c ∷ codes s
