-- ===== src/Money/Amounts.antt =====
-- What the money patterns take.
use tru_budget.Base.{
  ℕ, ◌≡◌, refl, sym, ap, subst, ◌∙◌, ◌↔◌, ◌⊎◌, inl, inr, true, String, List, [], ◌∷◌, ◌++◌, arith,
  All, codes, and-split, and-join,
}
use tru_budget.Joi.{Joi}
use tru_budget.Regex.{star, plus, test}
use tru_budget.Regex.Language.{
  Matches, m_empty, m_one, m_seq, m_left, m_right, m_stop, m_more, test_iff,
}
use tru_budget.Money.{between, digit, fraction, rate_pattern, conversion_rate}

abbrev pub IsDigit : ℕ → Type 0
IsDigit c = between b'0' b'9' c ≡ true

-- One digit or more.
abbrev pub Digits : List ℕ → Type 0
Digits s = (c : ℕ) × (ds : List ℕ) × (s ≡ c ∷ ds) × IsDigit c × All IsDigit ds

-- Nothing, or a point with digits behind it.
abbrev pub IsFraction : List ℕ → Type 0
IsFraction s = (s ≡ []) ⊎ ((ds : List ℕ) × (s ≡ b'.' ∷ ds) × Digits ds)

pub between-eq : (d c : ℕ) → between d d c ≡ true → c ≡ d
between-eq d c h = ground arith

pub between_self : (d : ℕ) → between d d d ≡ true
between_self d = ground arith

star_digit-All : (s : List ℕ) → Matches (star digit) s → All IsDigit s
star_digit-All s (m_stop e) = subst (All IsDigit) (sym e) tt
star_digit-All u (m_more s t (m_one c p e') k e) =
    subst (All IsDigit) (sym (e ∙ ap (λ x. x ++ t) e')) (p, star_digit-All t k)

All-star_digit : (s : List ℕ) → All IsDigit s → Matches (star digit) s
All-star_digit [] h = m_stop refl
All-star_digit (c ∷ s) (p, h) = m_more (c ∷ []) s (m_one c p refl) (All-star_digit s h) refl

pub Digits-iff : (s : List ℕ) → Matches (plus digit) s ↔ Digits s
Digits-iff s = (to, from)
  where
    to : Matches (plus digit) s → Digits s
    to (m_seq u v (m_one c p e') k e) = (c, v, e ∙ ap (λ x. x ++ v) e', p, star_digit-All v k)

    from : Digits s → Matches (plus digit) s
    from (c, ds, e, p, h) = m_seq (c ∷ []) ds (m_one c p refl) (All-star_digit ds h) e

pub fraction_iff : (s : List ℕ) → Matches fraction s ↔ IsFraction s
fraction_iff s = (to, from)
  where
    to : Matches fraction s → IsFraction s
    to (m_left (m_empty e)) = inl e
    to (m_right (m_seq u v (m_one c p e') k e)) =
        inr (v, e ∙ ap (λ x. x ++ v) e' ∙ ap (λ x. x ∷ v) (between-eq b'.' c p), (Digits-iff v).0 k)

    from : IsFraction s → Matches fraction s
    from (inl e) = m_left (m_empty e)
    from (inr (ds, e, d)) =
        m_right (m_seq (b'.' ∷ []) ds (m_one b'.' (between_self b'.') refl) ((Digits-iff ds).1 d) e)

-- Digits, and a fraction if any.
abbrev pub IsRate : List ℕ → Type 0
IsRate s = (whole : List ℕ) × (rest : List ℕ) × (s ≡ whole ++ rest) × Digits whole × IsFraction rest

test-IsRate_iff : (s : List ℕ) → (test rate_pattern s ≡ true) ↔ IsRate s
test-IsRate_iff s =
    (λ h. to ((test_iff rate_pattern s).0 h), λ r. (test_iff rate_pattern s).1 (from r))
  where
    to : Matches rate_pattern s → IsRate s
    to (m_seq u v h k e) = (u, v, e, (Digits-iff u).0 h, (fraction_iff v).0 k)

    from : IsRate s → Matches rate_pattern s
    from (u, v, e, h, k) = m_seq u v ((Digits-iff u).1 h) ((fraction_iff v).1 k) e

-- A conversion rate is exactly a text of digits with a fraction if any that Joi takes as a text.
pub conversion_rate_iff :
    (joi : Joi) (v : String)
    → (conversion_rate joi v ≡ true) ↔ ((joi.string v ≡ true) × IsRate (codes v))
unfolding conversion_rate
conversion_rate_iff joi v = (
  λ h. let (p, q) = and-split _ _ h in (p, (test-IsRate_iff (codes v)).0 q),
  λ (p, q). and-join _ _ p ((test-IsRate_iff (codes v)).1 q),
)
