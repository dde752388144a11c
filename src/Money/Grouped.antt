-- ===== src/Money/Grouped.antt =====
-- Amounts with their digits in groups of three.
use tru_budget.Base.{
  ℕ, ◌≡◌, refl, sym, ap, subst, ◌∙◌, ◌↔◌, ◌⊎◌, inl, inr, true, String, List, codes, and-split,
  and-join, [], ◌∷◌, ◌++◌,
}
use tru_budget.Joi.{Joi}
use tru_budget.Regex.{Regex, seq, alt, star, plus, optional, one_to_three, test}
use tru_budget.Regex.Language.{
  Matches, m_empty, m_one, m_seq, m_left, m_right, m_stop, m_more, test_iff,
}
use tru_budget.Money.{
  digit, char, white_space, is_white_space, grouped, amount_pattern, money_amount,
}
use tru_budget.Money.Amounts.{
  IsDigit, Digits, IsFraction, between-eq, between_self, Digits-iff, fraction_iff,
}

-- Groups of a comma and three digits, at least one.
pub data Groups : List ℕ → Type 0 where
  last_group :
      {s : List ℕ} (a b c : ℕ)
      → IsDigit a
      → IsDigit b
      → IsDigit c
      → s ≡ b',' ∷ a ∷ b ∷ c ∷ []
      → Groups s
  next_group :
      {s : List ℕ} (a b c : ℕ) (rest : List ℕ)
      → IsDigit a
      → IsDigit b
      → IsDigit c
      → Groups rest
      → s ≡ b',' ∷ a ∷ b ∷ c ∷ rest
      → Groups s

-- One to three digits.
pub data Lead : List ℕ → Type 0 where
  lead_one : (a : ℕ) → IsDigit a → Lead (a ∷ [])
  lead_two : (a b : ℕ) → IsDigit a → IsDigit b → Lead (a ∷ b ∷ [])
  lead_three : (a b c : ℕ) → IsDigit a → IsDigit b → IsDigit c → Lead (a ∷ b ∷ c ∷ [])

abbrev pub IsGrouped : List ℕ → Type 0
IsGrouped s = (lead : List ℕ) × (rest : List ℕ) × (s ≡ lead ++ rest) × Lead lead × Groups rest

-- A minus sign if any, white space if any, digits in groups or not, and a fraction if any.
abbrev pub IsAmount : List ℕ → Type 0
IsAmount s =
    (sign : List ℕ) × (gap : List ℕ) × (whole : List ℕ) × (rest : List ℕ) × (s
      ≡ sign ++ (gap ++ (whole ++ rest)))
    × ((sign ≡ []) ⊎ (sign ≡ b'-' ∷ []))
    × ((gap ≡ []) ⊎ ((c : ℕ) × (gap ≡ c ∷ []) × (is_white_space c ≡ true)))
    × (Digits whole ⊎ IsGrouped whole)
    × IsFraction rest

Matches-digit : (s : List ℕ) → Matches digit s → (c : ℕ) × (s ≡ c ∷ []) × IsDigit c
Matches-digit s (m_one c p e) = (c, e, p)

abbrev group : Regex
group = seq (char b',') (seq digit (seq digit digit))

Matches-group :
    (s : List ℕ)
    → Matches group s
    → (a : ℕ) × (b : ℕ) × (c : ℕ) × IsDigit a × IsDigit b × IsDigit c × (s ≡ b',' ∷ a ∷ b ∷ c ∷ [])
Matches-group s (m_seq u v (m_one x p e) (m_seq u' v' h' (m_seq u'' v'' h'' k'' e'') e') q) =
    let (a, ea, pa) = Matches-digit u' h' in
    let (b, eb, pb) = Matches-digit u'' h'' in
    let (c, ec, pc) = Matches-digit v'' k'' in (a, b, c, pa, pb, pc, cc (between-eq b',' x p))

group-Matches :
    (a b c : ℕ) → IsDigit a → IsDigit b → IsDigit c → Matches group (b',' ∷ a ∷ b ∷ c ∷ [])
group-Matches a b c p q r =
    m_seq (b',' ∷ []) (a ∷ b ∷ c ∷ []) (m_one b',' (between_self b',') refl)
      (m_seq (a ∷ []) (b ∷ c ∷ []) (m_one a p refl)
        (m_seq (b ∷ []) (c ∷ []) (m_one b q refl) (m_one c r refl) refl) refl)
      refl

star_group-Groups : (s : List ℕ) → Matches (star group) s → (s ≡ []) ⊎ Groups s
star_group-Groups s (m_stop e) = inl e
star_group-Groups s (m_more u v h k e) =
    let (a, b, c, p, q, r, eu) = Matches-group u h in
    inr (elim (star_group-Groups v k) [
      | inl none_left ↦
          last_group a b c p q r
            (e ∙ ap (λ x. x ++ v) eu ∙ ap (λ x. b',' ∷ a ∷ b ∷ c ∷ x) none_left)
      | inr more ↦ next_group a b c v p q r more (e ∙ ap (λ x. x ++ v) eu)
    ])

Groups-star_group : (s : List ℕ) → Groups s → Matches (star group) s
Groups-star_group s (last_group a b c p q r e) =
    m_more (b',' ∷ a ∷ b ∷ c ∷ []) [] (group-Matches a b c p q r) (m_stop refl) e
Groups-star_group s (next_group a b c rest p q r g e) =
    m_more (b',' ∷ a ∷ b ∷ c ∷ []) rest (group-Matches a b c p q r) (Groups-star_group rest g) e

Groups-iff : (s : List ℕ) → Matches (plus group) s ↔ Groups s
Groups-iff s = (to, from)
  where
    to : Matches (plus group) s → Groups s
    to (m_seq u v h k e) = elim (star_group-Groups s (m_more u v h k e)) [
      | inl nothing ↦ let (a, b, c, p, q, r, eu) = Matches-group u h in cc
      | inr g ↦ g
    ]

    from : Groups s → Matches (plus group) s
    from (last_group a b c p q r e) =
        m_seq (b',' ∷ a ∷ b ∷ c ∷ []) [] (group-Matches a b c p q r) (m_stop refl) e
    from (next_group a b c rest p q r g e) =
        m_seq (b',' ∷ a ∷ b ∷ c ∷ []) rest (group-Matches a b c p q r) (Groups-star_group rest g) e

Matches-Lead : (s : List ℕ) → Matches (one_to_three digit) s → Lead s
Matches-Lead s (m_seq u v (m_one a p e') (m_left (m_empty k)) e) =
    let same : s ≡ a ∷ [] = cc in subst Lead (sym same) (lead_one a p)
Matches-Lead s
      (m_seq u v (m_one a p e') (m_right (m_seq u' v' (m_one b q f) (m_left (m_empty k)) g)) e) =
    let same : s ≡ a ∷ b ∷ [] = cc in subst Lead (sym same) (lead_two a b p q)
Matches-Lead s
      (m_seq u v (m_one a p e') (m_right (m_seq u' v' (m_one b q f) (m_right (m_one c r k)) g)) e) =
    let same : s ≡ a ∷ b ∷ c ∷ [] = cc in subst Lead (sym same) (lead_three a b c p q r)

Lead-Matches : (s : List ℕ) → Lead s → Matches (one_to_three digit) s
Lead-Matches s (lead_one a p) = m_seq (a ∷ []) [] (m_one a p refl) (m_left (m_empty refl)) refl
Lead-Matches s (lead_two a b p q) =
    m_seq (a ∷ []) (b ∷ []) (m_one a p refl)
      (m_right (m_seq (b ∷ []) [] (m_one b q refl) (m_left (m_empty refl)) refl)) refl
Lead-Matches s (lead_three a b c p q r) =
    m_seq (a ∷ []) (b ∷ c ∷ []) (m_one a p refl)
      (m_right (m_seq (b ∷ []) (c ∷ []) (m_one b q refl) (m_right (m_one c r refl)) refl)) refl

whole_iff : (s : List ℕ) → Matches (alt (plus digit) grouped) s ↔ (Digits s ⊎ IsGrouped s)
whole_iff s = (to, from)
  where
    to : Matches (alt (plus digit) grouped) s → Digits s ⊎ IsGrouped s
    to (m_left h) = inl ((Digits-iff s).0 h)
    to (m_right (m_seq u v h k e)) = inr (u, v, e, Matches-Lead u h, (Groups-iff v).0 k)

    from : Digits s ⊎ IsGrouped s → Matches (alt (plus digit) grouped) s
    from (inl d) = m_left ((Digits-iff s).1 d)
    from (inr (u, v, e, l, g)) = m_right (m_seq u v (Lead-Matches u l) ((Groups-iff v).1 g) e)

sign_iff : (s : List ℕ) → Matches (optional (char b'-')) s ↔ ((s ≡ []) ⊎ (s ≡ b'-' ∷ []))
sign_iff s = (to, from)
  where
    to : Matches (optional (char b'-')) s → (s ≡ []) ⊎ (s ≡ b'-' ∷ [])
    to (m_left (m_empty e)) = inl e
    to (m_right (m_one c p e)) = inr (e ∙ ap (λ x. x ∷ []) (between-eq b'-' c p))

    from : (s ≡ []) ⊎ (s ≡ b'-' ∷ []) → Matches (optional (char b'-')) s
    from (inl e) = m_left (m_empty e)
    from (inr e) = m_right (m_one b'-' (between_self b'-') e)

gap_iff :
    (s : List ℕ)
    → Matches (optional white_space) s
      ↔ ((s ≡ []) ⊎ ((c : ℕ) × (s ≡ c ∷ []) × (is_white_space c ≡ true)))
gap_iff s = (to, from)
  where
    to :
        Matches (optional white_space) s
        → (s ≡ []) ⊎ ((c : ℕ) × (s ≡ c ∷ []) × (is_white_space c ≡ true))
    to (m_left (m_empty e)) = inl e
    to (m_right (m_one c p e)) = inr (c, e, p)

    from :
        (s ≡ []) ⊎ ((c : ℕ) × (s ≡ c ∷ []) × (is_white_space c ≡ true))
        → Matches (optional white_space) s
    from (inl e) = m_left (m_empty e)
    from (inr (c, e, p)) = m_right (m_one c p e)

test-IsAmount_iff : (s : List ℕ) → (test amount_pattern s ≡ true) ↔ IsAmount s
test-IsAmount_iff s =
    (λ h. to ((test_iff amount_pattern s).0 h), λ r. (test_iff amount_pattern s).1 (from r))
  where
    to : Matches amount_pattern s → IsAmount s
    to (m_seq sign u h0 (m_seq gap v h1 (m_seq whole rest h2 h3 e2) e1) e0) = (
      sign,
      gap,
      whole,
      rest,
      e0 ∙ ap (λ x. sign ++ x) (e1 ∙ ap (λ x. gap ++ x) e2),
      (sign_iff sign).0 h0,
      (gap_iff gap).0 h1,
      (whole_iff whole).0 h2,
      (fraction_iff rest).0 h3,
    )

    from : IsAmount s → Matches amount_pattern s
    from (sign, gap, whole, rest, e, h0, h1, h2, h3) =
        m_seq sign (gap ++ (whole ++ rest)) ((sign_iff sign).1 h0)
          (m_seq gap (whole ++ rest) ((gap_iff gap).1 h1)
            (m_seq whole rest ((whole_iff whole).1 h2) ((fraction_iff rest).1 h3) refl) refl)
          e

-- An amount of money is exactly a text of an optional minus sign, an optional white space, digits,
-- which may stand in groups of three behind one to three first ones, and an optional fraction, that
-- Joi takes as a text.
pub money_amount_iff :
    (joi : Joi) (v : String)
    → (money_amount joi v ≡ true) ↔ ((joi.string v ≡ true) × IsAmount (codes v))
unfolding money_amount
money_amount_iff joi v = (
  λ h. let (p, q) = and-split _ _ h in (p, (test-IsAmount_iff (codes v)).0 q),
  λ (p, q). and-join _ _ p ((test-IsAmount_iff (codes v)).1 q),
)
