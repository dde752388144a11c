-- ===== src/Regex/Language.antt =====
-- The tester decides the language of a pattern.
use tru_budget.Base.{
  ℕ, ◌≡◌, refl, sym, ap, ◌∙◌, ◌↔◌, ◌⊎◌, inl, inr, Bool, true, false, ◌||◌, List, [], ◌∷◌, ◌++◌,
  arith, Bool-cases, and-split, and-join, if◌then◌else◌,
}
use tru_budget.Regex.{Regex, never, empty, one, seq, alt, star, nullable, derive, test}

-- What it means that a pattern takes a text.
pub data Matches : Regex → List ℕ → Type 0 where
  m_empty : {s : List ℕ} → s ≡ [] → Matches empty s
  m_one : {p : ℕ → Bool} {s : List ℕ} (c : ℕ) → p c ≡ true → s ≡ c ∷ [] → Matches (one p) s
  m_seq :
      {r q : Regex} {u : List ℕ} (s t : List ℕ)
      → Matches r s
      → Matches q t
      → u ≡ s ++ t
      → Matches (seq r q) u
  m_left : {r q : Regex} {s : List ℕ} → Matches r s → Matches (alt r q) s
  m_right : {r q : Regex} {s : List ℕ} → Matches q s → Matches (alt r q) s
  m_stop : {r : Regex} {s : List ℕ} → s ≡ [] → Matches (star r) s
  m_more :
      {r : Regex} {u : List ℕ} (s t : List ℕ)
      → Matches r s
      → Matches (star r) t
      → u ≡ s ++ t
      → Matches (star r) u

or-split : (a b : Bool) → (a || b) ≡ true → (a ≡ true) ⊎ (b ≡ true)
or-split true b h = inl refl
or-split false b h = inr h

or-left : (a b : Bool) → a ≡ true → (a || b) ≡ true
or-left a b h = ground arith

or-right : (a b : Bool) → b ≡ true → (a || b) ≡ true
or-right a b h = ground arith

nullable-Matches : (r : Regex) → nullable r ≡ true → Matches r []
unfolding nullable
nullable-Matches never h = cc
nullable-Matches empty h = m_empty refl
nullable-Matches (one p) h = cc
nullable-Matches (seq r q) h =
    let (a, b) = and-split (nullable r) (nullable q) h in
    m_seq [] [] (nullable-Matches r a) (nullable-Matches q b) refl
nullable-Matches (alt r q) h = elim (or-split (nullable r) (nullable q) h) [
  | inl a ↦ m_left (nullable-Matches r a)
  | inr b ↦ m_right (nullable-Matches q b)
]
nullable-Matches (star r) h = m_stop refl

append-eq-nil : (s t : List ℕ) → [] ≡ s ++ t → (s ≡ []) × (t ≡ [])
append-eq-nil [] t e = (refl, sym e)
append-eq-nil (x ∷ s) t e = cc

Matches-nullable : {r : Regex} {s : List ℕ} → Matches r s → s ≡ [] → nullable r ≡ true
unfolding nullable
Matches-nullable (m_empty e) z = refl
Matches-nullable (m_one c h e) z = cc
Matches-nullable (m_seq {r} {q} s t a b e) z =
    let (x, y) = append-eq-nil s t (sym z ∙ e) in
    and-join (nullable r) (nullable q) (Matches-nullable a x) (Matches-nullable b y)
Matches-nullable (m_left {r} {q} a) z = or-left (nullable r) (nullable q) (Matches-nullable a z)
Matches-nullable (m_right {r} {q} b) z = or-right (nullable r) (nullable q) (Matches-nullable b z)
Matches-nullable (m_stop e) z = refl
Matches-nullable (m_more s t a b e) z = refl

-- The two shapes of a sequence's derivative.
derive_seq_cases :
    (c : ℕ) (r q : Regex) {s : List ℕ}
    → Matches (derive c (seq r q)) s
    → Matches (seq (derive c r) q) s ⊎ (nullable r ≡ true) × Matches (derive c q) s
unfolding derive
derive_seq_cases c r q {s} m = elim (Bool-cases (nullable r)) [
  | inl n ↦ split n (rw n at m)
  | inr n ↦ inl (rw n at m)
]
  where
    split :
        nullable r ≡ true
        → Matches (alt (seq (derive c r) q) (derive c q)) s
        → Matches (seq (derive c r) q) s ⊎ (nullable r ≡ true) × Matches (derive c q) s
    split n (m_left a) = inl a
    split n (m_right b) = inr (n, b)

derive_one_sound :
    (c : ℕ) (p : ℕ → Bool) {s : List ℕ} (b : Bool)
    → p c ≡ b
    → Matches (if b then empty else never) s
    → Matches (one p) (c ∷ s)
derive_one_sound c p true h (m_empty e) = m_one c h (ap (◌∷◌ c) e)
derive_one_sound c p false h m = no_match m
  where
    no_match : {X : Type 0} {t : List ℕ} → Matches never t → X
    no_match m = elim m [ ]

derive_sound : (c : ℕ) (r : Regex) {s : List ℕ} → Matches (derive c r) s → Matches r (c ∷ s)
unfolding derive
derive_sound c never m = elim m [ ]
derive_sound c empty m = elim m [ ]
derive_sound c (one p) m = derive_one_sound c p (p c) refl m
derive_sound c (seq r q) m = elim (derive_seq_cases c r q m) [
  | inl (m_seq s t a b e) ↦ m_seq (c ∷ s) t (derive_sound c r a) b (ap (◌∷◌ c) e)
  | inr (n, b) ↦ m_seq [] _ (nullable-Matches r n) (derive_sound c q b) refl
]
derive_sound c (alt r q) (m_left a) = m_left (derive_sound c r a)
derive_sound c (alt r q) (m_right b) = m_right (derive_sound c q b)
derive_sound c (star r) (m_seq s t a b e) = m_more (c ∷ s) t (derive_sound c r a) b (ap (◌∷◌ c) e)

derive_seq_left :
    (c : ℕ) (r q : Regex) {s : List ℕ}
    → Matches (seq (derive c r) q) s
    → Matches (derive c (seq r q)) s
unfolding derive
derive_seq_left c r q m = elim (Bool-cases (nullable r)) [
  | inl n ↦ rw n (m_left m)
  | inr n ↦ rw n m
]

derive_seq_right :
    (c : ℕ) (r q : Regex) {s : List ℕ}
    → nullable r ≡ true
    → Matches (derive c q) s
    → Matches (derive c (seq r q)) s
unfolding derive
derive_seq_right c r q n m = rw n (m_right m)

tail_eq : {c d : ℕ} {s t : List ℕ} → c ∷ s ≡ d ∷ t → s ≡ t
tail_eq e = cc

head_eq : {c d : ℕ} {s t : List ℕ} → c ∷ s ≡ d ∷ t → c ≡ d
head_eq e = cc

derive_complete :
    (c : ℕ) {r : Regex} {u : List ℕ} (s : List ℕ) → Matches r u → u ≡ c ∷ s → Matches (derive c r) s
unfolding derive
derive_complete c s (m_empty e) h = cc
derive_complete c s (m_one {p} d pd e) h =
    let same : c ≡ d = cc in let none_left : s ≡ [] = cc in rw same (rw pd (m_empty none_left))
derive_complete c s (m_seq {r} {q} [] t a b e) h =
    derive_seq_right c r q (Matches-nullable a refl) (derive_complete c s b (sym e ∙ h))
derive_complete c s (m_seq {r} {q} (d ∷ s') t a b e) h = derive_seq_left c r q (
    m_seq s' t (derive_complete c s' a (ap (λ x. x ∷ s') (head_eq (sym e ∙ h)))) b
      (sym (tail_eq (sym e ∙ h))))
derive_complete c s (m_left a) h = m_left (derive_complete c s a h)
derive_complete c s (m_right b) h = m_right (derive_complete c s b h)
derive_complete c s (m_stop e) h = cc
derive_complete c s (m_more {r} [] t a b e) h = derive_complete c s b (sym e ∙ h)
derive_complete c s (m_more {r} (d ∷ s') t a b e) h =
    m_seq s' t (derive_complete c s' a (ap (λ x. x ∷ s') (head_eq (sym e ∙ h)))) b
      (sym (tail_eq (sym e ∙ h)))

test_sound : (r : Regex) (s : List ℕ) → test r s ≡ true → Matches r s
unfolding test
test_sound r [] h = nullable-Matches r h
test_sound r (c ∷ s) h = derive_sound c r (test_sound (derive c r) s h)

test_complete : (r : Regex) (s : List ℕ) → Matches r s → test r s ≡ true
unfolding test
test_complete r [] m = Matches-nullable m refl
test_complete r (c ∷ s) m = test_complete (derive c r) s (derive_complete c s m refl)

-- The test accepts exactly the texts of the pattern's language.
pub test_iff : (r : Regex) (s : List ℕ) → (test r s ≡ true) ↔ Matches r s
test_iff r s = (test_sound r s, test_complete r s)
