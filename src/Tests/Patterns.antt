-- ===== src/Tests/Patterns.antt =====
-- The amounts at sample texts.
use tru_budget.Base.{◌≡◌, refl, ◌↔◌, true, false, codes}
use tru_budget.Regex.{test}
use tru_budget.Money.{amount_pattern, rate_pattern, money_amount, conversion_rate}
use tru_budget.Money.Amounts.{IsRate, conversion_rate_iff}
use tru_budget.Money.Grouped.{IsAmount, money_amount_iff}
use tru_budget.Tests.{joi}

money_amount_iff_example :
    (money_amount joi "-1,234.50" ≡ true)
    ↔ ((joi.string "-1,234.50" ≡ true) × IsAmount (codes "-1,234.50"))
money_amount_iff_example = money_amount_iff joi "-1,234.50"

conversion_rate_iff_example :
    (conversion_rate joi "1.25" ≡ true) ↔ ((joi.string "1.25" ≡ true) × IsRate (codes "1.25"))
conversion_rate_iff_example = conversion_rate_iff joi "1.25"

amount_tests :
    (test amount_pattern (codes "-1,234.50") ≡ true)
    × (test amount_pattern (codes "12,34") ≡ false)
    × (test amount_pattern (codes "1234.") ≡ false)
    × (test rate_pattern (codes "1.25") ≡ true)
    × (test rate_pattern (codes "-1") ≡ false)
unfolding test
amount_tests = (refl, refl, refl, refl, refl)
