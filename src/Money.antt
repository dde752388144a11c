-- ===== src/Money.antt =====
-- api/src/service/domain/workflow/money.ts: what counts as an amount, a conversion rate and a
-- currency. A pattern is the regular expression of the source, term by term.
pub mod Amounts
pub mod Grouped
use Prim.Native.Nat.{compare, Ordering}
use tru_budget.Base.{
  ℕ, String, Bool, true, false, ◌&&◌, ◌||◌, List, [], ◌∷◌, codes, includes, ltb, not,
}
use tru_budget.Joi.{Joi}
use tru_budget.Regex.{Regex, one, seq, alt, star, optional, plus, one_to_three, test}

abbrev pub between : ℕ → ℕ → ℕ → Bool
between lo hi c = not (ltb c lo) && not (ltb hi c)

-- `\d`
abbrev pub digit : Regex
digit = one (between b'0' b'9')

abbrev pub char : ℕ → Regex
char d = one (between d d)

-- `\s`: JavaScript's white space and line terminators.
abbrev pub is_white_space : ℕ → Bool
is_white_space c =
    between 9 13 c
    || between 0x20 0x20 c
    || between 0xa0 0xa0 c
    || between 0x1680 0x1680 c
    || between 0x2000 0x200a c
    || between 0x2028 0x2029 c
    || between 0x202f 0x202f c
    || between 0x205f 0x205f c
    || between 0x3000 0x3000 c
    || between 0xfeff 0xfeff c

abbrev pub white_space : Regex
white_space = one is_white_space

-- `(?:\.\d+)?`
abbrev pub fraction : Regex
fraction = optional (seq (char b'.') (plus digit))

-- `\d{1,3}(?:,\d{3})+`
abbrev pub grouped : Regex
grouped = seq (one_to_three digit) (plus (seq (char b',') (seq digit (seq digit digit))))

-- `-?\s?(?:\d+|\d{1,3}(?:,\d{3})+)(?:\.\d+)?`
abbrev pub amount_pattern : Regex
amount_pattern =
    seq (optional (char b'-'))
      (seq (optional white_space) (seq (alt (plus digit) grouped) fraction))

-- `[0-9]+(\.[0-9]+)?`
abbrev pub rate_pattern : Regex
rate_pattern = seq (plus digit) fraction

-- `moneyAmountSchema`
unfoldable pub money_amount : Joi → String → Bool
unfolding test
money_amount joi s = joi.string s && test amount_pattern (codes s)

-- `conversionRateSchema`
unfoldable pub conversion_rate : Joi → String → Bool
unfolding test
conversion_rate joi s = joi.string s && test rate_pattern (codes s)

abbrev pub iso_currency_codes : List String
iso_currency_codes =
    "AFN" ∷ "EUR" ∷ "ALL" ∷ "DZD" ∷ "USD" ∷ "EUR" ∷ "AOA" ∷ "XCD" ∷ "XCD" ∷ "ARS" ∷ "AMD" ∷ "AWG"
    ∷ "AUD" ∷ "EUR" ∷ "AZN" ∷ "BSD" ∷ "BHD" ∷ "BDT" ∷ "BBD" ∷ "BYN" ∷ "EUR" ∷ "BZD" ∷ "XOF" ∷ "BMD"
    ∷ "INR" ∷ "BTN" ∷ "BOB" ∷ "BOV" ∷ "USD" ∷ "BAM" ∷ "BWP" ∷ "NOK" ∷ "BRL" ∷ "USD" ∷ "BND" ∷ "BGN"
    ∷ "XOF" ∷ "BIF" ∷ "CVE" ∷ "KHR" ∷ "XAF" ∷ "CAD" ∷ "KYD" ∷ "XAF" ∷ "XAF" ∷ "CLP" ∷ "CLF" ∷ "CNY"
    ∷ "AUD" ∷ "AUD" ∷ "COP" ∷ "COU" ∷ "KMF" ∷ "CDF" ∷ "XAF" ∷ "NZD" ∷ "CRC" ∷ "XOF" ∷ "HRK" ∷ "CUP"
    ∷ "CUC" ∷ "ANG" ∷ "EUR" ∷ "CZK" ∷ "DKK" ∷ "DJF" ∷ "XCD" ∷ "DOP" ∷ "USD" ∷ "EGP" ∷ "SVC" ∷ "USD"
    ∷ "XAF" ∷ "ERN" ∷ "EUR" ∷ "ETB" ∷ "EUR" ∷ "FKP" ∷ "DKK" ∷ "FJD" ∷ "EUR" ∷ "EUR" ∷ "EUR" ∷ "XPF"
    ∷ "EUR" ∷ "XAF" ∷ "GMD" ∷ "GEL" ∷ "EUR" ∷ "GHS" ∷ "GIP" ∷ "EUR" ∷ "DKK" ∷ "XCD" ∷ "EUR" ∷ "USD"
    ∷ "GTQ" ∷ "GBP" ∷ "GNF" ∷ "XOF" ∷ "GYD" ∷ "HTG" ∷ "USD" ∷ "AUD" ∷ "EUR" ∷ "HNL" ∷ "HKD" ∷ "HUF"
    ∷ "ISK" ∷ "INR" ∷ "IDR" ∷ "XDR" ∷ "IRR" ∷ "IQD" ∷ "EUR" ∷ "GBP" ∷ "ILS" ∷ "EUR" ∷ "JMD" ∷ "JPY"
    ∷ "GBP" ∷ "JOD" ∷ "KZT" ∷ "KES" ∷ "AUD" ∷ "KPW" ∷ "KRW" ∷ "KWD" ∷ "KGS" ∷ "LAK" ∷ "EUR" ∷ "LBP"
    ∷ "LSL" ∷ "ZAR" ∷ "LRD" ∷ "LYD" ∷ "CHF" ∷ "EUR" ∷ "EUR" ∷ "MOP" ∷ "MKD" ∷ "MGA" ∷ "MWK" ∷ "MYR"
    ∷ "MVR" ∷ "XOF" ∷ "EUR" ∷ "USD" ∷ "EUR" ∷ "MRU" ∷ "MUR" ∷ "EUR" ∷ "XUA" ∷ "MXN" ∷ "MXV" ∷ "USD"
    ∷ "MDL" ∷ "EUR" ∷ "MNT" ∷ "EUR" ∷ "XCD" ∷ "MAD" ∷ "MZN" ∷ "MMK" ∷ "NAD" ∷ "ZAR" ∷ "AUD" ∷ "NPR"
    ∷ "EUR" ∷ "XPF" ∷ "NZD" ∷ "NIO" ∷ "XOF" ∷ "NGN" ∷ "NZD" ∷ "AUD" ∷ "USD" ∷ "NOK" ∷ "OMR" ∷ "PKR"
    ∷ "USD" ∷ "PAB" ∷ "USD" ∷ "PGK" ∷ "PYG" ∷ "PEN" ∷ "PHP" ∷ "NZD" ∷ "PLN" ∷ "EUR" ∷ "USD" ∷ "QAR"
    ∷ "EUR" ∷ "RON" ∷ "RUB" ∷ "RWF" ∷ "EUR" ∷ "SHP" ∷ "XCD" ∷ "XCD" ∷ "EUR" ∷ "EUR" ∷ "XCD" ∷ "WST"
    ∷ "EUR" ∷ "STN" ∷ "SAR" ∷ "XOF" ∷ "RSD" ∷ "SCR" ∷ "SLL" ∷ "SGD" ∷ "ANG" ∷ "XSU" ∷ "EUR" ∷ "EUR"
    ∷ "SBD" ∷ "SOS" ∷ "ZAR" ∷ "SSP" ∷ "EUR" ∷ "LKR" ∷ "SDG" ∷ "SRD" ∷ "NOK" ∷ "SZL" ∷ "SEK" ∷ "CHF"
    ∷ "CHE" ∷ "CHW" ∷ "SYP" ∷ "TWD" ∷ "TJS" ∷ "TZS" ∷ "THB" ∷ "USD" ∷ "XOF" ∷ "NZD" ∷ "TOP" ∷ "TTD"
    ∷ "TND" ∷ "TRY" ∷ "TMT" ∷ "USD" ∷ "AUD" ∷ "UGX" ∷ "UAH" ∷ "AED" ∷ "GBP" ∷ "USD" ∷ "USD" ∷ "USN"
    ∷ "UYU" ∷ "UYI" ∷ "UYW" ∷ "UZS" ∷ "VUV" ∷ "VES" ∷ "VND" ∷ "USD" ∷ "USD" ∷ "XPF" ∷ "MAD" ∷ "YER"
    ∷ "ZMW" ∷ "ZWL" ∷ "XBA" ∷ "XBB" ∷ "XBC" ∷ "XBD" ∷ "XTS" ∷ "XXX" ∷ "XAU" ∷ "XPD" ∷ "XPT" ∷ "XAG"
    ∷ []

-- `currencyCodeSchema`
unfoldable pub currency_code : String → Bool
currency_code s = includes iso_currency_codes s
