-- ===== src/Workflowitem/Billing.antt =====
-- What the schema of workflowitem.ts asks of the fields that belong to money.
use tru_budget.Base.{◌≡◌, refl, String, Bool, true, Option, none, some, List, arith}
use tru_budget.Dict.{Dict, lookup}
use tru_budget.Dict.Entries.{Entries-lookup}
use tru_budget.Joi.{Joi}
use tru_budget.Money.{money_amount}
use tru_budget.Event.{
  Status, opened, closed, AmountType, not_applicable, disbursed, allocated, BusinessEvent,
}
use tru_budget.Workflowitem.{Workflowitem, money_field_ok, schema}
use tru_budget.Workflowitem.EventSourcing.{source_workflowitems}
use tru_budget.Workflowitem.EventSourcing.Invariant.{IsSourced, source_workflowitems-IsSourced}

-- A field is forbidden where no amount applies, and given and correct in a closed workflowitem.
abbrev pub FieldIs : (String → Bool) → AmountType → Status → Option String → Type 0
FieldIs p not_applicable status field = field ≡ none
FieldIs p disbursed closed field = (s : String) × (field ≡ some s) × (p s ≡ true)
FieldIs p disbursed opened field = Unit
FieldIs p allocated closed field = (s : String) × (field ≡ some s) × (p s ≡ true)
FieldIs p allocated opened field = Unit

money_field_ok-FieldIs :
    (p : String → Bool) (type : AmountType) (status : Status) (field : Option String)
    → money_field_ok p type status field ≡ true
    → FieldIs p type status field
money_field_ok-FieldIs p not_applicable status none h = refl
money_field_ok-FieldIs p not_applicable status (some s) h = cc
money_field_ok-FieldIs p disbursed closed none h = cc
money_field_ok-FieldIs p disbursed closed (some s) h = (s, refl, h)
money_field_ok-FieldIs p disbursed opened field h = tt
money_field_ok-FieldIs p allocated closed none h = cc
money_field_ok-FieldIs p allocated closed (some s) h = (s, refl, h)
money_field_ok-FieldIs p allocated opened field h = tt

pub record IsBilled (joi : Joi) (w : Workflowitem) : Type 0 where
  pub exchange_rate : FieldIs joi.string w.amount_type w.status w.exchange_rate
  pub billing_date : FieldIs joi.iso_date w.amount_type w.status w.billing_date
  pub amount : FieldIs (money_amount joi) w.amount_type w.status w.amount
  pub currency : FieldIs joi.string w.amount_type w.status w.currency

schema-IsBilled : (joi : Joi) (w : Workflowitem) → schema joi w ≡ true → IsBilled joi w
unfolding schema
schema-IsBilled joi w h = record {
  exchange_rate = money_field_ok-FieldIs _ w.amount_type w.status w.exchange_rate (ground arith);
  billing_date = money_field_ok-FieldIs _ w.amount_type w.status w.billing_date (ground arith);
  amount = money_field_ok-FieldIs _ w.amount_type w.status w.amount (ground arith);
  currency = money_field_ok-FieldIs _ w.amount_type w.status w.currency (ground arith);
}

-- Each workflowitem that a stream of events leaves has no amount, currency, exchange rate and
-- billing date where the amount type is "N/A", and once it is closed with another amount type it
-- has all four, the amount being an amount of money and the billing date a date, if the
-- workflowitems that the stream starts from are kept under their own IDs and pass the schema with
-- their logs emptied.
pub source_workflowitems-IsBilled :
    (joi : Joi) (events : List BusinessEvent) (origin : Dict Workflowitem) (id : String)
    (w : Workflowitem)
    → IsSourced joi origin
    → lookup id (source_workflowitems joi events origin).0 ≡ some w
    → IsBilled joi w
source_workflowitems-IsBilled joi events origin id w s found =
    let (_, valid) =
      Entries-lookup _ id w _ (source_workflowitems-IsSourced joi events origin s) found in
    let billed = schema-IsBilled joi _ valid in
    record {
      exchange_rate = billed.exchange_rate;
      billing_date = billed.billing_date;
      amount = billed.amount;
      currency = billed.currency;
    }
