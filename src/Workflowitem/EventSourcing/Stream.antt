-- ===== src/Workflowitem/EventSourcing/Stream.antt =====
-- The stream of events as a whole.
use mathlib.Core.List.{append_assoc, append-nil}
use text.Mathlib.Text.{starts_with}
use tru_budget.Base.{◌≡◌, refl, sym, ap, ◌∙◌, inl, inr, String, List, [], ◌∷◌, ◌++◌, Bool-cases}
use tru_budget.Result.{Failure, Result, ok, err}
use tru_budget.Dict.{Dict, insert}
use tru_budget.Joi.{Joi}
use tru_budget.Event.{BusinessEvent, type_of}
use tru_budget.Workflowitem.{Workflowitem}
use tru_budget.Workflowitem.EventSourcing.{
  recorded, source_event, source_step, source_from, source_workflowitems,
}

module _ (joi : Joi) where
  -- What a step does to the map does not depend on the errors so far.
  recorded-errors :
      (event : BusinessEvent) (r : Result Workflowitem) (items : Dict Workflowitem)
      (before errors : List Failure)
      → recorded joi event r (items, before ++ errors) ≡ (
        (recorded joi event r (items, errors)).0,
        before ++ (recorded joi event r (items, errors)).1,
      )
  recorded-errors event (ok w) items before errors = refl
  recorded-errors event (err e) items before errors =
      ap (λ l. (items, l)) (append_assoc before errors (e ∷ []))

  source_step-errors :
      (event : BusinessEvent) (items : Dict Workflowitem) (before errors : List Failure)
      → source_step joi event (items, before ++ errors) ≡ (
        (source_step joi event (items, errors)).0,
        before ++ (source_step joi event (items, errors)).1,
      )
  unfolding source_step
  source_step-errors event items before errors =
      elim (Bool-cases (starts_with (type_of event) "workflowitem_")) [
        | inl relevant ↦
            rw relevant (recorded-errors event (source_event joi event items) items before errors)
        | inr other ↦ rw other
      ]

  source_from-errors :
      (events : List BusinessEvent) (items : Dict Workflowitem) (before errors : List Failure)
      → source_from joi events (items, before ++ errors) ≡ (
        (source_from joi events (items, errors)).0,
        before ++ (source_from joi events (items, errors)).1,
      )
  unfolding source_from
  source_from-errors [] items before errors = refl
  source_from-errors (event ∷ events) items before errors =
      ap (source_from joi events) (source_step-errors event items before errors)
      ∙ source_from-errors events _ before _

  -- What holds of a map with one more write holds of the map behind any stream.
  recorded-rule {ℓ} :
      (P : Dict Workflowitem → Type ℓ)
      → ((k : String) (v : Workflowitem) (m : Dict Workflowitem) → P m → P (insert k v m))
      → (event : BusinessEvent) (r : Result Workflowitem) (items : Dict Workflowitem)
        (errors : List Failure)
      → P items
      → P (recorded joi event r (items, errors)).0
  recorded-rule P write event (ok w) items errors p = write _ _ items p
  recorded-rule P write event (err e) items errors p = p

  source_step-rule {ℓ} :
      (P : Dict Workflowitem → Type ℓ)
      → ((k : String) (v : Workflowitem) (m : Dict Workflowitem) → P m → P (insert k v m))
      → (event : BusinessEvent) (items : Dict Workflowitem) (errors : List Failure) → P items
      → P (source_step joi event (items, errors)).0
  unfolding source_step
  source_step-rule P write event items errors p =
      elim (Bool-cases (starts_with (type_of event) "workflowitem_")) [
        | inl relevant ↦
            rw relevant (recorded-rule P write event (source_event joi event items) items errors p)
        | inr other ↦ rw other p
      ]

  source_from-rule {ℓ} :
      (P : Dict Workflowitem → Type ℓ)
      → ((k : String) (v : Workflowitem) (m : Dict Workflowitem) → P m → P (insert k v m))
      → (events : List BusinessEvent) (items : Dict Workflowitem) (errors : List Failure) → P items
      → P (source_from joi events (items, errors)).0
  unfolding source_from
  source_from-rule P write [] items errors p = p
  source_from-rule P write (event ∷ events) items errors p =
      source_from-rule P write events _ _ (source_step-rule P write event items errors p)

  pub source_workflowitems-rule {ℓ} :
      (P : Dict Workflowitem → Type ℓ)
      → ((k : String) (v : Workflowitem) (m : Dict Workflowitem) → P m → P (insert k v m))
      → (events : List BusinessEvent) (origin : Dict Workflowitem) → P origin
      → P (source_workflowitems joi events origin).0
  unfolding source_workflowitems
  source_workflowitems-rule P write events origin p = source_from-rule P write events origin [] p

  -- Without events nothing is sourced.
  pub source_workflowitems-nil :
      (origin : Dict Workflowitem) → source_workflowitems joi [] origin ≡ (origin, [])
  unfolding source_workflowitems source_from
  source_workflowitems-nil origin = refl

  source_from-append :
      (es fs : List BusinessEvent) (state : Dict Workflowitem × List Failure)
      → source_from joi (es ++ fs) state ≡ source_from joi fs (source_from joi es state)
  unfolding source_from
  source_from-append [] fs state = refl
  source_from-append (e ∷ es) fs state = source_from-append es fs (source_step joi e state)

  -- Sourcing a stream at once gives the workflowitems that sourcing its first part, and then the
  -- rest from what that left, gives; the errors are those of the two parts in order.
  pub source_workflowitems-append :
      (es fs : List BusinessEvent) (origin : Dict Workflowitem)
      → let first = source_workflowitems joi es origin in
        let second = source_workflowitems joi fs first.0 in
        source_workflowitems joi (es ++ fs) origin ≡ (second.0, first.1 ++ second.1)
  unfolding source_workflowitems
  source_workflowitems-append es fs origin =
      let mid = source_from joi es (origin, []) in
      source_from-append es fs (origin, [])
      ∙ ap (λ l. source_from joi fs (mid.0, l)) (sym (append-nil mid.1))
      ∙ source_from-errors fs mid.0 mid.1 []
