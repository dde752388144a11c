-- ===== src/Event/Create.antt =====
-- The common end of every `createEvent`: the event is returned if its schema takes it.
use tru_budget.Base.{◌≡◌, refl, sym, ap, Bool, true, false, [], ◌∷◌}
use tru_budget.Result.{Result, ok, err, joi_error, wrapped}
use tru_budget.Event.{BusinessEvent, type_of}

abbrev pub checked : Bool → BusinessEvent → Result BusinessEvent
checked true e = ok e
checked false e = err (wrapped joi_error ("not a valid " ∷ type_of e ∷ " event" ∷ []))

-- What is returned is the event, and its schema takes it.
pub checked-eq-ok :
    (test : Bool) (e : BusinessEvent) {e' : BusinessEvent}
    → checked test e ≡ ok e'
    → (test ≡ true) × (e' ≡ e)
checked-eq-ok true e {e'} h = (refl, ap (λ r. elim r [ ok v ↦ v | err _ ↦ e' ]) (sym h))
checked-eq-ok false e h = cc
