-- ===== src/Cache/Children.antt =====
-- `getSubprojects` and `getWorkflowitems` of api/src/service/cache2.ts, which read the lookup tables.
use tru_budget.Base.{
  ◌≡◌, refl, sym, ap, ◌∙◌, inl, inr, ◌⊎◌, String, true, Option, none, some, is_some, List, [], ◌∷◌,
  ===_self, ===_cases, includes, arith, Option-cases,
}
use tru_budget.Result.{Result, ok, err, not_found}
use tru_budget.Dict.{Dict, lookup, lookup_or, lookup_or_eq}
use tru_budget.Joi.{Joi}
use tru_budget.Event.{BusinessEvent}
use tru_budget.Workflowitem.{Workflowitem}
use tru_budget.Subproject.{Subproject}
use tru_budget.Project.{Project}
use tru_budget.Cache.{Cache2}
use tru_budget.Cache.Aggregates.{
  cache_projects, cache_subprojects, cache_workflowitems, update_aggregates,
}
use tru_budget.Cache.Instance.{get_all, get_listed, get_subprojects, get_workflowitems}
use tru_budget.Cache.Listed.{IsListed, IsListed-insert, some-injective}

abbrev pub Has : {V : Type 0} → V → List V → Type 0
Has v [] = ⊥
Has v (w ∷ ws) = (v ≡ w) ⊎ Has v ws

module _ {V : Type 0} where
  -- Where each of the IDs is known, the loop of the getters finds all of them.
  get_all-finds :
      (type : String) (ids : List String) (entities : Dict V)
      → ((i : String) → includes ids i ≡ true → is_some (lookup i entities) ≡ true)
      → (vs : List V) × (get_all type ids entities ≡ ok vs)
        × ((i : String) (v : V) → includes ids i ≡ true → lookup i entities ≡ some v → Has v vs)
  get_all-finds type [] entities known = ([], refl, λ i v h e. cc)
  get_all-finds type (id ∷ ids) entities known = elim (Option-cases (lookup id entities)) [
    | inl missing ↦ cc (ap is_some missing, known id (rw (===_self id) refl))
    | inr (v, there) ↦
        let (vs, all_found, has) =
          get_all-finds type ids entities (λ i h. known i (ground arith)) in
        (
          v ∷ vs,
          rw (there, all_found) refl,
          λ i w h e. elim (===_cases id i) [
            | inl (same, _) ↦
                inl (some-injective (sym e ∙ ap (λ k. lookup k entities) (sym same) ∙ there))
            | inr (_, other) ↦ inr (has i w (rw other at h) e)
          ],
        )
  ]

  -- What the getters answer: an error only for an unknown parent without children, and else a list
  -- with every cached child of the parent.
  pub data Answer {W : Type 0} (parent_type : String) (parent : V → String) (s : String)
      (known : Option W) (entities : Dict V) (answer : Result (List V)) : Type 0 where
    unknown :
        known ≡ none
        → answer ≡ err (not_found parent_type s)
        → ((i : String) (v : V) → lookup i entities ≡ some v → ¬ (parent v ≡ s))
        → Answer parent_type parent s known entities answer
    children :
        (vs : List V)
        → answer ≡ ok vs
        → ((i : String) (v : V) → lookup i entities ≡ some v → parent v ≡ s → Has v vs)
        → Answer parent_type parent s known entities answer

  pub get_listed-Answer :
      {W : Type 0} (id parent : V → String) (type parent_type s : String)
      (table : Dict (List String)) (known : Option W) (entities : Dict V)
      → IsListed id parent table entities
      → Answer parent_type parent s known entities
          (get_listed type parent_type s (lookup s table) known entities)
  get_listed-Answer id parent type parent_type s table known entities h =
      elim (Option-cases (lookup s table)) [
        | inr (ids, there) ↦
            let same : lookup_or [] s table ≡ ids = lookup_or_eq [] s table ∙ rw there refl in
            let (vs, all_found, has) =
              get_all-finds type ids entities (λ i listed. h.cached s i (rw same listed)) in
            children vs (rw there all_found)
              (λ i v e own. has i v (rw (own, same) at (h.listed i v e)) e)
        | inl unlisted ↦
            let nothing : lookup_or [] s table ≡ [] = lookup_or_eq [] s table ∙ rw unlisted refl in
            let no_child : (i : String) (v : V) → lookup i entities ≡ some v → ¬ (parent v ≡ s) =
              λ i v e own. cc (rw (own, nothing) at (h.listed i v e)) in
            elim (Option-cases known) [
              | inl no_parent ↦ unknown no_parent (rw (unlisted, no_parent) refl) no_child
              | inr (w, parent_known) ↦
                  children [] (rw (unlisted, parent_known) refl)
                    (λ i v e own. absurd (no_child i v e own))
            ]
      ]

-- Both lookup tables agree with the cached entities.
pub record TablesAgree (c : Cache2) : Type 0 where
  pub subprojects :
      IsListed
        (λ (s : Subproject). s.id)
        (λ s. s.project_id)
        c.cached_subproject_lookup
        c.cached_subprojects
  pub workflowitems :
      IsListed
        (λ (w : Workflowitem). w.id)
        (λ w. w.subproject_id)
        c.cached_workflowitem_lookup
        c.cached_workflow_items

cache_projects-TablesAgree :
    (ps : List Project) (c : Cache2) → TablesAgree c → TablesAgree (cache_projects ps c)
unfolding cache_projects
cache_projects-TablesAgree [] c h = h
cache_projects-TablesAgree (p ∷ ps) c h =
    cache_projects-TablesAgree ps _
      (record { subprojects = h.subprojects; workflowitems = h.workflowitems })

cache_subprojects-TablesAgree :
    (ss : List Subproject) (c : Cache2) → TablesAgree c → TablesAgree (cache_subprojects ss c)
unfolding cache_subprojects
cache_subprojects-TablesAgree [] c h = h
cache_subprojects-TablesAgree (s ∷ ss) c h = cache_subprojects-TablesAgree ss _ (record {
  subprojects = IsListed-insert (λ s. s.id) (λ s. s.project_id) s _ _ h.subprojects;
  workflowitems = h.workflowitems;
})

cache_workflowitems-TablesAgree :
    (ws : List Workflowitem) (c : Cache2) → TablesAgree c → TablesAgree (cache_workflowitems ws c)
unfolding cache_workflowitems
cache_workflowitems-TablesAgree [] c h = h
cache_workflowitems-TablesAgree (w ∷ ws) c h = cache_workflowitems-TablesAgree ws _ (record {
  subprojects = h.subprojects;
  workflowitems = IsListed-insert (λ w. w.id) (λ w. w.subproject_id) w _ _ h.workflowitems;
})

-- Whatever the events, `updateAggregates` keeps the lookup tables in agreement with the cached
-- entities: each listed ID is cached, and each cached entity is listed under its parent.
pub update_aggregates-TablesAgree :
    (joi : Joi) (c : Cache2) (events : List BusinessEvent)
    → TablesAgree c
    → TablesAgree (update_aggregates joi c events)
unfolding update_aggregates
update_aggregates-TablesAgree joi c events h =
    cache_workflowitems-TablesAgree _ _
      (cache_subprojects-TablesAgree _ _ (cache_projects-TablesAgree _ c h))

-- Where the lookup tables agree with the cached entities, the workflowitems of a subproject are only
-- refused where the subproject is not cached and no cached workflowitem belongs to it; else they are a
-- list with every cached workflowitem of the subproject.
pub get_workflowitems-Answer :
    (c : Cache2) (subproject_id : String)
    → TablesAgree c
    → Answer "subproject"
        (λ (w : Workflowitem). w.subproject_id)
        subproject_id
        (lookup subproject_id c.cached_subprojects)
        c.cached_workflow_items
        (get_workflowitems c subproject_id)
unfolding get_workflowitems
get_workflowitems-Answer c subproject_id h =
    get_listed-Answer (λ w. w.id) (λ w. w.subproject_id) "workflowitem" "subproject" subproject_id
      c.cached_workflowitem_lookup (lookup subproject_id c.cached_subprojects)
      c.cached_workflow_items h.workflowitems

pub get_subprojects-Answer :
    (c : Cache2) (project_id : String)
    → TablesAgree c
    → Answer "project"
        (λ (s : Subproject). s.project_id)
        project_id
        (lookup project_id c.cached_projects)
        c.cached_subprojects
        (get_subprojects c project_id)
unfolding get_subprojects
get_subprojects-Answer c project_id h =
    get_listed-Answer (λ s. s.id) (λ s. s.project_id) "subproject" "project" project_id
      c.cached_subproject_lookup (lookup project_id c.cached_projects) c.cached_subprojects
      h.subprojects
