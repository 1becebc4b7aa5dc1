-- ===== src/Plan/Overlap.antt =====
-- The conflict list against its description.
use dbtx.Prelude.{
  ℕ, String, Bool, true, false, ◌||◌, ◌≡◌, ◌≢◌, ◌↔◌, ◌⊎◌, refl, Option, none, some, List, [], ◌∷◌,
  ◌==◌, nat_eq, string_eq, arith, inl, inr, leb, contains, contains_iff, map, any, find, Elem,
  Elem-append, Elem-map, Elem-where_rows, Elem-delete_rows, Elem-sort_by, IsSorted,
  sort_by-IsSorted, where_rows, Bool-cases,
}
use dbtx.Status.PlanStatus.{admitted}
use dbtx.Invocation.{Invocation}
use dbtx.Plan.{EnvironmentRunPlan, SelectedResource, PlanDb}
use dbtx.Plan.Lifecycle.{is_plan}
use dbtx.Plan.Conflict.{
  is_reserved, is_rival, is_in_progress, overlaps, distinct, cons_some, some_ids, conflicts_of,
  conflicts_found, list_active_conflicting_invocations,
}
use dbtx.Plan.Progress.{plan_at}

Elem-distinct : (j : ℕ) (xs : List ℕ) → Elem j (distinct xs) ↔ Elem j xs
unfolding distinct
Elem-distinct j [] = (λ m. m, λ m. m)
Elem-distinct j (x ∷ rest) = elim (Bool-cases (j == x)) [
  | inl hit ↦ let e : j ≡ x = ground arith in (λ m. inl e, λ m. inl e)
  | inr miss ↦
      ground (arith, Elem-distinct j rest, Elem-delete_rows (λ y. y == x) j (distinct rest))
]

Elem-cons_some :
    (j : ℕ) (o : Option ℕ) (xs : List ℕ) → Elem j (cons_some o xs) ↔ ((o ≡ some j) ⊎ Elem j xs)
Elem-cons_some j none xs = ground arith
Elem-cons_some j (some k) xs = ground arith

Elem-some_ids :
    (j : ℕ) (ps : List EnvironmentRunPlan)
    → Elem j (some_ids ps)
      ↔ ((p : EnvironmentRunPlan) × Elem p ps × (p.admitted_invocation_id ≡ some j))
Elem-some_ids j [] = (λ m. absurd m, λ (p, m, _). absurd m)
Elem-some_ids j (x ∷ rest) = (
  λ m. elim ((Elem-cons_some j x.admitted_invocation_id (some_ids rest)).0 m) [
    | inl e ↦ (x, inl refl, e)
    | inr old ↦ let (p, there, e) = (Elem-some_ids j rest).0 old in (p, inr there, e)
  ],
  λ (p, m, e). (Elem-cons_some j x.admitted_invocation_id (some_ids rest)).1 (elim m [
    | inl same ↦ inl (rw (← same) e)
    | inr there ↦ inr ((Elem-some_ids j rest).1 (p, there, e))
  ]),
)

-- A resource that two lists share.
abbrev pub Shared : List String → List String → Type 0
Shared us vs = (u : String) × Elem u us × Elem u vs

overlaps_iff : (us vs : List String) → (overlaps us vs ≡ true) ↔ Shared us vs
overlaps_iff [] vs = (λ e. cc, λ (u, m, _). absurd m)
overlaps_iff (x ∷ rest) vs = (
  λ e. elim (Bool-cases (contains x vs)) [
    | inl hit ↦ (x, inl refl, (contains_iff x vs).0 hit)
    | inr miss ↦ let (u, m, n) = (overlaps_iff rest vs).0 (rw miss at e) in (u, inr m, n)
  ],
  λ (u, m, n). elim m [
    | inl same ↦ rw ((contains_iff x vs).1 (rw (← same) n)) refl
    | inr old ↦ rw ((overlaps_iff rest vs).1 (u, old, n)) (or_true (contains x vs))
  ],
)
  where
    or_true : (b : Bool) → (b || true) ≡ true
    or_true b = ground arith

-- The invocation has not finished a resource of the plan, in the plan's environment.
abbrev pub Reserves : ℕ → EnvironmentRunPlan → List SelectedResource → Type 0
Reserves j p rows =
    (s : SelectedResource) × Elem s rows
    × (s.project_id ≡ p.project_id)
    × (s.environment_id ≡ p.environment_id)
    × Elem s.unique_id p.selected_resources
    × (s.finished_at ≡ none)
    × (j ≡ s.invocation_id)

-- The running invocation was admitted for another plan of the environment that shares a resource.
abbrev pub Rivals : ℕ → EnvironmentRunPlan → PlanDb → Type 0
Rivals j p db =
    (o : EnvironmentRunPlan) × Elem o db.plans
    × (o.project_id ≡ p.project_id)
    × (o.environment_id ≡ p.environment_id)
    × (o.plan_id ≢ p.plan_id)
    × (o.status ≡ admitted)
    × (o.admitted_invocation_id ≡ some j)
    × (any (is_in_progress j) db.invocations ≡ true)
    × Shared o.selected_resources p.selected_resources

is_reserved_iff :
    (p : EnvironmentRunPlan) (s : SelectedResource)
    → (is_reserved p s ≡ true) ↔ (
        (s.project_id ≡ p.project_id)
        × (s.environment_id ≡ p.environment_id)
        × Elem s.unique_id p.selected_resources
        × (s.finished_at ≡ none))
is_reserved_iff p s = ground (arith, contains_iff s.unique_id p.selected_resources)

is_rival_iff :
    (j : ℕ) (invs : List Invocation) (p o : EnvironmentRunPlan)
    → o.admitted_invocation_id ≡ some j
    → (is_rival invs p o ≡ true) ↔ (
        (o.project_id ≡ p.project_id)
        × (o.environment_id ≡ p.environment_id)
        × (o.plan_id ≢ p.plan_id)
        × (o.status ≡ admitted)
        × (any (is_in_progress j) invs ≡ true)
        × Shared o.selected_resources p.selected_resources)
is_rival_iff j invs p o e = ground (arith, overlaps_iff o.selected_resources p.selected_resources)

Elem-conflicts_of :
    (j : ℕ) (p : EnvironmentRunPlan) (db : PlanDb)
    → Elem j (conflicts_of p db) ↔ (Reserves j p db.selected_resources ⊎ Rivals j p db)
Elem-conflicts_of j p db = (
  λ m. elim ((Elem-append j held rival).0 m) [
    | inl a ↦
        let (s, there, e) =
          (Elem-map (λ (s : SelectedResource). s.invocation_id) j
              (where_rows (is_reserved p) db.selected_resources)).0
            a in
        let seat = (Elem-where_rows (is_reserved p) s db.selected_resources).0 there in
        let (x, y, z, f) = (is_reserved_iff p s).0 seat.1 in inl (s, seat.0, x, y, z, f, e)
    | inr b ↦
        let (o, there, e) =
          (Elem-some_ids j (where_rows (is_rival db.invocations p) db.plans)).0 b in
        let seat = (Elem-where_rows (is_rival db.invocations p) o db.plans).0 there in
        let (x, y, z, f, g, h) = (is_rival_iff j db.invocations p o e).0 seat.1 in
        inr (o, seat.0, x, y, z, f, e, g, h)
  ],
  λ m. (Elem-append j held rival).1 (elim m [
    | inl (s, there, x, y, z, f, e) ↦ inl (
        (Elem-map (λ (s : SelectedResource). s.invocation_id) j
            (where_rows (is_reserved p) db.selected_resources)).1
          (
            s,
            (Elem-where_rows (is_reserved p) s db.selected_resources).1
                (there, (is_reserved_iff p s).1 (x, y, z, f)),
            e,
          ))
    | inr (o, there, x, y, z, f, e, g, h) ↦ inr (
        (Elem-some_ids j (where_rows (is_rival db.invocations p) db.plans)).1 (
          o,
          (Elem-where_rows (is_rival db.invocations p) o db.plans).1
              (there, (is_rival_iff j db.invocations p o e).1 (x, y, z, f, g, h)),
          e,
        ))
  ]),
)
  where
    held : List ℕ
    held =
        map (λ (s : SelectedResource). s.invocation_id)
          (where_rows (is_reserved p) db.selected_resources)

    rival : List ℕ
    rival = some_ids (where_rows (is_rival db.invocations p) db.plans)

leb_total : (a b : ℕ) → leb a b ≡ false → leb b a ≡ true
leb_total a b h = ground arith

leb_trans : (a b c : ℕ) → leb a b ≡ true → leb b c ≡ true → leb a c ≡ true
leb_trans a b c h k = ground arith

-- For a plan that exists, the conflict list is in ascending order, and an invocation is in it
-- exactly when it has not finished a resource of the plan in the plan's environment, or is in
-- progress for another admitted plan of that environment that shares a resource with it.
pub conflict_list :
    (i : ℕ) (db : PlanDb) (p : EnvironmentRunPlan)
    → plan_at i db.plans ≡ some p
    → IsSorted leb (list_active_conflicting_invocations i db)
      × ((j : ℕ)
          → Elem j (list_active_conflicting_invocations i db)
            ↔ (Reserves j p db.selected_resources ⊎ Rivals j p db))
unfolding list_active_conflicting_invocations
conflict_list i db p at = (
  sort_by-IsSorted leb leb_total leb_trans
      (distinct (conflicts_found (find (is_plan i) db.plans) db)),
  λ j. rw at (
    λ m. (Elem-conflicts_of j p db).0 (
        (Elem-distinct j (conflicts_of p db)).0
          ((Elem-sort_by leb j (distinct (conflicts_of p db))).0 m)),
    λ m.
        (Elem-sort_by leb j (distinct (conflicts_of p db))).1
          ((Elem-distinct j (conflicts_of p db)).1 ((Elem-conflicts_of j p db).1 m)),
  ),
)
