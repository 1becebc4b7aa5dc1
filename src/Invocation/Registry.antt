-- ===== src/Invocation/Registry.antt =====
-- What `sync_worker_registrations` leaves in the registry of workers.
use dbtx.Prelude.{
  ℕ, String, Bool, true, false, ◌||◌, ◌≡◌, ◌↔◌, refl, inl, inr, List, [], ◌∷◌, ◌++◌, ◌==◌,
  string_eq, arith, if◌then◌else◌, All, All-of_Elem, Elem, Elem-append, Elem-delete_rows, contains,
  any, update_rows, delete_rows, Bool-cases, All-append, any-update_rows, eq_self, contains_iff,
  eq_iff,
}
use dbtx.Status.ExecutionMode.{ExecutionMode, mode_beq}
use dbtx.Invocation.{Worker}
use dbtx.Invocation.Workers.{
  is_registration, seen, registration, upsert_worker_registration, is_outdated, upsert_each,
  sync_worker_registrations,
}

any-append : (p : Worker → Bool) (ws us : List Worker) → any p (ws ++ us) ≡ (any p ws || any p us)
any-append p [] us = refl
any-append p (w ∷ rest) us = ground (arith, any-append p rest us)

other_updated :
    (now : ℕ) (me q : String) (mode : ExecutionMode) (a : Worker) (ws : List Worker)
    → (a.worker_id == me) ≡ false
    → Elem a (update_rows (is_registration me q) (seen now mode) ws) ↔ Elem a ws
other_updated now me q mode a [] h = ground arith
other_updated now me q mode a (w ∷ rest) h = ground (arith, other_updated now me q mode a rest h)

other_appended :
    (now : ℕ) (me q : String) (mode : ExecutionMode) (a : Worker) (ws : List Worker)
    → (a.worker_id == me) ≡ false
    → Elem a (ws ++ registration now me mode q ∷ []) ↔ Elem a ws
other_appended now me q mode a ws h =
    ground (arith, Elem-append a ws (registration now me mode q ∷ []), eq_iff a.worker_id me)

-- An upsert leaves the other workers' rows alone.
other_upserted :
    (now : ℕ) (me q : String) (mode : ExecutionMode) (a : Worker) (ws : List Worker)
    → (a.worker_id == me) ≡ false
    → Elem a (upsert_worker_registration now me mode q ws) ↔ Elem a ws
unfolding upsert_worker_registration
other_upserted now me q mode a ws h = elim (Bool-cases (any (is_registration me q) ws)) [
  | inl e ↦ rw e (other_updated now me q mode a ws h)
  | inr e ↦ rw e (other_appended now me q mode a ws h)
]

-- What the present poll wants of a row of its own worker.
abbrev pub IsCurrent : String → ExecutionMode → List String → Worker → Type 0
IsCurrent me mode queues w =
    (w.worker_id == me) ≡ true
    → (mode_beq w.execution_mode mode ≡ true) × (contains w.worker_queue queues ≡ true)

mode_beq_refl : (mode : ExecutionMode) → mode_beq mode mode ≡ true
mode_beq_refl mode = ground arith

module _ (now : ℕ) (me q : String) (mode : ExecutionMode) (queues : List String) where
  seen-IsCurrent :
      (w : Worker)
      → IsCurrent me mode queues w
      → IsCurrent me mode queues (if is_registration me q w then seen now mode w else w)
  seen-IsCurrent w c = ground (arith, mode_beq_refl mode)

  updated-IsCurrent :
      (ws : List Worker)
      → All (IsCurrent me mode queues) ws
      → All (IsCurrent me mode queues) (update_rows (is_registration me q) (seen now mode) ws)
  updated-IsCurrent [] c = tt
  updated-IsCurrent (w ∷ rest) c = (seen-IsCurrent w c.0, updated-IsCurrent rest c.1)

  upserted-IsCurrent :
      (ws : List Worker)
      → contains q queues ≡ true
      → All (IsCurrent me mode queues) ws
      → All (IsCurrent me mode queues) (upsert_worker_registration now me mode q ws)
  unfolding upsert_worker_registration
  upserted-IsCurrent ws listed c = elim (Bool-cases (any (is_registration me q) ws)) [
    | inl e ↦ rw e (updated-IsCurrent ws c)
    | inr e ↦ rw e (
        All-append (IsCurrent me mode queues) ws (registration now me mode q ∷ []) c
          ((λ mine. (mode_beq_refl mode, listed)), tt))
  ]

  updated_keeps :
      (other : String) (ws : List Worker)
      → any (is_registration me other) ws ≡ true
      → any (is_registration me other) (upsert_worker_registration now me mode q ws) ≡ true
  unfolding upsert_worker_registration
  updated_keeps other ws h = elim (Bool-cases (any (is_registration me q) ws)) [
    | inl e ↦ rw e (
        rw
          (any-update_rows (is_registration me other) (is_registration me q) (seen now mode) ws
            (λ a. refl))
          h)
    | inr e ↦ rw e (
        rw (any-append (is_registration me other) ws (registration now me mode q ∷ [])) (rw h refl))
  ]

  upserted_is_there :
      (ws : List Worker)
      → any (is_registration me q) (upsert_worker_registration now me mode q ws) ≡ true
  unfolding upsert_worker_registration
  upserted_is_there ws = elim (Bool-cases (any (is_registration me q) ws)) [
    | inl e ↦ rw e (
        rw
          (any-update_rows (is_registration me q) (is_registration me q) (seen now mode) ws
            (λ a. refl))
          e)
    | inr e ↦ rw e (
        rw (any-append (is_registration me q) ws (registration now me mode q ∷ []))
          (rw e (ground (arith, eq_self me, eq_self q))))
  ]

module _ (now : ℕ) (me : String) (mode : ExecutionMode) where
  others_kept :
      (a : Worker) (queues : List String) (ws : List Worker)
      → (a.worker_id == me) ≡ false
      → Elem a (upsert_each now me mode queues ws) ↔ Elem a ws
  unfolding upsert_each
  others_kept a [] ws h = (λ m. m, λ m. m)
  others_kept a (q ∷ rest) ws h = ground (
    arith,
    others_kept a rest (upsert_worker_registration now me mode q ws) h,
    other_upserted now me q mode a ws h,
  )

  All-IsCurrent :
      (queues rest : List String) (ws : List Worker)
      → All (λ q. contains q queues ≡ true) rest
      → All (IsCurrent me mode queues) ws
      → All (IsCurrent me mode queues) (upsert_each now me mode rest ws)
  unfolding upsert_each
  All-IsCurrent queues [] ws listed c = c
  All-IsCurrent queues (q ∷ rest) ws listed c =
      All-IsCurrent queues rest (upsert_worker_registration now me mode q ws) listed.1
        (upserted-IsCurrent now me q mode queues ws listed.0 c)

  each_keeps :
      (other : String) (queues : List String) (ws : List Worker)
      → any (is_registration me other) ws ≡ true
      → any (is_registration me other) (upsert_each now me mode queues ws) ≡ true
  unfolding upsert_each
  each_keeps other [] ws h = h
  each_keeps other (q ∷ rest) ws h =
      each_keeps other rest (upsert_worker_registration now me mode q ws)
        (updated_keeps now me q mode [] other ws h)

  each_is_there :
      (q : String) (queues : List String) (ws : List Worker)
      → Elem q queues
      → any (is_registration me q) (upsert_each now me mode queues ws) ≡ true
  unfolding upsert_each
  each_is_there q [] ws m = absurd m
  each_is_there q (x ∷ rest) ws (inl same) = rw same (
      each_keeps x rest (upsert_worker_registration now me mode x ws)
        (upserted_is_there now me x mode [] ws))
  each_is_there q (x ∷ rest) ws (inr old) =
      each_is_there q rest (upsert_worker_registration now me mode x ws) old

-- What the deletion leaves is current.
kept-IsCurrent :
    (me : String) (mode : ExecutionMode) (queues : List String) (w : Worker)
    → is_outdated me mode queues w ≡ false
    → IsCurrent me mode queues w
kept-IsCurrent me mode queues w h = ground arith

other_is_kept :
    (me : String) (mode : ExecutionMode) (queues : List String) (w : Worker)
    → (w.worker_id == me) ≡ false
    → is_outdated me mode queues w ≡ false
other_is_kept me mode queues w h = ground arith

-- After a worker's poll with a mode, the registry holds the same rows of other workers as before;
-- each of the worker's own rows has that mode and one of the queues of the poll; and each queue of
-- the poll is registered for it.
pub sync_registers :
    (now : ℕ) (me : String) (mode : ExecutionMode) (queues : List String) (ws : List Worker)
    → ((w : Worker)
        → (w.worker_id == me) ≡ false
        → Elem w (sync_worker_registrations now me mode queues ws) ↔ Elem w ws)
      × All (IsCurrent me mode queues) (sync_worker_registrations now me mode queues ws)
      × ((q : String)
          → Elem q queues
          → any (is_registration me q) (sync_worker_registrations now me mode queues ws) ≡ true)
unfolding sync_worker_registrations
sync_registers now me mode queues ws =
    let left = delete_rows (is_outdated me mode queues) ws in
    (
      λ w h. ground (
        arith,
        others_kept now me mode w queues left h,
        Elem-delete_rows (is_outdated me mode queues) w ws,
        other_is_kept me mode queues w h,
      ),
      All-IsCurrent now me mode queues queues left
          (All-of_Elem (λ q. contains q queues ≡ true) queues λ q m. (contains_iff q queues).1 m)
          (All-of_Elem (IsCurrent me mode queues) left λ w m.
            kept-IsCurrent me mode queues w
              ((Elem-delete_rows (is_outdated me mode queues) w ws).0 m).1),
      λ q m. each_is_there now me mode q queues left m,
    )
