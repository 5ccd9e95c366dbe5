-- ===== src/Work/Dispatcher/Routes.antt =====
-- Which handler a task is dispatched to (src/TaskDispatcher.cpp).
use gaudere_agent.Prelude.{
  ◌≡◌, refl, ap, inl, inr, Bool, true, false, not, ◌||◌, ◌&&◌, Option, none, some, List, [], ◌∷◌,
  arith, if◌then◌else◌, empty, is_some, Bool-cases,
}
use gaudere_agent.Text.{Text, eqb}
use gaudere_agent.Text.Laws.{eqb_iff}
use gaudere_agent.Effects.{ok, M, pure, ◌>>=◌}
use gaudere_agent.Effects.Logged.{World, quiet}
use gaudere_agent.Work.Task.{Task}
use gaudere_agent.Work.Runtime.{Runtime}
use gaudere_agent.Work.Executor.{Event, Handler, execute}
use gaudere_agent.Work.Dispatcher.{
  Registry, before, lookup, emplace, register_handler, accepted_kinds, dispatch_result, run_found,
  dispatch_task, dispatch_one,
}

abbrev pub listed : Text → List Text → Bool
listed kind [] = false
listed kind (key ∷ rest) = eqb kind key || listed kind rest

other_key : (key kind k : Text) → eqb key k ≡ true → eqb kind k ≡ false → eqb key kind ≡ false
other_key key kind k e n = elim (Bool-cases (eqb key kind)) [
  | inl same ↦ let p = ap (λ t. eqb t k) ((eqb_iff key kind).0 same) in cc
  | inr different ↦ different
]

absent :
    {A : Type 0} (b : Bool) (a : A) (o : Option A)
    → (if b then some a else o) ≡ none
    → (b ≡ false) × (o ≡ none)
absent true a o h = cc
absent false a o h = (refl, h)

module _ {W : Type 0} where
  listed-lookup :
      (kind : Text) (handlers : Registry W)
      → listed kind (accepted_kinds handlers) ≡ true
      → (h : Handler W) × (lookup kind handlers ≡ some h)
  unfolding accepted_kinds lookup
  listed-lookup kind [] l = cc
  listed-lookup kind ((key, handler) ∷ rest) l = elim (Bool-cases (eqb kind key)) [
    | inl same ↦ (handler, rw same refl)
    | inr other ↦ let (h, e) = listed-lookup kind rest (ground arith) in (h, rw other e)
  ]

  emplace-lookup :
      (kind : Text) (handler : Handler W) (handlers : Registry W) (key : Text)
      → lookup kind handlers ≡ none
      → lookup key (emplace kind handler handlers)
        ≡ (if eqb key kind then some handler else lookup key handlers)
  unfolding lookup emplace
  emplace-lookup kind handler [] key n = refl
  emplace-lookup kind handler ((k, other) ∷ rest) key n = elim (Bool-cases (before kind k)) [
    | inl earlier ↦ rw earlier refl
    | inr after ↦
        let gone = absent (eqb kind k) other (lookup kind rest) n in
        rw (after, emplace-lookup kind handler rest key gone.1)
          (elim (Bool-cases (eqb key k)) [
            | inl e ↦ rw (e, other_key key kind k e gone.0) refl
            | inr e ↦ rw e refl
          ])
  ]

not_there : {A : Type 0} (b : Bool) (o : Option A) → (b || is_some o) ≡ false → o ≡ none
not_there true o h = cc
not_there false none h = refl
not_there false (some a) h = cc

-- Registering a handler tells whether the kind is new and not empty. If it is, exactly that kind is looked up
-- to the handler afterwards; if not, the registry is as it was.
pub register_handler-lookup :
    {W : Type 0} (handlers : Registry W) (kind : Text) (handler : Handler W) (key : Text)
    → let accepted = not (empty kind || is_some (lookup kind handlers)) in
      ((register_handler handlers kind handler).1 ≡ accepted)
      × (lookup key (register_handler handlers kind handler).0
          ≡ (if accepted && eqb key kind then some handler else lookup key handlers))
unfolding register_handler
register_handler-lookup handlers kind handler key =
    elim (Bool-cases (empty kind || is_some (lookup kind handlers))) [
      | inl refused ↦ rw refused (refl, refl)
      | inr fresh ↦ rw fresh (
        refl,
        emplace-lookup kind handler handlers key
            (not_there (empty kind) (lookup kind handlers) fresh),
      )
    ]

-- Where the task store gives only tasks of the kinds that it is asked for: a worker with a name that finds a
-- pending task has a handler registered for its kind, and the dispatch is the execution of that handler on
-- that task.
pub dispatch_one-routes :
    {W : Type 0} (rt : Runtime W)
    (law : (kinds : List Text) (w w' : W) (t : Task)
      → rt.find_pending_for kinds w ≡ (ok (some t), w')
      → listed t.kind kinds ≡ true)
    (handlers : Registry W) (worker : Text) (stop : Option (M W Bool)) (s : World W Event)
    (t : Task) (w' : W)
    → empty worker ≡ false
    → rt.find_pending_for (accepted_kinds handlers) s.ext ≡ (ok (some t), w')
    → (h : Handler W) × (lookup t.kind handlers ≡ some h)
      × (dispatch_one rt handlers worker stop s
          ≡ (execute rt t.id worker h stop >>= λ result. pure (dispatch_result result))
              (record s { ext = w' }))
unfolding dispatch_one dispatch_task run_found quiet ◌>>=◌
dispatch_one-routes rt law handlers worker stop s t w' named found =
    let (h, e) = listed-lookup t.kind handlers (law (accepted_kinds handlers) s.ext w' t found) in
    (h, e, rw (named, found, e) refl)
