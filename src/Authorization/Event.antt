-- ===== src/Authorization/Event.antt =====
-- authorization::event: src/authorization/event.cpp. Subjects are numbers, a uid or a cid; what
-- unicorn answers and the parser of a subject are arguments. A value of unicorn is a dynamic value.
pub mod Grants
mod Tests
use cocaine_core.Errors.{SecurityError, unauthorized, permission_denied}
use cocaine_core.Base.Map.{Map, lookup, insert, assign, erase}
use cocaine_core.Dynamic.{Dynamic, Object, no_fields, is_some, at, as_object}
use cocaine_core.Dynamic.Converters.{convertible, to_map, to_dynamic}
use cocaine_core.Base.{
  ℕ, zero, suc, ◌+◌, ◌-◌, ◌*◌, ◌/◌, ◌%◌, ◌^◌, ◌≤◌, ◌<◌, min, String, ◌≡◌, refl, sym, ap, ◌∙◌, subst,
  ◌≢◌, ◌↔◌, ◌⊎◌, inl, inr, Bool, true, false, not, ◌&&◌, ◌||◌, Option, none, some, List, [], ◌∷◌,
  ◌++◌, map, append_assoc, append-nil, arith, ltb, leb, nat_beq, if◌then◌else◌, Bool-cases,
  Option-cases, codes, All, length, get_elem?, take, drop, replicate, find_index, find?, any, all,
  keep, is_empty, length-append, length-take, length-drop, length-replicate, take-append-drop,
  take-append_left, take-append_exact, drop-nil, take-nil, take-drop, drop-append_left,
  drop-append_right, find?-All, find?-passes, find?-any, any-find?, find?-none, Key, ◌==◌, nat_key,
  string_key, list_key, list_same, list_same_iff, ==_refl,
}

-- What a future of unicorn holds: its value, the error -101 or another error.
pub data Answer (A : Type 0) : Type 0 where
  holds : A → Answer A
  no_node : Answer A
  failed : Answer A

-- watcher: `observers` has the subjects with a subscription, `observing` is the one of `update`.
pub record Watcher (D : Type 0) : Type 0 where
  pub acl : Map ℕ (Object D)
  pub observing : Bool
  pub observers : Map ℕ (Unit {0})

-- The transform of `on_change`: a bad cast leaves it.
unfoldable pub cast_all : (String → Option ℕ) → List String → Option (List ℕ)
cast_all lexical_cast [] = some []
cast_all lexical_cast (node ∷ nodes) = elim (lexical_cast node) [
  | none ↦ none
  | some subject ↦ elim (cast_all lexical_cast nodes) [
    | none ↦ none
    | some subjects ↦ some (subject ∷ subjects)
  ]
]

-- The loop that subscribes to each subject.
unfoldable pub insert_observers : List ℕ → Map ℕ (Unit {0}) → Map ℕ (Unit {0})
insert_observers [] observers = observers
insert_observers (subject ∷ subjects) observers =
    insert_observers subjects (insert subject tt observers)

module _ {D : Type 0} where
  abbrev pub new_watcher : Watcher D
  new_watcher = record { acl = []; observing = false; observers = [] }

  -- acl.count(subject) > 0 && acl[subject].count(event) > 0
  unfoldable pub permits : String → ℕ → Map ℕ (Object D) → Bool
  permits event subject acl =
      is_some (λ methods. is_some (λ d. true) (at event methods)) (lookup subject acl)

  unfoldable pub allowed_for : List ℕ → String → Watcher D → Bool
  allowed_for subjects event w =
      not (is_empty subjects) && all (λ subject. permits event subject w.acl) subjects

  unfoldable pub insert_empty : List ℕ → Map ℕ (Object D) → Map ℕ (Object D)
  insert_empty [] acl = acl
  insert_empty (subject ∷ subjects) acl = insert_empty subjects (insert subject no_fields acl)

  -- on_change, with the subjects that it subscribes to. Every error is only logged.
  unfoldable pub on_change :
      (String → Option ℕ) → Answer (List String) → Watcher D → Watcher D × List ℕ
  on_change lexical_cast (holds nodes) w = elim (cast_all lexical_cast nodes) [
    | none ↦ (w, [])
    | some subjects ↦ (
      record w {
        acl = insert_empty subjects w.acl;
        observers = insert_observers subjects w.observers;
      },
      subjects,
    )
  ]
  on_change lexical_cast no_node w = (w, [])
  on_change lexical_cast failed w = (w, [])

  -- on_update
  unfoldable pub on_update : ℕ → Answer (Dynamic D) → Watcher D → Watcher D
  on_update subject (holds events) w =
      if convertible (to_map to_dynamic) events
      then (elim (as_object events) [
        | none ↦ w
        | some methods ↦ record w { acl = assign subject methods w.acl }
      ])
      else w
  on_update subject no_node w = record w { acl = erase subject w.acl }
  on_update subject failed w = w

  unfoldable pub update : Watcher D → Watcher D
  update w = record w { observing = true }

  unfoldable pub cancel : Watcher D → Watcher D
  cancel w = record w { observing = false; observers = [] }

-- control_t
pub record Control (D : Type 0) : Type 0 where
  pub uid : Watcher D
  pub cid : Watcher D

-- What `ensure` does: it returns, or it throws a code.
pub data Verdict : Type 0 where
  passed : Verdict
  refused : SecurityError → Verdict

module _ {D : Type 0} where
  unfoldable pub ensure : String → List ℕ → List ℕ → Control D → Verdict
  ensure event cids uids c =
      if is_empty cids && is_empty uids
      then refused unauthorized
      else if allowed_for cids event c.cid || allowed_for uids event c.uid
      then passed
      else refused permission_denied

  unfoldable pub update_both : Control D → Control D
  update_both c = record { uid = update c.uid; cid = update c.cid }

  unfoldable pub cancel_both : Control D → Control D
  cancel_both c = record { uid = cancel c.uid; cid = cancel c.cid }
