-- ===== src/Authorization/Event/Grants.antt =====
-- Who passes `ensure` of src/authorization/event.cpp, as the answers of unicorn tell.
use cocaine_core.Base.{
  ◌||◌, not, ◌&&◌, is_empty, all, ℕ, String, ◌≡◌, refl, Bool, true, Option, none, some, List, [],
  ◌∷◌, arith, nat_beq, if◌then◌else◌, nat_key, string_key, Option-cases, inl, inr,
}
use cocaine_core.Errors.{unauthorized, permission_denied}
use cocaine_core.Authorization.Event.{passed, refused}
use cocaine_core.Base.Map.{lookup, Map, insert, lookup-assign, lookup-erase, lookup-insert}
use cocaine_core.Dynamic.{Dynamic, Object, no_fields, field, is_some, at, as_object}
use cocaine_core.Dynamic.Converters.{convertible, to_map, to_dynamic, all_fields}
use cocaine_core.Authorization.Event.{
  allowed_for, new_watcher, ensure, Answer, holds, no_node, failed, Watcher, permits, cast_all,
  insert_empty, on_change, on_update,
}

pub data Notice (D : Type 0) : Type 0 where
  changed : Answer (List String) → Notice D
  updated : ℕ → Answer (Dynamic D) → Notice D

module _ {D : Type 0} where
  unfoldable pub run : (String → Option ℕ) → List (Notice D) → Watcher D → Watcher D
  run lexical_cast [] w = w
  run lexical_cast (changed nodes ∷ notices) w =
      run lexical_cast notices (on_change lexical_cast nodes w).0
  run lexical_cast (updated subject answer ∷ notices) w =
      run lexical_cast notices (on_update subject answer w)

  -- The methods that an answer about a subject gives: a removed node gives none of them, and an
  -- error or a value that is no object gives no list at all.
  abbrev pub methods_of : Answer (Dynamic D) → Option (Object D)
  methods_of answer = elim answer [
    | holds d ↦ as_object d
    | no_node ↦ some no_fields
    | failed ↦ none
  ]

  -- The methods that the last readable answer about a subject gives, if there is one.
  unfoldable pub last_methods : ℕ → List (Notice D) → Option (Object D)
  last_methods subject [] = none
  last_methods subject (changed nodes ∷ notices) = last_methods subject notices
  last_methods subject (updated other answer ∷ notices) =
      let later = last_methods subject notices in
      elim later [
        | some methods ↦ some methods
        | none ↦ if nat_beq other subject then methods_of answer else none
      ]

  -- The last readable answer about the subject has the event.
  abbrev pub granted : String → List (Notice D) → ℕ → Bool
  granted event notices subject =
      is_some (λ methods. is_some (λ d. true) (at event methods)) (last_methods subject notices)

  permits-insert_empty :
      (event : String) (subject : ℕ) (subjects : List ℕ) (acl : Map ℕ (Object D))
      → permits event subject (insert_empty subjects acl) ≡ permits event subject acl
  unfolding permits insert_empty at
  permits-insert_empty event subject [] acl = refl
  permits-insert_empty event subject (other ∷ subjects) acl =
      let rest = permits-insert_empty event subject subjects (insert other no_fields acl) in
      ground (arith, lookup-insert other subject no_fields acl, rest)

  permits-on_change :
      (lexical_cast : String → Option ℕ) (event : String) (subject : ℕ)
      (nodes : Answer (List String)) (w : Watcher D)
      → permits event subject (on_change lexical_cast nodes w).0.acl ≡ permits event subject w.acl
  unfolding on_change
  permits-on_change lexical_cast event subject (holds nodes) w =
      elim (Option-cases (cast_all lexical_cast nodes)) [
        | inl e ↦ rw (e, on_change) refl
        | inr (subjects, e) ↦ rw (e, on_change) (permits-insert_empty event subject subjects w.acl)
      ]
  permits-on_change lexical_cast event subject no_node w = refl
  permits-on_change lexical_cast event subject failed w = refl

  all_fields-true : (fs : Object D) → all_fields (λ d. convertible to_dynamic d) fs ≡ true
  unfolding all_fields convertible
  all_fields-true no_fields = refl
  all_fields-true (field k d fs) = ground (arith, all_fields-true fs)

  convertible-object :
      (d : Dynamic D) → convertible (to_map to_dynamic) d ≡ is_some (λ fs. true) (as_object d)
  unfolding convertible
  convertible-object d = elim (Option-cases (as_object d)) [
    | inl e ↦ rw e refl
    | inr (fs, e) ↦ rw e (all_fields-true fs)
  ]

  permits-on_update :
      (event : String) (subject other : ℕ) (answer : Answer (Dynamic D)) (w : Watcher D)
      → permits event subject (on_update other answer w).acl
        ≡ (elim (if nat_beq other subject then methods_of answer else none) [
          | none ↦ permits event subject w.acl
          | some methods ↦ is_some (λ d. true) (at event methods)
        ])
  unfolding on_update permits at
  permits-on_update event subject other (holds d) w = elim (Option-cases (as_object d)) [
    | inl e ↦ ground (arith, convertible-object d)
    | inr (fs, e) ↦ ground (arith, convertible-object d, lookup-assign other subject fs w.acl)
  ]
  permits-on_update event subject other no_node w = ground (arith, lookup-erase other subject w.acl)
  permits-on_update event subject other failed w = ground arith

  permits-run :
      (lexical_cast : String → Option ℕ) (event : String) (subject : ℕ) (notices : List (Notice D))
      (w : Watcher D)
      → permits event subject (run lexical_cast notices w).acl
        ≡ (elim (last_methods subject notices) [
          | none ↦ permits event subject w.acl
          | some methods ↦ is_some (λ d. true) (at event methods)
        ])
  unfolding run last_methods
  permits-run lexical_cast event subject [] w = refl
  permits-run lexical_cast event subject (changed nodes ∷ notices) w =
      let rest =
        permits-run lexical_cast event subject notices (on_change lexical_cast nodes w).0 in
      let now = permits-on_change lexical_cast event subject nodes w in ground arith
  permits-run lexical_cast event subject (updated other answer ∷ notices) w =
      let rest = permits-run lexical_cast event subject notices (on_update other answer w) in
      let now = permits-on_update event subject other answer w in ground arith

  permits-granted :
      (lexical_cast : String → Option ℕ) (event : String) (notices : List (Notice D)) (subject : ℕ)
      → permits event subject (run lexical_cast notices new_watcher).acl
        ≡ granted event notices subject
  unfolding permits lookup
  permits-granted lexical_cast event notices subject =
      let known = permits-run lexical_cast event subject notices new_watcher in ground arith

  all-granted :
      (lexical_cast : String → Option ℕ) (event : String) (notices : List (Notice D))
      (subjects : List ℕ)
      → all (λ subject. permits event subject (run lexical_cast notices new_watcher).acl) subjects
        ≡ all (granted event notices) subjects
  all-granted lexical_cast event notices [] = refl
  all-granted lexical_cast event notices (subject ∷ subjects) = ground (
    arith,
    permits-granted lexical_cast event notices subject,
    all-granted lexical_cast event notices subjects,
  )

-- After any notices of unicorn about clients and users, `ensure` refuses an identity with neither as
-- unauthorized. Another passes exactly when its clients are not empty and each has the event in the
-- last readable answer about it, or its users are and do; else the permission is denied. A removed
-- node counts as an answer without events, and an error or a value that is no object is not readable.
pub ensure-granted :
    {D : Type 0} (lexical_cast : String → Option ℕ) (event : String)
    (about_cids about_uids : List (Notice D)) (cids uids : List ℕ)
    → ensure event cids uids (record {
      uid = run lexical_cast about_uids new_watcher;
      cid = run lexical_cast about_cids new_watcher;
    })
      ≡ (if is_empty cids && is_empty uids
          then refused unauthorized
          else if (not (is_empty cids) && all (granted event about_cids) cids)
              || (not (is_empty uids) && all (granted event about_uids) uids)
          then passed
          else refused permission_denied)
unfolding ensure allowed_for
ensure-granted lexical_cast event about_cids about_uids cids uids =
    let clients = all-granted lexical_cast event about_cids cids in
    let users = all-granted lexical_cast event about_uids uids in rw (clients, users) refl
