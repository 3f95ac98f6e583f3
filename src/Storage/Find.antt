-- ===== src/Storage/Find.antt =====
-- find_sync of src/storage/files.cpp.
pub mod Laws
pub mod Found
use cocaine_core.Base.{
  ℕ, zero, suc, ◌+◌, ◌-◌, ◌*◌, ◌/◌, ◌%◌, ◌^◌, ◌≤◌, ◌<◌, min, String, ◌≡◌, refl, sym, ap, ◌∙◌, subst,
  ◌≢◌, ◌↔◌, ◌⊎◌, inl, inr, Bool, true, false, not, ◌&&◌, ◌||◌, Option, none, some, List, [], ◌∷◌,
  ◌++◌, map, append_assoc, append-nil, arith, ltb, leb, nat_beq, if◌then◌else◌, Bool-cases,
  Option-cases, codes, All, length, get_elem?, take, drop, replicate, find_index, find?, any, all,
  keep, is_empty, length-append, length-take, length-drop, length-replicate, take-append-drop,
  take-append_left, take-append_exact, drop-nil, take-nil, take-drop, drop-append_left,
  drop-append_right, find?-All, find?-passes, find?-any, any-find?, find?-none, Key, ◌==◌, nat_key,
  string_key, list_key, list_same, list_same_iff, ==_refl,
}
use cocaine_core.Storage.{FileSystem, Name, Error, failed}
use cocaine_core.Storage.Order.{bytes_order, set_intersection, sort, member}

-- The object `object` is tagged in the directory: an entry has its name and leads to a file.
abbrev pub tagged : {F P : Type 0} → FileSystem F P → P → Name → F → Bool
tagged fs directory object s = elim (fs.list directory s) [
  | none ↦ false
  | some objects ↦ member bytes_order object objects && fs.exists (fs.join directory object) s
]

module _ {F P : Type 0} (fs : FileSystem F P) (parent : P) where
  -- The loop over the entries of the directory of a tag: links to objects that were removed are
  -- removed, the rest are the objects of the tag.
  unfoldable pub entries : P → List Name → F → F × (Error ⊎ List Name)
  entries directory [] s = (s, inr [])
  entries directory (object ∷ objects) s =
      let (t, r) = entries directory objects s in
      if fs.exists (fs.join directory object) s
      then (t, elim r [ inl e ↦ inl e | inr more ↦ inr (object ∷ more) ])
      else (elim (fs.remove (fs.join directory object) s) [
        | none ↦ (s, inl failed)
        | some s' ↦ entries directory objects s'
      ])

  -- The loop over the tags; `none` is the return where a tag is not there.
  unfoldable pub collect : P → List Name → F → F × (Error ⊎ Option (List (List Name)))
  collect store_path [] s = (s, inr (some []))
  collect store_path (tag ∷ tags) s =
      let directory = fs.join store_path tag in
      if fs.exists directory s
      then (elim (fs.list directory s) [
        | none ↦ (s, inl failed)
        | some objects ↦
            (let (t, r) = entries directory objects s in
              elim r [
                | inl e ↦ (t, inl e)
                | inr found ↦
                    (let (u, q) = collect store_path tags t in
                      (
                        u,
                        elim q [
                          | inl e ↦ inl e
                          | inr none ↦ inr none
                          | inr (some lists) ↦ inr (some (found ∷ lists))
                        ],
                      ))
              ])
      ])
      else (s, inr none)

  -- std::accumulate with `intersect`
  unfoldable pub accumulate : List Name → List (List Name) → List Name
  accumulate accumulator [] = accumulator
  accumulate accumulator (keys ∷ result) =
      accumulate (set_intersection bytes_order accumulator (sort bytes_order keys)) result

  -- The end of find_sync: the last list is the accumulator and the others are intersected with it.
  -- `none` is undefined.
  unfoldable pub split_last : List (List Name) → Option (List (List Name) × List Name)
  split_last [] = none
  split_last (keys ∷ result) = elim (split_last result) [
    | none ↦ some ([], keys)
    | some (front, initial) ↦ some (keys ∷ front, initial)
  ]

  unfoldable pub intersect_all : List (List Name) → Option (List Name)
  intersect_all result = elim (split_last result) [
    | none ↦ none
    | some (front, initial) ↦ some (accumulate (sort bytes_order initial) front)
  ]

  -- find_sync; `none` is undefined.
  unfoldable pub find_sync : Name → List Name → F → Option (F × (Error ⊎ List Name))
  find_sync collection tags s =
      let store_path = fs.join parent collection in
      if not (fs.exists store_path s) || is_empty tags
      then some (s, inr [])
      else (let (t, r) = collect store_path tags s in
          elim r [
            | inl e ↦ some (t, inl e)
            | inr none ↦ some (t, inr [])
            | inr (some result) ↦ elim (intersect_all result) [
              | none ↦ none
              | some found ↦ some (t, inr found)
            ]
          ])
