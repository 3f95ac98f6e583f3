-- ===== src/Storage/Find/Found.antt =====
-- The answer of find_sync of src/storage/files.cpp.
use cocaine_core.Storage.Order.Intersection.{set_intersection-member, intersection-Sorted}
use cocaine_core.Storage.Find.Laws.{collect-Collected, LinkLaws}
use cocaine_core.Storage.Order.Laws.{member-sort, sort-Sorted}
use cocaine_core.Storage.Order.{set_intersection, sort, member, bytes_order, Sorted}
use cocaine_core.Storage.{Name, FileSystem}
use cocaine_core.Storage.Find.{collect, tagged, find_sync, intersect_all, split_last, accumulate}
use cocaine_core.Base.{
  Sum-cases, true, none, arith, ◌∷◌, inl, inr, [], ap, refl, ◌≡◌, inl, ◌∷◌, arith, Option-cases,
  ◌&&◌, all, some, ◌≡◌, Bool, List, ◌∙◌, sym, subst,
}

accumulate-member :
    {F P : Type 0} (fs : FileSystem F P) (parent : P) (z : Name) (accumulator : List Name)
    (result : List (List Name))
    → Sorted bytes_order accumulator
    → (member bytes_order z (accumulate fs parent accumulator result)
        ≡ (member bytes_order z accumulator && all (λ l. member bytes_order z l) result))
      × Sorted bytes_order (accumulate fs parent accumulator result)
unfolding accumulate
accumulate-member fs parent z accumulator [] s = (ground arith, s)
accumulate-member fs parent z accumulator (keys ∷ result) s =
    let keys' = sort bytes_order keys in
    let sorted = sort-Sorted bytes_order keys in
    let (m, t) =
      accumulate-member fs parent z (set_intersection bytes_order accumulator keys') result
        (intersection-Sorted bytes_order accumulator keys' s) in
    let met = set_intersection-member bytes_order z accumulator keys' s sorted in
    let same = member-sort bytes_order z keys in (ground arith, t)

split_last-none :
    {F P : Type 0} (fs : FileSystem F P) (parent : P) (result : List (List Name))
    → split_last fs parent result ≡ none
    → result ≡ []
unfolding split_last
split_last-none fs parent [] e = refl
split_last-none fs parent (keys ∷ result) e = elim (Option-cases (split_last fs parent result)) [
  | inl last ↦ absurd (ground arith)
  | inr (parts, more) ↦ absurd (ground arith)
]

split_last-all :
    {F P : Type 0} (fs : FileSystem F P) (parent : P) (f : List Name → Bool)
    (result front : List (List Name)) (initial : List Name)
    → split_last fs parent result ≡ some (front, initial)
    → all f result ≡ (f initial && all f front)
unfolding split_last
split_last-all fs parent f [] front initial e = cc
split_last-all fs parent f (keys ∷ result) front initial e =
    elim (Option-cases (split_last fs parent result)) [
      | inl last ↦
          let empty = split_last-none fs parent result last in
          let head : keys ≡ initial = ground arith in
          let nothing : [] ≡ front = ground arith in
          ap (λ l. f keys && all f l) empty
          ∙ ap (λ k. f k && true) head
          ∙ ap (λ l. f initial && all f l) nothing
      | inr ((front', initial'), more) ↦
          let rest = split_last-all fs parent f result front' initial' more in
          let last : initial' ≡ initial = ground arith in
          let before : keys ∷ front' ≡ front = ground arith in
          let init = ap f last in let all_front = ap (all f) before in ground arith
    ]

intersect_all-member :
    {F P : Type 0} (fs : FileSystem F P) (parent : P) (z : Name) (result : List (List Name))
    (found : List Name)
    → intersect_all fs parent result ≡ some found
    → (member bytes_order z found ≡ all (λ l. member bytes_order z l) result)
      × Sorted bytes_order found
unfolding intersect_all
intersect_all-member fs parent z result found e =
    elim (Option-cases (split_last fs parent result)) [
      | inl empty ↦ absurd (ground arith)
      | inr ((front, initial), parts) ↦
          let start = sort bytes_order initial in
          let (m, s) =
            accumulate-member fs parent z start front (sort-Sorted bytes_order initial) in
          let same : accumulate fs parent start front ≡ found = ground arith in
          let whole =
            split_last-all fs parent (λ l. member bytes_order z l) result front initial parts in
          (
            sym (ap (member bytes_order z) same)
                ∙ m
                ∙ ap (λ b. b && all (λ l. member bytes_order z l) front)
                    (member-sort bytes_order z initial)
                ∙ sym whole,
            subst (Sorted bytes_order) same s,
          )
    ]

-- Where the collection is there and at least one tag is asked for, what find_sync returns without an
-- exception is sorted, and it has an object exactly when, as the file system was, each of the tags
-- had an entry of the object that leads to a file.
pub find_sync-tagged :
    {F P : Type 0} (fs : FileSystem F P) (laws : LinkLaws fs) (parent : P) (collection tag : Name)
    (tags : List Name) (s t : F) (found : List Name)
    → fs.exists (fs.join parent collection) s ≡ true
    → find_sync fs parent collection (tag ∷ tags) s ≡ some (t, inr found)
    → Sorted bytes_order found
      × ((z : Name)
          → member bytes_order z found
            ≡ all (λ g. tagged fs (fs.join (fs.join parent collection) g) z s) (tag ∷ tags))
unfolding find_sync
find_sync-tagged fs laws parent collection tag tags s t found there e =
    let store_path = fs.join parent collection in
    let v = (collect fs parent store_path (tag ∷ tags) s).0 in
    elim (Sum-cases (collect fs parent store_path (tag ∷ tags) s).1) [
      | inl (error, fails) ↦ absurd (ground arith)
      | inr (none, done) ↦
          let pair : collect fs parent store_path (tag ∷ tags) s ≡ (v, inr none) = ground arith in
          let absent = collect-Collected fs laws parent store_path (tag ∷ tags) s v none pair in
          let nothing : [] ≡ found = ground arith in
          (
            subst (Sorted bytes_order) nothing tt,
            λ z. ap (member bytes_order z) (sym nothing) ∙ sym (absent z),
          )
      | inr (some result, done) ↦
          let pair : collect fs parent store_path (tag ∷ tags) s ≡ (v, inr (some result)) =
            ground arith in
          let each =
            collect-Collected fs laws parent store_path (tag ∷ tags) s v (some result) pair in
          elim (Option-cases (intersect_all fs parent result)) [
            | inl undefined ↦ absurd (ground arith)
            | inr (keys, made) ↦
                let same : keys ≡ found = ground arith in
                (
                  subst (Sorted bytes_order) same
                      (intersect_all-member fs parent collection result keys made).1,
                  λ z.
                      ap (member bytes_order z) (sym same)
                      ∙ (intersect_all-member fs parent z result keys made).0
                      ∙ each z,
                )
          ]
    ]
