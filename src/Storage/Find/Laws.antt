-- ===== src/Storage/Find/Laws.antt =====
-- What find_sync of src/storage/files.cpp finds.
use cocaine_core.Storage.Order.Laws.{same-path}
use cocaine_core.Storage.Order.{bytes_order, member, same_item}
use cocaine_core.Storage.Find.{collect, tagged, entries}
use cocaine_core.Storage.{Name, FileSystem}
use cocaine_core.Base.{
  Sum-cases, ◌≡◌, refl, sym, ap, ◌∙◌, subst, inl, inr, Bool, true, false, ◌&&◌, Option, none, some,
  List, [], ◌∷◌, arith, Bool-cases, Option-cases, all, nat_key, string_key, list_key,
}

-- What the code relies on: a directory that is not there has no entries, and the removal of a link
-- that leads nowhere changes neither what exists nor which objects are tagged where.
pub record LinkLaws {F P : Type 0} (fs : FileSystem F P) : Type 0 where
  pub absent : (directory : P) (s : F) → fs.exists directory s ≡ false → fs.list directory s ≡ none
  pub purged :
      (p directory : P) (object : Name) (s t : F)
      → fs.exists p s ≡ false
      → fs.remove p s ≡ some t
      → (fs.exists directory t ≡ fs.exists directory s)
        × (tagged fs directory object t ≡ tagged fs directory object s)

-- The states have the same files and the same tags.
abbrev pub Agree : {F P : Type 0} → FileSystem F P → F → F → Type 0
Agree {F} {P} fs t s =
    (directory : P) (object : Name)
    → (fs.exists directory t ≡ fs.exists directory s)
      × (tagged fs directory object t ≡ tagged fs directory object s)

and_false : (b : Bool) → (b && false) ≡ false
and_false true = refl
and_false false = refl

module _ {F P : Type 0} (fs : FileSystem F P) (laws : LinkLaws fs) (parent : P) where
  Agree-trans : (s t u : F) → Agree fs t s → Agree fs u t → Agree fs u s
  Agree-trans s t u a b directory object = (
    (b directory object).0 ∙ (a directory object).0,
    (b directory object).1 ∙ (a directory object).1,
  )

  member-eq :
      (x z : Name) (b : Bool)
      → same_item bytes_order x z ≡ true
      → (directory : P) (s : F) → fs.exists (fs.join directory x) s ≡ b
      → fs.exists (fs.join directory z) s ≡ b
  member-eq x z b same directory s e =
      subst (λ w. fs.exists (fs.join directory w) s ≡ b) (same-path bytes_order x z same) e

  -- The objects of a tag are the entries of its directory that lead to a file.
  entries-member :
      (directory : P) (objects found : List Name) (s t : F)
      → entries fs parent directory objects s ≡ (t, inr found)
      → Agree fs t s
        × ((z : Name)
            → member bytes_order z found
              ≡ (member bytes_order z objects && fs.exists (fs.join directory z) s))
  unfolding entries
  entries-member directory [] found s t e =
      let same : s ≡ t = ground arith in
      let nothing : [] ≡ found = ground arith in
      (
        subst (λ u. Agree fs u s) same (λ d o. (refl, refl)),
        λ z. ap (member bytes_order z) (sym nothing),
      )
  entries-member directory (x ∷ objects) found s t e =
      elim (Bool-cases (fs.exists (fs.join directory x) s)) [
        | inl there ↦ elim (Sum-cases (entries fs parent directory objects s).1) [
          | inl (error, fails) ↦ absurd (ground arith)
          | inr (more, rest) ↦
              let v = (entries fs parent directory objects s).0 in
              let pair : entries fs parent directory objects s ≡ (v, inr more) = ground arith in
              let same : v ≡ t = ground arith in
              let all_found : x ∷ more ≡ found = ground arith in
              let (agree, each) = entries-member directory objects more s v pair in
              (
                subst (λ u. Agree fs u s) same agree,
                λ z.
                    (let m : member bytes_order z (x ∷ more) ≡ member bytes_order z found =
                        ap (member bytes_order z) all_found in
                      let one = each z in
                      elim (Bool-cases (same_item bytes_order x z)) [
                        | inl hit ↦
                            let here = member-eq x z true hit directory s there in ground arith
                        | inr miss ↦ ground arith
                      ]),
              )
        ]
        | inr gone ↦ elim (Option-cases (fs.remove (fs.join directory x) s)) [
          | inl fails ↦ absurd (ground arith)
          | inr (u, removed) ↦
              let rest : entries fs parent directory objects u ≡ (t, inr found) = ground arith in
              let (agree, each) = entries-member directory objects found u t rest in
              let purge : Agree fs u s =
                λ d o. laws.purged (fs.join directory x) d o s u gone removed in
              (
                Agree-trans s u t purge agree,
                λ z.
                    (let one = each z in
                      let kept = (purge (fs.join directory z) z).0 in
                      elim (Bool-cases (same_item bytes_order x z)) [
                        | inl hit ↦
                            let here = member-eq x z false hit directory s gone in ground arith
                        | inr miss ↦ ground arith
                      ]),
              )
        ]
      ]

  abbrev pub all_tagged : P → Name → List Name → F → Bool
  all_tagged store_path z tags s = all (λ tag. tagged fs (fs.join store_path tag) z s) tags

  all_tagged-Agree :
      (store_path : P) (z : Name) (tags : List Name) (s t : F)
      → Agree fs t s
      → all_tagged store_path z tags t ≡ all_tagged store_path z tags s
  all_tagged-Agree store_path z [] s t agree = refl
  all_tagged-Agree store_path z (tag ∷ tags) s t agree =
      let here = (agree (fs.join store_path tag) z).1 in
      let rest = all_tagged-Agree store_path z tags s t agree in
      ap (λ b. b && all_tagged store_path z tags t) here
      ∙ ap (λ b. tagged fs (fs.join store_path tag) z s && b) rest

  -- The lists of the tags, or one tag that is not there.
  abbrev pub Collected : P → List Name → F → Option (List (List Name)) → Type 0
  Collected store_path tags s none = (z : Name) → all_tagged store_path z tags s ≡ false
  Collected store_path tags s (some lists) =
      (z : Name) → all (λ l. member bytes_order z l) lists ≡ all_tagged store_path z tags s

  pub collect-Collected :
      (store_path : P) (tags : List Name) (s t : F) (r : Option (List (List Name)))
      → collect fs parent store_path tags s ≡ (t, inr r)
      → Collected store_path tags s r
  unfolding collect
  collect-Collected store_path [] s t r e =
      let same : some [] ≡ r = ground arith in subst (Collected store_path [] s) same (λ z. refl)
  collect-Collected store_path (tag ∷ tags) s t r e =
      let directory = fs.join store_path tag in
      elim (Bool-cases (fs.exists directory s)) [
        | inr missing ↦
            let nowhere = laws.absent directory s missing in
            let same : none ≡ r = ground arith in
            subst (Collected store_path (tag ∷ tags) s) same (λ z. ground arith)
        | inl there ↦ elim (Option-cases (fs.list directory s)) [
          | inl fails ↦ absurd (ground arith)
          | inr (objects, listed) ↦ elim (Sum-cases (entries fs parent directory objects s).1) [
            | inl (error, fails) ↦ absurd (ground arith)
            | inr (found, done) ↦
                let v = (entries fs parent directory objects s).0 in
                let pair : entries fs parent directory objects s ≡ (v, inr found) = ground arith in
                let (agree, each) = entries-member directory objects found s v pair in
                elim (Sum-cases (collect fs parent store_path tags v).1) [
                  | inl (error, fails) ↦ absurd (ground arith)
                  | inr (none, later) ↦
                      let w = (collect fs parent store_path tags v).0 in
                      let next : collect fs parent store_path tags v ≡ (w, inr none) =
                        ground arith in
                      let rest = collect-Collected store_path tags v w none next in
                      let same : none ≡ r = ground arith in
                      subst (Collected store_path (tag ∷ tags) s) same (λ z.
                        ap (λ b. tagged fs directory z s && b)
                          (sym (all_tagged-Agree store_path z tags s v agree) ∙ rest z)
                        ∙ and_false (tagged fs directory z s))
                  | inr (some lists, later) ↦
                      let w = (collect fs parent store_path tags v).0 in
                      let next : collect fs parent store_path tags v ≡ (w, inr (some lists)) =
                        ground arith in
                      let rest = collect-Collected store_path tags v w (some lists) next in
                      let same : some (found ∷ lists) ≡ r = ground arith in
                      subst (Collected store_path (tag ∷ tags) s) same (λ z.
                        let here : tagged fs directory z s
                            ≡ (member bytes_order z objects && fs.exists (fs.join directory z) s) =
                          rw (listed, tagged) in
                        ap (λ b. b && all (λ l. member bytes_order z l) lists) (each z ∙ sym here)
                        ∙ ap (λ b. tagged fs directory z s && b)
                            (rest z ∙ all_tagged-Agree store_path z tags s v agree))
                ]
          ]
        ]
      ]
