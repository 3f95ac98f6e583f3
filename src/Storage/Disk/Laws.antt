-- ===== src/Storage/Disk/Laws.antt =====
-- The file system in memory has what src/storage/files.cpp relies on.
use cocaine_core.Storage.Order.Laws.{same-path, same_refl}
use cocaine_core.Storage.Find.{tagged}
use cocaine_core.Storage.Order.{same_item, bytes_order, member}
use cocaine_core.Storage.Find.Laws.{LinkLaws}
use cocaine_core.Storage.Objects.{Contains, FileLaws}
use cocaine_core.Base.{
  ℕ, ◌≡◌, refl, sym, ap, ◌∙◌, subst, inl, inr, Bool, true, false, ◌&&◌, ◌||◌, Option, none, some,
  List, [], ◌∷◌, arith, if◌then◌else◌, Bool-cases, ◌==◌, nat_key, string_key, list_key,
  list_same_iff, ==_refl,
}
use cocaine_core.Base.Map.{
  lookup, contains, insert, assign, erase, lookup-assign, lookup-insert, lookup-erase,
}
use cocaine_core.Storage.{Name}
use cocaine_core.Storage.Disk.{
  names, is_link, is_dir, is_there, leads, Disk, DiskPath, contents, Node, disk, file, directory,
  link,
}

key_path : (p q : DiskPath) → (p == q) ≡ true → p ≡ q
key_path p q e = (list_same_iff p q).0 e

contents-file : (blob : List ℕ) (o : Option Node) → contents o ≡ some blob → o ≡ some (file blob)
contents-file blob none e = cc
contents-file blob (some (file b)) e = ground arith
contents-file blob (some directory) e = cc
contents-file blob (some (link q)) e = cc

lookup-Contains :
    (p : DiskPath) (blob : List ℕ) (d : Disk)
    → lookup p d ≡ some (file blob)
    → Contains disk p blob d
unfolding disk
lookup-Contains p blob d e = (ap (λ o. leads o d) e, ap contents e)

Contains-lookup :
    (p : DiskPath) (blob : List ℕ) (d : Disk)
    → Contains disk p blob d
    → lookup p d ≡ some (file blob)
unfolding disk
Contains-lookup p blob d h = contents-file blob (lookup p d) h.1

assign-Contains :
    (p : DiskPath) (blob : List ℕ) (d : Disk) → Contains disk p blob (assign p (file blob) d)
assign-Contains p blob d =
    lookup-Contains p blob (assign p (file blob) d)
      (lookup-assign p p (file blob) d ∙ rw (==_refl p))

insert-Contains :
    (p q : DiskPath) (blob : List ℕ) (node : Node) (d : Disk)
    → contains q d ≡ false
    → Contains disk p blob d
    → Contains disk p blob (insert q node d)
insert-Contains p q blob node d new h =
    let there = Contains-lookup p blob d h in
    let kept : (if contains q d then lookup p d else if q == p then some node else lookup p d)
        ≡ some (file blob) =
      elim (Bool-cases (q == p)) [
        | inr miss ↦ ground arith
        | inl hit ↦
            let here = subst (λ r. contains r d ≡ false) (key_path q p hit) new in
            absurd (ground arith)
      ] in
    lookup-Contains p blob (insert q node d) (lookup-insert q p node d ∙ kept)

opened : (p : DiskPath) (s t : Disk) → disk.open_trunc p s ≡ some t → Contains disk p [] t
unfolding disk
opened p s t e = elim (Bool-cases (is_dir (lookup p s) || is_link (lookup p s))) [
  | inl other ↦ absurd (ground arith)
  | inr plain ↦
      let same : assign p (file []) s ≡ t = ground arith in
      subst (Contains disk p []) same (assign-Contains p [] s)
]

made :
    (p q : DiskPath) (blob : List ℕ) (node : Node) (s t : Disk)
    → (if contains q s then none else some (insert q node s)) ≡ some t
    → Contains disk p blob s
    → Contains disk p blob t
made p q blob node s t e h = elim (Bool-cases (contains q s)) [
  | inl there ↦ absurd (ground arith)
  | inr new ↦
      let same : insert q node s ≡ t = ground arith in
      subst (Contains disk p blob) same (insert-Contains p q blob node s new h)
]

lookup-erased :
    (p : DiskPath) (s t : Disk) → disk.remove p s ≡ some t → (contains p s ≡ true) × (erase p s ≡ t)
unfolding disk
lookup-erased p s t e = elim (Bool-cases (contains p s)) [
  | inr missing ↦ absurd (ground arith)
  | inl there ↦ (there, ground arith)
]

removed : (p : DiskPath) (s t : Disk) → disk.remove p s ≡ some t → disk.exists p t ≡ false
unfolding disk
removed p s t e =
    let (there, same) = lookup-erased p s t e in
    let gone : lookup p (erase p s) ≡ none = lookup-erase p p s ∙ rw (==_refl p) in
    subst (λ u. leads (lookup p u) u ≡ false) same (ap (λ o. leads o (erase p s)) gone)

absent : (d : DiskPath) (s : Disk) → disk.exists d s ≡ false → disk.list d s ≡ none
unfolding disk
absent d s e = ground arith

pub disk_files : FileLaws disk
unfolding disk
disk_files = record {
  opened = opened;
  made_directory = λ p q blob s t e h. made p q blob directory s t e h;
  made_link = λ p q r blob s t e h. made p r blob (link q) s t e h;
  written = λ p blob s h full. assign-Contains p blob s;
  removed = removed;
}

leads-is_there : (o : Option Node) (d : Disk) → leads o d ≡ false → is_there o ≡ false
leads-is_there none d e = refl
leads-is_there (some (file blob)) d e = e
leads-is_there (some directory) d e = e
leads-is_there (some (link q)) d e = refl

lookup-same : (p r : DiskPath) (s : Disk) → (p == r) ≡ true → lookup r (erase p s) ≡ none
lookup-same p r s hit = lookup-erase p r s ∙ rw hit

lookup-other : (p r : DiskPath) (s : Disk) → (p == r) ≡ false → lookup r (erase p s) ≡ lookup r s
lookup-other p r s miss = lookup-erase p r s ∙ rw miss

is_there-erase :
    (p r : DiskPath) (s : Disk)
    → is_there (lookup p s) ≡ false
    → is_there (lookup r (erase p s)) ≡ is_there (lookup r s)
is_there-erase p r s gone = elim (Bool-cases (p == r)) [
  | inr miss ↦ ap is_there (lookup-other p r s miss)
  | inl hit ↦
      ap is_there (lookup-same p r s hit)
      ∙ sym (subst (λ q. is_there (lookup q s) ≡ false) (key_path p r hit) gone)
]

leads-agree :
    (o : Option Node) (d e : Disk)
    → ((r : DiskPath) → is_there (lookup r d) ≡ is_there (lookup r e))
    → leads o d ≡ leads o e
leads-agree none d e h = refl
leads-agree (some (file blob)) d e h = refl
leads-agree (some directory) d e h = refl
leads-agree (some (link r)) d e h = h r

exists-erase :
    (p q : DiskPath) (s : Disk)
    → disk.exists p s ≡ false
    → disk.exists q (erase p s) ≡ disk.exists q s
unfolding disk
exists-erase p q s gone = elim (Bool-cases (p == q)) [
  | inl hit ↦
      ap (λ o. leads o (erase p s)) (lookup-same p q s hit)
      ∙ sym (subst (λ r. leads (lookup r s) s ≡ false) (key_path p q hit) gone)
  | inr miss ↦
      ap (λ o. leads o (erase p s)) (lookup-other p q s miss)
      ∙ leads-agree (lookup q s) (erase p s) s
          (λ r. is_there-erase p r s (leads-is_there (lookup p s) s gone))
]

same_item-key : (n z : Name) → same_item bytes_order n z ≡ (n == z)
same_item-key n z = elim (Bool-cases (n == z)) [
  | inl hit ↦
      let equal : n ≡ z = (list_same_iff n z).0 hit in
      let same = subst (λ w. same_item bytes_order n w ≡ true) equal (same_refl bytes_order n) in
      ground arith
  | inr miss ↦ elim (Bool-cases (same_item bytes_order n z)) [
    | inr other ↦ ground arith
    | inl same ↦
        let equal = same-path bytes_order n z same in
        let hit = subst (λ w. (n == w) ≡ true) equal (==_refl n) in absurd (ground arith)
  ]
]

member-names :
    (d : DiskPath) (z : Name) (s : Disk) → member bytes_order z (names d s) ≡ contains (z ∷ d) s
unfolding lookup
member-names d z [] = refl
member-names d z (([], node) ∷ s) = member-names d z s
member-names d z ((n ∷ q, node) ∷ s) =
    let item = same_item-key n z in ground (arith, member-names d z s)

contains-erase :
    (p r : DiskPath) (s : Disk) → (p == r) ≡ false → contains r (erase p s) ≡ contains r s
contains-erase p r s miss = let other = lookup-other p r s miss in ground arith

listed : DiskPath → Name → Disk → Bool
listed d z s = is_dir (lookup d s) && contains (z ∷ d) s && disk.exists (z ∷ d) s

tagged-listed : (d : DiskPath) (z : Name) (s : Disk) → tagged disk d z s ≡ listed d z s
unfolding disk listed
tagged-listed d z s = elim (Bool-cases (is_dir (lookup d s))) [
  | inr other ↦ rw (other, tagged, listed) refl
  | inl dir ↦ let m = member-names d z s in ground arith
]

leads-is_dir : (o : Option Node) (d : Disk) → leads o d ≡ false → is_dir o ≡ false
leads-is_dir none d e = refl
leads-is_dir (some (file blob)) d e = refl
leads-is_dir (some directory) d e = e
leads-is_dir (some (link q)) d e = refl

is_dir-erase :
    (p r : DiskPath) (s : Disk)
    → is_dir (lookup p s) ≡ false
    → is_dir (lookup r (erase p s)) ≡ is_dir (lookup r s)
is_dir-erase p r s gone = elim (Bool-cases (p == r)) [
  | inr miss ↦ ap is_dir (lookup-other p r s miss)
  | inl hit ↦
      ap is_dir (lookup-same p r s hit)
      ∙ sym (subst (λ q. is_dir (lookup q s) ≡ false) (key_path p r hit) gone)
]

listed-erase :
    (p d : DiskPath) (z : Name) (s : Disk)
    → disk.exists p s ≡ false
    → listed d z (erase p s) ≡ listed d z s
unfolding disk listed
listed-erase p d z s gone =
    let dir = is_dir-erase p d s (leads-is_dir (lookup p s) s gone) in
    let alive = exists-erase p (z ∷ d) s gone in
    elim (Bool-cases (p == z ∷ d)) [
      | inl hit ↦
          let dead = subst (λ r. disk.exists r s ≡ false) (key_path p (z ∷ d) hit) gone in
          ground arith
      | inr miss ↦ let same = contains-erase p (z ∷ d) s miss in ground arith
    ]

purged :
    (p d : DiskPath) (z : Name) (s t : Disk)
    → disk.exists p s ≡ false
    → disk.remove p s ≡ some t
    → (disk.exists d t ≡ disk.exists d s) × (tagged disk d z t ≡ tagged disk d z s)
purged p d z s t gone e =
    let (there, same) = lookup-erased p s t e in
    let erased = exists-erase p d s gone in
    let tags : tagged disk d z (erase p s) ≡ tagged disk d z s =
      tagged-listed d z (erase p s) ∙ listed-erase p d z s gone ∙ sym (tagged-listed d z s) in
    (
      subst (λ u. disk.exists d u ≡ disk.exists d s) same erased,
      subst (λ u. tagged disk d z u ≡ tagged disk d z s) same tags,
    )

pub disk_links : LinkLaws disk
disk_links = record { absent = absent; purged = purged }
