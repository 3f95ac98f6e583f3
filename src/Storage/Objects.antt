-- ===== src/Storage/Objects.antt =====
-- Writing, reading and removing an object with src/storage/files.cpp.
use cocaine_core.Storage.{
  Name, no_such_file_or_directory, remove_sync, write_sync, Error, object_path, write_open,
  read_sync, write_tags, link_tag, ensure_directory, FileSystem,
}
use cocaine_core.Base.{
  Sum-cases, ℕ, ◌≡◌, subst, inl, inr, true, false, none, some, List, [], ◌∷◌, arith, Bool-cases,
  Option-cases, nat_key, string_key, list_key,
}

-- There is a file at the path that can be read and has the contents.
abbrev pub Contains : {F P : Type 0} → FileSystem F P → P → List ℕ → F → Type 0
Contains fs p blob s = (fs.exists p s ≡ true) × (fs.read p s ≡ some blob)

-- What the code relies on: a file that was opened is empty; directories and links that are made where
-- nothing was leave the files as they are; an empty file that is written completely has what was
-- written, and nothing is left of a file that was removed.
pub record FileLaws {F P : Type 0} (fs : FileSystem F P) : Type 0 where
  pub opened : (p : P) (s t : F) → fs.open_trunc p s ≡ some t → Contains fs p [] t
  pub made_directory :
      (p q : P) (blob : List ℕ) (s t : F)
      → fs.create_directory q s ≡ some t
      → Contains fs p blob s
      → Contains fs p blob t
  pub made_link :
      (p q r : P) (blob : List ℕ) (s t : F)
      → fs.create_symlink q r s ≡ some t
      → Contains fs p blob s
      → Contains fs p blob t
  pub written :
      (p : P) (blob : List ℕ) (s : F)
      → Contains fs p [] s
      → (fs.write p blob s).1 ≡ true
      → Contains fs p blob (fs.write p blob s).0
  pub removed : (p : P) (s t : F) → fs.remove p s ≡ some t → fs.exists p t ≡ false

module _ {F P : Type 0} (fs : FileSystem F P) (laws : FileLaws fs) (parent : P) where
  ensure_directory-Contains :
      (p q : P) (blob : List ℕ) (s t : F)
      → ensure_directory fs parent fs.create_directory q s ≡ inr t
      → Contains fs p blob s
      → Contains fs p blob t
  unfolding ensure_directory
  ensure_directory-Contains p q blob s t e h = elim (Bool-cases (fs.exists q s)) [
    | inl there ↦ elim (Bool-cases (fs.is_directory q s)) [
      | inl directory ↦ let same : s ≡ t = ground arith in subst (Contains fs p blob) same h
      | inr other ↦ absurd (ground arith)
    ]
    | inr missing ↦ elim (Option-cases (fs.create_directory q s)) [
      | inl fails ↦ absurd (ground arith)
      | inr (u, made) ↦
          let same : u ≡ t = ground arith in
          subst (Contains fs p blob) same (laws.made_directory p q blob s u made h)
    ]
  ]

  link_tag-Contains :
      (p q r : P) (blob : List ℕ) (s t : F)
      → link_tag fs parent q r s ≡ inr t
      → Contains fs p blob s
      → Contains fs p blob t
  unfolding link_tag
  link_tag-Contains p q r blob s t e h = elim (Bool-cases (fs.is_symlink r s)) [
    | inl there ↦ let same : s ≡ t = ground arith in subst (Contains fs p blob) same h
    | inr missing ↦ elim (Option-cases (fs.create_symlink q r s)) [
      | inl fails ↦ absurd (ground arith)
      | inr (u, made) ↦
          let same : u ≡ t = ground arith in
          subst (Contains fs p blob) same (laws.made_link p q r blob s u made h)
    ]
  ]

  -- The tags leave every file as it is, whether they fail or not.
  write_tags-Contains :
      (p store_path file_path : P) (key : Name) (tags : List Name) (blob : List ℕ) (s : F)
      → Contains fs p blob s
      → Contains fs p blob (write_tags fs parent store_path key file_path tags s).0
  unfolding write_tags
  write_tags-Contains p store_path file_path key [] blob s h = h
  write_tags-Contains p store_path file_path key (tag ∷ tags) blob s h =
      let tag_path = fs.join store_path tag in
      elim (Sum-cases (ensure_directory fs parent fs.create_directory tag_path s)) [
        | inl (e, fails) ↦ rw (fails, write_tags) h
        | inr (t, ready) ↦
            let kept = ensure_directory-Contains p tag_path blob s t ready h in
            elim (Sum-cases (link_tag fs parent file_path (fs.join tag_path key) t)) [
              | inl (e, fails) ↦ rw (ready, fails, write_tags) kept
              | inr (u, linked) ↦
                  rw (ready, linked, write_tags)
                    (write_tags-Contains p store_path file_path key tags blob u
                      (link_tag-Contains p file_path (fs.join tag_path key) blob t u linked kept))
            ]
      ]

  read_sync-Contains :
      (collection key : Name) (blob : List ℕ) (s : F)
      → Contains fs (object_path fs parent collection key) blob s
      → read_sync fs parent collection key s ≡ inr blob
  unfolding read_sync
  read_sync-Contains collection key blob s (there, contents) = ground arith

  open_written :
      (store_path file_path : P) (key : Name) (tags : List Name) (blob : List ℕ) (s t : F)
      → ((p : P) (b : List ℕ) (u : F) → (fs.write p b u).1 ≡ true)
      → Contains fs file_path [] s
      → write_open fs parent store_path key file_path blob tags s ≡ (t, none)
      → Contains fs file_path blob t
  unfolding write_open
  open_written store_path file_path key tags blob s t full empty done =
      let u = (write_tags fs parent store_path key file_path tags s).0 in
      elim (Option-cases (write_tags fs parent store_path key file_path tags s).1) [
        | inr (e, fails) ↦ absurd (ground arith)
        | inl linked ↦
            let same : (fs.write file_path blob u).0 ≡ t = ground arith in
            subst (Contains fs file_path blob) same (
              laws.written file_path blob u
                (write_tags-Contains file_path store_path file_path key tags [] s empty)
                (full file_path blob u))
      ]

  open_failed :
      (store_path file_path : P) (key : Name) (tags : List Name) (blob : List ℕ) (s t : F)
      (e : Error)
      → Contains fs file_path [] s
      → write_open fs parent store_path key file_path blob tags s ≡ (t, some e)
      → Contains fs file_path [] t
  unfolding write_open
  open_failed store_path file_path key tags blob s t e empty done =
      let u = (write_tags fs parent store_path key file_path tags s).0 in
      elim (Option-cases (write_tags fs parent store_path key file_path tags s).1) [
        | inl linked ↦ absurd (ground arith)
        | inr (e', fails) ↦
            let same : u ≡ t = ground arith in
            subst (Contains fs file_path []) same
              (write_tags-Contains file_path store_path file_path key tags [] s empty)
      ]

-- On a file system with room for what is written, an object that write_sync stored without an
-- exception, whether it was there before or not and whatever its tags, is read back by read_sync.
pub write_sync-read_sync :
    {F P : Type 0} (fs : FileSystem F P) (laws : FileLaws fs) (parent : P) (collection key : Name)
    (blob : List ℕ) (tags : List Name) (s t : F)
    → ((p : P) (b : List ℕ) (u : F) → (fs.write p b u).1 ≡ true)
    → write_sync fs parent collection key blob tags s ≡ (t, none)
    → read_sync fs parent collection key t ≡ inr blob
unfolding write_sync
write_sync-read_sync fs laws parent collection key blob tags s t full done =
    let store_path = fs.join parent collection in
    elim (Sum-cases (ensure_directory fs parent fs.create_directories store_path s)) [
      | inl (e, fails) ↦ absurd (ground arith)
      | inr (u, ready) ↦ elim (Option-cases (fs.open_trunc (fs.join store_path key) u)) [
        | inl denied ↦ absurd (ground arith)
        | inr (v, opens) ↦ read_sync-Contains fs laws parent collection key blob t (
            open_written fs laws parent store_path (fs.join store_path key) key tags blob v t full
              (laws.opened (fs.join store_path key) u v opens) (ground arith))
      ]
    ]

-- Where the collection is a directory and the file of an object can be opened, write_sync with a tag
-- that fails throws with the object lost: read_sync gives an empty object, whatever was stored
-- before.
pub write_sync-truncates :
    {F P : Type 0} (fs : FileSystem F P) (laws : FileLaws fs) (parent : P) (collection key : Name)
    (blob : List ℕ) (tags : List Name) (s u t : F) (e : Error)
    → fs.exists (fs.join parent collection) s ≡ true
    → fs.is_directory (fs.join parent collection) s ≡ true
    → fs.open_trunc (object_path fs parent collection key) s ≡ some u
    → write_sync fs parent collection key blob tags s ≡ (t, some e)
    → read_sync fs parent collection key t ≡ inr []
unfolding write_sync ensure_directory
write_sync-truncates fs laws parent collection key blob tags s u t e there directory opens done =
    let store_path = fs.join parent collection in
    read_sync-Contains fs laws parent collection key [] t (
      open_failed fs laws parent store_path (fs.join store_path key) key tags blob u t e
        (laws.opened (fs.join store_path key) s u opens) (ground arith))

-- After remove_sync has returned without an exception, read_sync finds no such file.
pub remove_sync-read_sync :
    {F P : Type 0} (fs : FileSystem F P) (laws : FileLaws fs) (parent : P) (collection key : Name)
    (s t : F)
    → remove_sync fs parent collection key s ≡ (t, none)
    → read_sync fs parent collection key t ≡ inl no_such_file_or_directory
unfolding remove_sync read_sync
remove_sync-read_sync fs laws parent collection key s t done =
    let file_path = object_path fs parent collection key in
    elim (Bool-cases (fs.exists file_path s)) [
      | inr missing ↦ ground arith
      | inl there ↦ elim (Option-cases (fs.remove file_path s)) [
        | inl fails ↦ absurd (ground arith)
        | inr (u, gone) ↦ let absent = laws.removed file_path s u gone in ground arith
      ]
    ]
