-- ===== src/Storage.antt =====
-- files_t of src/storage/files.cpp, the storage of objects in a directory. The file system, which is
-- that of boost::filesystem and the standard streams, is an interface; `F` are its states and `P` its
-- paths. The loop of the object runs the requests one by one.
pub mod Objects
pub mod Order
pub mod Find
pub mod Disk
mod Tests
use cocaine_core.Base.{
  [], ◌∷◌, some, ◌∷◌, inl, none, inr, ℕ, if◌then◌else◌, List, Bool, ◌⊎◌, Option, String,
}

-- A file name: its bytes.
abbrev pub Name : Type 0
Name = List ℕ

-- What the code asks of the file system. `open_trunc` opens a file for writing and empties it, or
-- fails; `write` writes to it, and its Boolean, which the code does not look at, is whether all was
-- written. Functions into Option fail where boost::filesystem throws.
pub record FileSystem (F P : Type 0) : Type 0 where
  pub join : P → Name → P
  pub exists : P → F → Bool
  pub is_directory : P → F → Bool
  pub is_symlink : P → F → Bool
  pub create_directories : P → F → Option F
  pub create_directory : P → F → Option F
  pub create_symlink : P → P → F → Option F
  pub open_trunc : P → F → Option F
  pub write : P → List ℕ → F → F × Bool
  pub read : P → F → Option (List ℕ)
  pub remove : P → F → Option F
  pub list : P → F → Option (List Name)

-- `failed` is an exception of boost::filesystem.
pub data Error : Type 0 where
  no_such_file_or_directory permission_denied not_a_directory failed : Error

module _ {F P : Type 0} (fs : FileSystem F P) (parent : P) where
  abbrev pub object_path : Name → Name → P
  object_path collection key = fs.join (fs.join parent collection) key

  -- read_sync
  unfoldable pub read_sync : Name → Name → F → Error ⊎ List ℕ
  read_sync collection key s =
      if fs.exists (object_path collection key) s
      then (elim (fs.read (object_path collection key) s) [
        | none ↦ inl permission_denied
        | some blob ↦ inr blob
      ])
      else inl no_such_file_or_directory

  -- A directory that is made where there is nothing; the function makes it.
  unfoldable pub ensure_directory : (P → F → Option F) → P → F → Error ⊎ F
  ensure_directory create p s =
      if fs.exists p s
      then (if fs.is_directory p s then inr s else inl not_a_directory)
      else (elim (create p s) [ none ↦ inl failed | some s' ↦ inr s' ])

  -- The body of the loop of write_sync over the tags, after the directory of the tag is there.
  unfoldable pub link_tag : P → P → F → Error ⊎ F
  link_tag file_path link s =
      if fs.is_symlink link s
      then inr s
      else (elim (fs.create_symlink file_path link s) [ none ↦ inl failed | some s' ↦ inr s' ])

  -- The loop of write_sync over the tags; the state is that of the file system also in an error.
  unfoldable pub write_tags : P → Name → P → List Name → F → F × Option Error
  write_tags store_path key file_path [] s = (s, none)
  write_tags store_path key file_path (tag ∷ tags) s =
      let tag_path = fs.join store_path tag in
      elim (ensure_directory fs.create_directory tag_path s) [
        | inl e ↦ (s, some e)
        | inr s' ↦ elim (link_tag file_path (fs.join tag_path key) s') [
          | inl e ↦ (s', some e)
          | inr s'' ↦ write_tags store_path key file_path tags s''
        ]
      ]

  -- What write_sync does once the stream is open; where a tag fails, the stream is closed unwritten.
  unfoldable pub write_open : P → Name → P → List ℕ → List Name → F → F × Option Error
  write_open store_path key file_path blob tags s =
      let (s', e) = write_tags store_path key file_path tags s in
      elim e [ none ↦ ((fs.write file_path blob s').0, none) | some e' ↦ (s', some e') ]

  -- write_sync
  unfoldable pub write_sync : Name → Name → List ℕ → List Name → F → F × Option Error
  write_sync collection key blob tags s =
      let store_path = fs.join parent collection in
      elim (ensure_directory fs.create_directories store_path s) [
        | inl e ↦ (s, some e)
        | inr s' ↦ elim (fs.open_trunc (fs.join store_path key) s') [
          | none ↦ (s', some permission_denied)
          | some s'' ↦ write_open store_path key (fs.join store_path key) blob tags s''
        ]
      ]

  -- remove_sync
  unfoldable pub remove_sync : Name → Name → F → F × Option Error
  remove_sync collection key s =
      let file_path = object_path collection key in
      if fs.exists file_path s
      then (elim (fs.remove file_path s) [ none ↦ (s, some failed) | some s' ↦ (s', none) ])
      else (s, none)
