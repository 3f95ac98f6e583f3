-- ===== src/Storage/Disk.antt =====
-- A file system in memory, on which the statements about src/storage/files.cpp are run. A path is a
-- list of names, innermost first; a link leads to what is at its path unless that is a link.
pub mod Laws
use cocaine_core.Base.{
  ℕ, Bool, true, false, ◌||◌, Option, none, some, List, [], ◌∷◌, if◌then◌else◌, ◌==◌, nat_key,
  string_key, list_key,
}
use cocaine_core.Base.Map.{Map, lookup, contains, insert, assign, erase}
use cocaine_core.Storage.{FileSystem, Name}

abbrev pub DiskPath : Type 0
DiskPath = List Name

pub data Node : Type 0 where
  file : List ℕ → Node
  directory : Node
  link : DiskPath → Node

abbrev pub Disk : Type 0
Disk = Map DiskPath Node

abbrev pub is_there : Option Node → Bool
is_there none = false
is_there (some (file blob)) = true
is_there (some directory) = true
is_there (some (link p)) = false

abbrev pub leads : Option Node → Disk → Bool
leads none d = false
leads (some (file blob)) d = true
leads (some directory) d = true
leads (some (link p)) d = is_there (lookup p d)

abbrev pub names : DiskPath → Disk → List Name
names p [] = []
names p (([], node) ∷ d) = names p d
names p ((n ∷ q, node) ∷ d) = let rest = names p d in if q == p then n ∷ rest else rest

abbrev pub contents : Option Node → Option (List ℕ)
contents none = none
contents (some (file blob)) = some blob
contents (some directory) = none
contents (some (link p)) = none

abbrev pub is_dir : Option Node → Bool
is_dir none = false
is_dir (some (file blob)) = false
is_dir (some directory) = true
is_dir (some (link p)) = false

abbrev pub is_link : Option Node → Bool
is_link none = false
is_link (some (file blob)) = false
is_link (some directory) = false
is_link (some (link p)) = true

unfoldable pub disk : FileSystem Disk DiskPath
unfolding lookup insert assign erase
disk = record {
  join = λ p n. n ∷ p;
  exists = λ p d. leads (lookup p d) d;
  is_directory = λ p d. is_dir (lookup p d);
  is_symlink = λ p d. is_link (lookup p d);
  create_directories = λ p d. if contains p d then none else some (insert p directory d);
  create_directory = λ p d. if contains p d then none else some (insert p directory d);
  create_symlink = λ q p d. if contains p d then none else some (insert p (link q) d);
  open_trunc = λ p d.
      if is_dir (lookup p d) || is_link (lookup p d) then none else some (assign p (file []) d);
  write = λ p blob d. (assign p (file blob) d, true);
  read = λ p d. contents (lookup p d);
  remove = λ p d. if contains p d then some (erase p d) else none;
  list = λ p d. if is_dir (lookup p d) then some (names p d) else none;
}
