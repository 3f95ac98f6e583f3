-- ===== src/Storage/Tests.antt =====
-- Runs of the storage of src/storage/files.cpp on the file system in memory.
use cocaine_core.Base.Map.{erase, assign, insert, lookup}
use cocaine_core.Base.{all, some, none, refl, true, inr, ℕ, ◌≡◌, List, ◌∷◌, codes, []}
use cocaine_core.Storage.{
  link_tag, ensure_directory, write_open, write_tags, link_tag, write_tags, write_open,
  ensure_directory, Name, read_sync, write_sync, not_a_directory,
}
use cocaine_core.Storage.Find.{
  collect, entries, intersect_all, split_last, accumulate, find_sync, tagged,
}
use cocaine_core.Storage.Find.Found.{find_sync-tagged}
use cocaine_core.Storage.Objects.{write_sync-read_sync, write_sync-truncates}
use cocaine_core.Storage.Order.{
  sort, insert_sorted, set_intersection, meet_from, less_bytes, bytes_order, Sorted, member,
}
use cocaine_core.Storage.Disk.{Disk, DiskPath, disk, file, directory, link}
use cocaine_core.Storage.Disk.Laws.{disk_files, disk_links}

abbrev root : DiskPath
root = []

abbrev manifests : Name
manifests = codes "manifests"

abbrev app : Name
app = codes "app"

abbrev chat : Name
chat = codes "chat"

abbrev apps_tag : Name
apps_tag = codes "apps"

abbrev tools_tag : Name
tools_tag = codes "tools"

abbrev empty_disk : Disk
empty_disk = []

abbrev written_disk : Disk
written_disk =
    ((app ∷ manifests ∷ [], file (1 ∷ 2 ∷ []))
      ∷ (app ∷ apps_tag ∷ manifests ∷ [], link (app ∷ manifests ∷ []))
      ∷ (apps_tag ∷ manifests ∷ [], directory)
      ∷ (manifests ∷ [], directory)
      ∷ [])

write-empty :
    write_sync disk root manifests app (1 ∷ 2 ∷ []) (apps_tag ∷ []) empty_disk
    ≡ (written_disk, none)
unfolding write_sync disk lookup insert assign erase ensure_directory write_open write_tags link_tag
write-empty = refl

full_disk : (p : DiskPath) (b : List ℕ) (u : Disk) → (disk.write p b u).1 ≡ true
unfolding disk
full_disk p b u = refl

write_sync-read_sync_example : read_sync disk root manifests app written_disk ≡ inr (1 ∷ 2 ∷ [])
write_sync-read_sync_example =
    write_sync-read_sync disk disk_files root manifests app (1 ∷ 2 ∷ []) (apps_tag ∷ []) empty_disk
      written_disk full_disk write-empty

abbrev blocked_disk : Disk
blocked_disk = (tools_tag ∷ manifests ∷ [], file []) ∷ written_disk

abbrev truncated_disk : Disk
truncated_disk =
    (app ∷ manifests ∷ [], file [])
    ∷ (tools_tag ∷ manifests ∷ [], file [])
    ∷ (app ∷ apps_tag ∷ manifests ∷ [], link (app ∷ manifests ∷ []))
    ∷ (apps_tag ∷ manifests ∷ [], directory)
    ∷ (manifests ∷ [], directory)
    ∷ []

write-blocked :
    write_sync disk root manifests app (3 ∷ []) (apps_tag ∷ tools_tag ∷ []) blocked_disk
    ≡ (truncated_disk, some not_a_directory)
unfolding write_sync disk lookup insert assign erase ensure_directory write_open write_tags link_tag
write-blocked = refl

blocked-opens :
    (disk.exists (manifests ∷ []) blocked_disk ≡ true)
    × (disk.is_directory (manifests ∷ []) blocked_disk ≡ true)
    × (disk.open_trunc (app ∷ manifests ∷ []) blocked_disk ≡ some truncated_disk)
unfolding disk lookup assign erase
blocked-opens = (refl, refl, refl)

write_sync-truncates_example : read_sync disk root manifests app truncated_disk ≡ inr []
unfolding disk
write_sync-truncates_example =
    write_sync-truncates disk disk_files root manifests app (3 ∷ []) (apps_tag ∷ tools_tag ∷ [])
      blocked_disk truncated_disk truncated_disk not_a_directory blocked-opens.0 blocked-opens.1
      blocked-opens.2 write-blocked

-- Two objects with two tags, one link of which leads nowhere.
abbrev tagged_disk : Disk
tagged_disk =
    (app ∷ manifests ∷ [], file (1 ∷ []))
    ∷ (chat ∷ tools_tag ∷ manifests ∷ [], link (chat ∷ manifests ∷ []))
    ∷ (app ∷ tools_tag ∷ manifests ∷ [], link (app ∷ manifests ∷ []))
    ∷ (tools_tag ∷ manifests ∷ [], directory)
    ∷ (app ∷ apps_tag ∷ manifests ∷ [], link (app ∷ manifests ∷ []))
    ∷ (apps_tag ∷ manifests ∷ [], directory)
    ∷ (manifests ∷ [], directory)
    ∷ []

abbrev purged_disk : Disk
purged_disk =
    (app ∷ manifests ∷ [], file (1 ∷ []))
    ∷ (app ∷ tools_tag ∷ manifests ∷ [], link (app ∷ manifests ∷ []))
    ∷ (tools_tag ∷ manifests ∷ [], directory)
    ∷ (app ∷ apps_tag ∷ manifests ∷ [], link (app ∷ manifests ∷ []))
    ∷ (apps_tag ∷ manifests ∷ [], directory)
    ∷ (manifests ∷ [], directory)
    ∷ []

find-both :
    (disk.exists (manifests ∷ []) tagged_disk ≡ true)
    × (find_sync disk root manifests (apps_tag ∷ tools_tag ∷ []) tagged_disk
        ≡ some (purged_disk, inr (app ∷ [])))
unfolding find_sync collect entries intersect_all split_last accumulate sort insert_sorted
    set_intersection meet_from less_bytes disk lookup erase
find-both = (refl, refl)

find_sync-tagged_example :
    Sorted bytes_order (app ∷ [])
    × ((z : Name)
        → member bytes_order z (app ∷ [])
          ≡ all (λ g. tagged disk (g ∷ manifests ∷ []) z tagged_disk) (apps_tag ∷ tools_tag ∷ []))
unfolding disk
find_sync-tagged_example =
    find_sync-tagged disk disk_links root manifests apps_tag (tools_tag ∷ []) tagged_disk
      purged_disk (app ∷ []) find-both.0 find-both.1
