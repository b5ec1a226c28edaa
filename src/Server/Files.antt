-- ===== src/Server/Files.antt =====
-- The handlers of cloudmer_SRV.py for stars and for the trash.
pub mod Laws
use cloudmer_cloud_storage.Prelude.{
  String, ◌<>◌, Option, none, some, List, [], ◌∷◌, Bytes, lookup, insert, remove,
}
use cloudmer_cloud_storage.Server.{Files, path_join, uploads_dir, trash_dir, starred_dir}

-- `shutil.move(src, dest)` of a file with these contents to another path, whose folder is there.
abbrev pub move : String → String → Bytes → Files → Files
move src dest bytes files = insert dest bytes (remove src files)

-- `shutil.copy2(src, dest)`, if there is a file; the folder of `dest` is there.
abbrev pub copy_if_there : String → Option Bytes → Files → Files × String
copy_if_there dest none files = (files, "STAR~FAIL~file not found")
copy_if_there dest (some bytes) files = (insert dest bytes files, "STAR~OK~1")

-- `starred` is what the folder of stars has under the name.
abbrev pub toggle : String → String → Option Bytes → Files → Files × String
toggle src dest none files = copy_if_there dest (lookup src files) files
toggle src dest (some _) files = (remove dest files, "STAR~OK~0")

unfoldable pub handle_star : List String → Files → Files × String
unfolding lookup path_join
handle_star [] files = (files, "STAR~FAIL~missing filename")
handle_star (_ ∷ []) files = (files, "STAR~FAIL~missing filename")
handle_star (_ ∷ filename ∷ _) files =
    toggle (path_join uploads_dir filename) (path_join starred_dir filename)
      (lookup (path_join starred_dir filename) files) files

abbrev pub delete_found : String → Option Bytes → Files → Files × String
delete_found filename none files = (files, "DELT~FAIL~file not found")
delete_found filename (some bytes) files = (
  remove (path_join starred_dir filename)
      (move (path_join uploads_dir filename) (path_join trash_dir filename) bytes files),
  "DELT~OK~" <> filename,
)

unfoldable pub handle_delete : List String → Files → Files × String
unfolding lookup path_join
handle_delete [] files = (files, "DELT~FAIL~missing filename")
handle_delete (_ ∷ []) files = (files, "DELT~FAIL~missing filename")
handle_delete (_ ∷ filename ∷ _) files =
    delete_found filename (lookup (path_join uploads_dir filename) files) files

abbrev pub restore_found : String → Option Bytes → Files → Files × String
restore_found filename none files = (files, "RDLT~FAIL~file not in trash")
restore_found filename (some bytes) files = (
  move (path_join trash_dir filename) (path_join uploads_dir filename) bytes files,
  "RDLT~OK~" <> filename,
)

unfoldable pub handle_restore : List String → Files → Files × String
unfolding lookup path_join
handle_restore [] files = (files, "RDLT~FAIL~missing filename")
handle_restore (_ ∷ []) files = (files, "RDLT~FAIL~missing filename")
handle_restore (_ ∷ filename ∷ _) files =
    restore_found filename (lookup (path_join trash_dir filename) files) files

abbrev pub purge_found : String → Option Bytes → Files → Files × String
purge_found filename none files = (files, "PRGE~FAIL~file not in trash")
purge_found filename (some _) files =
    (remove (path_join trash_dir filename) files, "PRGE~OK~" <> filename)

unfoldable pub handle_purge : List String → Files → Files × String
unfolding lookup path_join
handle_purge [] files = (files, "PRGE~FAIL~missing filename")
handle_purge (_ ∷ []) files = (files, "PRGE~FAIL~missing filename")
handle_purge (_ ∷ filename ∷ _) files =
    purge_found filename (lookup (path_join trash_dir filename) files) files
