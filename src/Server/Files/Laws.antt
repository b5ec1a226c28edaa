-- ===== src/Server/Files/Laws.antt =====
-- What stars, deletion and restoring do to the files, by path.
use cloudmer_cloud_storage.Prelude.{
  ◌+◌, ◌≡◌, ◌≢◌, refl, ap, ◌∙◌, sym, false, String, ◌<>◌, none, some, List, [], ◌∷◌, Bytes, length,
  length-append, str_eq, eq_iff, apart-str_eq, Bool-cases, inl, inr, lookup, insert, remove,
  lookup-insert, lookup-insert_other, lookup-remove, lookup-remove_other, arith,
}
use cloudmer_cloud_storage.Text.{begins_with, codes}
use cloudmer_cloud_storage.Text.Split.{codes-append, Lacks}
use cloudmer_cloud_storage.Server.{Files, path_join, uploads_dir, trash_dir, starred_dir}
use cloudmer_cloud_storage.Server.Files.{move, handle_star, handle_delete, handle_restore}

length-path :
    (folder name : String)
    → length (codes (folder <> ("/" <> name))) ≡ length (codes folder) + (1 + length (codes name))
length-path folder name = omega (
  arith,
  ap length (codes-append folder ("/" <> name)),
  length-append (codes folder) (codes ("/" <> name)),
  ap length (codes-append "/" name),
)

pub path_join_apart :
    (a b name : String)
    → begins_with name "/" ≡ false
    → length (codes a) ≢ length (codes b)
    → path_join a name ≢ path_join b name
unfolding path_join
path_join_apart a b name relative apart = rw relative (λ e.
    let same = ap (λ s. length (codes s)) e in
    let left = length-path a name in let right = length-path b name in apart (omega arith))

-- A file that was moved: it is at the destination, not at the source, and the others stay.
lookup-move :
    (src dest : String) (bytes : Bytes) (files : Files)
    → lookup dest (move src dest bytes files) ≡ some bytes
lookup-move src dest bytes files = lookup-insert dest bytes (remove src files)

lookup-move_source :
    (src dest : String) (bytes : Bytes) (files : Files)
    → src ≢ dest
    → lookup src (move src dest bytes files) ≡ none
lookup-move_source src dest bytes files apart =
    lookup-insert_other dest src bytes (remove src files) apart ∙ lookup-remove src files

lookup-move_other :
    (src dest path : String) (bytes : Bytes) (files : Files)
    → path ≢ src
    → path ≢ dest
    → lookup path (move src dest bytes files) ≡ lookup path files
lookup-move_other src dest path bytes files p q =
    lookup-insert_other dest path bytes (remove src files) q ∙ lookup-remove_other src path files p

handle_delete_found :
    (code name : String) (rest : List String) (bytes : Bytes) (files : Files)
    → lookup (path_join uploads_dir name) files ≡ some bytes
    → handle_delete (code ∷ name ∷ rest) files ≡ (
      remove
          (path_join starred_dir name)
          (move (path_join uploads_dir name) (path_join trash_dir name) bytes files),
      "DELT~OK~" <> name,
    )
unfolding handle_delete
handle_delete_found code name rest bytes files here = rw here refl

handle_restore_found :
    (code name : String) (rest : List String) (bytes : Bytes) (files : Files)
    → lookup (path_join trash_dir name) files ≡ some bytes
    → handle_restore (code ∷ name ∷ rest) files ≡ (
      move (path_join trash_dir name) (path_join uploads_dir name) bytes files,
      "RDLT~OK~" <> name,
    )
unfolding handle_restore
handle_restore_found code name rest bytes files here = rw here refl

-- A name of an entry of a folder: it has no slash, it is not empty, and it is not that of the
-- folder, of its parent, or of the folders of the trash and the stars.
pub record IsEntryName (name : String) : Type 0 where
  pub one_part : Lacks b'/' name
  pub filled : name ≢ ""
  pub not_here : name ≢ "."
  pub not_parent : name ≢ ".."
  pub not_trash : name ≢ ".trash"
  pub not_starred : name ≢ ".starred"

relative_name : (name : String) → Lacks b'/' name → begins_with name "/" ≡ false
unfolding begins_with
relative_name String.[] one_part = refl
relative_name (String.◌∷◌ c s) (apart, _) = ground arith

-- A deletion and then a restoring of an uploaded file, whose name is that of an entry of a folder:
-- both report success, the file is back with its contents, it is neither in the trash nor starred
-- any more, and no other path has changed.
pub handle_restore-handle_delete :
    (name : String) (bytes : Bytes) (files : Files)
    → IsEntryName name
    → lookup (path_join uploads_dir name) files ≡ some bytes
    → (gone back : Files) × (handle_delete ("DELT" ∷ name ∷ []) files ≡ (gone, "DELT~OK~" <> name))
      × (lookup (path_join uploads_dir name) gone ≡ none)
      × (handle_restore ("RDLT" ∷ name ∷ []) gone ≡ (back, "RDLT~OK~" <> name))
      × (lookup (path_join uploads_dir name) back ≡ some bytes)
      × (lookup (path_join trash_dir name) back ≡ none)
      × (lookup (path_join starred_dir name) back ≡ none)
      × ((path : String)
          → path ≢ path_join uploads_dir name
          → path ≢ path_join trash_dir name
          → path ≢ path_join starred_dir name
          → lookup path back ≡ lookup path files)
handle_restore-handle_delete name bytes files entry here =
    let relative = relative_name name entry.one_part in
    let u = path_join uploads_dir name in
    let t = path_join trash_dir name in
    let s = path_join starred_dir name in
    let ut : u ≢ t = path_join_apart uploads_dir trash_dir name relative (λ e. omega arith) in
    let us : u ≢ s = path_join_apart uploads_dir starred_dir name relative (λ e. omega arith) in
    let ts : t ≢ s = path_join_apart trash_dir starred_dir name relative (λ e. omega arith) in
    let moved = move u t bytes files in
    let gone = remove s moved in
    let in_trash : lookup t gone ≡ some bytes =
      lookup-remove_other s t moved ts ∙ lookup-move u t bytes files in
    (
      gone,
      move t u bytes gone,
      handle_delete_found "DELT" name [] bytes files here,
      lookup-remove_other s u moved us ∙ lookup-move_source u t bytes files ut,
      handle_restore_found "RDLT" name [] bytes gone in_trash,
      lookup-move t u bytes gone,
      lookup-move_source t u bytes gone (λ e. ut (sym e)),
      lookup-move_other t u s bytes gone (λ e. ts (sym e)) (λ e. us (sym e))
          ∙ lookup-remove s moved,
      λ path p q r.
          lookup-move_other t u path bytes gone q p
          ∙ lookup-remove_other s path moved r
          ∙ lookup-move_other u t path bytes files p q,
    )

handle_star_on :
    (code name : String) (rest : List String) (bytes : Bytes) (files : Files)
    → lookup (path_join starred_dir name) files ≡ none
    → lookup (path_join uploads_dir name) files ≡ some bytes
    → handle_star (code ∷ name ∷ rest) files
      ≡ (insert (path_join starred_dir name) bytes files, "STAR~OK~1")
unfolding handle_star
handle_star_on code name rest bytes files off here = rw off (rw here refl)

handle_star_off :
    (code name : String) (rest : List String) (bytes : Bytes) (files : Files)
    → lookup (path_join starred_dir name) files ≡ some bytes
    → handle_star (code ∷ name ∷ rest) files
      ≡ (remove (path_join starred_dir name) files, "STAR~OK~0")
unfolding handle_star
handle_star_off code name rest bytes files on = rw on refl

lookup-remove-insert :
    (k path : String) (bytes : Bytes) (files : Files)
    → lookup k files ≡ none
    → lookup path (remove k (insert k bytes files)) ≡ lookup path files
lookup-remove-insert k path bytes files free = elim (Bool-cases (str_eq path k)) [
  | inl same ↦
      let e : path ≡ k = (eq_iff path k).0 same in
      rw e (lookup-remove k (insert k bytes files) ∙ sym free)
  | inr other ↦
      let apart : path ≢ k = apart-str_eq path k other in
      lookup-remove_other k path (insert k bytes files) apart
      ∙ lookup-insert_other k path bytes files apart
]

-- Starring twice an uploaded file that has no star: the first call puts a copy with the contents
-- among the stars and answers 1, the second answers 0, and then every path has what it had.
pub handle_star_twice :
    (name : String) (bytes : Bytes) (files : Files)
    → lookup (path_join uploads_dir name) files ≡ some bytes
    → lookup (path_join starred_dir name) files ≡ none
    → (on off : Files) × (handle_star ("STAR" ∷ name ∷ []) files ≡ (on, "STAR~OK~1"))
      × (lookup (path_join starred_dir name) on ≡ some bytes)
      × (handle_star ("STAR" ∷ name ∷ []) on ≡ (off, "STAR~OK~0"))
      × ((path : String) → lookup path off ≡ lookup path files)
handle_star_twice name bytes files here free =
    let s = path_join starred_dir name in
    let on = insert s bytes files in
    (
      on,
      remove s on,
      handle_star_on "STAR" name [] bytes files free here,
      lookup-insert s bytes files,
      handle_star_off "STAR" name [] bytes on (lookup-insert s bytes files),
      λ path. lookup-remove-insert s path bytes files free,
    )
