-- ===== src/Client/Listing.antt =====
-- `parse_file_list` of cloudmer_CLIENT.py, and the list of files of the server that it reads.
use cloudmer_cloud_storage.Prelude.{
  ℕ, ◌≡◌, refl, ap, ◌∙◌, String, ◌<>◌, Bool, true, false, ◌&&◌, ◌||◌, Option, none, some, List, [],
  ◌∷◌, ◌++◌, map, Bytes, length, leb, lookup, str_eq, Bool-cases, inl, inr, if◌then◌else◌,
}
use Prim.Native.Char.{code}
use text.Mathlib.TextLemmas.{nil-append, cons-append}
use cloudmer_cloud_storage.Server.{Files, path_join, line}
use cloudmer_cloud_storage.Server.Listing.{
  Os, size_str, folder_of, filter_of, add_entry, entries, insert_newest, newest_first, ordered,
  handle_file_list,
}
use cloudmer_cloud_storage.Text.{join, split, begins_with}
use cloudmer_cloud_storage.Text.Split.{AllLack, Lacks, split-join}
use cloudmer_cloud_storage.Chunks.{Codecs}

pub record FileEntry : Type 0 where
  pub name : String
  pub size : String
  pub modified : String
  pub file_hash : String

-- Whitespace of ASCII.
abbrev pub is_space : ℕ → Bool
is_space c = (leb 9 c && leb c 13) || (leb 28 c && leb c 32)

-- `not raw or not raw.strip()`
abbrev pub is_blank : String → Bool
is_blank String.[] = true
is_blank (String.◌∷◌ c s) = is_space (code c) && is_blank s

-- An entry of fewer than three fields is skipped.
abbrev pub entry_of : List String → List FileEntry
entry_of (name ∷ size ∷ modified ∷ file_hash ∷ _) =
    record { name = name; size = size; modified = modified; file_hash = file_hash } ∷ []
entry_of (name ∷ size ∷ modified ∷ []) =
    record { name = name; size = size; modified = modified; file_hash = "" } ∷ []
entry_of _ = []

unfoldable pub parse_entries : List String → List FileEntry
unfolding split
parse_entries [] = []
parse_entries (e ∷ es) = entry_of (split b'|' e) ++ parse_entries es

unfoldable pub parse_file_list : String → List FileEntry
unfolding parse_entries split
parse_file_list raw = if is_blank raw then [] else parse_entries (split b';' raw)

-- The text of an entry, as the server writes it.
unfoldable pub entry_text : FileEntry → String
unfolding join
entry_text e = join "|" (e.name ∷ e.size ∷ e.modified ∷ e.file_hash ∷ [])

-- No field holds a bar or a semicolon.
abbrev pub IsPlain : FileEntry → Type 0
IsPlain e =
    AllLack b'|' (e.name ∷ e.size ∷ e.modified ∷ e.file_hash ∷ []) × Lacks b';' (entry_text e)

abbrev pub AllPlain : List FileEntry → Type 0
AllPlain [] = Unit
AllPlain (e ∷ es) = IsPlain e × AllPlain es

parse_entries-entry_text :
    (es : List FileEntry) → AllPlain es → parse_entries (map entry_text es) ≡ es
unfolding parse_entries entry_text join
parse_entries-entry_text [] plain = refl
parse_entries-entry_text (e ∷ es) ((fields, _), rest) =
    ap (λ p. entry_of p ++ parse_entries (map entry_text es))
      (split-join "|" e.name (e.size ∷ e.modified ∷ e.file_hash ∷ []) fields)
    ∙ ap (λ t. e ∷ t) (parse_entries-entry_text es rest)

AllPlain-AllLack : (es : List FileEntry) → AllPlain es → AllLack b';' (map entry_text es)
AllPlain-AllLack [] plain = tt
AllPlain-AllLack (e ∷ es) ((_, lack), rest) = (lack, AllPlain-AllLack es rest)

is_blank-append : (s t : String) → is_blank s ≡ false → is_blank (s <> t) ≡ false
is_blank-append String.[] t h = cc
is_blank-append (String.◌∷◌ c s) t h = elim (Bool-cases (is_space (code c))) [
  | inl space ↦ rw (cons-append c s t) (rw space (is_blank-append s t (rw space at h)))
  | inr letter ↦ rw (cons-append c s t) (rw letter refl)
]

is_blank-bar : (s t : String) → is_blank (s <> ("|" <> t)) ≡ false
is_blank-bar String.[] t = rw (nil-append ("|" <> t)) (rw (cons-append "|" "" t) refl)
is_blank-bar (String.◌∷◌ c s) t = elim (Bool-cases (is_space (code c))) [
  | inl space ↦ rw (cons-append c s ("|" <> t)) (rw space (is_blank-bar s t))
  | inr letter ↦ rw (cons-append c s ("|" <> t)) (rw letter refl)
]

is_blank-join :
    (e : FileEntry) (es : List FileEntry) → is_blank (join ";" (map entry_text (e ∷ es))) ≡ false
unfolding join entry_text
is_blank-join e [] = is_blank-bar e.name (join "|" (e.size ∷ e.modified ∷ e.file_hash ∷ []))
is_blank-join e (f ∷ fs) =
    is_blank-append (entry_text e) (";" <> join ";" (map entry_text (f ∷ fs)))
      (is_blank-bar e.name (join "|" (e.size ∷ e.modified ∷ e.file_hash ∷ [])))

-- Entries whose fields hold no bar and no semicolon are read back.
pub parse_file_list-join :
    (es : List FileEntry) → AllPlain es → parse_file_list (join ";" (map entry_text es)) ≡ es
unfolding parse_file_list join
parse_file_list-join [] plain = refl
parse_file_list-join (e ∷ es) plain = rw (is_blank-join e es) (
    ap parse_entries
      (split-join ";" (entry_text e) (map entry_text es) (AllPlain-AllLack (e ∷ es) plain))
    ∙ parse_entries-entry_text (e ∷ es) plain)

module _ (k : Codecs) (os : Os) where
  -- The files of a folder as entries: neither hidden nor something else than a file.
  abbrev pub row :
      String → String → Option Bytes → List (String × FileEntry) → List (String × FileEntry)
  row folder fname none rest = rest
  row folder fname (some bytes) rest =
      if begins_with fname "."
      then rest
      else (
        fname,
        record {
          name = fname;
          size = size_str (length bytes);
          modified = os.date (path_join folder fname);
          file_hash = k.sha256_hex bytes;
        },
      )
        ∷ rest

  unfoldable pub rows : String → Files → List String → List (String × FileEntry)
  rows folder files [] = []
  rows folder files (fname ∷ names) =
      row folder fname (lookup (path_join folder fname) files) (rows folder files names)

  abbrev pub texts : List (String × FileEntry) → List (String × String)
  texts es = map (λ e. (e.0, entry_text e.1)) es

  entries-rows :
      (folder : String) (files : Files) (names : List String)
      → entries k os folder files names ≡ texts (rows folder files names)
  unfolding entries rows entry_text join
  entries-rows folder files [] = refl
  entries-rows folder files (fname ∷ names) =
      ap (add_entry k os folder fname (lookup (path_join folder fname) files))
        (entries-rows folder files names)
      ∙ added fname (lookup (path_join folder fname) files) (rows folder files names)
    where
      added :
          (fname : String) (found : Option Bytes) (rest : List (String × FileEntry))
          → add_entry k os folder fname found (texts rest) ≡ texts (row folder fname found rest)
      added fname none rest = refl
      added fname (some bytes) rest = elim (Bool-cases (begins_with fname ".")) [
        | inl hidden ↦ rw hidden refl
        | inr shown ↦ rw shown refl
      ]

  insert_newest-texts :
      (folder : String) (e : String × FileEntry) (es : List (String × FileEntry))
      → insert_newest k os folder (e.0, entry_text e.1) (texts es)
        ≡ texts (insert_newest k os folder e es)
  unfolding insert_newest
  insert_newest-texts folder e [] = refl
  insert_newest-texts folder e (f ∷ fs) =
      elim (Bool-cases (leb (os.mtime (path_join folder f.0)) (os.mtime (path_join folder e.0)))) [
        | inl older ↦ rw older refl
        | inr newer ↦
            rw newer (ap (λ t. (f.0, entry_text f.1) ∷ t) (insert_newest-texts folder e fs))
      ]

  newest_first-texts :
      (folder : String) (es : List (String × FileEntry))
      → newest_first k os folder (texts es) ≡ texts (newest_first k os folder es)
  unfolding newest_first
  newest_first-texts folder [] = refl
  newest_first-texts folder (e ∷ es) =
      ap (insert_newest k os folder (e.0, entry_text e.1)) (newest_first-texts folder es)
      ∙ insert_newest-texts folder e (newest_first k os folder es)

  ordered-texts :
      (filter_type : String) (es : List (String × FileEntry))
      → ordered k os filter_type (texts es) ≡ texts (ordered k os filter_type es)
  ordered-texts filter_type es =
      elim (Bool-cases (str_eq filter_type "all" || str_eq filter_type "recent")) [
        | inl sorted ↦ rw sorted (newest_first-texts (folder_of filter_type) es)
        | inr unsorted ↦ rw unsorted refl
      ]

  map-texts :
      (es : List (String × FileEntry))
      → map (λ e. e.1) (texts es) ≡ map entry_text (map (λ e. e.1) es)
  map-texts [] = refl
  map-texts (e ∷ es) = ap (λ t. entry_text e.1 ∷ t) (map-texts es)

  -- The entries that a request for the list is about, in the order of the list.
  abbrev pub listed : List String → Files → List FileEntry
  listed parts files =
      let folder = folder_of (filter_of parts) in
      map (λ e. e.1) (ordered k os (filter_of parts) (rows folder files (os.listdir folder files)))

  -- The client reads from the server's list exactly the visible files of the folder, each with its
  -- name, size, date and SHA-256, in the server's order, where no field holds a bar or a semicolon.
  pub parse_file_list-handle_file_list :
      (parts : List String) (files : Files)
      → AllPlain (listed parts files)
      → (payload : String) × (handle_file_list k os parts files
          ≡ line ("FLST" ∷ "OK" ∷ payload ∷ []))
        × (parse_file_list payload ≡ listed parts files)
  unfolding handle_file_list
  parse_file_list-handle_file_list parts files plain =
      let filter_type = filter_of parts in
      let folder = folder_of filter_type in
      let names = os.listdir folder files in
      (
        join ";" (map entry_text (listed parts files)),
        ap
              (λ es.
                line ("FLST" ∷ "OK" ∷ join ";" (map (λ e. e.1) (ordered k os filter_type es)) ∷ []))
              (entries-rows folder files names)
            ∙ ap (λ es. line ("FLST" ∷ "OK" ∷ join ";" (map (λ e. e.1) es) ∷ []))
                (ordered-texts filter_type (rows folder files names))
            ∙ ap (λ t. line ("FLST" ∷ "OK" ∷ join ";" t ∷ []))
                (map-texts (ordered k os filter_type (rows folder files names))),
        parse_file_list-join (listed parts files) plain,
      )
