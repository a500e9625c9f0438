-- ===== src/Flipper/Directory.antt =====
-- `main` of cw3/DziwakNorbert-cw03/flipper.c: the files of a directory, copied in reverse.
use systemy_operacyjne_agh.Prelude.{
  ℕ, ◌-◌, Bool, Option, none, some, List, [], ◌∷◌, ◌++◌, length, drop, ltb, if◌then◌else◌, ◌==◌,
}
use systemy_operacyjne_agh.Prelude.CStrings.{eqb_bytes, c_string}
use systemy_operacyjne_agh.Copy.Stream.{Stream}
use systemy_operacyjne_agh.Copy.Bytes.{reverse_copy}

-- What the files hold, by a number for each file; `none` if `fopen` with "r" fails. Which file a path
-- names is what the system says, an argument `file_of`: several paths may name the same file, and a
-- path of a file that is not there yet names the one that `fopen` with "w" makes.
abbrev pub Files : Type 0
Files = ℕ → Option (List ℕ)

abbrev pub write : Files → ℕ → List ℕ → Files
write files file bytes f = if f == file then some bytes else files f

-- `struct dirent`: the bytes that stand before `d_name`, and the name.
pub record Entry : Type 0 where
  pub header : List ℕ
  pub d_name : List ℕ

-- ".txt"
abbrev pub suffix : List ℕ
suffix = 46 ∷ 116 ∷ 120 ∷ 116 ∷ []

-- `strcmp(d_name + strlen(d_name) - 4, ".txt") == 0`: a name of less than four bytes is compared
-- with bytes of the header before it.
abbrev pub is_txt : Entry → Bool
is_txt e =
    let bytes = e.header ++ e.d_name in eqb_bytes (c_string (drop (length bytes - 4) bytes)) suffix

-- `sprintf(path, "%s/%s", directory, d_name)`, which has to fit into 1024 bytes with its end.
abbrev pub path_of : List ℕ → List ℕ → List ℕ
path_of directory d_name = directory ++ 47 ∷ d_name

-- What `main` returns and the files after it, or a write past one of the two paths.
pub data Flipped : Type 0 where
  returned : ℕ → Files → Flipped
  overrun : Flipped

-- `fopen(path, "w")`: the file is there and empty, if it can be written.
abbrev pub fopen_write : (List ℕ → ℕ) → (List ℕ → Bool) → List ℕ → Files → Files
fopen_write file_of can_write path files =
    if can_write path then write files (file_of path) [] else files

abbrev pub contents : Option (List ℕ) → List ℕ
contents none = []
contents (some bytes) = bytes

-- The file copied; both are open when the copy starts, so a file copied to itself is empty by then.
unfoldable pub copy_file : ℕ → ℕ → Files → Files
copy_file giver receiver files =
    let stream : Stream = record { bytes = contents (files giver); position = 0 } in
    write files receiver (reverse_copy 0 stream [])

abbrev pub fits : List ℕ → Bool
fits path = ltb (length path) 1024

-- The loop over the entries that `readdir` gives.
unfoldable pub flip_entries :
    (List ℕ → ℕ) → (List ℕ → Bool) → List ℕ → List ℕ → List Entry → Files → Flipped
flip_entries file_of can_write giver_dir receiver_dir [] files = Flipped.returned 0 files
flip_entries file_of can_write giver_dir receiver_dir (e ∷ entries) files =
    let giver_path = path_of giver_dir e.d_name in
    let receiver_path = path_of receiver_dir e.d_name in
    let opened = fopen_write file_of can_write receiver_path files in
    let rest : Flipped = flip_entries file_of can_write giver_dir receiver_dir entries files in
    let rest' : Flipped =
      flip_entries file_of can_write giver_dir receiver_dir entries
        (copy_file (file_of giver_path) (file_of receiver_path) opened) in
    if is_txt e
    then (if fits giver_path
        then (if fits receiver_path
            then elim (files (file_of giver_path)) [
              | none ↦ Flipped.returned 1 opened
              | some bytes ↦ if can_write receiver_path then rest' else Flipped.returned 1 opened
            ]
            else Flipped.overrun)
        else Flipped.overrun)
    else rest

-- `main`: `none` for the entries if `opendir` fails.
unfoldable pub flip :
    (List ℕ → ℕ) → (List ℕ → Bool) → List ℕ → List ℕ → Option (List Entry) → Files → Flipped
flip file_of can_write giver_dir receiver_dir none files = Flipped.returned 1 files
flip file_of can_write giver_dir receiver_dir (some entries) files =
    flip_entries file_of can_write giver_dir receiver_dir entries files
