-- ===== src/Flipper/Files.antt =====
-- What the flipper of cw3 leaves in the files.
use systemy_operacyjne_agh.Prelude.{
  ℕ, zero, suc, ◌≡◌, ◌≢◌, ◌<◌, refl, sym, ap, ◌∙◌, true, false, some, List, [], ◌∷◌, length,
  get_elem?, ◌⊎◌, inl, inr, arith, reverse, ℕ_discrete,
}
use mathlib.Core.Path.{subst}
use systemy_operacyjne_agh.Copy.Bytes.{reverse_copy_lem}
use systemy_operacyjne_agh.Flipper.Directory.{
  Files, write, Entry, is_txt, path_of, contents, copy_file,
}

pub write_self :
    (files : Files) (file : ℕ) (bytes : List ℕ) → write files file bytes file ≡ some bytes
write_self files file bytes = ground arith

pub write_other :
    (files : Files) (file : ℕ) (bytes : List ℕ) (f : ℕ)
    → f ≢ file
    → write files file bytes f ≡ files f
write_other files file bytes f h = ground arith

pub copy_file_lem :
    (giver receiver : ℕ) (files : Files) (f : ℕ)
    → copy_file giver receiver files f ≡ write files receiver (reverse (contents (files giver))) f
unfolding copy_file
copy_file_lem giver receiver files f =
    ap (λ bytes. write files receiver bytes f)
      (reverse_copy_lem 0 (record { bytes = contents (files giver); position = 0 }) [])

-- The name of a text file among the entries.
abbrev pub IsTextName : List Entry → List ℕ → Type 0
IsTextName entries name =
    (i : ℕ) × (e : Entry) × (get_elem? entries i ≡ some e) × (is_txt e ≡ true) × (name ≡ e.d_name)

module _ (file_of : List ℕ → ℕ) where
  -- The entry is not a text file, or its paths fit and its file can be read.
  abbrev pub IsReady : List ℕ → List ℕ → Files → Entry → Type 0
  IsReady giver_dir receiver_dir files e =
      is_txt e ≡ true
      → (length (path_of giver_dir e.d_name) < 1024)
        × (length (path_of receiver_dir e.d_name) < 1024)
        × ((bytes : List ℕ) × (files (file_of (path_of giver_dir e.d_name)) ≡ some bytes))

  abbrev pub AllReady : List ℕ → List ℕ → Files → List Entry → Type 0
  AllReady giver_dir receiver_dir files [] = Unit {0}
  AllReady giver_dir receiver_dir files (e ∷ entries) =
      IsReady giver_dir receiver_dir files e × AllReady giver_dir receiver_dir files entries

  -- The file of a text file among the entries in the directory.
  abbrev pub IsTarget : List ℕ → List Entry → ℕ → Type 0
  IsTarget receiver_dir entries f =
      (i : ℕ) × (e : Entry) × (get_elem? entries i ≡ some e)
      × (is_txt e ≡ true)
      × (f ≡ file_of (path_of receiver_dir e.d_name))

  -- Each text file among the entries ends with `out` of its name, and nothing else changes.
  abbrev pub IsFlipped : List ℕ → (List ℕ → List ℕ) → List Entry → Files → Files → Type 0
  IsFlipped receiver_dir out entries files files' =
      ((i : ℕ) (e : Entry)
        → get_elem? entries i ≡ some e
        → is_txt e ≡ true
        → files' (file_of (path_of receiver_dir e.d_name)) ≡ some (out e.d_name))
      × ((f : ℕ) → (files' f ≡ files f) ⊎ IsTarget receiver_dir entries f)

  abbrev pub copied : List ℕ → List ℕ → Files → Entry → Files
  copied giver_dir receiver_dir files e =
      copy_file (file_of (path_of giver_dir e.d_name)) (file_of (path_of receiver_dir e.d_name))
        (write files (file_of (path_of receiver_dir e.d_name)) [])

  pub copied_other :
      (giver_dir receiver_dir : List ℕ) (files : Files) (e : Entry) (f : ℕ)
      → f ≢ file_of (path_of receiver_dir e.d_name)
      → copied giver_dir receiver_dir files e f ≡ files f
  copied_other giver_dir receiver_dir files e f h =
      let target = file_of (path_of receiver_dir e.d_name) in
      let emptied = write files target [] in
      copy_file_lem (file_of (path_of giver_dir e.d_name)) target emptied f
      ∙ write_other emptied target _ f h
      ∙ write_other files target [] f h

false_ne_true : false ≢ true
false_ne_true e = ground arith

module _ (file_of : List ℕ → ℕ) (receiver_dir : List ℕ) (out : List ℕ → List ℕ) where
  later :
      (e : Entry) (entries : List Entry) (f : ℕ)
      → IsTarget file_of receiver_dir entries f
      → IsTarget file_of receiver_dir (e ∷ entries) f
  later e entries f (i, c, at, txt, same) = (suc i, c, at, txt, same)

  pub skipped :
      (e : Entry) (entries : List Entry) (files files' : Files)
      → is_txt e ≡ false
      → IsFlipped file_of receiver_dir out entries files files'
      → IsFlipped file_of receiver_dir out (e ∷ entries) files files'
  skipped e entries files files' other (done, kept) = (
    all,
    λ f. elim (kept f) [ inl same ↦ inl same | inr changed ↦ inr (later e entries f changed) ],
  )
    where
      all :
          (i : ℕ) (c : Entry)
          → get_elem? (e ∷ entries) i ≡ some c
          → is_txt c ≡ true
          → files' (file_of (path_of receiver_dir c.d_name)) ≡ some (out c.d_name)
      all zero c at txt =
          let same : e ≡ c = cc in absurd (false_ne_true (sym other ∙ ap is_txt same ∙ txt))
      all (suc i) c at txt = done i c at txt

  -- `agree`: a text file of the rest that has the same target gets the same bytes.
  pub added :
      (giver_dir : List ℕ) (e : Entry) (entries : List Entry) (files files' : Files)
      → is_txt e ≡ true
      → ((i : ℕ) (c : Entry)
          → get_elem? entries i ≡ some c
          → is_txt c ≡ true
          → file_of (path_of receiver_dir e.d_name) ≡ file_of (path_of receiver_dir c.d_name)
          → out e.d_name ≡ out c.d_name)
      → copied file_of giver_dir receiver_dir files e (file_of (path_of receiver_dir e.d_name))
        ≡ some (out e.d_name)
      → IsFlipped file_of receiver_dir out entries
          (copied file_of giver_dir receiver_dir files e)
          files'
      → IsFlipped file_of receiver_dir out (e ∷ entries) files files'
  added giver_dir e entries files files' txt agree written (done, kept) = (all, rest)
    where
      first : files' (file_of (path_of receiver_dir e.d_name)) ≡ some (out e.d_name)
      first = elim (kept (file_of (path_of receiver_dir e.d_name))) [
        | inl same ↦ same ∙ written
        | inr (i, c, at, txt', same) ↦
            ap files' same ∙ done i c at txt' ∙ ap (λ o. some o) (sym (agree i c at txt' same))
      ]

      all :
          (i : ℕ) (c : Entry)
          → get_elem? (e ∷ entries) i ≡ some c
          → is_txt c ≡ true
          → files' (file_of (path_of receiver_dir c.d_name)) ≡ some (out c.d_name)
      all zero c at txt' =
          let same : e ≡ c = cc in
          subst (λ x. files' (file_of (path_of receiver_dir x.d_name)) ≡ some (out x.d_name)) same
            first
      all (suc i) c at txt' = done i c at txt'

      rest : (f : ℕ) → (files' f ≡ files f) ⊎ IsTarget file_of receiver_dir (e ∷ entries) f
      rest f = elim (kept f) [
        | inr changed ↦ inr (later e entries f changed)
        | inl same ↦ elim (ℕ_discrete f (file_of (path_of receiver_dir e.d_name))) [
          | yes here ↦ inr (0, e, refl, txt, here)
          | no elsewhere ↦
              inl (same ∙ copied_other file_of giver_dir receiver_dir files e f elsewhere)
        ]
      ]
