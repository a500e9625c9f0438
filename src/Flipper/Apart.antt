-- ===== src/Flipper/Apart.antt =====
-- The flipper of cw3 from one directory to another, and within one directory.
use systemy_operacyjne_agh.Prelude.{
  ℕ, ◌≡◌, ◌≢◌, refl, ap, ◌∙◌, Bool, true, some, List, [], inl, inr, reverse, ◌⊎◌, ℕ_discrete,
}
use systemy_operacyjne_agh.Flipper.Directory.{
  Files, write, Entry, is_txt, path_of, Flipped, contents, flip,
}
use systemy_operacyjne_agh.Flipper.Files.{
  IsReady, AllReady, IsTextName, IsFlipped, copied, copy_file_lem, write_self, write_other,
  copied_other,
}
use systemy_operacyjne_agh.Flipper.Run.{flip_run}

-- Suppose that, for the names of the text files in the first directory, no path in the first
-- directory names the same file as a path in the second, and two names in the second directory that
-- name the same file are equal; that every file can be written; and that each of these text files
-- can be read under paths that fit. Then `main` returns 0, each text file stands reversed in the
-- second directory, and no other file has changed.
pub flip-apart :
    (file_of : List ℕ → ℕ) (can_write : List ℕ → Bool) (giver_dir receiver_dir : List ℕ)
    (entries : List Entry) (files : Files)
    → ((p : List ℕ) → can_write p ≡ true)
    → ((a b : List ℕ)
        → IsTextName entries a
        → IsTextName entries b
        → file_of (path_of giver_dir a) ≢ file_of (path_of receiver_dir b))
    → ((a b : List ℕ)
        → IsTextName entries a
        → IsTextName entries b
        → file_of (path_of receiver_dir a) ≡ file_of (path_of receiver_dir b)
        → a ≡ b)
    → AllReady file_of giver_dir receiver_dir files entries
    → (files' : Files) × (flip file_of can_write giver_dir receiver_dir (some entries) files
        ≡ Flipped.returned 0 files')
      × IsFlipped file_of receiver_dir
          (λ n. reverse (contents (files (file_of (path_of giver_dir n)))))
          entries
          files
          files'
unfolding flip
flip-apart file_of can_write giver_dir receiver_dir entries files writable apart single all_ready =
    flip_run file_of can_write giver_dir receiver_dir
      (λ n. reverse (contents (files (file_of (path_of giver_dir n))))) files Kept
      (IsTextName entries) writable
      (λ a b named_a named_b same.
        ap (λ n. reverse (contents (files (file_of (path_of giver_dir n)))))
          (single a b named_a named_b same))
      ready keeps writes entries files (λ i e at txt. (i, e, at, txt, refl)) (λ a named. refl)
      all_ready
  where
    Kept : Files → Type 0
    Kept now =
        (a : List ℕ)
        → IsTextName entries a
        → now (file_of (path_of giver_dir a)) ≡ files (file_of (path_of giver_dir a))

    ready :
        (now : Files) (e : Entry)
        → (is_txt e ≡ true → IsTextName entries e.d_name)
        → Kept now
        → IsReady file_of giver_dir receiver_dir files e
        → IsReady file_of giver_dir receiver_dir now e
    ready now e named kept is_ready txt =
        let (fits, fits', (bytes, there)) = is_ready txt in
        (fits, fits', (bytes, kept e.d_name (named txt) ∙ there))

    keeps :
        (now : Files) (e : Entry)
        → IsTextName entries e.d_name
        → Kept now
        → Kept (copied file_of giver_dir receiver_dir now e)
    keeps now e named kept a named_a =
        copied_other file_of giver_dir receiver_dir now e (file_of (path_of giver_dir a))
          (apart a e.d_name named_a named)
        ∙ kept a named_a

    writes :
        (now : Files) (e : Entry)
        → IsTextName entries e.d_name
        → Kept now
        → copied file_of giver_dir receiver_dir now e (file_of (path_of receiver_dir e.d_name))
          ≡ some (reverse (contents (files (file_of (path_of giver_dir e.d_name)))))
    writes now e named kept =
        let giver = file_of (path_of giver_dir e.d_name) in
        let target = file_of (path_of receiver_dir e.d_name) in
        let emptied = write now target [] in
        copy_file_lem giver target emptied target
        ∙ write_self emptied target (reverse (contents (emptied giver)))
        ∙ ap (λ o. some (reverse (contents o)))
            (write_other now target [] giver (apart e.d_name e.d_name named named)
              ∙ kept e.d_name named)

-- If both arguments name the same directory, every file can be written, and each text file can be
-- read under a path that fits, then `main` returns 0, each text file is empty, and nothing else has
-- changed.
pub flip_in_place :
    (file_of : List ℕ → ℕ) (can_write : List ℕ → Bool) (dir : List ℕ) (entries : List Entry)
    (files : Files)
    → ((p : List ℕ) → can_write p ≡ true)
    → AllReady file_of dir dir files entries
    → (files' : Files) × (flip file_of can_write dir dir (some entries) files
        ≡ Flipped.returned 0 files')
      × IsFlipped file_of dir (λ n. []) entries files files'
unfolding flip
flip_in_place file_of can_write dir entries files writable all_ready =
    flip_run file_of can_write dir dir (λ n. []) files KeptOrEmpty (λ n. Unit {0}) writable
      (λ a b named_a named_b same. refl) ready (λ now e named kept. keeps now e kept)
      (λ now e named kept. writes now e) entries files (λ i e at txt. tt) (λ f. inl refl) all_ready
  where
    KeptOrEmpty : Files → Type 0
    KeptOrEmpty now = (f : ℕ) → (now f ≡ files f) ⊎ (now f ≡ some [])

    ready :
        (now : Files) (e : Entry)
        → (is_txt e ≡ true → Unit {0})
        → KeptOrEmpty now
        → IsReady file_of dir dir files e
        → IsReady file_of dir dir now e
    ready now e named kept is_ready txt =
        let (fits, fits', (bytes, there)) = is_ready txt in
        (
          fits,
          fits',
          elim (kept (file_of (path_of dir e.d_name))) [
            | inl same ↦ (bytes, same ∙ there)
            | inr empty ↦ ([], empty)
          ],
        )

    writes :
        (now : Files) (e : Entry)
        → copied file_of dir dir now e (file_of (path_of dir e.d_name)) ≡ some []
    writes now e =
        let target = file_of (path_of dir e.d_name) in
        let emptied = write now target [] in
        copy_file_lem target target emptied target
        ∙ write_self emptied target (reverse (contents (emptied target)))
        ∙ ap (λ o. some (reverse (contents o))) (write_self now target [])

    keeps : (now : Files) (e : Entry) → KeptOrEmpty now → KeptOrEmpty (copied file_of dir dir now e)
    keeps now e kept f = elim (ℕ_discrete f (file_of (path_of dir e.d_name))) [
      | yes here ↦ inr (ap (copied file_of dir dir now e) here ∙ writes now e)
      | no elsewhere ↦
          let other = copied_other file_of dir dir now e f elsewhere in
          elim (kept f) [ inl same ↦ inl (other ∙ same) | inr empty ↦ inr (other ∙ empty) ]
    ]
