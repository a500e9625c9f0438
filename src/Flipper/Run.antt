-- ===== src/Flipper/Run.antt =====
-- The loop of the flipper of cw3, for what its copies keep and write.
use systemy_operacyjne_agh.Prelude.{
  ℕ, suc, ◌≡◌, refl, ◌∙◌, Bool, true, some, List, [], ◌∷◌, length, Bool-cases, inl, inr, arith,
  lt→ltb, get_elem?,
}
use systemy_operacyjne_agh.Flipper.Directory.{Files, Entry, is_txt, path_of, Flipped, flip_entries}
use systemy_operacyjne_agh.Flipper.Files.{skipped, added, IsReady, AllReady, IsFlipped, copied}

-- `start` holds the files before the run; `Holds` is what the copies keep of them; `Named` holds of
-- the names of the text files.
module _ (file_of : List ℕ → ℕ) (can_write : List ℕ → Bool) (giver_dir receiver_dir : List ℕ)
    (out : List ℕ → List ℕ) (start : Files) (Holds : Files → Type 0) (Named : List ℕ → Type 0)
    (writable : (p : List ℕ) → can_write p ≡ true)
    (agree : (a b : List ℕ)
      → Named a
      → Named b
      → file_of (path_of receiver_dir a) ≡ file_of (path_of receiver_dir b)
      → out a ≡ out b)
    (ready : (files : Files) (e : Entry)
      → (is_txt e ≡ true → Named e.d_name)
      → Holds files
      → IsReady file_of giver_dir receiver_dir start e
      → IsReady file_of giver_dir receiver_dir files e)
    (keeps : (files : Files) (e : Entry)
      → Named e.d_name
      → Holds files
      → Holds (copied file_of giver_dir receiver_dir files e))
    (writes : (files : Files) (e : Entry)
      → Named e.d_name
      → Holds files
      → copied file_of giver_dir receiver_dir files e (file_of (path_of receiver_dir e.d_name))
        ≡ some (out e.d_name)) where
  flip_step :
      (e : Entry) (entries : List Entry) (files : Files)
      → is_txt e ≡ true
      → IsReady file_of giver_dir receiver_dir files e
      → flip_entries file_of can_write giver_dir receiver_dir (e ∷ entries) files
        ≡ flip_entries file_of can_write giver_dir receiver_dir entries
            (copied file_of giver_dir receiver_dir files e)
  unfolding flip_entries
  flip_step e entries files txt ready =
      let (fits_giver, fits_receiver, (bytes, there)) = ready txt in
      rw
        (
          flip_entries,
          txt,
          lt→ltb (length (path_of giver_dir e.d_name)) 1024 fits_giver,
          lt→ltb (length (path_of receiver_dir e.d_name)) 1024 fits_receiver,
          there,
          writable (path_of receiver_dir e.d_name),
        )
        refl

  pub flip_run :
      (entries : List Entry) (files : Files)
      → ((i : ℕ) (e : Entry) → get_elem? entries i ≡ some e → is_txt e ≡ true → Named e.d_name)
      → Holds files
      → AllReady file_of giver_dir receiver_dir start entries
      → (files' : Files) × (flip_entries file_of can_write giver_dir receiver_dir entries files
          ≡ Flipped.returned 0 files')
        × IsFlipped file_of receiver_dir out entries files files'
  unfolding flip_entries
  flip_run [] files named holds all_ready =
      (files, refl, ((λ i e at txt. ground arith), λ f. inl refl))
  flip_run (e ∷ entries) files named holds (is_ready, all_ready) = elim (Bool-cases (is_txt e)) [
    | inr other ↦
        let (files', runs, flipped) = flip_run entries files (λ i. named (suc i)) holds all_ready in
        (
          files',
          rw (flip_entries, other) runs,
          skipped file_of receiver_dir out e entries files files' other flipped,
        )
    | inl txt ↦
        let own : Named e.d_name = named 0 e refl txt in
        let (files', runs, flipped) =
          flip_run entries (copied file_of giver_dir receiver_dir files e) (λ i. named (suc i))
            (keeps files e own holds) all_ready in
        (
          files',
          flip_step e entries files txt (ready files e (λ t. own) holds is_ready) ∙ runs,
          added file_of receiver_dir out giver_dir e entries files files' txt
              (λ i c at txt' target. agree e.d_name c.d_name own (named (suc i) c at txt') target)
              (writes files e own holds) flipped,
        )
  ]
