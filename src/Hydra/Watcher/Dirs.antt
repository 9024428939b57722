-- ===== src/Hydra/Watcher/Dirs.antt =====
-- hydra/in_tail.go: which directories the watcher gives to fsnotify, and which files it serves.
use fluent_agent_hydra.Prelude.{
  ◌≡◌, refl, sym, ap, ◌∙◌, inl, inr, Bool, true, false, ◌||◌, Option, none, some, List, [], ◌∷◌,
  ◌++◌, map, Bytes, bytes_eq, bytes_eq_iff, contains, All, arith, Option-cases, Bool-cases,
}
use fluent_agent_hydra.Prelude.Dict
use fluent_agent_hydra.Prelude.Dict.{lookup-insert}
use fluent_agent_hydra.Hydra.Watcher.{Watcher, new_watcher, Paths, watch_file}

-- No text twice.
abbrev pub Once : List Bytes → Type 0
Once [] = Unit {0}
Once (k ∷ ks) = (contains k ks ≡ false) × Once ks

abbrev pub is_some {ℓ} : {A : Type ℓ} → Option A → Bool
is_some none = false
is_some (some a) = true

contains-append :
    (k : Bytes) (ks js : List Bytes) → contains k (ks ++ js) ≡ (contains k ks || contains k js)
unfolding contains
contains-append k [] js = refl
contains-append k (i ∷ ks) js = ground (arith, contains-append k ks js)

Once-snoc : (ks : List Bytes) (k : Bytes) → Once ks → contains k ks ≡ false → Once (ks ++ (k ∷ []))
unfolding contains
Once-snoc [] k h e = (refl, tt)
Once-snoc (j ∷ ks) k (own, h) e = (
  ground (arith, contains-append j ks (k ∷ []), bytes_eq_iff j k, bytes_eq_iff k j, own, e),
  Once-snoc ks k h (ground (arith, e)),
)

contains-snoc :
    (k : Bytes) (ks : List Bytes) (d : Bytes)
    → contains k (ks ++ (d ∷ [])) ≡ (contains k ks || bytes_eq d k)
unfolding contains
contains-snoc k [] d = ground arith
contains-snoc k (i ∷ ks) d = ground (arith, contains-snoc k ks d)

is_some-insert {ℓ} :
    {V : Type ℓ} (k j : Bytes) (v : V) (m : List (Bytes × V))
    → is_some (Dict.lookup k (Dict.insert j v m)) ≡ (bytes_eq j k || is_some (Dict.lookup k m))
is_some-insert k j v m =
    rw (lookup-insert j k v m)
      (elim (Bool-cases (bytes_eq j k)) [ inl e ↦ rw e refl | inr e ↦ rw e refl ])

or_comm : (a b : Bool) → (a || b) ≡ (b || a)
or_comm true true = refl
or_comm true false = refl
or_comm false true = refl
or_comm false false = refl

module _ (paths : Paths) (addable : Bytes → Bool) where
  unfoldable pub watch_files : Watcher → List Bytes → Watcher
  watch_files w [] = w
  watch_files w (f ∷ files) = watch_files (watch_file paths addable w f).0 files

  -- Each directory is given once, and the map of directories has the same ones.
  abbrev Tracks : Watcher → Type 0
  Tracks w =
      Once w.added × ((k : Bytes) → contains k w.added ≡ is_some (Dict.lookup k w.watching_dir))

  -- What one call adds.
  watch_file_lem :
      (w : Watcher) (f : Bytes)
      → Tracks w
      → addable (paths.dir f) ≡ true
      → let w' = (watch_file paths addable w f).0 in
        Tracks w'
        × ((k : Bytes) → contains k w'.added ≡ (contains k w.added || bytes_eq (paths.dir f) k))
        × ((k : Bytes)
            → is_some (Dict.lookup k w'.watching_file)
              ≡ (bytes_eq f k || is_some (Dict.lookup k w.watching_file)))
  unfolding watch_file
  watch_file_lem w f (once, same) ok =
      elim (Option-cases (Dict.lookup (paths.dir f) w.watching_dir)) [
        | inl n ↦
            rw (n, watch_file, ok)
              (
                (
                  Once-snoc w.added (paths.dir f) once (same (paths.dir f) ∙ ap is_some n),
                  λ k.
                      contains-snoc k w.added (paths.dir f)
                      ∙ ap (λ b. b || bytes_eq (paths.dir f) k) (same k)
                      ∙ or_comm (is_some (Dict.lookup k w.watching_dir)) (bytes_eq (paths.dir f) k)
                      ∙ sym (is_some-insert k (paths.dir f) true w.watching_dir),
                ),
                (λ k. contains-snoc k w.added (paths.dir f)),
                λ k. is_some-insert k f w.channels w.watching_file,
              )
        | inr (b, n) ↦
            rw (n, watch_file)
              (
                (once, same),
                (λ k. elim (Bool-cases (bytes_eq (paths.dir f) k)) [
                  | inl e ↦
                      let known : contains (paths.dir f) w.added ≡ true =
                        same (paths.dir f) ∙ ap is_some n in
                      let known' : contains k w.added ≡ true =
                        rw ((bytes_eq_iff (paths.dir f) k).0 e) at known in
                      rw known' refl
                  | inr e ↦ rw e (or_comm false (contains k w.added))
                ]),
                λ k. is_some-insert k f w.channels w.watching_file,
              )
      ]

  watch_files-adds :
      (files : List Bytes) (w : Watcher)
      → Tracks w
      → All (λ f. addable (paths.dir f) ≡ true) files
      → let w' = watch_files w files in
        Once w'.added
        × ((k : Bytes)
            → contains k w'.added ≡ (contains k w.added || contains k (map paths.dir files)))
        × ((k : Bytes)
            → is_some (Dict.lookup k w'.watching_file)
              ≡ (contains k files || is_some (Dict.lookup k w.watching_file)))
  unfolding watch_files contains
  watch_files-adds [] w (once, same) h =
      (once, (λ k. or_comm false (contains k w.added)), λ k. refl)
  watch_files-adds (f ∷ files) w tracks (ok, h) =
      let (tracks', dirs, served) = watch_file_lem w f tracks ok in
      let w' = (watch_file paths addable w f).0 in
      let (once, dirs', served') = watch_files-adds files w' tracks' h in
      (once, (λ k. ground (arith, dirs k, dirs' k)), λ k. ground (arith, served k, served' k))

  -- If fsnotify takes each directory, watching some files gives it the directories of these
  -- files and no others, each once, and the watcher has a channel for these files and no others.
  pub watch_files_lem :
      (files : List Bytes)
      → All (λ f. addable (paths.dir f) ≡ true) files
      → let w = watch_files new_watcher files in
        Once w.added
        × ((k : Bytes) → contains k w.added ≡ contains k (map paths.dir files))
        × ((k : Bytes) → is_some (Dict.lookup k w.watching_file) ≡ contains k files)
  watch_files_lem files h =
      let (once, dirs, served) = watch_files-adds files new_watcher (nothing_watched) h in
      (
        once,
        (λ k. dirs k ∙ no_dirs k (map paths.dir files)),
        λ k. served k ∙ no_files k (contains k files),
      )
    where
      nothing_watched : Tracks new_watcher
      nothing_watched = unfold new_watcher contains Dict.lookup in (tt, λ k. refl)

      no_dirs :
          (k : Bytes) (ks : List Bytes)
          → (contains k new_watcher.added || contains k ks) ≡ contains k ks
      no_dirs k ks = unfold new_watcher contains in refl

      no_files :
          (k : Bytes) (b : Bool) → (b || is_some (Dict.lookup k new_watcher.watching_file)) ≡ b
      no_files k b = unfold new_watcher Dict.lookup in or_comm b false
