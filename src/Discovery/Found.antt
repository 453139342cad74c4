-- ===== src/Discovery/Found.antt =====
-- What the search for executables finds: declared names, each file once.
use cliharbor.Prelude.{
  ◌≡◌, refl, sym, ◌∙◌, subst, Bool, true, false, not, ◌||◌, some, List, [], ◌∷◌, ◌++◌, inl, inr,
  Bool-cases, Option-cases, &&-split, arith,
}
use cliharbor.Prelude.Text.{Text, is_empty, text_lt, text_eq, text_eq_iff}
use cliharbor.Prelude.Sort.{mem_text}
use cliharbor.Prelude.Cover.{no_repeat}
use cliharbor.Host.{Host}
use cliharbor.Discovery.{Candidate, insert_candidate, sort_candidates}
use cliharbor.Discovery.Files.{Files, inspect_executable}
use cliharbor.Discovery.Candidates.{
  Search, note, key_of, candidate_at, search_paths, search_directories, paths_in,
  directory_candidates, matches_declared_executable, normalize_discovery_directory,
}

-- A candidate under a name that the tool declares, that of its file.
pub record Declared (host : Host) (goos : Text) (declared : List Text) (c : Candidate)
    : Type 0 where
  pub target : Text
  pub cleaned : c.path ≡ host.clean target
  pub named : c.executable_name ≡ host.base c.path
  pub matches : matches_declared_executable host c.executable_name declared goos ≡ true

inspect_executable-cleaned :
    (host : Host) (goos : Text) (files : Files) (path : Text) {resolved : Text}
    → inspect_executable host goos files path ≡ some resolved
    → (target : Text) × (resolved ≡ host.clean target)
unfolding inspect_executable
inspect_executable-cleaned host goos files path {resolved} h =
    elim (Option-cases (files.stat path)) [
      | inl e ↦ absurd (ground (arith, h, e))
      | inr (info, e) ↦ elim (Option-cases (files.eval_symlinks path)) [
        | inl n ↦ absurd (ground (arith, h, e, n))
        | inr (target, t) ↦ elim (Option-cases (files.absolute target)) [
          | inl n ↦ absurd (ground (arith, h, e, t, n))
          | inr (absolute, a) ↦ (absolute, ground (arith, h, e, t, a))
        ]
      ]
    ]

pub candidate_at-Declared :
    (host : Host) (goos : Text) (files : Files) (declared : List Text) (path : Text) {c : Candidate}
    → candidate_at host goos files declared path ≡ some c
    → Declared host goos declared c
unfolding candidate_at
candidate_at-Declared host goos files declared path {c} h =
    elim (Option-cases (inspect_executable host goos files path)) [
      | inl e ↦ absurd (ground (arith, h, e))
      | inr (resolved, e) ↦
          elim (Bool-cases (matches_declared_executable host (host.base resolved) declared goos)) [
            | inr f ↦ absurd (ground (arith, h, e, f))
            | inl f ↦
                let same : record { path = resolved; executable_name = host.base resolved } ≡ c =
                  ground (arith, h, e, f) in
                let clean : (target : Text) × (resolved ≡ host.clean target) =
                  inspect_executable-cleaned host goos files path e in
                subst (Declared host goos declared) same
                  (record { target = clean.0; cleaned = clean.1; named = refl; matches = f })
          ]
    ]

no_repeat_nil : no_repeat [] ≡ true
unfolding no_repeat
no_repeat_nil = refl

module _ (host : Host) (goos : Text) where
  abbrev pub keys_of : List Candidate → List Text
  keys_of [] = []
  keys_of (c ∷ cs) = key_of host goos c.path ∷ keys_of cs

  abbrev pub AllDeclared : List Text → List Candidate → Type 0
  AllDeclared declared [] = Unit
  AllDeclared declared (c ∷ cs) = Declared host goos declared c × AllDeclared declared cs

  AllDeclared-snoc :
      (declared : List Text) (cs : List Candidate) (c : Candidate)
      → AllDeclared declared cs
      → Declared host goos declared c
      → AllDeclared declared (cs ++ c ∷ [])
  AllDeclared-snoc declared [] c a d = (d, tt)
  AllDeclared-snoc declared (x ∷ xs) c a d = (a.0, AllDeclared-snoc declared xs c a.1 d)

  mem_text-snoc :
      (k : Text) (cs : List Candidate) (c : Candidate)
      → mem_text k (keys_of (cs ++ c ∷ []))
        ≡ (mem_text k (keys_of cs) || text_eq (key_of host goos c.path) k)
  unfolding mem_text
  mem_text-snoc k [] c = ground arith
  mem_text-snoc k (x ∷ xs) c = ground (arith, mem_text-snoc k xs c)

  no_repeat-snoc :
      (cs : List Candidate) (c : Candidate)
      → no_repeat (keys_of cs) ≡ true
      → mem_text (key_of host goos c.path) (keys_of cs) ≡ false
      → no_repeat (keys_of (cs ++ c ∷ [])) ≡ true
  unfolding no_repeat mem_text
  no_repeat-snoc [] c n m = refl
  no_repeat-snoc (x ∷ xs) c n m = ground (
    arith,
    mem_text-snoc (key_of host goos x.path) xs c,
    text_eq_iff (key_of host goos c.path) (key_of host goos x.path),
    text_eq_iff (key_of host goos x.path) (key_of host goos c.path),
    no_repeat-snoc xs c,
  )

  -- What the loops keep: the keys seen are those of the candidates found, which differ.
  pub record Searched (declared : List Text) (s : Search) : Type 0 where
    pub all_declared : AllDeclared declared s.found
    pub differ : no_repeat (keys_of s.found) ≡ true
    pub covered : (k : Text) → mem_text k s.seen ≡ mem_text k (keys_of s.found)

  note-Searched :
      (declared : List Text) (c : Candidate) (s : Search)
      → Declared host goos declared c
      → Searched declared s
      → Searched declared (note host goos c s)
  unfolding mem_text
  note-Searched declared c s d w = elim (Bool-cases (mem_text (key_of host goos c.path) s.seen)) [
    | inl e ↦ rw e w
    | inr e ↦ rw e (record {
      all_declared = AllDeclared-snoc declared s.found c w.all_declared d;
      differ = no_repeat-snoc s.found c w.differ (sym (w.covered (key_of host goos c.path)) ∙ e);
      covered = λ k. ground (arith, w.covered k, mem_text-snoc k s.found c);
    })
  ]

  search_paths-Searched :
      (files : Files) (declared paths : List Text) (s : Search)
      → Searched declared s
      → Searched declared (search_paths host goos files declared paths s)
  unfolding search_paths
  search_paths-Searched files declared [] s w = w
  search_paths-Searched files declared (p ∷ rest) s w =
      elim (Option-cases (candidate_at host goos files declared p)) [
        | inl e ↦ rw e (search_paths-Searched files declared rest s w)
        | inr (c, e) ↦ rw e (
            search_paths-Searched files declared rest (note host goos c s)
              (note-Searched declared c s (candidate_at-Declared host goos files declared p e) w))
      ]

  either-Searched :
      (declared : List Text) (skip : Bool) (s t : Search)
      → Searched declared s
      → Searched declared t
      → Searched declared (elim skip [ true ↦ s | false ↦ t ])
  either-Searched declared true s t v w = v
  either-Searched declared false s t v w = w

  search_directories-Searched :
      (files : Files) (declared seen directories : List Text) (s : Search)
      → Searched declared s
      → Searched declared (search_directories host goos files declared seen directories s)
  unfolding search_directories
  search_directories-Searched files declared seen [] s w = w
  search_directories-Searched files declared seen (raw ∷ rest) s w =
      let d : Text = normalize_discovery_directory host raw goos in
      either-Searched declared (is_empty d || mem_text (key_of host goos d) seen) _ _
        (search_directories-Searched files declared seen rest s w)
        (search_directories-Searched files declared (key_of host goos d ∷ seen) rest
          (search_paths host goos files declared (paths_in host goos declared d) s)
          (search_paths-Searched files declared (paths_in host goos declared d) s w))

  insert_candidate-AllDeclared :
      (declared : List Text) (c : Candidate) (cs : List Candidate)
      → Declared host goos declared c
      → AllDeclared declared cs
      → AllDeclared declared (insert_candidate c cs)
  unfolding insert_candidate
  insert_candidate-AllDeclared declared c [] d a = (d, tt)
  insert_candidate-AllDeclared declared c (x ∷ xs) d a = elim (Bool-cases (text_lt x.path c.path)) [
    | inl e ↦ rw e (a.0, insert_candidate-AllDeclared declared c xs d a.1)
    | inr e ↦ rw e (d, a)
  ]

  sort_candidates-AllDeclared :
      (declared : List Text) (cs : List Candidate)
      → AllDeclared declared cs
      → AllDeclared declared (sort_candidates cs)
  unfolding sort_candidates
  sort_candidates-AllDeclared declared [] a = tt
  sort_candidates-AllDeclared declared (c ∷ cs) a =
      insert_candidate-AllDeclared declared c (sort_candidates cs) a.0
        (sort_candidates-AllDeclared declared cs a.1)

  mem_text-insert_candidate :
      (k : Text) (c : Candidate) (cs : List Candidate)
      → mem_text k (keys_of (insert_candidate c cs))
        ≡ (text_eq (key_of host goos c.path) k || mem_text k (keys_of cs))
  unfolding insert_candidate mem_text
  mem_text-insert_candidate k c [] = refl
  mem_text-insert_candidate k c (x ∷ xs) = ground (arith, mem_text-insert_candidate k c xs)

  mem_text-sort_candidates :
      (k : Text) (cs : List Candidate)
      → mem_text k (keys_of (sort_candidates cs)) ≡ mem_text k (keys_of cs)
  unfolding sort_candidates mem_text
  mem_text-sort_candidates k [] = refl
  mem_text-sort_candidates k (c ∷ cs) =
      ground
        (arith, mem_text-insert_candidate k c (sort_candidates cs), mem_text-sort_candidates k cs)

  no_repeat-insert_candidate :
      (c : Candidate) (cs : List Candidate)
      → no_repeat (keys_of cs) ≡ true
      → mem_text (key_of host goos c.path) (keys_of cs) ≡ false
      → no_repeat (keys_of (insert_candidate c cs)) ≡ true
  unfolding insert_candidate no_repeat mem_text
  no_repeat-insert_candidate c [] n m = refl
  no_repeat-insert_candidate c (x ∷ xs) n m = ground (
    arith,
    mem_text-insert_candidate (key_of host goos x.path) c xs,
    text_eq_iff (key_of host goos c.path) (key_of host goos x.path),
    text_eq_iff (key_of host goos x.path) (key_of host goos c.path),
    no_repeat-insert_candidate c xs,
  )

  no_repeat-sort_candidates :
      (cs : List Candidate)
      → no_repeat (keys_of cs) ≡ true
      → no_repeat (keys_of (sort_candidates cs)) ≡ true
  unfolding sort_candidates no_repeat
  no_repeat-sort_candidates [] n = refl
  no_repeat-sort_candidates (c ∷ cs) n =
      let parts : (not (mem_text (key_of host goos c.path) (keys_of cs)) ≡ true)
          × (no_repeat (keys_of cs) ≡ true) =
        &&-split _ _ n in
      no_repeat-insert_candidate c (sort_candidates cs) (no_repeat-sort_candidates cs parts.1)
        (mem_text-sort_candidates (key_of host goos c.path) cs ∙ ground (arith, parts.0))

-- The search of a list of directories finds executables under declared names only, and no file twice:
-- their paths differ, on Windows also in letter case.
pub directory_candidates-Searched :
    (host : Host) (goos : Text) (files : Files) (declared directories : List Text)
    → AllDeclared host goos declared (directory_candidates host goos files declared directories)
      × (no_repeat (keys_of host goos (directory_candidates host goos files declared directories))
          ≡ true)
unfolding directory_candidates
directory_candidates-Searched host goos files declared directories =
    let none_yet : Search = record { seen = []; found = [] } in
    let w : Searched host goos declared
        (search_directories host goos files declared [] directories none_yet) =
      search_directories-Searched host goos files declared [] directories none_yet
        (record { all_declared = tt; differ = no_repeat_nil; covered = λ k. refl }) in
    (
      sort_candidates-AllDeclared host goos declared _ w.all_declared,
      no_repeat-sort_candidates host goos _ w.differ,
    )
