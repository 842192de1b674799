-- ===== src/Compilation/Merging.antt =====
-- What `CompilationJob.merge` gives: the files of both jobs, each emitting artifacts if it does in
-- one of them.
use polkahat.Prelude.{
  ℕ, ◌≡◌, refl, sym, ◌∙◌, ap, List, [], ◌∷◌, Bool, true, false, ◌||◌, Option, none, some, map, any,
  All, All-map, ◌==◌, if◌then◌else◌, arith, Bool-cases, inl, inr, ==_iff,
}
use polkahat.Prelude.Outcome.{ok}
use polkahat.Map
use polkahat.Compilation.Jobs.{
  ResolvedFile, FileToCompile, CompilationJob, JobLib, new_job, add_file_to_compile,
  get_resolved_files, emits_artifacts, add_files, merge,
}

-- Whether a job has a file, and if so whether the file emits artifacts.
abbrev pub emitted : Option FileToCompile → Option Bool
emitted none = none
emitted (some f) = some f.emits_artifacts

abbrev pub status : ℕ → CompilationJob → Option Bool
status n job = emitted (Map.get n job.files_to_compile)

abbrev pub join : Option Bool → Option Bool → Option Bool
join none b = b
join (some a) none = some a
join (some a) (some b) = some (a || b)

-- Each file is filed under its own name.
abbrev pub IsKeyed : CompilationJob → Type 0
IsKeyed job = All (λ e. e.1.file.source_name ≡ e.0) job.files_to_compile

abbrev names : ℕ → List ResolvedFile → Bool
names n files = any (λ f. f.source_name == n) files

add_file_to_compile-status :
    (n : ℕ) (file : ResolvedFile) (e : Bool) (job : CompilationJob)
    → status n (add_file_to_compile file e job)
      ≡ (if file.source_name == n then join (status n job) (some e) else status n job)
unfolding add_file_to_compile
add_file_to_compile-status n file e job =
    let p =
      Map.get-put file.source_name n (record { file = file; emits_artifacts = e })
        job.files_to_compile in
    ground (arith, p)

add_file_to_compile-config :
    (file : ResolvedFile) (e : Bool) (job : CompilationJob)
    → (add_file_to_compile file e job).solidity_config ≡ job.solidity_config
unfolding add_file_to_compile
add_file_to_compile-config file e job = ground arith

-- The files are in the job, so that asking whether they emit artifacts does not throw.
abbrev Has : CompilationJob → ResolvedFile → Type 0
Has job file = (f : FileToCompile) × (Map.get file.source_name job.files_to_compile ≡ some f)

-- What a loop of `merge` makes of `merged`.
record Joined (job : CompilationJob) (files : List ResolvedFile) (merged m : CompilationJob)
    : Type 0 where
  config : m.solidity_config ≡ merged.solidity_config
  files_of :
      (n : ℕ)
      → status n m
        ≡ (if names n files then join (status n merged) (status n job) else status n merged)

join_twice : (a b : Option Bool) → join (join a b) b ≡ join a b
join_twice none none = refl
join_twice none (some true) = refl
join_twice none (some false) = refl
join_twice (some a) none = refl
join_twice (some true) (some b) = refl
join_twice (some false) (some true) = refl
join_twice (some false) (some false) = refl

add_files-Joined :
    (job : CompilationJob) (files : List ResolvedFile) (merged : CompilationJob)
    → All (Has job) files
    → (m : CompilationJob) × ((add_files job files merged ≡ ok m) × Joined job files merged m)
unfolding add_files emits_artifacts
add_files-Joined job [] merged h = (merged, (refl, record { config = refl; files_of = λ n. refl }))
add_files-Joined job (file ∷ files) merged ((f, here), h) =
    let next = add_file_to_compile file f.emits_artifacts merged in
    let (m, (runs, j)) = add_files-Joined job files next h in
    (
      m,
      (
        rw here runs,
        record {
          config = j.config ∙ add_file_to_compile-config file f.emits_artifacts merged;
          files_of = λ n. elim (Bool-cases (file.source_name == n)) [
            | inl e ↦
                let same = (==_iff file.source_name n).0 e in
                let here_n =
                  ap emitted (ap (λ k. Map.get k job.files_to_compile) (sym same) ∙ here) in
                let s : status n next ≡ join (status n merged) (status n job) =
                  add_file_to_compile-status n file f.emits_artifacts merged
                  ∙ rw (e, here_n) refl in
                j.files_of n
                ∙ rw (s, e)
                    (elim (Bool-cases (names n files)) [
                      | inl t ↦ rw t (join_twice (status n merged) (status n job))
                      | inr t ↦ rw t refl
                    ])
            | inr e ↦
                let s = add_file_to_compile-status n file f.emits_artifacts merged in
                j.files_of n ∙ rw (s, e) refl
          ];
        },
      ),
    )

-- An entry of a dictionary is found, or one of the same key before it.
get-entries :
    (m : List (ℕ × FileToCompile)) → All (λ e. (f : FileToCompile) × (Map.get e.0 m ≡ some f)) m
unfolding Map.get
get-entries [] = tt
get-entries ((k, v) ∷ m) = (
  (v, ground arith),
  All-map _
      (λ e h. elim (Bool-cases (k == e.0)) [ inl t ↦ (v, rw t refl) | inr t ↦ (h.0, rw t h.1) ]) m
      (get-entries m),
)

Has-files :
    (job : CompilationJob) (es : List (ℕ × FileToCompile))
    → All (λ e. e.1.file.source_name ≡ e.0) es
    → All (λ e. (f : FileToCompile) × (Map.get e.0 job.files_to_compile ≡ some f)) es
    → All (Has job) (map (λ e. e.1.file) es)
Has-files job [] k h = tt
Has-files job ((n, f) ∷ es) k h =
    ((h.0.0, ap (λ i. Map.get i job.files_to_compile) k.0 ∙ h.0.1), Has-files job es k.1 h.1)

-- A name that no entry has is not found.
status-absent :
    (n : ℕ) (es : List (ℕ × FileToCompile))
    → All (λ e. e.1.file.source_name ≡ e.0) es
    → names n (map (λ e. e.1.file) es) ≡ false
    → emitted (Map.get n es) ≡ none
unfolding Map.get
status-absent n [] k h = refl
status-absent n ((j, f) ∷ es) k h =
    let rest = status-absent n es k.1 in let same = k.0 in ground (arith, rest, same, h)

whole-Joined :
    (job merged : CompilationJob)
    → IsKeyed job
    → (m : CompilationJob) × ((add_files job (get_resolved_files job) merged ≡ ok m)
        × ((m.solidity_config ≡ merged.solidity_config)
            × ((n : ℕ) → status n m ≡ join (status n merged) (status n job))))
unfolding get_resolved_files
whole-Joined job merged k =
    let (m, (runs, j)) =
      add_files-Joined job (get_resolved_files job) merged
        (Has-files job job.files_to_compile k (get-entries job.files_to_compile)) in
    (
      m,
      (
        runs,
        (
          j.config,
          λ n. elim (Bool-cases (names n (get_resolved_files job))) [
            | inl t ↦ j.files_of n ∙ rw t refl
            | inr t ↦
                let a = status-absent n job.files_to_compile k t in
                j.files_of n ∙ rw (t, a) (sym (join_none (status n merged)))
          ],
        ),
      ),
    )
  where
    join_none : (a : Option Bool) → join a none ≡ a
    join_none none = refl
    join_none (some a) = refl

-- If the files of both jobs are filed under their own names and lodash finds the configurations
-- equal, `merge` returns a job of the second's configuration, which has just the files of the two;
-- a file emits artifacts in it if it does in one of the two.
pub merge_lem :
    (lib : JobLib) (this job : CompilationJob)
    → IsKeyed this
    → IsKeyed job
    → lib.is_equal this.solidity_config job.solidity_config ≡ true
    → (m : CompilationJob) × ((merge lib this job ≡ ok m)
        × ((m.solidity_config ≡ job.solidity_config)
            × ((n : ℕ) → status n m ≡ join (status n this) (status n job))))
unfolding merge new_job Map.get
merge_lem lib this job k l e =
    let (first, (runs_1, (c_1, s_1))) = whole-Joined this (new_job job.solidity_config) k in
    let (second, (runs_2, (c_2, s_2))) = whole-Joined job first l in
    (
      second,
      (rw (e, runs_1) runs_2, (c_2 ∙ c_1, λ n. s_2 n ∙ ap (λ s. join s (status n job)) (s_1 n))),
    )
