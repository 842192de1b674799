-- ===== src/Compilation/Jobs.antt =====
-- internal/solidity/compilation-job.ts: compilation jobs, and how the jobs of one compiler are
-- merged. A source name is a number; a compiler configuration is its `reference`, by which the
-- source's `Map` tells configurations apart, and the fields that are read here. lodash's `isEqual`
-- and the test of a version against the range of the solc bug are parameters.
use polkahat.Prelude.{
  ◌⊎◌, inl, inr, ℕ, List, [], ◌∷◌, ◌++◌, Bool, true, false, not, ◌&&◌, ◌||◌, Option, none, some,
  map, if◌then◌else◌, ◌≡◌,
}
use polkahat.Prelude.Outcome.{Result, ok, throw}
use polkahat.Map

pub record SolcConfig : Type 0 where
  pub reference : ℕ
  pub version : ℕ
  pub optimizer_enabled : Bool

pub record ResolvedFile : Type 0 where
  pub source_name : ℕ
  pub content : ℕ

pub record FileToCompile : Type 0 where
  pub file : ResolvedFile
  pub emits_artifacts : Bool

pub record CompilationJob : Type 0 where
  pub solidity_config : SolcConfig
  pub files_to_compile : List (ℕ × FileToCompile)

pub data Error : Type 0 where
  different_configurations file_does_not_exist more_than_one_mergeable : Error

-- lodash and semver.
pub record JobLib : Type 0 where
  pub is_equal : SolcConfig → SolcConfig → Bool
  pub satisfies_bug_range : ℕ → Bool
  pub is_equal-refl : (c : SolcConfig) → is_equal c c ≡ true

abbrev pub and_then {ℓ κ} :
    {A : Type ℓ} {B : Type κ} → Result Error A → (A → Result Error B) → Result Error B
and_then (ok a) f = f a
and_then (throw e) f = throw e

unfoldable pub new_job : SolcConfig → CompilationJob
new_job config = record { solidity_config = config; files_to_compile = [] }

abbrev is_undefined {ℓ} : {A : Type ℓ} → Option A → Bool
is_undefined none = true
is_undefined (some a) = false

unfoldable pub add_file_to_compile : ResolvedFile → Bool → CompilationJob → CompilationJob
add_file_to_compile file emits_artifacts job =
    if is_undefined (Map.get file.source_name job.files_to_compile) || emits_artifacts
    then record job {
      files_to_compile =
          Map.put file.source_name (record { file = file; emits_artifacts = emits_artifacts })
            job.files_to_compile;
    }
    else job

unfoldable pub get_resolved_files : CompilationJob → List ResolvedFile
get_resolved_files job = map (λ e. e.1.file) job.files_to_compile

unfoldable pub is_empty_job : CompilationJob → Bool
is_empty_job job = elim job.files_to_compile [ [] ↦ true | x ∷ xs ↦ false ]

abbrev pub emits : Option FileToCompile → Result Error Bool
emits none = throw file_does_not_exist
emits (some f) = ok f.emits_artifacts

unfoldable pub emits_artifacts : CompilationJob → ResolvedFile → Result Error Bool
emits_artifacts job file = emits (Map.get file.source_name job.files_to_compile)

-- A loop of `merge`.
unfoldable pub add_files :
    CompilationJob → List ResolvedFile → CompilationJob → Result Error CompilationJob
unfolding emits_artifacts add_file_to_compile
add_files job [] merged = ok merged
add_files job (file ∷ files) merged =
    and_then (emits_artifacts job file) λ e. add_files job files (add_file_to_compile file e merged)

module _ (lib : JobLib) where
  unfoldable pub has_solc_9573_bug : CompilationJob → Bool
  has_solc_9573_bug job =
      job.solidity_config.optimizer_enabled && lib.satisfies_bug_range job.solidity_config.version

  unfoldable pub merge : CompilationJob → CompilationJob → Result Error CompilationJob
  unfolding add_files get_resolved_files new_job
  merge this job =
      if lib.is_equal this.solidity_config job.solidity_config
      then and_then (add_files this (get_resolved_files this) (new_job job.solidity_config))
          (add_files job (get_resolved_files job))
      else throw different_configurations

  -- One round of the loop of `mergeCompilationJobs`, given the jobs that the map has for the
  -- configuration.
  unfoldable pub merged_jobs :
      Bool → CompilationJob → Option (List CompilationJob) → Result Error (List CompilationJob)
  unfolding merge
  merged_jobs true job none = ok (job ∷ [])
  merged_jobs true job (some (first ∷ [])) = and_then (merge first job) λ n. ok (n ∷ [])
  merged_jobs true job (some []) = throw more_than_one_mergeable
  merged_jobs true job (some (a ∷ b ∷ rest)) = throw more_than_one_mergeable
  merged_jobs false job none = ok (job ∷ [])
  merged_jobs false job (some jobs) = ok (jobs ++ job ∷ [])

  unfoldable pub merge_all :
      (CompilationJob → Bool)
      → List CompilationJob
      → List (ℕ × List CompilationJob)
      → Result Error (List (ℕ × List CompilationJob))
  unfolding merged_jobs
  merge_all is_mergeable [] jobs_map = ok jobs_map
  merge_all is_mergeable (job ∷ jobs) jobs_map =
      let key = job.solidity_config.reference in
      and_then (merged_jobs (is_mergeable job) job (Map.get key jobs_map))
        λ here. merge_all is_mergeable jobs (Map.put key here jobs_map)

  abbrev pub concat : List (List CompilationJob) → List CompilationJob
  concat [] = []
  concat (xs ∷ xss) = xs ++ concat xss

  unfoldable pub merge_compilation_jobs :
      List CompilationJob → (CompilationJob → Bool) → Result Error (List CompilationJob)
  unfolding merge_all
  merge_compilation_jobs jobs is_mergeable =
      and_then (merge_all is_mergeable jobs []) λ m. ok (concat (Map.values m))

  unfoldable pub merge_compilation_jobs_with_bug :
      List CompilationJob → Result Error (List CompilationJob)
  unfolding merge_compilation_jobs has_solc_9573_bug
  merge_compilation_jobs_with_bug jobs = merge_compilation_jobs jobs has_solc_9573_bug

  unfoldable pub merge_compilation_jobs_without_bug :
      List CompilationJob → Result Error (List CompilationJob)
  unfolding merge_compilation_jobs has_solc_9573_bug
  merge_compilation_jobs_without_bug jobs =
      merge_compilation_jobs jobs (λ job. not (has_solc_9573_bug job))

  -- The loop of `createCompilationJobsFromConnectedComponent`: the jobs and the errors, in order.
  -- `get_from_file` is given by the caller.
  unfoldable pub jobs_of_files :
      {E : Type 0}
      → (ResolvedFile → CompilationJob ⊎ E)
      → List ResolvedFile
      → List CompilationJob × List E
  jobs_of_files get_from_file [] = ([], [])
  jobs_of_files get_from_file (file ∷ files) =
      let (jobs, errors) = jobs_of_files get_from_file files in
      elim (get_from_file file) [ inl job ↦ (job ∷ jobs, errors) | inr e ↦ (jobs, e ∷ errors) ]

  unfoldable pub create_compilation_jobs_from_connected_component :
      {E : Type 0}
      → List ResolvedFile
      → (ResolvedFile → CompilationJob ⊎ E)
      → Result Error (List CompilationJob × List E)
  unfolding jobs_of_files merge_compilation_jobs_with_bug
  create_compilation_jobs_from_connected_component files get_from_file =
      let (jobs, errors) = jobs_of_files get_from_file files in
      and_then (merge_compilation_jobs_with_bug jobs) λ merged. ok (merged, errors)
