-- ===== src/Tests/Jobs.antt =====
-- Tests and witnesses for compilation jobs.
use polkahat.Prelude.{ℕ, ◌≡◌, refl, [], ◌∷◌, true, false}
use polkahat.Prelude.Outcome.{ok}
use polkahat.Map
use polkahat.Compilation.Jobs.{
  SolcConfig, CompilationJob, JobLib, new_job, add_file_to_compile, get_resolved_files,
  emits_artifacts, add_files, has_solc_9573_bug, merge, merged_jobs, merge_all,
  merge_compilation_jobs, merge_compilation_jobs_with_bug,
}
use polkahat.Compilation.Merging.{status, join, merge_lem}

program : Unit {0}
unfolding new_job add_file_to_compile get_resolved_files emits_artifacts add_files has_solc_9573_bug
    merge merged_jobs merge_all merge_compilation_jobs merge_compilation_jobs_with_bug Map.get
    Map.put
program = tt

abbrev config : SolcConfig
config = record { reference = 1; version = 700; optimizer_enabled = true }

abbrev job_lib : JobLib
job_lib = record {
  is_equal = λ c d. true;
  satisfies_bug_range = λ v. true;
  is_equal-refl = λ c. refl;
}

abbrev job_a : CompilationJob
job_a = record {
  solidity_config = config;
  files_to_compile =
      (1, record { file = record { source_name = 1; content = 0 }; emits_artifacts = true })
      ∷ (2, record { file = record { source_name = 2; content = 0 }; emits_artifacts = false })
      ∷ [];
}

abbrev job_b : CompilationJob
job_b = record {
  solidity_config = config;
  files_to_compile =
      (2, record { file = record { source_name = 2; content = 0 }; emits_artifacts = true }) ∷ [];
}

abbrev both : CompilationJob
both = record {
  solidity_config = config;
  files_to_compile =
      (1, record { file = record { source_name = 1; content = 0 }; emits_artifacts = true })
      ∷ (2, record { file = record { source_name = 2; content = 0 }; emits_artifacts = true })
      ∷ [];
}

merges_buggy : merge_compilation_jobs_with_bug job_lib (job_a ∷ job_b ∷ []) ≡ ok (both ∷ [])
unfolding program
merges_buggy = refl

merge_lem_example :
    (m : CompilationJob) × ((merge job_lib job_a job_b ≡ ok m)
      × ((m.solidity_config ≡ config)
          × ((n : ℕ) → status n m ≡ join (status n job_a) (status n job_b))))
merge_lem_example = merge_lem job_lib job_a job_b (refl, (refl, tt)) (refl, tt) refl
