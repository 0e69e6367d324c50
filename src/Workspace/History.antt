-- ===== src/Workspace/History.antt =====
-- Requests of all users on their work, one after the other, from the empty database on.
use llm_evaluation_platform.Common.{
  ℕ, String, ◌≡◌, refl, ◌∙◌, Bool, true, false, List, [], ◌∷◌, arith, ◌==◌, any, filter, All,
}
use llm_evaluation_platform.Runs.Models.{EvaluationRun}
use llm_evaluation_platform.Runs.Execution.{is_foreign}
use llm_evaluation_platform.Workspace.Models.{Database}
use llm_evaluation_platform.Workspace.Tables.{unique_by}
use llm_evaluation_platform.Workspace.Database.{
  constraints, primary_keys, unique_constraints, foreign_keys, check_constraints,
}
use llm_evaluation_platform.Workspace.Schemas.{EvaluationRunCreate}
use llm_evaluation_platform.Workspace.Crud.{Request, apply}
use llm_evaluation_platform.Workspace.Crud.Views.{SameFor, same}
use llm_evaluation_platform.Workspace.Crud.Isolation.{apply-SameFor}
use llm_evaluation_platform.Workspace.Crud.Integrity.{IsConsistent, project_owned}
use llm_evaluation_platform.Workspace.Crud.Preserved.{apply-IsConsistent}
use llm_evaluation_platform.Workspace.Credentials.Cipher.{CredentialPayload, CipherLibrary}
use llm_evaluation_platform.Workspace.Credentials.{CredentialRequest, apply_credential}
use llm_evaluation_platform.Workspace.Credentials.Isolation.{apply_credential-SameFor}
use llm_evaluation_platform.Workspace.Credentials.Preserved.{apply_credential-IsConsistent}
use llm_evaluation_platform.Common.{Option}
use llm_evaluation_platform.Workspace.Import.{Files}
use llm_evaluation_platform.Workspace.Import.Upload.{import_dataset_file}
use llm_evaluation_platform.Workspace.Import.Kept.{import-IsConsistent, import-SameFor}
use llm_evaluation_platform.Workspace.Runs.{Scheduled, create_evaluation_run}
use llm_evaluation_platform.Workspace.Runs.Isolation.{create_evaluation_run-SameFor}
use llm_evaluation_platform.Workspace.Runs.Preserved.{create_evaluation_run-IsConsistent}
use llm_evaluation_platform.Workspace.Runs.Inputs.{run_inputs, run_inputs_own}

pub data Action : Type 0 where
  on_work : Request → Action
  on_credentials : CredentialRequest → Action
  post_run : ℕ → EvaluationRunCreate → Scheduled → ℕ → Action
  -- The id of the dataset, the ids of its items, the project, the name of the file, its bytes, and the form.
  post_file : ℕ → (ℕ → ℕ) → ℕ → Option String → List ℕ → Option String → Option String → Action

abbrev pub empty_database : Database
empty_database = record {
  projects = [];
  datasets = [];
  dataset_items = [];
  variants = [];
  credentials = [];
  runs = [];
  run_variants = [];
  results = [];
}

pub empty-IsConsistent : IsConsistent empty_database
unfolding constraints primary_keys unique_constraints foreign_keys check_constraints unique_by
empty-IsConsistent = record {
  constrained = refl;
  credentials_owned = refl;
  datasets_in_project = refl;
  variants_in_project = refl;
}

keys_of : (db : Database) → IsConsistent db → primary_keys db ≡ true
unfolding constraints
keys_of db s = ground (arith, s.constrained)

then_same : (u : ℕ) (a b c : Database) → SameFor u b a → SameFor u c b → SameFor u c a
then_same u a b c h k = record {
  projects = k.projects ∙ h.projects;
  datasets = k.datasets ∙ h.datasets;
  items = k.items ∙ h.items;
  variants = k.variants ∙ h.variants;
  credentials = k.credentials ∙ h.credentials;
  runs = k.runs ∙ h.runs;
  results = k.results ∙ h.results;
  run_variants = k.run_variants ∙ h.run_variants;
}

module _ (l : CipherLibrary) (tester : ℕ → String → CredentialPayload → Bool) {V : Type 0}
    (f : Files V) (valid_name : String → Option String) where
  unfoldable pub perform : ℕ → Action → Database → Database
  perform user (on_work q) db = apply user q db
  perform user (on_credentials q) db = apply_credential l tester user q db
  perform user (post_run id payload answer now) db =
      (create_evaluation_run user id payload answer now db).1
  perform user (post_file id draw project_id upload_name file name description) db =
      (import_dataset_file f valid_name user id draw project_id upload_name file name description
        db).1

  -- The requests with the users who make them.
  unfoldable pub replay : List (ℕ × Action) → Database → Database
  unfolding perform
  replay [] db = db
  replay ((user, a) ∷ rest) db = replay rest (perform user a db)

  perform-IsConsistent :
      (user : ℕ) (a : Action) (db : Database) → IsConsistent db → IsConsistent (perform user a db)
  unfolding perform
  perform-IsConsistent user (on_work q) db s = apply-IsConsistent user db s q
  perform-IsConsistent user (on_credentials q) db s =
      apply_credential-IsConsistent l tester user db s q
  perform-IsConsistent user (post_run id payload answer now) db s =
      create_evaluation_run-IsConsistent user db s id payload answer now
  perform-IsConsistent user (post_file id draw project_id upload_name file name description) db s =
      import-IsConsistent f valid_name user draw db id project_id upload_name file name description
        s

  -- Any requests of any users on projects, datasets, items, variants, credentials, new runs and imports keep a
  -- consistent database consistent: its constraints hold, each variant's credential belongs to the owner
  -- of the variant's project, and the dataset and the variants of a run are of the run's project.
  pub replay-IsConsistent :
      (log : List (ℕ × Action)) (db : Database) → IsConsistent db → IsConsistent (replay log db)
  unfolding replay
  replay-IsConsistent [] db s = s
  replay-IsConsistent ((user, a) ∷ rest) db s =
      replay-IsConsistent rest (perform user a db) (perform-IsConsistent user a db s)

  perform-SameFor :
      (u user : ℕ) (a : Action) (db : Database)
      → (user == u) ≡ false
      → IsConsistent db
      → SameFor u (perform user a db) db
  unfolding perform
  perform-SameFor u user (on_work q) db ne s =
      apply-SameFor u user ne db (keys_of db s) q s.variants_in_project
  perform-SameFor u user (on_credentials q) db ne s =
      apply_credential-SameFor l tester u user ne db (keys_of db s) q
  perform-SameFor u user (post_run id payload answer now) db ne s =
      create_evaluation_run-SameFor u user ne db (keys_of db s) id payload answer now
  perform-SameFor u user (post_file id draw project_id upload_name file name description) db ne s =
      import-SameFor f valid_name user draw db u ne (keys_of db s) id project_id upload_name file
        name description

  -- Whatever requests other users make on projects, datasets, items, variants and credentials, to create
  -- runs and to import files, the user's projects, datasets, items, variants, credentials, runs, the
  -- results of these runs and the variants they are linked to are the same before and after, where the
  -- database was consistent at first. Cancellations and the steps of the workers are not among these requests.
  pub replay-SameFor :
      (u : ℕ) (log : List (ℕ × Action)) (db : Database)
      → All (λ (a : ℕ × Action). (a.0 == u) ≡ false) log
      → IsConsistent db
      → SameFor u (replay log db) db
  unfolding replay
  replay-SameFor u [] db h s = same u db
  replay-SameFor u ((user, a) ∷ rest) db h s =
      then_same u db (perform user a db) (replay rest (perform user a db))
        (perform-SameFor u user a db h.0 s)
        (replay-SameFor u rest (perform user a db) h.1 (perform-IsConsistent user a db s))

  -- Whatever requests all users have made since the empty database, the worker that loads a run finds
  -- no variant with the credential of anyone but the owner of the run's project.
  pub reached_runs_own :
      (log : List (ℕ × Action)) (r : EvaluationRun) (str : ℕ → String) (owner : ℕ)
      → filter (λ (x : EvaluationRun). x.id == r.id) (replay log empty_database).runs ≡ r ∷ []
      → project_owned (replay log empty_database) r.project_id owner ≡ true
      → any (is_foreign owner) (run_inputs str (replay log empty_database) r owner).variants ≡ false
  reached_runs_own log r str owner e h =
      run_inputs_own (replay log empty_database)
        (replay-IsConsistent log empty_database empty-IsConsistent) r e str owner h
