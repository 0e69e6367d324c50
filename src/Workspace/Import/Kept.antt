-- ===== src/Workspace/Import/Kept.antt =====
-- An import leaves a consistent database consistent, and shows to no other user.
use llm_evaluation_platform.Common.{
  ℕ, suc, String, ◌≡◌, refl, ap, ◌∙◌, Bool, true, false, not, all, ◌&&◌, Option, none, some, List,
  [], ◌∷◌, ◌++◌, arith, ◌==◌, filter, any, take, filter-append,
}
use llm_evaluation_platform.Runs.Models.{EvaluationRun}
use llm_evaluation_platform.Workspace.Models.{Dataset, DatasetItem, Database, Project}
use llm_evaluation_platform.Workspace.Database.{constraints, primary_keys, dataset_in}
use llm_evaluation_platform.Workspace.Schemas.{DatasetItemCreate}
use llm_evaluation_platform.Workspace.Tables.{all_mono, any-append, filter-insert, has_key}
use llm_evaluation_platform.Workspace.Ownership.{
  Answer, ok, unprocessable, get_owned_project, owns, owns_dataset, items_of,
}
use llm_evaluation_platform.Workspace.Crud.Outcomes.{found_lem, commit_lem, owned_any}
use llm_evaluation_platform.Workspace.Crud.Views.{SameFor, same, views}
use llm_evaluation_platform.Workspace.Crud.Hidden.{disowned}
use llm_evaluation_platform.Workspace.Crud.Integrity.{IsConsistent}
use llm_evaluation_platform.Workspace.Import.{
  Outcome, done, failed, ParsedDatasetImport, Files, max_dataset_file_bytes, parse_dataset_file,
  default_dataset_name,
}
use llm_evaluation_platform.Workspace.Import.Upload.{
  DatasetImportRead, or_text, first_text, item_rows, in_id_order, add_import, save_import,
  import_dataset_file,
}
use llm_evaluation_platform.Workspace.Import.Stored.{fresh_key}
use llm_evaluation_platform.Workspace.Import.Rows.{all-in_id_order}

module _ {V : Type 0} (f : Files V) (valid_name : String → Option String) (user : ℕ) (draw : ℕ → ℕ)
    (db : Database) where
  -- A handler leaves the database alone, or saves an import into a project that was found.
  import_lem :
      (P : Database → Type 0) (id project_id : ℕ) (upload_name : Option String) (file : List ℕ)
      (name description : Option String)
      → P db
      → ((p : Project) (n : String) (d : Option String) (is : List DatasetItemCreate)
          → get_owned_project user project_id db ≡ ok p
          → P (save_import f valid_name user id draw project_id n d is db).1)
      → P
          (import_dataset_file f valid_name user id draw project_id upload_name file name
            description db).1
  unfolding import_dataset_file
  import_lem P id project_id upload_name file name description h k =
      found_lem P (get_owned_project user project_id db) db _ h λ p e. of_result p e (
        parse_dataset_file f (or_text upload_name "dataset.jsonl")
          (take (suc max_dataset_file_bytes) file))
    where
      of_name :
          (p : Project)
          → get_owned_project user project_id db ≡ ok p
          → (parsed : ParsedDatasetImport) (o : Option String)
          → P
              (elim o as (λ _. Answer DatasetImportRead × Database) [
                | none ↦ (unprocessable, db)
                | some n ↦
                    save_import f valid_name user id draw project_id n
                      (first_text description parsed.description)
                      parsed.items
                      db
              ]).1
      of_name p e parsed none = h
      of_name p e parsed (some n) = k p n (first_text description parsed.description) parsed.items e

      of_result :
          (p : Project)
          → get_owned_project user project_id db ≡ ok p
          → (o : Outcome ParsedDatasetImport)
          → P
              (elim o as (λ _. Answer DatasetImportRead × Database) [
                | failed e ↦ (unprocessable, db)
                | done parsed ↦
                    elim (valid_name (
                      or_text name (
                        or_text parsed.name
                          (default_dataset_name f (or_text upload_name "dataset.jsonl"))))) [
                            | none ↦ (unprocessable, db)
                            | some n ↦
                                save_import f valid_name user id draw project_id n
                                  (first_text description parsed.description)
                                  parsed.items
                                  db
                          ]
              ]).1
      of_result p e (failed r) = h
      of_result p e (done parsed) = of_name p e parsed (
          valid_name (
            or_text name
              (or_text parsed.name (default_dataset_name f (or_text upload_name "dataset.jsonl")))))

  pub import-IsConsistent :
      (id project_id : ℕ) (upload_name : Option String) (file : List ℕ)
      (name description : Option String)
      → IsConsistent db
      → IsConsistent
          (import_dataset_file f valid_name user id draw project_id upload_name file name
            description db).1
  unfolding save_import add_import
  import-IsConsistent id project_id upload_name file name description s =
      import_lem IsConsistent id project_id upload_name file name description s λ p n d is e.
        commit_lem IsConsistent db _ _ s λ c. record {
          constrained = c;
          credentials_owned = s.credentials_owned;
          datasets_in_project =
              all_mono (λ (r : EvaluationRun). dataset_in db r.project_id r.dataset_id)
                (λ r.
                  dataset_in
                    (add_import
                      (record { id = id; project_id = project_id; name = n; description = d })
                      (item_rows draw 0 id is) db)
                    r.project_id r.dataset_id)
                (λ r h. ground (
                  arith,
                  h,
                  any-append (λ (x : Dataset). x.id == r.dataset_id && x.project_id == r.project_id)
                      db.datasets
                      (record { id = id; project_id = project_id; name = n; description = d } ∷ []),
                ))
                db.runs s.datasets_in_project;
          variants_in_project = s.variants_in_project;
        }

  module _ (u : ℕ) (ne : (user == u) ≡ false) (pk : primary_keys db ≡ true) where
    -- A dataset that is new belongs to nobody yet.
    unknown :
        (k : ℕ) (ds : List Dataset)
        → has_key (λ (d : Dataset). d.id) k ds ≡ false
        → any (λ (d : Dataset). d.id == k) (filter (λ (d : Dataset). owns u db d.project_id) ds)
          ≡ false
    unknown k [] h = refl
    unknown k (d ∷ ds) h = ground (arith, unknown k ds)

    not_owned :
        (n id : ℕ) (is : List DatasetItemCreate)
        → owns_dataset u db id ≡ false
        → all (λ (i : DatasetItem). not (owns_dataset u db i.dataset_id)) (item_rows draw n id is)
          ≡ true
    unfolding item_rows
    not_owned n id [] h = refl
    not_owned n id (i ∷ is) h = ground (arith, not_owned (suc n) id is)

    filter_none :
        {A : Type 0} (q : A → Bool) (xs : List A)
        → all (λ x. not (q x)) xs ≡ true
        → filter q xs ≡ []
    filter_none q [] h = refl
    filter_none q (x ∷ xs) h = ground (arith, filter_none q xs)

    hidden_rows :
        (id : ℕ) (is : List DatasetItemCreate)
        → owns_dataset u db id ≡ false
        → filter
            (λ (i : DatasetItem). owns_dataset u db i.dataset_id)
            (in_id_order (item_rows draw 0 id is))
          ≡ []
    hidden_rows id is h =
        filter_none (λ (i : DatasetItem). owns_dataset u db i.dataset_id)
          (in_id_order (item_rows draw 0 id is))
          (all-in_id_order (λ (i : DatasetItem). not (owns_dataset u db i.dataset_id))
              (item_rows draw 0 id is)
            ∙ not_owned 0 id is h)

    append_nil : (xs : List DatasetItem) → xs ++ [] ≡ xs
    append_nil [] = refl
    append_nil (x ∷ xs) = ap (λ r. x ∷ r) (append_nil xs)

    not_mine : (k : ℕ) (p : Project) → get_owned_project user k db ≡ ok p → owns u db k ≡ false
    unfolding get_owned_project
    not_mine k p e =
        disowned u user ne db pk k
          (owned_any (λ (p : Project). p.id == k) (λ p. p.owner_id == user) db.projects p e)

    added-Same :
        (d : Dataset) (is : List DatasetItemCreate)
        → owns u db d.project_id ≡ false
        → constraints (add_import d (item_rows draw 0 d.id is) db) ≡ true
        → SameFor u (add_import d (item_rows draw 0 d.id is) db) db
    unfolding add_import constraints primary_keys
    added-Same d is h c =
        let gone : owns_dataset u db d.id ≡ false =
          unknown d.id db.datasets
            (fresh_key (λ (x : Dataset). x.id) d db.datasets (ground (arith, c))) in
        views u (add_import d (item_rows draw 0 d.id is) db) db refl
          (filter-insert (λ (x : Dataset). owns u db x.project_id) d db.datasets h)
          (filter-append (λ (i : DatasetItem). owns_dataset u db i.dataset_id) db.dataset_items
              (in_id_order (item_rows draw 0 d.id is))
            ∙ ap (λ r. items_of u db ++ r) (hidden_rows d.id is gone)
            ∙ append_nil (items_of u db))
          refl refl refl refl refl

    pub import-SameFor :
        (id project_id : ℕ) (upload_name : Option String) (file : List ℕ)
        (name description : Option String)
        → SameFor u
            (import_dataset_file f valid_name user id draw project_id upload_name file name
              description db).1
            db
    unfolding save_import
    import-SameFor id project_id upload_name file name description =
        import_lem (λ db'. SameFor u db' db) id project_id upload_name file name description
          (same u db)
          λ p n d is e.
            commit_lem (λ db'. SameFor u db' db) db _ _ (same u db)
              λ c.
                added-Same (record { id = id; project_id = project_id; name = n; description = d })
                  is (not_mine project_id p e) c
