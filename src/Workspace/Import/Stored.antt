-- ===== src/Workspace/Import/Stored.antt =====
-- What an import leaves in the database.
use llm_evaluation_platform.Common.{
  ℕ, suc, String, ◌≡◌, refl, sym, ap, Bool, ◌∙◌, ◌⊎◌, inl, inr, true, false, Option, none, some,
  List, [], ◌∷◌, ◌++◌, map, arith, ◌==◌, ==_iff, Bool-cases, length, filter, all, take,
  filter-append,
}
use llm_evaluation_platform.Workspace.Import.Rows.{all-in_id_order, in_id_order-perm}
use mathlib.Core.Path.{subst}
use mathlib.Core.List.{Perm}
use llm_evaluation_platform.Workspace.Models.{Project, Dataset, DatasetItem, Database}
use llm_evaluation_platform.Workspace.Database.{constraints, primary_keys, foreign_keys}
use llm_evaluation_platform.Workspace.Schemas.{DatasetItemCreate}
use llm_evaluation_platform.Workspace.Tables.{any-append, unique_by, same_key, has_key}
use llm_evaluation_platform.Workspace.Ownership.{
  Answer, ok, not_found, conflict, bad_request, unavailable, server_error, unprocessable, conflict,
  get_owned_project,
}
use llm_evaluation_platform.Workspace.Crud.{found, items_in}
use llm_evaluation_platform.Workspace.Crud.Integrity.{IsConsistent}
use llm_evaluation_platform.Workspace.Import.{
  Outcome, DatasetImportError, done, failed, ParsedDatasetImport, Files, max_dataset_file_bytes,
  parse_dataset_file, default_dataset_name,
}
use llm_evaluation_platform.Workspace.Import.Upload.{
  DatasetImportRead, or_text, first_text, item_rows, in_id_order, add_import, save_import,
  import_dataset_file, content,
}

pub fresh_key :
    {A : Type 0} (key : A → ℕ) (x : A) (xs : List A)
    → unique_by (same_key key) (xs ++ x ∷ []) ≡ true
    → has_key key (key x) xs ≡ false
unfolding unique_by
fresh_key key x [] h = refl
fresh_key key x (y ∷ xs) h = ground (
  arith,
  fresh_key key x xs,
  h,
  any-append (λ z. key z == key y) xs (x ∷ []),
  ==_iff (key y) (key x),
  ==_iff (key x) (key y),
)

filter-all : {A : Type 0} (q : A → Bool) (xs : List A) → all q xs ≡ true → filter q xs ≡ xs
filter-all q [] h = refl
filter-all q (x ∷ xs) h = ground (arith, filter-all q xs)

abbrev pub is_ok : {A : Type 0} → Answer A → Bool
is_ok (ok a) = true
is_ok _ = false

module _ {V : Type 0} (f : Files V) (valid_name : String → Option String) (user : ℕ)
    (draw : ℕ → ℕ) where
  contents : (n id : ℕ) (is : List DatasetItemCreate) → map content (item_rows draw n id is) ≡ is
  unfolding item_rows
  contents n id [] = refl
  contents n id (i ∷ is) = ap (λ r. i ∷ r) (contents (suc n) id is)

  of_dataset :
      (n id : ℕ) (is : List DatasetItemCreate)
      → all (λ (i : DatasetItem). i.dataset_id == id) (item_rows draw n id is) ≡ true
  unfolding item_rows
  of_dataset n id [] = refl
  of_dataset n id (i ∷ is) = ground (arith, of_dataset (suc n) id is, ==_iff id id)

  no_items :
      (id : ℕ) (ds : List Dataset) (is : List DatasetItem)
      → all (λ (i : DatasetItem). has_key (λ (d : Dataset). d.id) i.dataset_id ds) is ≡ true
      → has_key (λ (d : Dataset). d.id) id ds ≡ false
      → filter (λ (i : DatasetItem). i.dataset_id == id) is ≡ []
  no_items id ds [] h n = refl
  no_items id ds (i ∷ is) h n = elim (Bool-cases (i.dataset_id == id)) [
    | inl q ↦ absurd (
        let e : i.dataset_id ≡ id = (==_iff i.dataset_id id).0 q in
        ground (arith, n, h, ap (λ k. has_key (λ (d : Dataset). d.id) k ds) e))
    | inr q ↦ ground (arith, q, no_items id ds is)
  ]

  module _ (db : Database) (s : IsConsistent db) where
    stored_items :
        (d : Dataset) (is : List DatasetItemCreate)
        → constraints (add_import d (item_rows draw 0 d.id is) db) ≡ true
        → Perm (map content (items_in user d.id (add_import d (item_rows draw 0 d.id is) db))) is
    unfolding add_import constraints primary_keys foreign_keys
    stored_items d is c =
        let rows = item_rows draw 0 d.id is in
        let own : filter (λ (i : DatasetItem). i.dataset_id == d.id)
              (db.dataset_items ++ in_id_order rows)
            ≡ in_id_order rows =
          filter-append (λ (i : DatasetItem). i.dataset_id == d.id) db.dataset_items
            (in_id_order rows)
          ∙ rw
              (no_items d.id db.datasets db.dataset_items (ground (arith, s.constrained))
                (fresh_key (λ (d : Dataset). d.id) d db.datasets (ground (arith, c))))
              (filter-all (λ (i : DatasetItem). i.dataset_id == d.id) (in_id_order rows)
                (all-in_id_order (λ (i : DatasetItem). i.dataset_id == d.id) rows
                  ∙ of_dataset 0 d.id is)) in
        subst (λ xs. Perm (map content xs) is) (sym own)
          (subst (λ xs. Perm (map content (in_id_order rows)) xs) (contents 0 d.id is)
            (in_id_order-perm rows))

    -- The answer counts the items of the file, and the new dataset has just these, each as often as the file.
    abbrev pub Imported : ParsedDatasetImport → Answer DatasetImportRead × Database → Type 0
    Imported p (answer, db') =
        (r : DatasetImportRead) × (answer ≡ ok r)
        × (r.item_count ≡ length p.items)
        × Perm (map content (items_in user r.dataset.id db')) p.items

    saved :
        (id project_id : ℕ) (name : String) (description : Option String) (p : ParsedDatasetImport)
        → Imported p (save_import f valid_name user id draw project_id name description p.items db)
          ⊎ ((is_ok (save_import f valid_name user id draw project_id name description p.items db).0
                ≡ false)
              × ((save_import f valid_name user id draw project_id name description p.items db).1
                  ≡ db)
              × (constraints (
                    add_import
                      (record {
                        id = id;
                        project_id = project_id;
                        name = name;
                        description = description;
                      })
                      (item_rows draw 0 id p.items)
                      db)
                  ≡ false))
    unfolding save_import
    saved id project_id name description p =
        let d : Dataset = record {
          id = id;
          project_id = project_id;
          name = name;
          description = description;
        } in
        elim (Bool-cases (constraints (add_import d (item_rows draw 0 id p.items) db))) [
          | inr q ↦ inr (rw q (refl, refl, refl))
          | inl q ↦ inl (
              rw q (
                record { dataset = d; item_count = length p.items },
                refl,
                refl,
                stored_items d p.items q,
              ))
        ]

    module _ (id project_id : ℕ) (upload_name : Option String) (file : List ℕ)
        (name description : Option String) where
      abbrev result : Outcome ParsedDatasetImport
      result =
          parse_dataset_file f (or_text upload_name "dataset.jsonl")
            (take (suc max_dataset_file_bytes) file)

      -- The name of the dataset, if it is accepted.
      abbrev accepted_name : ParsedDatasetImport → Option String
      accepted_name p = valid_name (
          or_text name
            (or_text p.name (default_dataset_name f (or_text upload_name "dataset.jsonl"))))

      -- Why an upload is refused: the project is not found, the file or the name is not accepted, or the rows
      -- break a constraint.
      abbrev pub HasReason : Type 0
      HasReason =
          (is_ok (get_owned_project user project_id db) ≡ false)
          ⊎ ((e : DatasetImportError) × (result ≡ failed e))
          ⊎ ((p : ParsedDatasetImport) × (result ≡ done p) × (accepted_name p ≡ none))
          ⊎ ((p : ParsedDatasetImport) × (n : String) × (result ≡ done p)
              × (accepted_name p ≡ some n)
              × (constraints (
                    add_import
                      (record {
                        id = id;
                        project_id = project_id;
                        name = n;
                        description = first_text description p.description;
                      })
                      (item_rows draw 0 id p.items) db)
                  ≡ false))

      -- The answer is an error, nothing has changed, and there is a reason.
      abbrev pub Refused : Answer DatasetImportRead × Database → Type 0
      Refused (answer, db') = (is_ok answer ≡ false) × (db' ≡ db) × HasReason

      abbrev Whole : Answer DatasetImportRead × Database → Type 0
      Whole x = ((p : ParsedDatasetImport) × (result ≡ done p) × Imported p x) ⊎ Refused x

      of_found :
          (r : Answer Project) (k : Project → Answer DatasetImportRead × Database)
          → get_owned_project user project_id db ≡ r
          → ((a : Project) → Whole (k a))
          → Whole (found r db k)
      of_found (ok a) k e h = h a
      of_found not_found k e h = inr (refl, refl, inl (ap is_ok e))
      of_found conflict k e h = inr (refl, refl, inl (ap is_ok e))
      of_found unprocessable k e h = inr (refl, refl, inl (ap is_ok e))
      of_found bad_request k e h = inr (refl, refl, inl (ap is_ok e))
      of_found unavailable k e h = inr (refl, refl, inl (ap is_ok e))
      of_found server_error k e h = inr (refl, refl, inl (ap is_ok e))

      of_name :
          (p : ParsedDatasetImport) (o : Option String)
          → result ≡ done p
          → accepted_name p ≡ o
          → Whole (elim o as (λ _. Answer DatasetImportRead × Database) [
            | none ↦ (unprocessable, db)
            | some n ↦
                save_import f valid_name user id draw project_id n
                  (first_text description p.description)
                  p.items
                  db
          ])
      of_name p none e g = inr (refl, refl, inr (inr (inl (p, e, g))))
      of_name p (some n) e g =
          elim (saved id project_id n (first_text description p.description) p) [
            | inl h ↦ inl (p, e, h)
            | inr h ↦ inr (h.0, h.1, inr (inr (inr (p, n, e, g, h.2))))
          ]

      of_result :
          (o : Outcome ParsedDatasetImport)
          → result ≡ o
          → Whole (elim o as (λ _. Answer DatasetImportRead × Database) [
            | failed e ↦ (unprocessable, db)
            | done p ↦
                elim (valid_name (
                  or_text name (
                    or_text p.name
                      (default_dataset_name f (or_text upload_name "dataset.jsonl"))))) [
                        | none ↦ (unprocessable, db)
                        | some n ↦
                            save_import f valid_name user id draw project_id n
                              (first_text description p.description)
                              p.items
                              db
                      ]
          ])
      of_result (failed r) e = inr (refl, refl, inr (inl (r, e)))
      of_result (done p) e = of_name p (accepted_name p) e refl

      -- An upload to a consistent database is all or nothing. Either the file is accepted, the answer is a
      -- success that counts its items, and what the new dataset holds is a permutation of them, each as it
      -- is in the file; or the answer is an error, the database stays as it was, and there is a reason: the
      -- user has no such project, the file or the name is not accepted, or the rows break a constraint.
      pub import_dataset_file_whole :
          ((p : ParsedDatasetImport) × (parse_dataset_file f
                (or_text upload_name "dataset.jsonl")
                (take (suc max_dataset_file_bytes) file)
              ≡ done p)
            × Imported p (
                import_dataset_file f valid_name user id draw project_id upload_name file name
                  description db))
          ⊎ Refused (
              import_dataset_file f valid_name user id draw project_id upload_name file name
                description db)
      unfolding import_dataset_file
      import_dataset_file_whole =
          of_found (get_owned_project user project_id db) _ refl (λ p. of_result result refl)
