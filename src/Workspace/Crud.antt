-- ===== src/Workspace/Crud.antt =====
-- The endpoints of backend/api/crud.py for one user, each with the state that it leaves. The id of a
-- new row is drawn by the caller.
pub mod Outcomes
pub mod Views
pub mod Hidden
pub mod Isolation
pub mod Integrity
pub mod Variants
pub mod Preserved
pub mod Pages
use llm_evaluation_platform.Common.{
  ℕ, ◌+◌, Bool, Option, none, some, List, [], ◌∷◌, ◌++◌, ltb, ◌==◌, if◌then◌else◌, length, filter,
  take, drop,
}
use llm_evaluation_platform.Workspace.Models.{Project, Dataset, DatasetItem, Variant, Database}
use llm_evaluation_platform.Workspace.Tables.{change}
use llm_evaluation_platform.Workspace.Database.{
  constraints, remove_project, remove_dataset, remove_variant, remove_item,
}
use llm_evaluation_platform.Workspace.Schemas.{
  Field, value, set, set_optional, NamedCreate, NamedUpdate, DatasetItemCreate, DatasetItemUpdate,
  VariantCreate, VariantUpdate, nulls_in_named, nulls_in_item, nulls_in_variant,
}
use llm_evaluation_platform.Workspace.Ownership.{
  Answer, ok, not_found, conflict, unprocessable, bad_request, unavailable, server_error,
  get_owned_project, get_owned_dataset, get_owned_dataset_item, get_owned_variant,
  get_owned_provider_credential, projects_of,
}

-- `_commit`: IntegrityError rolls back and becomes 409.
abbrev pub commit : {A : Type 0} → Database → Database → A → Answer A × Database
commit db changed a = if constraints changed then (ok a, changed) else (conflict, db)

-- A lookup that raises ends the handler.
abbrev pub found :
    {A B : Type 0} → Answer A → Database → (A → Answer B × Database) → Answer B × Database
found (ok a) db k = k a
found not_found db k = (not_found, db)
found conflict db k = (conflict, db)
found unprocessable db k = (unprocessable, db)
found bad_request db k = (bad_request, db)
found unavailable db k = (unavailable, db)
found server_error db k = (server_error, db)

-- What `_create` and `_update` do to a table.
abbrev pub add_project : Project → Database → Database
add_project p db = record db { projects = db.projects ++ p ∷ [] }

abbrev pub add_dataset : Dataset → Database → Database
add_dataset d db = record db { datasets = db.datasets ++ d ∷ [] }

abbrev pub add_item : DatasetItem → Database → Database
add_item i db = record db { dataset_items = db.dataset_items ++ i ∷ [] }

abbrev pub add_variant : Variant → Database → Database
add_variant v db = record db { variants = db.variants ++ v ∷ [] }

abbrev pub change_project : ℕ → (Project → Project) → Database → Database
change_project k f db = record db { projects = change (λ (p : Project). p.id == k) f db.projects }

abbrev pub change_dataset : ℕ → (Dataset → Dataset) → Database → Database
change_dataset k f db = record db { datasets = change (λ (d : Dataset). d.id == k) f db.datasets }

abbrev pub change_item : ℕ → (DatasetItem → DatasetItem) → Database → Database
change_item k f db = record db {
  dataset_items = change (λ (i : DatasetItem). i.id == k) f db.dataset_items;
}

abbrev pub change_variant : ℕ → (Variant → Variant) → Database → Database
change_variant k f db = record db { variants = change (λ (v : Variant). v.id == k) f db.variants }

-- The assignments of a PATCH.
unfoldable pub patch_project : NamedUpdate → Project → Project
patch_project u p = record p {
  name = set u.name p.name;
  description = set_optional u.description p.description;
}

unfoldable pub patch_dataset : NamedUpdate → Dataset → Dataset
patch_dataset u d = record d {
  name = set u.name d.name;
  description = set_optional u.description d.description;
}

unfoldable pub patch_item : DatasetItemUpdate → DatasetItem → DatasetItem
patch_item u i = record i {
  external_id = set u.external_id i.external_id;
  input = set u.input i.input;
  expected_output = set u.expected_output i.expected_output;
  keywords = set u.keywords i.keywords;
}

unfoldable pub patch_variant : VariantUpdate → Variant → Variant
patch_variant u v = record v {
  credential_id = set_optional u.credential_id v.credential_id;
  name = set u.name v.name;
  model = set u.model v.model;
  provider = set u.provider v.provider;
  temperature = set u.temperature v.temperature;
  max_tokens = set_optional u.max_tokens v.max_tokens;
  system_prompt = set_optional u.system_prompt v.system_prompt;
  timeout_seconds = set u.timeout_seconds v.timeout_seconds;
  max_retries = set u.max_retries v.max_retries;
}

-- The credential that a payload names is looked up among the user's.
abbrev pub check_credential : ℕ → Option ℕ → Database → Answer (Unit {0})
check_credential user none db = ok tt
check_credential user (some k) db = elim (get_owned_provider_credential user k db) [
  | ok c ↦ ok tt
  | not_found ↦ not_found
  | conflict ↦ conflict
  | unprocessable ↦ unprocessable
  | bad_request ↦ bad_request
  | unavailable ↦ unavailable
  | server_error ↦ server_error
]

abbrev pub sent : Field ℕ → Option ℕ
sent (value k) = some k
sent _ = none

abbrev pub page {ℓ} : {A : Type ℓ} → ℕ → ℕ → List A → List A
page offset limit xs = take limit (drop offset xs)

pub record DatasetItemPage : Type 0 where
  pub items : List DatasetItem
  pub total : ℕ
  pub offset : ℕ
  pub limit : ℕ
  pub has_more : Bool

module _ (user : ℕ) where
  unfoldable pub create_project : ℕ → NamedCreate → Database → Answer Project × Database
  create_project id payload db =
      let row : Project = record {
        id = id;
        owner_id = user;
        name = payload.name;
        description = payload.description;
      } in
      commit db (add_project row db) row

  unfoldable pub list_projects : ℕ → ℕ → Database → List Project
  list_projects offset limit db = page offset limit (projects_of user db)

  unfoldable pub update_project : ℕ → NamedUpdate → Database → Answer Project × Database
  update_project k payload db =
      if nulls_in_named payload
      then (unprocessable, db)
      else found (get_owned_project user k db) db
          λ p. commit db (change_project k (patch_project payload) db) (patch_project payload p)

  unfoldable pub delete_project : ℕ → Database → Answer (Unit {0}) × Database
  delete_project k db =
      found (get_owned_project user k db) db λ p. commit db (remove_project k db) tt

  unfoldable pub create_dataset : ℕ → ℕ → NamedCreate → Database → Answer Dataset × Database
  create_dataset id project_id payload db = found (get_owned_project user project_id db) db λ p.
      (let row : Dataset = record {
        id = id;
        project_id = project_id;
        name = payload.name;
        description = payload.description;
      } in
        commit db (add_dataset row db) row)

  unfoldable pub list_datasets : ℕ → ℕ → ℕ → Database → Answer (List Dataset) × Database
  list_datasets project_id offset limit db = found (get_owned_project user project_id db) db λ p. (
    ok (page offset limit (filter (λ (d : Dataset). d.project_id == project_id) db.datasets)),
    db,
  )

  unfoldable pub update_dataset : ℕ → NamedUpdate → Database → Answer Dataset × Database
  update_dataset k payload db =
      if nulls_in_named payload
      then (unprocessable, db)
      else found (get_owned_dataset user k db) db
          λ d. commit db (change_dataset k (patch_dataset payload) db) (patch_dataset payload d)

  unfoldable pub delete_dataset : ℕ → Database → Answer (Unit {0}) × Database
  delete_dataset k db =
      found (get_owned_dataset user k db) db λ d. commit db (remove_dataset k db) tt

  unfoldable pub create_dataset_item :
      ℕ → ℕ → DatasetItemCreate → Database → Answer DatasetItem × Database
  create_dataset_item id dataset_id payload db =
      found (get_owned_dataset user dataset_id db) db λ d.
        (let row : DatasetItem = record {
          id = id;
          dataset_id = dataset_id;
          external_id = payload.external_id;
          input = payload.input;
          expected_output = payload.expected_output;
          keywords = payload.keywords;
        } in
          commit db (add_item row db) row)

  -- The items of a dataset.
  abbrev pub items_in : ℕ → Database → List DatasetItem
  items_in dataset_id db = filter (λ (i : DatasetItem). i.dataset_id == dataset_id) db.dataset_items

  unfoldable pub list_dataset_items : ℕ → ℕ → ℕ → Database → Answer (List DatasetItem) × Database
  list_dataset_items dataset_id offset limit db =
      found (get_owned_dataset user dataset_id db) db
        λ d. (ok (page offset limit (items_in dataset_id db)), db)

  unfoldable pub get_dataset_item_page : ℕ → ℕ → ℕ → Database → Answer DatasetItemPage × Database
  get_dataset_item_page dataset_id offset limit db =
      found (get_owned_dataset user dataset_id db) db λ d.
        (let all_items = items_in dataset_id db in
          let items = page offset limit all_items in
          (
            ok (record {
              items = items;
              total = length all_items;
              offset = offset;
              limit = limit;
              has_more = ltb (offset + length items) (length all_items);
            }),
            db,
          ))

  unfoldable pub update_dataset_item :
      ℕ → DatasetItemUpdate → Database → Answer DatasetItem × Database
  update_dataset_item k payload db =
      if nulls_in_item payload
      then (unprocessable, db)
      else found (get_owned_dataset_item user k db) db
          λ i. commit db (change_item k (patch_item payload) db) (patch_item payload i)

  unfoldable pub delete_dataset_item : ℕ → Database → Answer (Unit {0}) × Database
  delete_dataset_item k db =
      found (get_owned_dataset_item user k db) db λ i. commit db (remove_item k db) tt

  unfoldable pub create_variant : ℕ → ℕ → VariantCreate → Database → Answer Variant × Database
  create_variant id project_id payload db = found (get_owned_project user project_id db) db λ p.
      found (check_credential user payload.credential_id db) db λ c.
        (let row : Variant = record {
          id = id;
          project_id = project_id;
          credential_id = payload.credential_id;
          name = payload.name;
          model = payload.model;
          provider = payload.provider;
          temperature = payload.temperature;
          max_tokens = payload.max_tokens;
          system_prompt = payload.system_prompt;
          timeout_seconds = payload.timeout_seconds;
          max_retries = payload.max_retries;
        } in
          commit db (add_variant row db) row)

  unfoldable pub list_variants : ℕ → ℕ → ℕ → Database → Answer (List Variant) × Database
  list_variants project_id offset limit db = found (get_owned_project user project_id db) db λ p. (
    ok (page offset limit (filter (λ (v : Variant). v.project_id == project_id) db.variants)),
    db,
  )

  unfoldable pub update_variant : ℕ → VariantUpdate → Database → Answer Variant × Database
  update_variant k payload db =
      if nulls_in_variant payload
      then (unprocessable, db)
      else found (get_owned_variant user k db) db λ v.
        found (check_credential user (sent payload.credential_id) db) db
          λ c. commit db (change_variant k (patch_variant payload) db) (patch_variant payload v)

  unfoldable pub delete_variant : ℕ → Database → Answer (Unit {0}) × Database
  delete_variant k db =
      found (get_owned_variant user k db) db λ v. commit db (remove_variant k db) tt

-- A request that writes.
pub data Request : Type 0 where
  post_project : ℕ → NamedCreate → Request
  patch_project_at : ℕ → NamedUpdate → Request
  delete_project_at : ℕ → Request
  post_dataset : ℕ → ℕ → NamedCreate → Request
  patch_dataset_at : ℕ → NamedUpdate → Request
  delete_dataset_at : ℕ → Request
  post_item : ℕ → ℕ → DatasetItemCreate → Request
  patch_item_at : ℕ → DatasetItemUpdate → Request
  delete_item_at : ℕ → Request
  post_variant : ℕ → ℕ → VariantCreate → Request
  patch_variant_at : ℕ → VariantUpdate → Request
  delete_variant_at : ℕ → Request

unfoldable pub apply : ℕ → Request → Database → Database
apply user (post_project id payload) db = (create_project user id payload db).1
apply user (patch_project_at k payload) db = (update_project user k payload db).1
apply user (delete_project_at k) db = (delete_project user k db).1
apply user (post_dataset id project_id payload) db =
    (create_dataset user id project_id payload db).1
apply user (patch_dataset_at k payload) db = (update_dataset user k payload db).1
apply user (delete_dataset_at k) db = (delete_dataset user k db).1
apply user (post_item id dataset_id payload) db =
    (create_dataset_item user id dataset_id payload db).1
apply user (patch_item_at k payload) db = (update_dataset_item user k payload db).1
apply user (delete_item_at k) db = (delete_dataset_item user k db).1
apply user (post_variant id project_id payload) db =
    (create_variant user id project_id payload db).1
apply user (patch_variant_at k payload) db = (update_variant user k payload db).1
apply user (delete_variant_at k) db = (delete_variant user k db).1
