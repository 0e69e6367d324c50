-- ===== src/Workspace/Scenarios.antt =====
-- Credentials and whole histories at concrete requests, with a cipher and a JSON text of the simplest kind.
use Prim.Native.Char.{Char, code}
use llm_evaluation_platform.Common.{
  ℕ, String, ◌≡◌, refl, ap, Bool, true, false, Option, none, some, List, [], ◌∷◌, ◌==◌, str_eq,
  if◌then◌else◌, any, All, filter, map,
}
use llm_evaluation_platform.Runs.Models.{pending, EvaluationRun}
use llm_evaluation_platform.Runs.Execution.{is_foreign}
use llm_evaluation_platform.Workspace.Models.{
  ProviderCredential, CredentialStatus, Database, untested, connected,
}
use llm_evaluation_platform.Workspace.Tables.{unique_by}
use llm_evaluation_platform.Workspace.Database.{
  constraints, primary_keys, unique_constraints, foreign_keys, check_constraints,
}
use llm_evaluation_platform.Workspace.Schemas.{unset, value, has_repeat}
use llm_evaluation_platform.Workspace.Ownership.{
  ok, get_owned_project, get_owned_dataset, get_owned_provider_credential,
}
use llm_evaluation_platform.Workspace.Crud.{
  post_project, delete_project_at, post_dataset, post_item, post_variant, create_project,
  create_dataset, create_dataset_item, create_variant, apply,
}
use llm_evaluation_platform.Workspace.Crud.Views.{SameFor}
use llm_evaluation_platform.Workspace.Crud.Integrity.{IsConsistent, project_owned}
use llm_evaluation_platform.Workspace.Import.Tests.{files}
use llm_evaluation_platform.Workspace.Credentials.Cipher.{
  CredentialPayload, text, json_null, Document, malformed, object, field_of, CipherLibrary, payload,
  encrypt, decrypt, decrypt-encrypt, key_hint,
}
use llm_evaluation_platform.Workspace.Credentials.{
  ProviderCredentialUpdate, finish_test, patch_credential, patch_payload, new_credential,
  create_provider_credential, read_credential, update_provider_credential, nulls_in_credential,
  test_provider_credential, post_credential, test_credential_at, apply_credential,
}
use llm_evaluation_platform.Workspace.Credentials.Checked.{IsChecked, apply_credential-IsChecked}
use llm_evaluation_platform.Workspace.Credentials.Overtaken.{SaysTooMuch, test_overtaken}
use llm_evaluation_platform.Workspace.Credentials.{ProviderCredentialRead}
use llm_evaluation_platform.Common.{◌⊎◌}
use llm_evaluation_platform.Workspace.Runs.{
  scheduled, create_evaluation_run, save_run, check_run, add_run, in_order,
}
use llm_evaluation_platform.Workspace.Runs.Inputs.{run_inputs}
use llm_evaluation_platform.Workspace.History.{
  Action, on_work, on_credentials, post_run, empty_database, perform, replay, replay-SameFor,
  replay-IsConsistent, empty-IsConsistent, reached_runs_own,
}

-- Each character of the key after a "k", then "n", or "b" and the base.
abbrev write : String → Option String → String
write String.[] none = "n"
write String.[] (some b) = String.◌∷◌ "b" b
write (String.◌∷◌ c s) o = String.◌∷◌ "k" (String.◌∷◌ c (write s o))

abbrev with_char : Char → Document → Document
with_char c (object (text k) b) = object (text (String.◌∷◌ c k)) b
with_char c d = d

abbrev read : String → Document
read String.[] = malformed
read (String.◌∷◌ m String.[]) =
    if code m == 110 then object (text "") json_null else object (text "") (text "")
read (String.◌∷◌ m (String.◌∷◌ c s)) =
    let rest = read s in
    if code m == 110
    then object (text "") json_null
    else if code m == 98
    then object (text "") (text (String.◌∷◌ c s))
    else with_char c rest

read-write : (k : String) (o : Option String) → read (write k o) ≡ object (text k) (field_of o)
read-write String.[] none = refl
read-write String.[] (some String.[]) = refl
read-write String.[] (some (String.◌∷◌ c s)) = refl
read-write (String.◌∷◌ c s) o = ap (with_char c) (read-write s o)

abbrev plain : CipherLibrary
plain = record {
  encrypt_text = λ n s. s;
  decrypt_text = some;
  dumps = λ p. write p.api_key p.api_base;
  loads = read;
  decrypt_text-encrypt_text = λ n s. refl;
  loads-dumps = λ p. read-write p.api_key p.api_base;
}

abbrev secret : CredentialPayload
secret = record { api_key = "sk-1"; api_base = some "http://h" }

decrypt-encrypt_example : decrypt plain (encrypt plain 0 secret) ≡ payload secret
decrypt-encrypt_example = decrypt-encrypt plain 0 secret refl

abbrev user_1 : List (ℕ × Action)
user_1 =
    (1, on_work (post_project 10 (record { name = "p"; description = none })))
    ∷ (1, on_work (post_dataset 20 10 (record { name = "d"; description = none })))
    ∷ (
      1,
      on_work (
          post_item 30 20
            (record { external_id = "a"; input = "i"; expected_output = "o"; keywords = [] })),
    )
    ∷ (
      1,
      on_credentials (
          post_credential 40 0 1
            (record { provider = "openai"; name = "key"; api_key = "sk-1"; api_base = none })),
    )
    ∷ (
      1,
      on_work (
          post_variant 50 10 (record {
            name = "v";
            model = "m";
            provider = "openai";
            credential_id = some 40;
            temperature = "0";
            max_tokens = none;
            system_prompt = none;
            timeout_seconds = "30";
            max_retries = 2;
          })),
    )
    ∷ (
      1,
      post_run 60
          (record { project_id = 10; dataset_id = 20; variant_ids = 50 ∷ []; concurrency = 3 })
          scheduled 5,
    )
    ∷ []

abbrev user_2 : List (ℕ × Action)
user_2 =
    (2, on_work (post_project 11 (record { name = "p"; description = none })))
    ∷ (2, on_credentials (test_credential_at 40 "m" 7))
    ∷ (2, on_work (delete_project_at 11))
    ∷ []

abbrev tester : ℕ → String → CredentialPayload → Bool
tester now model p = str_eq p.api_key "sk-1"

abbrev the_run : EvaluationRun
the_run = record {
  id = 60;
  project_id = 10;
  dataset_id = 20;
  status = pending;
  concurrency = 3;
  total_tasks = 1;
  completed_tasks = 0;
  started_at = none;
  finished_at = none;
  error = none;
}

-- The first user's run has a result.
abbrev with_result : Database → Database
with_result db = record db {
  results = record { id = 70; run_id = 60; dataset_item_id = 30; variant_id = 50 } ∷ [];
}

all_created :
    filter
      (λ (x : EvaluationRun). x.id == 60)
      (replay plain tester files some user_1 empty_database).runs
    ≡ the_run ∷ []
unfolding replay perform apply create_project create_dataset create_dataset_item create_variant
    apply_credential create_provider_credential new_credential read_credential create_evaluation_run
    save_run check_run add_run in_order has_repeat get_owned_project get_owned_dataset
    get_owned_provider_credential constraints primary_keys unique_constraints foreign_keys
    check_constraints unique_by
all_created = refl

owned_project : project_owned (replay plain tester files some user_1 empty_database) 10 1 ≡ true
unfolding replay perform apply create_project create_dataset create_dataset_item create_variant
    apply_credential create_provider_credential new_credential read_credential create_evaluation_run
    save_run check_run add_run in_order has_repeat get_owned_project get_owned_dataset
    get_owned_provider_credential constraints primary_keys unique_constraints foreign_keys
    check_constraints unique_by
owned_project = refl

reached_runs_own_example :
    any
      (is_foreign 1)
      (run_inputs
        (λ k. "x")
        (replay plain tester files some user_1 empty_database)
        the_run
        1).variants
    ≡ false
reached_runs_own_example =
    reached_runs_own plain tester files some user_1 the_run (λ k. "x") 1 all_created owned_project

replay-IsConsistent_example : IsConsistent (replay plain tester files some user_1 empty_database)
replay-IsConsistent_example =
    replay-IsConsistent plain tester files some user_1 empty_database empty-IsConsistent

with_result-IsConsistent :
    IsConsistent (with_result (replay plain tester files some user_1 empty_database))
unfolding replay perform apply create_project create_dataset create_dataset_item create_variant
    apply_credential create_provider_credential new_credential read_credential create_evaluation_run
    save_run check_run add_run in_order has_repeat get_owned_project get_owned_dataset
    get_owned_provider_credential constraints primary_keys unique_constraints foreign_keys
    check_constraints unique_by
with_result-IsConsistent = record {
  constrained = refl;
  credentials_owned = refl;
  datasets_in_project = refl;
  variants_in_project = refl;
}

-- Nothing that the second user does shows to the first one, whose run has a result.
replay-SameFor_example :
    let db = with_result (replay plain tester files some user_1 empty_database) in
    SameFor 1 (replay plain tester files some user_2 db) db
replay-SameFor_example =
    replay-SameFor plain tester files some 1 user_2
      (with_result (replay plain tester files some user_1 empty_database))
      (refl, (refl, (refl, tt))) with_result-IsConsistent

abbrev fresh : ProviderCredential
fresh = record {
  id = 40;
  user_id = 1;
  provider = "openai";
  name = "key";
  encrypted_payload = "kskkk-k1n";
  key_hint = "••••sk-1";
  status = untested;
  last_checked_at = none;
  last_used_at = none;
  updated_at = 1;
}

abbrev one_credential : Database
one_credential = record empty_database { credentials = fresh ∷ [] }

one_credential_keys : primary_keys one_credential ≡ true
unfolding primary_keys unique_by
one_credential_keys = refl

-- The provider accepts the key, and the credential is connected.
accepted :
    map
      (λ (c : ProviderCredential). c.status)
      (apply_credential plain tester 1 (test_credential_at 40 "m" 7) one_credential).credentials
    ≡ connected ∷ []
unfolding apply_credential test_provider_credential get_owned_provider_credential decrypt
    finish_test constraints primary_keys unique_constraints foreign_keys check_constraints unique_by
accepted = refl

abbrev new_key : ProviderCredentialUpdate
new_key = record { name = unset; api_key = value "sk-2"; api_base = unset }

-- The same test, with a new key that is saved before it ends: a key that the provider would refuse is connected.
overtaken :
    map {B = CredentialStatus × String}
      (λ (c : ProviderCredential). (c.status, c.encrypted_payload))
      (test_provider_credential plain tester 1 40 "m" 7
        (λ db. (update_provider_credential plain 1 40 0 3 new_key db).1)
        one_credential).1.credentials
    ≡ (connected, "kskkk-k2n") ∷ []
unfolding test_provider_credential update_provider_credential nulls_in_credential
    get_owned_provider_credential decrypt encrypt patch_credential patch_payload key_hint
    finish_test constraints primary_keys unique_constraints foreign_keys check_constraints unique_by
overtaken = refl

apply_credential-IsChecked_example :
    All
      (IsChecked plain tester)
      (apply_credential plain tester 1 (test_credential_at 40 "m" 7) one_credential).credentials
apply_credential-IsChecked_example =
    apply_credential-IsChecked plain tester 1 (test_credential_at 40 "m" 7) one_credential
      one_credential_keys (refl, tt)

abbrev old_payload : CredentialPayload
old_payload = record { api_key = "sk-1"; api_base = none }

-- What the PATCH answers with.
abbrev patched_read : ProviderCredentialRead
patched_read = record {
  id = 40;
  provider = "openai";
  name = "key";
  key_hint = "••••sk-2";
  api_base = none;
  status = untested;
  last_checked_at = none;
  last_used_at = none;
  updated_at = 3;
}

is_found : get_owned_provider_credential 1 40 one_credential ≡ ok fresh
unfolding get_owned_provider_credential
is_found = refl

old_decrypts : decrypt plain fresh.encrypted_payload ≡ payload old_payload
unfolding decrypt
old_decrypts = refl

is_patched : (update_provider_credential plain 1 40 0 3 new_key one_credential).0 ≡ ok patched_read
unfolding update_provider_credential nulls_in_credential read_credential
    get_owned_provider_credential decrypt encrypt patch_credential patch_payload key_hint
    constraints primary_keys unique_constraints foreign_keys check_constraints unique_by
is_patched = refl

is_tested :
    (test_provider_credential plain tester 1 40 "m" 7
      (λ db. (update_provider_credential plain 1 40 0 3 new_key db).1)
      one_credential).0
    ≡ ok (record { status = connected; checked_at = 7 })
unfolding test_provider_credential update_provider_credential nulls_in_credential
    get_owned_provider_credential decrypt encrypt patch_credential patch_payload key_hint
    finish_test constraints primary_keys unique_constraints foreign_keys check_constraints unique_by
is_tested = refl

test_overtaken_example :
    let rows =
      (test_provider_credential plain tester 1 40 "m" 7
        (λ db. (update_provider_credential plain 1 40 0 3 new_key db).1)
        one_credential).1.credentials in
    (tester 7 "m" old_payload ≡ true)
    × (any (λ (x : ProviderCredential). x.id == 40) rows ≡ true)
    × All
        (λ (x : ProviderCredential).
          ((x.id == 40) ≡ false)
          ⊎ SaysTooMuch plain tester 1 40 0 3 7 "m" new_key old_payload fresh "sk-2" one_credential
              x)
        rows
test_overtaken_example =
    test_overtaken plain tester 1 40 0 3 7 "m" new_key old_payload fresh "sk-2" one_credential
      patched_read (record { status = connected; checked_at = 7 }) one_credential_keys is_found refl
      old_decrypts refl refl (λ at m. refl) is_patched is_tested
