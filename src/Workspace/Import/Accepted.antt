-- ===== src/Workspace/Import/Accepted.antt =====
-- What a file that is accepted holds.
use llm_evaluation_platform.Common.{
  ℕ, suc, ◌≤◌, String, ◌≡◌, refl, inl, inr, Bool, true, false, ◌||◌, not, Option, none, some, List,
  [], ◌∷◌, arith, eq_iff, ltb, ◌==◌, str_eq, if◌then◌else◌, Bool-cases, length, any,
}
use mathlib.Core.Path.{subst}
use llm_evaluation_platform.Workspace.Schemas.{DatasetItemCreate}
use llm_evaluation_platform.Workspace.Tables.{unique_by}
use llm_evaluation_platform.Workspace.Import.{
  DatasetImportError, not_utf8, Outcome, done, failed, on_done, RawItem, TextField, no_text,
  ParsedDatasetImport, Files, max_dataset_file_bytes, max_dataset_import_items, count_id,
  validate_item, validate_items, external_ids, has_duplicate, check_items, parse_dataset_file,
  parse_json_lines, parse_json_document, optional_string,
}

-- What a step that did not fail has done.
finished :
    {A B : Type 0} (o : Outcome A) (k : A → Outcome B) (b : B)
    → on_done o k ≡ done b
    → (a : A) × (o ≡ done a) × (k a ≡ done b)
finished (done a) k b e = (a, refl, e)
finished (failed r) k b e = absurd cc

same_result : {A : Type 0} (a b : A) → done a ≡ done b → a ≡ b
same_result a b e = ground arith

passed :
    {A : Type 0} (t : Bool) (r : DatasetImportError) (y : Outcome A) (a : A)
    → (if t then failed r else y) ≡ done a
    → (t ≡ false) × (y ≡ done a)
passed true r y a e = absurd cc
passed false r y a e = (refl, e)

count_of_any : (s : String) (ts : List String) → any (λ t. str_eq t s) ts ≡ true → 1 ≤ count_id s ts
count_of_any s [] h = absurd cc
count_of_any s (t ∷ ts) h = ground (arith, count_of_any s ts)

none_twice :
    (ids ts : List String)
    → any (λ s. ltb 1 (count_id s ids)) ts ≡ false
    → ((s : String) → count_id s ts ≤ count_id s ids)
    → unique_by (λ s t. str_eq t s) ts ≡ true
unfolding unique_by
none_twice ids [] h f = refl
none_twice ids (t ∷ ts) h f = elim (Bool-cases (any (λ s. str_eq s t) ts)) [
  | inl q ↦ absurd (ground (arith, count_of_any t ts q, f t, h, eq_iff t t))
  | inr q ↦ ground (arith, q, none_twice ids ts (ground arith) (λ s. ground (arith, f s)))
]

module _ {V : Type 0} (f : Files V) where
  validated_length :
      (n : ℕ) (xs : List (RawItem V)) (items : List DatasetItemCreate)
      → validate_items f n xs ≡ done items
      → length items ≡ length xs
  unfolding validate_items
  validated_length n [] items e = ground arith
  validated_length n (x ∷ xs) items e =
      let (i, e1, g) = finished (validate_item f n x) _ items e in
      let (rest, e2, g2) = finished (validate_items f (suc n) xs) _ items g in
      let l : length rest ≡ length xs = validated_length (suc n) xs rest e2 in ground (arith, g2, l)

  abbrev pub IsImport : ParsedDatasetImport → Type 0
  IsImport p =
      (1 ≤ length p.items)
      × (length p.items ≤ max_dataset_import_items)
      × (unique_by (λ s t. str_eq t s) (external_ids f p.items) ≡ true)

  of_items :
      (raw : List (RawItem V)) (items : List DatasetItemCreate)
      → validate_items f 1 raw ≡ done items
      → (length raw == 0) ≡ false
      → ltb max_dataset_import_items (length raw) ≡ false
      → has_duplicate f (external_ids f items) ≡ false
      → (1 ≤ length items)
        × (length items ≤ max_dataset_import_items)
        × (unique_by (λ s t. str_eq t s) (external_ids f items) ≡ true)
  of_items raw items v n0 n1 dup =
      let l : length items ≡ length raw = validated_length 1 raw items v in
      (
        ground (arith, l, n0),
        ground (arith, l, n1),
        none_twice (external_ids f items) (external_ids f items) dup (λ s. omega arith),
      )

  checked-IsImport :
      (x : TextField × TextField × List (RawItem V)) (p : ParsedDatasetImport)
      → check_items f x ≡ done p
      → IsImport p
  unfolding check_items
  checked-IsImport (name, description, raw) p e =
      let (n0, e0) = passed (length raw == 0) _ _ p e in
      let (n1, e1) = passed (ltb max_dataset_import_items (length raw)) _ _ p e0 in
      let (items, v, e2) = finished (validate_items f 1 raw) _ p e1 in
      let (dup, e3) = passed (has_duplicate f (external_ids f items)) _ _ p e2 in
      let (n, o, e4) = finished (optional_string name) _ p e3 in
      let (d, o2, e5) = finished (optional_string description) _ p e4 in
      subst IsImport (same_result _ p e5) (of_items raw items v n0 n1 dup)

  -- A file that is accepted has between 1 byte and 5 MB, and gives 1 to 1000 test cases, no two of which
  -- have the same external id.
  pub parse_dataset_file-IsImport :
      (filename : String) (content : List ℕ) (p : ParsedDatasetImport)
      → parse_dataset_file f filename content ≡ done p
      → (1 ≤ length content)
        × (length content ≤ max_dataset_file_bytes)
        × (1 ≤ length p.items)
        × (length p.items ≤ max_dataset_import_items)
        × (unique_by (λ s t. str_eq t s) (external_ids f p.items) ≡ true)
  unfolding parse_dataset_file
  parse_dataset_file-IsImport filename content p e =
      let is_lines = str_eq (f.suffix filename) ".jsonl" || str_eq (f.suffix filename) ".ndjson" in
      let (known, e0) = passed (not (str_eq (f.suffix filename) ".json" || is_lines)) _ _ p e in
      let (some_bytes, e1) = passed (length content == 0) _ _ p e0 in
      let (few_bytes, e2) = passed (ltb max_dataset_file_bytes (length content)) _ _ p e1 in
      let (a, b, c) = of_text is_lines (f.decode content) e2 in
      (ground (arith, some_bytes), ground (arith, few_bytes), a, b, c)
    where
      of_lines :
          (lines : List String)
          → on_done (parse_json_lines f 1 lines) (λ items. check_items f (no_text, no_text, items))
            ≡ done p
          → IsImport p
      of_lines lines g =
          let (raw, q, k) = finished (parse_json_lines f 1 lines) _ p g in
          checked-IsImport (no_text, no_text, raw) p k

      of_document :
          (t : String) → on_done (parse_json_document f t) (check_items f) ≡ done p → IsImport p
      of_document t g =
          let (x, q, k) = finished (parse_json_document f t) _ p g in checked-IsImport x p k

      of_text :
          (is_lines : Bool) (o : Option String)
          → elim o as (λ _. Outcome ParsedDatasetImport) [
            | none ↦ failed not_utf8
            | some t ↦
                if is_lines
                then on_done
                    (parse_json_lines f 1 (f.splitlines t))
                    (λ items. check_items f (no_text, no_text, items))
                else on_done (parse_json_document f t) (check_items f)
          ]
            ≡ done p
          → IsImport p
      of_text is_lines none g = absurd cc
      of_text true (some t) g = of_lines (f.splitlines t) g
      of_text false (some t) g = of_document t g
