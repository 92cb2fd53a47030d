-- ===== src/Api/Services.antt =====
-- backend/internal/services/file_service.go: the files and replicas in the database.
use distributed_file_system.Prelude.{
  ℕ, ◌-◌, ◌*◌, ◌^◌, ◌%◌, Bool, true, false, List, [], ◌∷◌, Option, none, some, ltb, if◌then◌else◌,
}
use distributed_file_system.Prelude.Int.{ℤ, pos, negsuc, lt_int, pos_part}
use distributed_file_system.Common.Types.{NodeId}
use distributed_file_system.Api.{File, Database}

-- A product of an `int` that is not negative, as an `int` again.
abbrev pub wrap_int : ℕ → ℤ
wrap_int n = let w = n % 2 ^ 64 in if ltb w (2 ^ 63) then pos w else negsuc (2 ^ 64 - 1 - w)

abbrev pub clamp_page : ℤ → ℕ
clamp_page page = if lt_int page (pos 1) then 1 else pos_part page

abbrev pub clamp_per_page : ℤ → ℕ
clamp_per_page per_page =
    let n = if lt_int per_page (pos 1) then 10 else pos_part per_page in
    if ltb 100 n then 100 else n

module _ {Db : Type 0} (sql : Database Db) where
  -- The query asks for no times and no count, which stay zero.
  unfoldable pub get_file_by_id : NodeId → Db → Option File
  get_file_by_id id db = elim (sql.select_file db id) [
    | none ↦ none
    | some file ↦ some (record file { created_at = 0; updated_at = 0; replicas_count = 0 })
  ]

  unfoldable pub create_file : File → Db → Db × Bool
  create_file file db = sql.insert_file db file

  unfoldable pub delete_file_by_id : NodeId → Db → Db × Bool
  delete_file_by_id id db = sql.delete_from_files db id

  -- Whether every replica was put in.
  unfoldable pub create_replicas : NodeId → List NodeId → Db → Db × Bool
  create_replicas file [] db = (db, true)
  create_replicas file (node ∷ nodes) db = elim (sql.insert_replica db file node).1 [
    | false ↦ ((sql.insert_replica db file node).0, false)
    | true ↦ create_replicas file nodes (sql.insert_replica db file node).0
  ]

  unfoldable pub list_files_paginated : NodeId → ℤ → ℤ → Db → Option (List File × ℕ)
  list_files_paginated owner page per_page db =
      let limit = clamp_per_page per_page in
      let offset = wrap_int ((clamp_page page - 1) * limit) in
      elim (sql.count_files db owner) [
        | none ↦ none
        | some total ↦ elim (sql.select_files db owner limit offset) [
          | none ↦ none
          | some files ↦ some (files, total)
        ]
      ]
