-- ===== src/Knowledge/Service/Legacy.antt =====
-- services/api/app/modules/knowledge/quota.py: the measurement of file sources whose size is not
-- known, and prepare_file_upload_admission of knowledge/service.py, which starts with it. The
-- split of a text at its slashes, the parse and the text of a UUID and the answers of the object
-- store are arguments.
use serviq.Common.{
  ℕ, String, Option, none, some, ◌&&◌, List, [], ◌∷◌, ◌==◌, str_eq, leb, if◌then◌else◌, length,
}
use serviq.Access.Rows.{Directory}
use serviq.Knowledge.Rows.{Db}
use serviq.Knowledge.Tx.{Tx, Result, ok, err, ◌>>◌, pure, transaction, forbidden, quota_unavailable}
use serviq.Knowledge.Repository.{
  lock_tenant_for_knowledge_quota, list_unknown_file_source_sizes, set_file_source_size_if_unknown,
  max_file_bytes,
}
use serviq.Knowledge.Quota.{ReservationClaim, reserve_file_upload}
use serviq.Knowledge.Cleanup.{raw_key_value}
use serviq.Knowledge.Service.{is_permitted}

-- `content_length key` is the answer of HEAD, or none where the object store fails.
pub record Measuring : Type 0 where
  pub split : String → List String
  pub parse_uuid : String → Option ℕ
  pub uuid_text : ℕ → String
  pub content_length : String → Option ℕ

abbrev pub parsed_ids : Option ℕ → Option ℕ → Option ℕ → Option (ℕ × ℕ × ℕ)
parsed_ids (some t) (some s) (some o) = some (t, s, o)
parsed_ids _ _ _ = none

abbrev pub rebuilt : Measuring → String → ℕ → ℕ → Option (ℕ × ℕ × ℕ) → Option String
rebuilt m value t source none = none
rebuilt m value t source (some (t', s', o)) =
    let key = raw_key_value m.uuid_text t' s' o in
    if t' == t && s' == source && str_eq key value then some key else none

abbrev pub parse_parts : Measuring → String → ℕ → ℕ → List String → Option String
parse_parts m value t source (tenants ∷ a ∷ knowledge ∷ b ∷ raw ∷ c ∷ []) =
    if str_eq tenants "tenants" && str_eq knowledge "knowledge" && str_eq raw "raw"
    then rebuilt m value t source (parsed_ids (m.parse_uuid a) (m.parse_uuid b) (m.parse_uuid c))
    else none
parse_parts m value t source _ = none

-- `parse_knowledge_raw_object_key`, with none for its exceptions.
unfoldable pub parse_knowledge_raw_object_key : Measuring → String → ℕ → ℕ → Option String
parse_knowledge_raw_object_key m value t source = parse_parts m value t source (m.split value)

-- The size that HEAD gives of a key, where it is in range.
abbrev pub in_range : Option ℕ → Option ℕ
in_range none = none
in_range (some n) = if leb n max_file_bytes then some n else none

abbrev pub size_of_key : Measuring → Option String → Option ℕ
size_of_key m none = none
size_of_key m (some key) = in_range (m.content_length key)

abbrev pub with_size :
    ℕ → String → Option ℕ → Option (List (ℕ × String × ℕ)) → Option (List (ℕ × String × ℕ))
with_size source key (some n) (some rest) = some ((source, key, n) ∷ rest)
with_size source key _ _ = none

-- The loop over the unknown sizes; one that cannot be measured ends it with an exception.
unfoldable pub measure : Measuring → ℕ → List (ℕ × String) → Option (List (ℕ × String × ℕ))
measure m t [] = some []
measure m t ((source, key) ∷ rest) =
    let others = measure m t rest in
    with_size source key (size_of_key m (parse_knowledge_raw_object_key m key t source)) others

unfoldable pub set_sizes : ℕ → List (ℕ × String × ℕ) → Tx (Unit {0})
set_sizes t [] = pure tt
set_sizes t ((source, key, n) ∷ rest) =
    set_file_source_size_if_unknown t source key n >> set_sizes t rest

unfoldable pub sizes_body : ℕ → List (ℕ × String × ℕ) → Tx ℕ
sizes_body t measured =
    lock_tenant_for_knowledge_quota t >> (set_sizes t measured >> pure (length measured))

abbrev pub store_sizes : ℕ → (Db → Db) → Option (List (ℕ × String × ℕ)) → Db → Result ℕ × Db
store_sizes t others none db = (err quota_unavailable, db)
store_sizes t others (some []) db = (ok 0, db)
store_sizes t others (some (x ∷ xs)) db = transaction (sizes_body t (x ∷ xs)) (others db)

-- `reconcile_legacy_file_sizes`; `others` is what other sessions commit during the HEAD calls.
unfoldable pub reconcile_legacy_file_sizes : Measuring → (Db → Db) → ℕ → Db → Result ℕ × Db
reconcile_legacy_file_sizes m others t db =
    store_sizes t others (measure m t (list_unknown_file_source_sizes t db.sources)) db

abbrev pub after_sizes : (Db → Db) → ℕ → ℕ → ℕ → ℕ → Result ℕ × Db → Result ReservationClaim × Db
after_sizes others t source id now (err e, db) = (err e, db)
after_sizes others t source id now (ok n, db) = reserve_file_upload t source 0 id now (others db)

-- `prepare_file_upload_admission`
unfoldable pub prepare_file_upload_admission :
    Measuring → (ℕ → Db → Db) → Directory → ℕ → ℕ → ℕ → ℕ → ℕ → Db → Result ReservationClaim × Db
prepare_file_upload_admission m others directory user t source id now db =
    if is_permitted directory user t
    then after_sizes (others 1) t source id now (reconcile_legacy_file_sizes m (others 0) t db)
    else (err forbidden, db)
