-- ===== src/Protocol/Codes/RoundTrip.antt =====
-- That reading a command or status byte of protocol.rs undoes writing it.
use ved_db_server.Prelude.{
  ℕ, ◌≡◌, refl, sym, ap, ◌∙◌, ◌↔◌, inl, inr, Bool, true, ◌&&◌, some, List, [], ◌∷◌, arith, ◌==◌,
  Bool-cases,
}
use ved_db_server.Protocol.Codes
use ved_db_server.Protocol.Codes.{
  match_arm, op_code, op_arms, op_try_from, status_code, status_arms, status_try_from, OpCode,
  Status,
}

-- Every arm of a match has the code of its value as its number.
arms_agree {ℓ} : {A : Type ℓ} → (A → ℕ) → List (ℕ × A) → Bool
arms_agree code [] = true
arms_agree code ((n, x) ∷ arms) = code x == n && arms_agree code arms

match_arm-code {ℓ} :
    {A : Type ℓ} (code : A → ℕ) (value : ℕ) (arms : List (ℕ × A)) {x : A}
    → arms_agree code arms ≡ true
    → match_arm value arms ≡ some x
    → code x ≡ value
unfolding arms_agree match_arm
match_arm-code code value [] agree e = absurd (ground arith)
match_arm-code code value ((n, y) ∷ arms) {x} agree e = elim (Bool-cases (n == value)) [
  | inl here ↦
      let same : y ≡ x = ground arith in
      let right : code y ≡ n = ground arith in ap code (sym same) ∙ right ∙ (ground arith)
  | inr there ↦ match_arm-code code value arms (ground arith) (ground arith)
]

op_arms_agree : arms_agree op_code op_arms ≡ true
unfolding arms_agree op_code
op_arms_agree = refl

status_arms_agree : arms_agree status_code status_arms ≡ true
unfolding arms_agree status_code
status_arms_agree = refl

op_try_from-op_code : (op : OpCode) → op_try_from (op_code op) ≡ some op
unfolding op_try_from op_code
op_try_from-op_code Codes.ping = refl
op_try_from-op_code Codes.set = refl
op_try_from-op_code Codes.get = refl
op_try_from-op_code Codes.del = refl
op_try_from-op_code Codes.cas = refl
op_try_from-op_code Codes.subscribe = refl
op_try_from-op_code Codes.unsubscribe = refl
op_try_from-op_code Codes.publish = refl
op_try_from-op_code Codes.fetch = refl
op_try_from-op_code Codes.info = refl
op_try_from-op_code Codes.auth = refl
op_try_from-op_code Codes.auth_response = refl
op_try_from-op_code Codes.query = refl
op_try_from-op_code Codes.insert_doc = refl
op_try_from-op_code Codes.update_doc = refl
op_try_from-op_code Codes.delete_doc = refl
op_try_from-op_code Codes.create_collection = refl
op_try_from-op_code Codes.drop_collection = refl
op_try_from-op_code Codes.list_collections = refl
op_try_from-op_code Codes.create_index = refl
op_try_from-op_code Codes.drop_index = refl
op_try_from-op_code Codes.list_indexes = refl
op_try_from-op_code Codes.l_push = refl
op_try_from-op_code Codes.r_push = refl
op_try_from-op_code Codes.l_pop = refl
op_try_from-op_code Codes.r_pop = refl
op_try_from-op_code Codes.l_range = refl
op_try_from-op_code Codes.l_len = refl
op_try_from-op_code Codes.s_add = refl
op_try_from-op_code Codes.s_rem = refl
op_try_from-op_code Codes.s_members = refl
op_try_from-op_code Codes.s_is_member = refl
op_try_from-op_code Codes.s_card = refl
op_try_from-op_code Codes.s_union = refl
op_try_from-op_code Codes.s_inter = refl
op_try_from-op_code Codes.s_diff = refl
op_try_from-op_code Codes.z_add = refl
op_try_from-op_code Codes.z_rem = refl
op_try_from-op_code Codes.z_range = refl
op_try_from-op_code Codes.z_range_by_score = refl
op_try_from-op_code Codes.z_card = refl
op_try_from-op_code Codes.z_score = refl
op_try_from-op_code Codes.h_set = refl
op_try_from-op_code Codes.h_get = refl
op_try_from-op_code Codes.h_del = refl
op_try_from-op_code Codes.h_get_all = refl
op_try_from-op_code Codes.h_keys = refl
op_try_from-op_code Codes.h_vals = refl
op_try_from-op_code Codes.h_len = refl
op_try_from-op_code Codes.list_users = refl
op_try_from-op_code Codes.create_user = refl
op_try_from-op_code Codes.delete_user = refl
op_try_from-op_code Codes.update_user_role = refl
op_try_from-op_code Codes.aggregate = refl
op_try_from-op_code Codes.create_backup = refl
op_try_from-op_code Codes.list_backups = refl
op_try_from-op_code Codes.restore_backup = refl
op_try_from-op_code Codes.delete_backup = refl
op_try_from-op_code Codes.point_in_time_recover = refl
op_try_from-op_code Codes.get_replication_status = refl
op_try_from-op_code Codes.add_slave = refl
op_try_from-op_code Codes.remove_slave = refl
op_try_from-op_code Codes.list_slaves = refl
op_try_from-op_code Codes.force_sync = refl
op_try_from-op_code Codes.create_key = refl
op_try_from-op_code Codes.list_keys = refl
op_try_from-op_code Codes.rotate_key = refl
op_try_from-op_code Codes.export_key = refl
op_try_from-op_code Codes.import_key = refl
op_try_from-op_code Codes.get_key_metadata = refl
op_try_from-op_code Codes.get_keys_expiring = refl

status_try_from-status_code : (s : Status) → status_try_from (status_code s) ≡ some s
unfolding status_try_from status_code
status_try_from-status_code Codes.ok = refl
status_try_from-status_code Codes.error = refl
status_try_from-status_code Codes.not_found = refl
status_try_from-status_code Codes.full = refl
status_try_from-status_code Codes.timeout = refl
status_try_from-status_code Codes.version_mismatch = refl
status_try_from-status_code Codes.auth_required = refl
status_try_from-status_code Codes.auth_failed = refl
status_try_from-status_code Codes.permission_denied = refl
status_try_from-status_code Codes.invalid_query = refl
status_try_from-status_code Codes.collection_exists = refl
status_try_from-status_code Codes.collection_not_found = refl
status_try_from-status_code Codes.index_exists = refl
status_try_from-status_code Codes.index_not_found = refl

-- A byte is read as a command exactly if it is that command's code; so no two commands share one.
pub op_try_from_iff :
    (value : ℕ) (op : OpCode) → (op_try_from value ≡ some op) ↔ (op_code op ≡ value)
unfolding op_try_from
op_try_from_iff value op = (
  λ e. match_arm-code op_code value op_arms op_arms_agree e,
  λ e. ap op_try_from (sym e) ∙ op_try_from-op_code op,
)

-- A byte is read as a status exactly if it is that status's code.
status_try_from_iff :
    (value : ℕ) (s : Status) → (status_try_from value ≡ some s) ↔ (status_code s ≡ value)
unfolding status_try_from
status_try_from_iff value s = (
  λ e. match_arm-code status_code value status_arms status_arms_agree e,
  λ e. ap status_try_from (sym e) ∙ status_try_from-status_code s,
)
