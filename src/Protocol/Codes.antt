-- ===== src/Protocol/Codes.antt =====
-- The command and status bytes of protocol.rs.
pub mod RoundTrip
use ved_db_server.Prelude.{
  ℕ, zero, suc, ◌+◌, ◌-◌, ◌*◌, ◌/◌, ◌%◌, ◌^◌, ◌≤◌, ◌<◌, min, max, bit_and, bit_xor, ◌≡◌, refl, sym,
  ap, ap₂, subst, ◌∙◌, ◌≢◌, ◌↔◌, ◌⊎◌, inl, inr, Bool, true, false, not, ◌&&◌, ◌||◌, Option, none,
  some, List, [], ◌∷◌, ◌++◌, map, arith, ltb, leb, ◌==◌, if◌then◌else◌, ltb→lt, lt→ltb, leb→le,
  le→leb, ==_iff, Bool-cases, Option-cases, length, get_elem?, get_or, take, drop, replicate, All,
  length-append, length-replicate, length-set, get_or-set_self, get_or-set_ne, get_or-set,
  get_or-replicate, take-append_length, length-drop, All-append, All-drop,
}

-- A match on a number: the value of the first arm with that number.
unfoldable pub match_arm {ℓ} : {A : Type ℓ} → ℕ → List (ℕ × A) → Option A
match_arm value [] = none
match_arm value ((n, x) ∷ arms) =
    let rest = match_arm value arms in if n == value then some x else rest

pub data OpCode : Type 0 where
  ping : OpCode
  set : OpCode
  get : OpCode
  del : OpCode
  cas : OpCode
  subscribe : OpCode
  unsubscribe : OpCode
  publish : OpCode
  fetch : OpCode
  info : OpCode
  auth : OpCode
  auth_response : OpCode
  query : OpCode
  insert_doc : OpCode
  update_doc : OpCode
  delete_doc : OpCode
  create_collection : OpCode
  drop_collection : OpCode
  list_collections : OpCode
  create_index : OpCode
  drop_index : OpCode
  list_indexes : OpCode
  l_push : OpCode
  r_push : OpCode
  l_pop : OpCode
  r_pop : OpCode
  l_range : OpCode
  l_len : OpCode
  s_add : OpCode
  s_rem : OpCode
  s_members : OpCode
  s_is_member : OpCode
  s_card : OpCode
  s_union : OpCode
  s_inter : OpCode
  s_diff : OpCode
  z_add : OpCode
  z_rem : OpCode
  z_range : OpCode
  z_range_by_score : OpCode
  z_card : OpCode
  z_score : OpCode
  h_set : OpCode
  h_get : OpCode
  h_del : OpCode
  h_get_all : OpCode
  h_keys : OpCode
  h_vals : OpCode
  h_len : OpCode
  list_users : OpCode
  create_user : OpCode
  delete_user : OpCode
  update_user_role : OpCode
  aggregate : OpCode
  create_backup : OpCode
  list_backups : OpCode
  restore_backup : OpCode
  delete_backup : OpCode
  point_in_time_recover : OpCode
  get_replication_status : OpCode
  add_slave : OpCode
  remove_slave : OpCode
  list_slaves : OpCode
  force_sync : OpCode
  create_key : OpCode
  list_keys : OpCode
  rotate_key : OpCode
  export_key : OpCode
  import_key : OpCode
  get_key_metadata : OpCode
  get_keys_expiring : OpCode

-- the value as `u8`
unfoldable pub op_code : OpCode → ℕ
op_code ping = 0x01
op_code set = 0x02
op_code get = 0x03
op_code del = 0x04
op_code cas = 0x05
op_code subscribe = 0x06
op_code unsubscribe = 0x07
op_code publish = 0x08
op_code fetch = 0x09
op_code info = 0x0A
op_code auth = 0x10
op_code auth_response = 0x11
op_code query = 0x12
op_code insert_doc = 0x13
op_code update_doc = 0x14
op_code delete_doc = 0x15
op_code create_collection = 0x16
op_code drop_collection = 0x17
op_code list_collections = 0x18
op_code create_index = 0x19
op_code drop_index = 0x1A
op_code list_indexes = 0x1B
op_code l_push = 0x20
op_code r_push = 0x21
op_code l_pop = 0x22
op_code r_pop = 0x23
op_code l_range = 0x24
op_code l_len = 0x25
op_code s_add = 0x26
op_code s_rem = 0x27
op_code s_members = 0x28
op_code s_is_member = 0x29
op_code s_card = 0x2A
op_code s_union = 0x2B
op_code s_inter = 0x2C
op_code s_diff = 0x2D
op_code z_add = 0x2E
op_code z_rem = 0x2F
op_code z_range = 0x30
op_code z_range_by_score = 0x31
op_code z_card = 0x32
op_code z_score = 0x33
op_code h_set = 0x34
op_code h_get = 0x35
op_code h_del = 0x36
op_code h_get_all = 0x37
op_code h_keys = 0x38
op_code h_vals = 0x39
op_code h_len = 0x3A
op_code list_users = 0x3B
op_code create_user = 0x3C
op_code delete_user = 0x3D
op_code update_user_role = 0x3E
op_code aggregate = 0x3F
op_code create_backup = 0x40
op_code list_backups = 0x41
op_code restore_backup = 0x42
op_code delete_backup = 0x43
op_code point_in_time_recover = 0x44
op_code get_replication_status = 0x50
op_code add_slave = 0x51
op_code remove_slave = 0x52
op_code list_slaves = 0x53
op_code force_sync = 0x54
op_code create_key = 0x60
op_code list_keys = 0x61
op_code rotate_key = 0x62
op_code export_key = 0x63
op_code import_key = 0x64
op_code get_key_metadata = 0x65
op_code get_keys_expiring = 0x66

-- the arms of the match in `try_from`, in their order
abbrev pub op_arms : List (ℕ × OpCode)
op_arms =
    (0x01, ping)
    ∷ (0x02, set)
    ∷ (0x03, get)
    ∷ (0x04, del)
    ∷ (0x05, cas)
    ∷ (0x06, subscribe)
    ∷ (0x07, unsubscribe)
    ∷ (0x08, publish)
    ∷ (0x09, fetch)
    ∷ (0x0A, info)
    ∷ (0x10, auth)
    ∷ (0x11, auth_response)
    ∷ (0x12, query)
    ∷ (0x13, insert_doc)
    ∷ (0x14, update_doc)
    ∷ (0x15, delete_doc)
    ∷ (0x16, create_collection)
    ∷ (0x17, drop_collection)
    ∷ (0x18, list_collections)
    ∷ (0x19, create_index)
    ∷ (0x1A, drop_index)
    ∷ (0x1B, list_indexes)
    ∷ (0x20, l_push)
    ∷ (0x21, r_push)
    ∷ (0x22, l_pop)
    ∷ (0x23, r_pop)
    ∷ (0x24, l_range)
    ∷ (0x25, l_len)
    ∷ (0x26, s_add)
    ∷ (0x27, s_rem)
    ∷ (0x28, s_members)
    ∷ (0x29, s_is_member)
    ∷ (0x2A, s_card)
    ∷ (0x2B, s_union)
    ∷ (0x2C, s_inter)
    ∷ (0x2D, s_diff)
    ∷ (0x2E, z_add)
    ∷ (0x2F, z_rem)
    ∷ (0x30, z_range)
    ∷ (0x31, z_range_by_score)
    ∷ (0x32, z_card)
    ∷ (0x33, z_score)
    ∷ (0x34, h_set)
    ∷ (0x35, h_get)
    ∷ (0x36, h_del)
    ∷ (0x37, h_get_all)
    ∷ (0x38, h_keys)
    ∷ (0x39, h_vals)
    ∷ (0x3A, h_len)
    ∷ (0x3B, list_users)
    ∷ (0x3C, create_user)
    ∷ (0x3D, delete_user)
    ∷ (0x3E, update_user_role)
    ∷ (0x40, create_backup)
    ∷ (0x41, list_backups)
    ∷ (0x42, restore_backup)
    ∷ (0x43, delete_backup)
    ∷ (0x44, point_in_time_recover)
    ∷ (0x50, get_replication_status)
    ∷ (0x51, add_slave)
    ∷ (0x52, remove_slave)
    ∷ (0x53, list_slaves)
    ∷ (0x54, force_sync)
    ∷ (0x60, create_key)
    ∷ (0x61, list_keys)
    ∷ (0x62, rotate_key)
    ∷ (0x63, export_key)
    ∷ (0x64, import_key)
    ∷ (0x65, get_key_metadata)
    ∷ (0x66, get_keys_expiring)
    ∷ (0x3F, aggregate)
    ∷ []

-- `OpCode::try_from`
unfoldable pub op_try_from : ℕ → Option OpCode
unfolding match_arm
op_try_from value = match_arm value op_arms

pub data Status : Type 0 where
  ok : Status
  error : Status
  not_found : Status
  full : Status
  timeout : Status
  version_mismatch : Status
  auth_required : Status
  auth_failed : Status
  permission_denied : Status
  invalid_query : Status
  collection_exists : Status
  collection_not_found : Status
  index_exists : Status
  index_not_found : Status

-- the value as `u8`
unfoldable pub status_code : Status → ℕ
status_code ok = 0x00
status_code error = 0x01
status_code not_found = 0x02
status_code full = 0x03
status_code timeout = 0x04
status_code version_mismatch = 0x05
status_code auth_required = 0x06
status_code auth_failed = 0x07
status_code permission_denied = 0x08
status_code invalid_query = 0x09
status_code collection_exists = 0x0A
status_code collection_not_found = 0x0B
status_code index_exists = 0x0C
status_code index_not_found = 0x0D

-- the arms of the match in `try_from`, in their order
abbrev pub status_arms : List (ℕ × Status)
status_arms =
    (0x00, ok)
    ∷ (0x01, error)
    ∷ (0x02, not_found)
    ∷ (0x03, full)
    ∷ (0x04, timeout)
    ∷ (0x05, version_mismatch)
    ∷ (0x06, auth_required)
    ∷ (0x07, auth_failed)
    ∷ (0x08, permission_denied)
    ∷ (0x09, invalid_query)
    ∷ (0x0A, collection_exists)
    ∷ (0x0B, collection_not_found)
    ∷ (0x0C, index_exists)
    ∷ (0x0D, index_not_found)
    ∷ []

-- `Status::try_from`
unfoldable pub status_try_from : ℕ → Option Status
unfolding match_arm
status_try_from value = match_arm value status_arms
