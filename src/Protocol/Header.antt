-- ===== src/Protocol/Header.antt =====
-- `CmdHeader` and `RespHeader` of protocol.rs.
use ved_db_server.Prelude.{
  ℕ, ◌+◌, ◌<◌, bit_and, ◌≡◌, refl, ◌↔◌, Bool, not, Option, some, arith, ◌==◌,
}
use ved_db_server.Prelude.Bytes.{u32_mod, add32}
use ved_db_server.Protocol.Codes.{
  OpCode, Status, op_code, op_try_from, status_code, status_try_from,
}
use ved_db_server.Protocol.Codes.RoundTrip.{op_try_from_iff}

pub record CmdHeader : Type 0 where
  pub op : ℕ
  pub flags : ℕ
  pub version : ℕ
  pub reserved : ℕ
  pub seq : ℕ
  pub key_len : ℕ
  pub val_len : ℕ
  pub extra : ℕ

abbrev pub protocol_v1 : ℕ
protocol_v1 = 1

abbrev pub protocol_v2 : ℕ
protocol_v2 = 2

unfoldable pub new_v1 : OpCode → ℕ → CmdHeader
new_v1 op seq = record {
  op = op_code op;
  flags = 0;
  version = protocol_v1;
  reserved = 0;
  seq = seq;
  key_len = 0;
  val_len = 0;
  extra = 0;
}

unfoldable pub new : OpCode → ℕ → CmdHeader
new op seq = record {
  op = op_code op;
  flags = 0;
  version = protocol_v2;
  reserved = 0;
  seq = seq;
  key_len = 0;
  val_len = 0;
  extra = 0;
}

unfoldable pub with_key_val : CmdHeader → ℕ → ℕ → CmdHeader
with_key_val h key_len val_len = record h { key_len = key_len; val_len = val_len }

unfoldable pub with_flags : CmdHeader → ℕ → CmdHeader
with_flags h flags = record h { flags = flags }

unfoldable pub opcode : CmdHeader → Option OpCode
opcode h = op_try_from h.op

-- `(key_len + val_len) as usize`: the sum is taken in 32 bits.
unfoldable pub total_payload_len : CmdHeader → ℕ
total_payload_len h = add32 h.key_len h.val_len

unfoldable pub has_flag : CmdHeader → ℕ → Bool
has_flag h flag = not (bit_and h.flags flag == 0)

pub record RespHeader : Type 0 where
  pub status : ℕ
  pub flags : ℕ
  pub reserved : ℕ
  pub seq : ℕ
  pub payload_len : ℕ
  pub padding : ℕ

unfoldable pub new_response : Status → ℕ → RespHeader
new_response status seq = record {
  status = status_code status;
  flags = 0;
  reserved = 0;
  seq = seq;
  payload_len = 0;
  padding = 0;
}

unfoldable pub with_payload : RespHeader → ℕ → RespHeader
with_payload h len = record h { payload_len = len }

unfoldable pub response_status : RespHeader → Option Status
response_status h = status_try_from h.status

-- A new header that was given lengths and flags still names its command, and its payload length is
-- the sum of the two lengths exactly if that is below 2^32.
with_key_val-lengths :
    (op : OpCode) (seq key_len val_len flags : ℕ)
    → let h = with_flags (with_key_val (new op seq) key_len val_len) flags in
      (opcode h ≡ some op)
      × ((total_payload_len h ≡ key_len + val_len) ↔ (key_len + val_len < u32_mod))
unfolding opcode total_payload_len with_flags with_key_val new
with_key_val-lengths op seq key_len val_len flags =
    ((op_try_from_iff (op_code op) op).1 refl, ((λ e. omega arith), (λ h. omega arith)))
