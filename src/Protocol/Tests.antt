-- ===== src/Protocol/Tests.antt =====
-- Readings of single bytes.
use ved_db_server.Prelude.{◌≡◌, ◌↔◌, some}
use ved_db_server.Protocol.Codes.{cas, op_code, op_try_from}
use ved_db_server.Protocol.Codes.RoundTrip.{op_try_from_iff}

op_try_from_iff_example : (op_try_from 5 ≡ some cas) ↔ (op_code cas ≡ 5)
op_try_from_iff_example = op_try_from_iff 5 cas
