-- ===== src/Rotation.antt =====
-- The states of a key rotation in veddb-core/src/encryption/rotation_state.rs. Times are
-- numbers.
mod Tests
pub mod Keys
pub mod Storage
pub mod Scheduler
pub mod Steps
pub mod Recovery
pub mod Skipped
use ved_db_server.Prelude.{
  ℕ, zero, suc, ◌+◌, ◌-◌, ◌*◌, ◌/◌, ◌%◌, ◌^◌, ◌≤◌, ◌<◌, min, max, bit_and, bit_xor, ◌≡◌, refl, sym,
  ap, ap₂, subst, ◌∙◌, ◌≢◌, ◌↔◌, ◌⊎◌, inl, inr, Bool, true, false, not, ◌&&◌, ◌||◌, Option, none,
  some, List, [], ◌∷◌, ◌++◌, map, arith, ltb, leb, ◌==◌, if◌then◌else◌, ltb→lt, lt→ltb, leb→le,
  le→leb, ==_iff, Bool-cases, Option-cases, length, get_elem?, get_or, set, take, drop, replicate,
  All, length-append, length-replicate, length-set, get_or-set_self, get_or-set_ne, get_or-set,
  get_or-replicate, take-append_length, length-drop, All-append, All-drop,
}
use Prim.Native.String.{String}

pub data KeyRotationState : Type 0 where
  idle : KeyRotationState
  re_encrypting :
      (key_id : String) (started_at processed total : ℕ)
      (last_checkpoint : Option (String × String))
      → KeyRotationState
  completed : (key_id : String) (completed_at documents_processed : ℕ) → KeyRotationState
  failed : (key_id reason : String) (failed_at : ℕ) → KeyRotationState

unfoldable pub is_idle : KeyRotationState → Bool
is_idle idle = true
is_idle s = false

unfoldable pub is_completed : KeyRotationState → Bool
is_completed (completed key_id at n) = true
is_completed s = false

unfoldable pub is_in_progress : KeyRotationState → Bool
is_in_progress (re_encrypting key_id at n total checkpoint) = true
is_in_progress s = false

unfoldable pub is_failed : KeyRotationState → Bool
is_failed (failed key_id reason at) = true
is_failed s = false

unfoldable pub can_start_rotation : KeyRotationState → Bool
can_start_rotation idle = true
can_start_rotation (completed key_id at n) = true
can_start_rotation s = false

unfoldable pub active_key_id : KeyRotationState → Option String
active_key_id (re_encrypting key_id at n total checkpoint) = some key_id
active_key_id (failed key_id reason at) = some key_id
active_key_id s = none

unfoldable pub progress : KeyRotationState → Option (ℕ × ℕ)
progress (re_encrypting key_id at processed total checkpoint) = some (processed, total)
progress s = none

-- A rotation can start exactly if no key is active, that is if none is in progress and none has
-- failed, and there is progress to report exactly if one is in progress.
can_start_rotation-active_key_id :
    (s : KeyRotationState)
    → ((can_start_rotation s ≡ true) ↔ (active_key_id s ≡ none))
      × (can_start_rotation s ≡ not (is_in_progress s || is_failed s))
      × ((progress s ≡ none) ↔ (is_in_progress s ≡ false))
unfolding can_start_rotation active_key_id is_in_progress is_failed progress
can_start_rotation-active_key_id idle = ground arith
can_start_rotation-active_key_id (re_encrypting key_id at n total checkpoint) = ground arith
can_start_rotation-active_key_id (completed key_id at n) = ground arith
can_start_rotation-active_key_id (failed key_id reason at) = ground arith
