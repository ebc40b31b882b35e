-- ===== src/Ring/Queue.antt =====
-- What a ring buffer promises: a queue of at most `cap` slots, oldest first.
use ved_db_server.Prelude.{
  ℕ, suc, Bool, true, false, Option, none, some, List, [], ◌∷◌, ◌++◌, leb, if◌then◌else◌, length,
}

module _ {ℓ} {A : Type ℓ} where
  unfoldable pub enqueue : ℕ → A → List A → Bool × List A
  enqueue cap x q = if leb cap (length q) then (false, q) else (true, q ++ (x ∷ []))

  unfoldable pub dequeue : List A → Option A × List A
  dequeue [] = (none, [])
  dequeue (x ∷ q) = (some x, q)

-- A client's calls, and what it sees of each.
pub data Call {ℓ} (A : Type ℓ) : Type ℓ where
  push : A → Call A
  pop : Call A

pub data Reply {ℓ} (A : Type ℓ) : Type ℓ where
  pushed : Bool → Reply A
  popped : Option A → Reply A

module _ {ℓ} {A : Type ℓ} where
  unfoldable pub run : ℕ → List A → List (Call A) → List (Reply A)
  run cap q [] = []
  run cap q (push x ∷ calls) = let (done, q') = enqueue cap x q in pushed done ∷ run cap q' calls
  run cap q (pop ∷ calls) = let (out, q') = dequeue q in popped out ∷ run cap q' calls

-- How many of the calls push.
abbrev pub pushes {ℓ} : {A : Type ℓ} → List (Call A) → ℕ
pushes [] = 0
pushes (push x ∷ calls) = suc (pushes calls)
pushes (pop ∷ calls) = pushes calls
