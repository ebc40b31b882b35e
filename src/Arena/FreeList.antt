-- ===== src/Arena/FreeList.antt =====
-- The size classes, and blocks that are freed and handed out again.
use ved_db_server.Prelude.{
  ℕ, zero, suc, ◌+◌, ◌-◌, ◌^◌, ◌≤◌, ◌<◌, ◌≡◌, refl, ap, subst, ◌∙◌, ◌⊎◌, inl, inr, none, some, List,
  [], ◌∷◌, arith, leb, leb→le, Bool-cases, Option-cases, length, get_or,
}
use ved_db_server.Arena.Defs.{size_classes, size_class_for, size_for_class, position}

get_or-cons_pos : (c : ℕ) (cs : List ℕ) (k : ℕ) → 0 < k → get_or (c ∷ cs) k 0 ≡ get_or cs (k - 1) 0
get_or-cons_pos c cs zero h = absurd (omega arith)
get_or-cons_pos c cs (suc k) h = ap (λ n. get_or cs n 0) {y = suc k - 1} (omega arith)

position_bounds :
    (i size : ℕ) (cs : List ℕ) (j : ℕ)
    → position i size cs ≡ some j
    → (i ≤ j) × (j < i + length cs) × (size ≤ get_or cs (j - i) 0)
unfolding position
position_bounds i size [] j e = cc
position_bounds i size (c ∷ cs) j e = elim (Bool-cases (leb size c)) [
  | inl fits ↦
      let here : i ≡ j = ground arith in
      let first : j - i ≡ 0 = omega arith in
      (omega arith, omega arith, rw first (leb→le size c fits))
  | inr big ↦
      let (lo, hi, le) = position_bounds (suc i) size cs j (ground arith) in
      (
        omega arith,
        omega arith,
        rw (get_or-cons_pos c cs (j - i) (omega arith))
            (subst (λ n. size ≤ get_or cs n 0) {x = j - suc i} (omega arith) le),
      )
]

position_smaller :
    (i size : ℕ) (cs : List ℕ) (j k : ℕ)
    → position i size cs ≡ some j
    → k < j - i
    → get_or cs k 0 < size
unfolding position
position_smaller i size [] j k e h = cc
position_smaller i size (c ∷ cs) j zero e h = ground arith
position_smaller i size (c ∷ cs) j (suc k) e h = elim (Bool-cases (leb size c)) [
  | inl fits ↦ absurd (ground arith)
  | inr big ↦ position_smaller (suc i) size cs j k (ground arith) (omega arith)
]

position-none :
    (i size : ℕ) (cs : List ℕ) (k : ℕ)
    → position i size cs ≡ none
    → k < length cs
    → get_or cs k 0 < size
unfolding position
position-none i size [] k e h = absurd (omega arith)
position-none i size (c ∷ cs) zero e h = ground arith
position-none i size (c ∷ cs) (suc k) e h = elim (Bool-cases (leb size c)) [
  | inl fits ↦ absurd (ground arith)
  | inr big ↦ position-none (suc i) size cs k (ground arith) (omega arith)
]

-- A size class is the first of the thirteen that is large enough.
pub size_class_for-smallest :
    (size i : ℕ)
    → size_class_for size ≡ some i
    → (i < 13) × (size ≤ size_for_class i) × ((k : ℕ) → k < i → size_for_class k < size)
unfolding size_class_for
size_class_for-smallest size i e =
    let (lo, hi, le) = position_bounds 0 size size_classes i e in
    let same : i - 0 ≡ i = omega arith in
    (omega arith, rw (← same) le, λ k h. position_smaller 0 size size_classes i k e (omega arith))

-- A request has no size class exactly if it is larger than the largest class.
size_class_for-eq-none : (size : ℕ) → size_class_for size ≡ none → 32768 < size
unfolding size_class_for
size_class_for-eq-none size e = position-none 0 size size_classes 12 e (omega arith)

size_for_class-pow : (i : ℕ) → i < 13 → size_for_class i ≡ 2 ^ (i + 3)
size_for_class-pow zero h = refl
size_for_class-pow (suc zero) h = refl
size_for_class-pow (suc (suc zero)) h = refl
size_for_class-pow (suc (suc (suc zero))) h = refl
size_for_class-pow (suc (suc (suc (suc zero)))) h = refl
size_for_class-pow (suc (suc (suc (suc (suc zero))))) h = refl
size_for_class-pow (suc (suc (suc (suc (suc (suc zero)))))) h = refl
size_for_class-pow (suc (suc (suc (suc (suc (suc (suc zero))))))) h = refl
size_for_class-pow (suc (suc (suc (suc (suc (suc (suc (suc zero)))))))) h = refl
size_for_class-pow (suc (suc (suc (suc (suc (suc (suc (suc (suc zero))))))))) h = refl
size_for_class-pow (suc (suc (suc (suc (suc (suc (suc (suc (suc (suc zero)))))))))) h = refl
size_for_class-pow (suc (suc (suc (suc (suc (suc (suc (suc (suc (suc (suc zero))))))))))) h = refl
size_for_class-pow (suc (suc (suc (suc (suc (suc (suc (suc (suc (suc (suc (suc zero)))))))))))) h =
    refl
size_for_class-pow (suc (suc (suc (suc (suc (suc (suc (suc (suc (suc (suc (suc (suc i)))))))))))))
      h =
    absurd (omega (arith, h))

-- A request for more than 32768 bytes has no size class, and every other has one of the classes 0 to 12:
-- the blocks of class i are of 2^(i + 3) bytes, which is enough, and half of it is not unless the class is
-- the first.
pub size_class_for-cases :
    (size : ℕ)
    → ((32768 < size) × (size_class_for size ≡ none))
      ⊎ ((i : ℕ) × (size_class_for size ≡ some i)
          × (i < 13)
          × (size_for_class i ≡ 2 ^ (i + 3))
          × (size ≤ 2 ^ (i + 3))
          × ((i ≡ 0) ⊎ (2 ^ (i + 2) < size)))
size_class_for-cases size = elim (Option-cases (size_class_for size)) [
  | inl none_fits ↦ inl (size_class_for-eq-none size none_fits, none_fits)
  | inr (i, found) ↦
      let (in_range, fits, smallest) = size_class_for-smallest size i found in
      let pow = size_for_class-pow i in_range in
      inr (
        i,
        found,
        in_range,
        pow,
        subst (λ n. size ≤ n) pow fits,
        first_or_larger i in_range smallest,
      )
]
  where
    first_or_larger :
        (i : ℕ)
        → i < 13
        → ((k : ℕ) → k < i → size_for_class k < size)
        → (i ≡ 0) ⊎ (2 ^ (i + 2) < size)
    first_or_larger zero h smallest = inl refl
    first_or_larger (suc i) h smallest = inr (
        subst (λ n. n < size)
          (size_for_class-pow i (omega arith)
            ∙ ap (λ n. 2 ^ n) {x = i + 3} {y = suc i + 2} (omega arith))
          (smallest i (omega arith)))
