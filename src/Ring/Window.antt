-- ===== src/Ring/Window.antt =====
-- The items of a circular array between two ever-growing indices.
use native.Mathlib.Nat.{mod-lt}
use ved_db_server.Prelude.{
  ℕ, zero, suc, ◌+◌, ◌-◌, ◌%◌, ◌≤◌, ◌<◌, ◌≡◌, ◌≢◌, refl, ap, ap₂, sym, ◌∙◌, List, [], ◌∷◌, ◌++◌,
  length, get_or, set, get_or-set_self, get_or-set_ne, arith,
}

-- Two places of a ring differ if fewer than `cap` steps lead from one to the other.
pub mod-ne : (cap i j : ℕ) → i < j → j < i + cap → i % cap ≢ j % cap
mod-ne cap i j h k e = grind (arith, mod-lt i {m = cap} (omega arith))

module _ {ℓ} {A : Type ℓ} (default : A) (cap : ℕ) where
  -- the `n` items from index `i` on
  abbrev pub window : List A → ℕ → ℕ → List A
  window items i zero = []
  window items i (suc n) = get_or items (i % cap) default ∷ window items (suc i) n

  pub length-window : (items : List A) (i n : ℕ) → length (window items i n) ≡ n
  length-window items i zero = refl
  length-window items i (suc n) = ap suc (length-window items (suc i) n)

  -- A write before a window, at most one lap behind its end, does not change it.
  pub window-set_before :
      (items : List A) (i j n : ℕ) (x : A)
      → i < j
      → j + n ≤ i + cap
      → window (set items (i % cap) x) j n ≡ window items j n
  window-set_before items i j zero x h k = refl
  window-set_before items i j (suc n) x h k =
      ap₂ ◌∷◌ (get_or-set_ne items (i % cap) (j % cap) x default (mod-ne cap i j h (omega arith)))
        (window-set_before items i (suc j) n x (omega arith) (omega arith))

  -- A write just past a window extends it by one item.
  pub window-set_after :
      (items : List A) (i j n : ℕ) (x : A)
      → j ≡ i + n
      → n < cap
      → cap ≤ length items
      → window (set items (j % cap) x) i (suc n) ≡ window items i n ++ (x ∷ [])
  window-set_after items i j zero x e h k =
      let same : j ≡ i = omega arith in
      rw (same, get_or-set_self items (i % cap) x default (omega (arith, mod-lt i h)))
  window-set_after items i j (suc n) x e h k =
      ap₂ ◌∷◌
        (get_or-set_ne items (j % cap) (i % cap) x default
          (λ p. mod-ne cap i j (omega arith) (omega arith) (sym p)))
        (window-set_after items (suc i) j n x (omega arith) (omega arith) k)

  -- The window of no items, where the count is only known to be 0, and of one more.
  pub window-zero : (items : List A) (i n : ℕ) → n ≡ 0 → window items i n ≡ []
  window-zero items i zero e = refl
  window-zero items i (suc n) e = absurd (omega arith)

  pub window-pos :
      (items : List A) (i n : ℕ)
      → 0 < n
      → window items i n ≡ get_or items (i % cap) default ∷ window items (suc i) (n - 1)
  window-pos items i zero h = absurd (omega arith)
  window-pos items i (suc n) h = ap (λ m. window items i (suc m)) (omega arith)

  -- A write past a window, less than a lap ahead of its start, does not change it.
  pub window-set_past :
      (items : List A) (i j n : ℕ) (x : A)
      → i + n ≤ j
      → j < i + cap
      → window (set items (j % cap) x) i n ≡ window items i n
  window-set_past items i j zero x h k = refl
  window-set_past items i j (suc n) x h k =
      ap₂ ◌∷◌
        (get_or-set_ne items (j % cap) (i % cap) x default
          (λ p. mod-ne cap i j (omega arith) (omega arith) (sym p)))
        (window-set_past items (suc i) j n x (omega arith) (omega arith))

  -- A window that is one longer has one more item at its end.
  pub window-snoc :
      (items : List A) (i j n : ℕ)
      → j ≡ i + n
      → window items i (suc n) ≡ window items i n ++ (get_or items (j % cap) default ∷ [])
  window-snoc items i j zero e = ap (λ k. get_or items (k % cap) default ∷ []) (omega arith)
  window-snoc items i j (suc n) e =
      ap (◌∷◌ (get_or items (i % cap) default)) (window-snoc items (suc i) j n (omega arith))

  pub window-snoc_upto :
      (items : List A) (i j : ℕ)
      → i ≤ j
      → window items i (suc j - i) ≡ window items i (j - i) ++ (get_or items (j % cap) default ∷ [])
  window-snoc_upto items i j h =
      ap (window items i) {y = suc (j - i)} (omega arith)
      ∙ window-snoc items i j (j - i) (omega arith)
