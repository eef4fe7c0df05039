-- ===== src/RingBuffer/Slots.antt =====
-- The slots of the array from a counter on: the elements that the buffer holds, oldest first.
use native.Mathlib.Nat.{mod-add-mod, mod-lt, mod-eq_of_lt, mod-eq-sub-mod}
use mathlib.Core.Path.{ap₂}
use native.Mathlib.Decide.{dec_lt}
use libcoro.Base.{
  ℕ, zero, suc, ◌+◌, ◌-◌, ◌%◌, ◌≤◌, ◌<◌, ◌≡◌, ◌≢◌, refl, sym, ap, ◌∙◌, Option, none, List, [], ◌∷◌,
  ◌++◌, arith, length, get_or, set, get_or-set_self, get_or-set_ne,
}

-- Two counters less than `n` apart have different slots.
shift-mod-ne : (r k n : ℕ) → r < n → 0 < k → k < n → (r + k) % n ≢ r
shift-mod-ne r k n hr hk hn = elim (dec_lt (r + k) n) [
  | yes p ↦ omega (arith, mod-eq_of_lt p)
  | no p ↦ omega (
    arith,
    mod-eq-sub-mod {n = r + k} {m = n} (omega arith),
    mod-eq_of_lt {n = r + k - n} {m = n} (omega arith),
  )
]

pub slot-ne : (i j n : ℕ) → j < i → i < j + n → i % n ≢ j % n
slot-ne i j n lt hn e =
    shift-mod-ne (j % n) (i - j) n (mod-lt j (omega arith)) (omega arith) (omega arith)
      (mod-add-mod j n (i - j) ∙ ap (λ t. t % n) (omega arith) ∙ e)

module _ {A : Type 0} where
  -- The `k` slots from counter `b` on.
  abbrev pub slots : List (Option A) → ℕ → ℕ → ℕ → List (Option A)
  slots xs n b zero = []
  slots xs n b (suc k) = get_or xs (b % n) none ∷ slots xs n (b + 1) k

  -- A write outside the range leaves the slots alone.
  pub slots-set_ne :
      (xs : List (Option A)) (n b k i : ℕ) (v : Option A)
      → ((j : ℕ) → b ≤ j → j < b + k → i ≢ j % n)
      → slots (set xs i v) n b k ≡ slots xs n b k
  slots-set_ne xs n b zero i v h = refl
  slots-set_ne xs n b (suc k) i v h =
      ap₂ ◌∷◌ (get_or-set_ne xs i (b % n) v none (h b (omega arith) (omega arith)))
        (slots-set_ne xs n (b + 1) k i v (λ j lo hi. h j (omega arith) (omega arith)))

  -- A write just past the range extends it.
  pub slots-set_next :
      (xs : List (Option A)) (n b k f : ℕ) (v : Option A)
      → length xs ≡ n
      → k < n
      → f ≡ b + k
      → slots (set xs (f % n) v) n b (suc k) ≡ slots xs n b k ++ v ∷ []
  slots-set_next xs n b zero f v hl hk e =
      ap (λ t. t ∷ [])
        (ap (λ t. get_or (set xs (f % n) v) (t % n) none) (omega arith)
          ∙ get_or-set_self xs (f % n) v none (omega (arith, mod-lt f {m = n})))
  slots-set_next xs n b (suc k) f v hl hk e =
      ap₂ ◌∷◌ (get_or-set_ne xs (f % n) (b % n) v none (slot-ne f b n (omega arith) (omega arith)))
        (slots-set_next xs n (b + 1) k f v hl (omega arith) (omega arith))

  -- Emptying the first slot leaves the others alone.
  pub slots-set_first :
      (xs : List (Option A)) (n b k : ℕ) (v : Option A)
      → k < n
      → slots (set xs (b % n) v) n (b + 1) k ≡ slots xs n (b + 1) k
  slots-set_first xs n b k v h =
      slots-set_ne xs n (b + 1) k (b % n) v
        (λ j lo hi e. slot-ne j b n (omega arith) (omega arith) (sym e))

  pub slots-suc :
      (xs : List (Option A)) (n b k : ℕ)
      → 0 < k
      → slots xs n b k ≡ get_or xs (b % n) none ∷ slots xs n (b + 1) (k - 1)
  slots-suc xs n b zero h = elim h [ ]
  slots-suc xs n b (suc k) h = ap (λ t. slots xs n b (suc t)) (omega arith)

  pub length-slots : (xs : List (Option A)) (n b k : ℕ) → length (slots xs n b k) ≡ k
  length-slots xs n b zero = refl
  length-slots xs n b (suc k) = ap suc (length-slots xs n (b + 1) k)
