-- ===== src/Mutex/Chain.antt =====
-- The list of waiting operations that starts at a word, along `m_next`.
use libcoro.Base.{ℕ, ◌≡◌, ◌≢◌, refl, ◌⊎◌, inl, inr, true, List, [], ◌∷◌, arith}
use libcoro.Mutex.{Word, unlocked_value, nullptr, operation, same_word, update}

abbrev pub Chain : (ℕ → Word) → Word → List ℕ → Type 0
Chain next w [] = w ≡ nullptr
Chain next w (x ∷ xs) = (w ≡ operation x) × Chain next (next x) xs

abbrev pub In : ℕ → List ℕ → Type 0
In x [] = ⊥
In x (y ∷ ys) = (x ≡ y) ⊎ In x ys

abbrev pub Distinct : List ℕ → Type 0
Distinct [] = Unit {0}
Distinct (x ∷ xs) = (¬ In x xs) × Distinct xs

-- A write to the `m_next` of an operation that is not on the list.
pub Chain-update :
    (next : ℕ → Word) (t : ℕ) (v w : Word) (xs : List ℕ)
    → ¬ In t xs
    → Chain next w xs
    → Chain (update next t v) w xs
Chain-update next t v w [] h c = c
Chain-update next t v w (x ∷ xs) h c =
    (c.0, rw apart (Chain-update next t v (next x) xs (λ i. h (inr i)) c.1))
  where
    apart : update next t v x ≡ next x
    apart = ground (arith, λ (e : t ≡ x). h (inl e))

pub update-ne {ℓ} : {B : Type ℓ} (f : ℕ → B) (k j : ℕ) (v : B) → j ≢ k → update f k v j ≡ f j
update-ne f k j v h = ground (arith, h)

pub update_self {ℓ} : {B : Type ℓ} (f : ℕ → B) (k : ℕ) (v : B) → update f k v k ≡ v
update_self f k v = ground arith

pub same_word→eq : (v w : Word) → same_word v w ≡ true → v ≡ w
same_word→eq unlocked_value unlocked_value h = refl
same_word→eq unlocked_value nullptr h = cc
same_word→eq unlocked_value (operation b) h = cc
same_word→eq nullptr unlocked_value h = cc
same_word→eq nullptr nullptr h = refl
same_word→eq nullptr (operation b) h = cc
same_word→eq (operation a) unlocked_value h = cc
same_word→eq (operation a) nullptr h = cc
same_word→eq (operation a) (operation b) h = ground arith

pub In-ne : (x y : ℕ) (xs : List ℕ) → In x xs → ¬ In y xs → x ≢ y
In-ne x y xs i h e = h (rw e at i)
