-- ===== src/Mutex/ScopedLock.antt =====
-- include/coro/mutex.hpp and src/mutex.cpp: scoped_lock. Guards are objects by address.
use libcoro.Base.{
  ℕ, ◌≡◌, ◌≢◌, refl, sym, ap, inl, inr, Bool-cases, false, Option, none, some, List, [], ◌∷◌, ◌++◌,
  ◌==◌, if◌then◌else◌, arith,
}

pub record Guards : Type 0 where
  -- each guard's `m_mutex`
  pub held : ℕ → Option ℕ
  -- the calls of `mutex::unlock` so far
  pub unlocks : List ℕ

abbrev pub hold : Guards → ℕ → Option ℕ → Guards
hold s g m = record s { held = λ h. if h == g then m else s.held h }

-- `scoped_lock(mutex&)`, the guard that `lock_operation::await_resume` returns
unfoldable pub adopt : Guards → ℕ → ℕ → Guards
adopt s g m = hold s g (some m)

abbrev pub unlock_held : Guards → ℕ → Option ℕ → Guards
unlock_held s g none = s
unlock_held s g (some m) = let s' = hold s g none in record s' { unlocks = s.unlocks ++ m ∷ [] }

-- `scoped_lock::unlock`, which the destructor calls
unfoldable pub unlock_guard : Guards → ℕ → Guards
unlock_guard s g = unlock_held s g (s.held g)

-- `scoped_lock(scoped_lock&&)`
unfoldable pub move_guard : Guards → ℕ → ℕ → Guards
move_guard s g other = hold (hold s g (s.held other)) other none

-- `operator=(scoped_lock&&)`
unfoldable pub move_assign_guard : Guards → ℕ → ℕ → Guards
unfolding move_guard
move_assign_guard s g other = if g == other then s else move_guard s g other

-- Move assignment to a guard that alone holds a mutex leaves a state in which no guard holds it,
-- though it has not been unlocked.
pub move_assign-leaks :
    (s : Guards) (g other m : ℕ)
    → g ≢ other
    → s.held g ≡ some m
    → ((h : ℕ) → h ≢ g → s.held h ≢ some m)
    → ((h : ℕ) → (move_assign_guard s g other).held h ≢ some m)
      × ((move_assign_guard s g other).unlocks ≡ s.unlocks)
unfolding move_assign_guard
move_assign-leaks s g other m ne here alone =
    let other_guard : (g == other) ≡ false = ground (arith, ne) in
    let apart : other ≢ g = λ e. ne (sym e) in
    simp other_guard (
      (λ h. elim (Bool-cases (h == other)) [
        | inl e ↦ simp e (λ q. cc q)
        | inr e ↦ elim (Bool-cases (h == g)) [
          | inl f ↦ simp (e, f) (alone other apart)
          | inr f ↦ simp (e, f) (alone h (ground (arith, f)))
        ]
      ]),
      refl,
    )

unlock-held : (s : Guards) (g : ℕ) (o : Option ℕ) → o ≡ s.held g → (unlock_held s g o).held g ≡ none
unlock-held s g none e = sym e
unlock-held s g (some m) e = ground arith

-- A guard that has unlocked its mutex does not unlock it again.
unlock-unlock : (s : Guards) (g : ℕ) → unlock_guard (unlock_guard s g) g ≡ unlock_guard s g
unfolding unlock_guard
unlock-unlock s g =
    let t = unlock_guard s g in ap (unlock_held t g) (unlock-held s g (s.held g) refl)
