-- ===== src/Mutex/Invariant.antt =====
-- src/mutex.cpp: the protocol's invariant, and the parts of it that a step leaves alone.
use libcoro.Base.{
  ℕ, ◌≡◌, ◌≢◌, refl, ap, ◌∙◌, inl, inr, Bool, true, false, Option, none, some, List, [], ◌∷◌, arith,
  ◌==◌, Bool-cases,
}
use libcoro.Mutex.{
  Word, unlocked_value, nullptr, operation, Phase, idle, suspending, looping, linked, waiting,
  owning, unlocking, popping, popping_next, threw, crashed, Mutex, update,
}
use libcoro.Mutex.Chain.{Chain, In, Distinct, In-ne, update-ne}

-- `m_state` when `o` owns the lock and `ws` wait for it, the latest first.
abbrev pub Shape : Word → (ℕ → Word) → Option ℕ → List ℕ → Type 0
Shape w next none ws = (w ≡ unlocked_value) × (ws ≡ [])
Shape w next (some h) ws = Chain next w ws

-- What holds of operation `u` in each phase.
abbrev pub Local : (ℕ → Word) → Option ℕ → List ℕ → ℕ → Phase → Type 0
Local next o ws u idle = (o ≢ some u) × (¬ In u ws)
Local next o ws u suspending = (o ≢ some u) × (¬ In u ws)
Local next o ws u (looping c) = (o ≢ some u) × (¬ In u ws)
Local next o ws u (linked c) = (o ≢ some u) × (¬ In u ws) × (next u ≡ c) × (c ≢ unlocked_value)
Local next o ws u waiting = (o ≢ some u) × In u ws
Local next o ws u owning = (o ≡ some u) × (¬ In u ws)
Local next o ws u (unlocking c) =
    (o ≡ some u) × (¬ In u ws) × (c ≢ unlocked_value) × (c ≢ nullptr → ws ≢ [])
Local next o ws u (popping c) = (o ≡ some u) × (¬ In u ws) × ((w : ℕ) × (c ≡ operation w) × In w ws)
Local next o ws u (popping_next w a) = (o ≡ some u) × (¬ In u ws) × In w ws × (next w ≡ a)
Local next o ws u threw = ⊥
Local next o ws u crashed = ⊥

-- The phases in which an operation owns the lock.
abbrev pub owns : Phase → Bool
owns owning = true
owns (unlocking c) = true
owns (popping c) = true
owns (popping_next w a) = true
owns _ = false

abbrev pub Held : (ℕ → Phase) → Option ℕ → Type 0
Held phase none = Unit {0}
Held phase (some h) = owns (phase h) ≡ true

pub record Inv (m : Mutex) (o : Option ℕ) (ws : List ℕ) : Type 0 where
  pub shape : Shape m.state m.next o ws
  pub distinct : Distinct ws
  pub held : Held m.phase o
  pub each : (u : ℕ) → Local m.next o ws u (m.phase u)

some-ne : (t u : ℕ) → u ≢ t → (some t) ≢ (some u)
some-ne t u h e = h (cc)

pub Local-next :
    (next : ℕ → Word) (o : Option ℕ) (ws : List ℕ) (t : ℕ) (v : Word) (u : ℕ) (p : Phase)
    → u ≢ t
    → ¬ In t ws
    → Local next o ws u p
    → Local (update next t v) o ws u p
Local-next next o ws t v u idle h n l = l
Local-next next o ws t v u suspending h n l = l
Local-next next o ws t v u (looping c) h n l = l
Local-next next o ws t v u (linked c) h n l = (l.0, l.1, update-ne next t u v h ∙ l.2, l.3)
Local-next next o ws t v u waiting h n l = l
Local-next next o ws t v u owning h n l = l
Local-next next o ws t v u (unlocking c) h n l = l
Local-next next o ws t v u (popping c) h n l = l
Local-next next o ws t v u (popping_next w a) h n l =
    (l.0, l.1, l.2, update-ne next t w v (In-ne w t ws l.2 n) ∙ l.3)
Local-next next o ws t v u threw h n l = l
Local-next next o ws t v u crashed h n l = l

pub Local-acquire :
    (next : ℕ → Word) (t u : ℕ) (p : Phase)
    → u ≢ t
    → Local next none [] u p
    → Local next (some t) [] u p
Local-acquire next t u idle h l = (some-ne t u h, l.1)
Local-acquire next t u suspending h l = (some-ne t u h, l.1)
Local-acquire next t u (looping c) h l = (some-ne t u h, l.1)
Local-acquire next t u (linked c) h l = (some-ne t u h, l.1, l.2, l.3)
Local-acquire next t u waiting h l = absurd l.1
Local-acquire next t u owning h l = absurd (cc l.0)
Local-acquire next t u (unlocking c) h l = absurd (cc l.0)
Local-acquire next t u (popping c) h l = absurd (cc l.0)
Local-acquire next t u (popping_next w a) h l = absurd (cc l.0)
Local-acquire next t u threw h l = l
Local-acquire next t u crashed h l = l

pub Local-release :
    (next : ℕ → Word) (t u : ℕ) (p : Phase)
    → u ≢ t
    → Local next (some t) [] u p
    → Local next none [] u p
Local-release next t u idle h l = (λ e. cc, l.1)
Local-release next t u suspending h l = (λ e. cc, l.1)
Local-release next t u (looping c) h l = (λ e. cc, l.1)
Local-release next t u (linked c) h l = (λ e. cc, l.1, l.2, l.3)
Local-release next t u waiting h l = absurd l.1
Local-release next t u owning h l = absurd (some-ne t u h l.0)
Local-release next t u (unlocking c) h l = absurd (some-ne t u h l.0)
Local-release next t u (popping c) h l = absurd (some-ne t u h l.0)
Local-release next t u (popping_next w a) h l = absurd (some-ne t u h l.0)
Local-release next t u threw h l = l
Local-release next t u crashed h l = l

not-In-cons : (t u : ℕ) (ws : List ℕ) → u ≢ t → ¬ In u ws → ¬ In u (t ∷ ws)
not-In-cons t u ws h n (inl e) = h e
not-In-cons t u ws h n (inr i) = n i

pub Local-push :
    (next : ℕ → Word) (o : Option ℕ) (ws : List ℕ) (t u : ℕ) (p : Phase)
    → u ≢ t
    → Local next o ws u p
    → Local next o (t ∷ ws) u p
Local-push next o ws t u idle h l = (l.0, not-In-cons t u ws h l.1)
Local-push next o ws t u suspending h l = (l.0, not-In-cons t u ws h l.1)
Local-push next o ws t u (looping c) h l = (l.0, not-In-cons t u ws h l.1)
Local-push next o ws t u (linked c) h l = (l.0, not-In-cons t u ws h l.1, l.2, l.3)
Local-push next o ws t u waiting h l = (l.0, inr l.1)
Local-push next o ws t u owning h l = (l.0, not-In-cons t u ws h l.1)
Local-push next o ws t u (unlocking c) h l = (l.0, not-In-cons t u ws h l.1, l.2, λ n e. cc e)
Local-push next o ws t u (popping c) h l =
    (l.0, not-In-cons t u ws h l.1, (l.2.0, l.2.1, inr l.2.2))
Local-push next o ws t u (popping_next w a) h l = (l.0, not-In-cons t u ws h l.1, inr l.2, l.3)
Local-push next o ws t u threw h l = l
Local-push next o ws t u crashed h l = l

In-tail : (w u : ℕ) (ws : List ℕ) → u ≢ w → In u (w ∷ ws) → In u ws
In-tail w u ws h (inl e) = absurd (h e)
In-tail w u ws h (inr i) = i

pub Local-pop :
    (next : ℕ → Word) (ws : List ℕ) (t w u : ℕ) (p : Phase)
    → u ≢ t
    → u ≢ w
    → Local next (some t) (w ∷ ws) u p
    → Local next (some w) ws u p
Local-pop next ws t w u idle h k l = (some-ne w u k, λ i. l.1 (inr i))
Local-pop next ws t w u suspending h k l = (some-ne w u k, λ i. l.1 (inr i))
Local-pop next ws t w u (looping c) h k l = (some-ne w u k, λ i. l.1 (inr i))
Local-pop next ws t w u (linked c) h k l = (some-ne w u k, λ i. l.1 (inr i), l.2, l.3)
Local-pop next ws t w u waiting h k l = (some-ne w u k, In-tail w u ws k l.1)
Local-pop next ws t w u owning h k l = absurd (some-ne t u h l.0)
Local-pop next ws t w u (unlocking c) h k l = absurd (some-ne t u h l.0)
Local-pop next ws t w u (popping c) h k l = absurd (some-ne t u h l.0)
Local-pop next ws t w u (popping_next x a) h k l = absurd (some-ne t u h l.0)
Local-pop next ws t w u threw h k l = l
Local-pop next ws t w u crashed h k l = l

-- One operation enters a phase; the others are as before.
pub Local-update :
    (next : ℕ → Word) (o : Option ℕ) (ws : List ℕ) (phase : ℕ → Phase) (t : ℕ) (p : Phase)
    → Local next o ws t p
    → ((u : ℕ) → u ≢ t → Local next o ws u (phase u))
    → (u : ℕ) → Local next o ws u (update phase t p u)
Local-update next o ws phase t p l others u = elim (Bool-cases (u == t)) [
  | inl e ↦ let same : u ≡ t = ground arith in rw (e, same) l
  | inr e ↦ rw e (others u (ground arith))
]

pub Local-owns :
    (next : ℕ → Word) (o : Option ℕ) (ws : List ℕ) (t : ℕ) (p : Phase)
    → Local next o ws t p
    → o ≡ some t
    → owns p ≡ true
Local-owns next o ws t idle l e = absurd (l.0 e)
Local-owns next o ws t suspending l e = absurd (l.0 e)
Local-owns next o ws t (looping c) l e = absurd (l.0 e)
Local-owns next o ws t (linked c) l e = absurd (l.0 e)
Local-owns next o ws t waiting l e = absurd (l.0 e)
Local-owns next o ws t owning l e = refl
Local-owns next o ws t (unlocking c) l e = refl
Local-owns next o ws t (popping c) l e = refl
Local-owns next o ws t (popping_next w a) l e = refl
Local-owns next o ws t threw l e = absurd l
Local-owns next o ws t crashed l e = absurd l

pub Held-update :
    (phase : ℕ → Phase) (o : Option ℕ) (t : ℕ) (p : Phase)
    → (o ≡ some t → owns p ≡ true)
    → Held phase o
    → Held (update phase t p) o
Held-update phase none t p k h = tt
Held-update phase (some u) t p k h = elim (Bool-cases (u == t)) [
  | inl e ↦ let same : u ≡ t = ground arith in rw e (k (ap some same))
  | inr e ↦ rw e h
]
