-- ===== src/Mutex/Advance.antt =====
-- src/mutex.cpp: every access keeps the invariant, in each phase.
use mathlib.Core.Path.{subst}
use libcoro.Base.{
  ℕ, ◌≡◌, ◌≢◌, refl, inl, inr, Bool, true, false, Option, none, some, List, [], ◌∷◌, Bool-cases,
}
use libcoro.Mutex.{
  Word, unlocked_value, nullptr, operation, Phase, idle, suspending, looping, linked, waiting,
  owning, unlocking, popping, popping_next, threw, crashed, Mutex, same_word, try_lock, exchanges,
  suspend_loop, suspend_link, unlock_loop, pop_loop, pop_exchange, advance,
}
use libcoro.Mutex.Steps.{goto-Inv, acquire-Inv, release-Inv, link-Inv, push-Inv, pop-Inv}
use libcoro.Mutex.Chain.{In, same_word→eq}
use libcoro.Mutex.Invariant.{Local, Inv}

-- Some owner and some waiting operations fit the state.
abbrev pub Holds : Mutex → Type 0
Holds m = (o : Option ℕ) × (ws : List ℕ) × Inv m o ws

exchanges→eq : (b : Bool) (v w : Word) → exchanges b v w ≡ true → v ≡ w
exchanges→eq true v w h = cc
exchanges→eq false v w h = same_word→eq v w h

-- What the owner finds in `m_state`.
owned_state :
    (m : Mutex) (t : ℕ) (ws : List ℕ)
    → Inv m (some t) ws
    → (m.state ≢ unlocked_value) × (m.state ≢ nullptr → ws ≢ [])
owned_state m t [] v = (λ e. cc (v.shape, e), λ n e. n v.shape)
owned_state m t (w ∷ ws) v = (λ e. cc (v.shape.0, e), λ n e. cc e)

owned_head :
    (m : Mutex) (t : ℕ) (ws : List ℕ)
    → Inv m (some t) ws
    → ws ≢ []
    → (w : ℕ) × (m.state ≡ operation w) × In w ws
owned_head m t [] v n = absurd (n refl)
owned_head m t (w ∷ ws) v n = (w, v.shape.0, inl refl)

owned :
    (m : Mutex) (o : Option ℕ) (ws : List ℕ) (t : ℕ) → o ≡ some t → Inv m o ws → Inv m (some t) ws
owned m o ws t e v = subst (λ x. Inv m x ws) e v

unlocking_now :
    (m : Mutex) (o : Option ℕ) (ws : List ℕ) (t : ℕ)
    → Inv m o ws
    → o ≡ some t
    → ¬ In t ws
    → Local m.next o ws t (unlocking m.state)
unlocking_now m o ws t v e n = let (a, b) = owned_state m t ws (owned m o ws t e v) in (e, n, a, b)

popping_now :
    (m : Mutex) (o : Option ℕ) (ws : List ℕ) (t : ℕ)
    → Inv m o ws
    → o ≡ some t
    → ¬ In t ws
    → ws ≢ []
    → Local m.next o ws t (popping m.state)
popping_now m o ws t v e n k = (e, n, owned_head m t ws (owned m o ws t e v) k)

try_lock-Holds :
    (m : Mutex) (o : Option ℕ) (ws : List ℕ) (t : ℕ) (p : Phase)
    → Inv m o ws
    → Local m.next o ws t p
    → Holds (try_lock m t p)
unfolding try_lock
try_lock-Holds m o ws t p v l = elim (Bool-cases (same_word m.state unlocked_value)) [
  | inl e ↦ rw e (some t, [], acquire-Inv m o ws t v (same_word→eq m.state unlocked_value e))
  | inr e ↦ rw e (o, ws, goto-Inv m o ws t p v l)
]

suspend_loop-Holds :
    (m : Mutex) (o : Option ℕ) (ws : List ℕ) (t : ℕ) (b : Bool) (c : Word)
    → Inv m o ws
    → Local m.next o ws t (looping c)
    → Holds (suspend_loop m t b c)
unfolding suspend_loop
suspend_loop-Holds m o ws t b unlocked_value v l =
    elim (Bool-cases (exchanges b m.state unlocked_value)) [
      | inl e ↦ rw e (some t, [], acquire-Inv m o ws t v (exchanges→eq b m.state unlocked_value e))
      | inr e ↦ rw e (o, ws, goto-Inv m o ws t (looping m.state) v l)
    ]
suspend_loop-Holds m o ws t b nullptr v l = (o, ws, link-Inv m o ws t nullptr v l.0 l.1 (λ e. cc e))
suspend_loop-Holds m o ws t b (operation x) v l =
    (o, ws, link-Inv m o ws t (operation x) v l.0 l.1 (λ e. cc e))

suspend_link-Holds :
    (m : Mutex) (o : Option ℕ) (ws : List ℕ) (t : ℕ) (b : Bool) (c : Word)
    → Inv m o ws
    → Local m.next o ws t (linked c)
    → Holds (suspend_link m t b c)
unfolding suspend_link
suspend_link-Holds m o ws t b c v l = elim (Bool-cases (exchanges b m.state c)) [
  | inl e ↦ rw e (o, t ∷ ws, push-Inv m o ws t c v l (exchanges→eq b m.state c e))
  | inr e ↦ rw e (o, ws, goto-Inv m o ws t (looping m.state) v (l.0, l.1))
]

unlock_loop-Holds :
    (m : Mutex) (o : Option ℕ) (ws : List ℕ) (t : ℕ) (b : Bool) (c : Word)
    → Inv m o ws
    → Local m.next o ws t (unlocking c)
    → Holds (unlock_loop m t b c)
unfolding unlock_loop
unlock_loop-Holds m o ws t b unlocked_value v l = absurd (l.2 refl)
unlock_loop-Holds m o ws t b nullptr v l = elim (Bool-cases (exchanges b m.state nullptr)) [
  | inl e ↦
      rw e (none, [], release-Inv m ws t (owned m o ws t l.0 v) (exchanges→eq b m.state nullptr e))
  | inr e ↦ rw e (o, ws, goto-Inv m o ws t (unlocking m.state) v (unlocking_now m o ws t v l.0 l.1))
]
unlock_loop-Holds m o ws t b (operation w) v l = (
  o,
  ws,
  goto-Inv m o ws t (popping m.state) v (popping_now m o ws t v l.0 l.1 (l.3 (λ e. cc e))),
)

pop_loop-Holds :
    (m : Mutex) (o : Option ℕ) (ws : List ℕ) (t : ℕ) (c : Word)
    → Inv m o ws
    → Local m.next o ws t (popping c)
    → Holds (pop_loop m t c)
unfolding pop_loop
pop_loop-Holds m o ws t unlocked_value v l = absurd (cc (l.2.1))
pop_loop-Holds m o ws t nullptr v l = absurd (cc (l.2.1))
pop_loop-Holds m o ws t (operation w) v l =
    let same : l.2.0 ≡ w = cc (l.2.1) in
    (
      o,
      ws,
      goto-Inv m o ws t (popping_next w (m.next w)) v
          (l.0, l.1, subst (λ x. In x ws) same l.2.2, refl),
    )

pop_exchange-Holds :
    (m : Mutex) (o : Option ℕ) (ws : List ℕ) (t : ℕ) (b : Bool) (w : ℕ) (a : Word)
    → Inv m o ws
    → Local m.next o ws t (popping_next w a)
    → Holds (pop_exchange m t b w a)
unfolding pop_exchange
pop_exchange-Holds m o ws t b w a v l = elim (Bool-cases (exchanges b m.state (operation w))) [
  | inl e ↦
      let popped =
        pop-Inv m ws t w a (owned m o ws t l.0 v) l.1 l.3
          (exchanges→eq b m.state (operation w) e) in
      rw e (some w, popped.0, popped.1)
  | inr e ↦ rw e (
    o,
    ws,
    goto-Inv m o ws t (popping m.state) v (popping_now m o ws t v l.0 l.1 (some_waits ws l.2)),
  )
]
  where
    some_waits : (ws : List ℕ) → In w ws → ws ≢ []
    some_waits [] i e = i
    some_waits (x ∷ ws) i e = cc e

pub advance-Holds :
    (m : Mutex) (o : Option ℕ) (ws : List ℕ) (t : ℕ) (tries spurious : Bool) (p : Phase)
    → Inv m o ws
    → Local m.next o ws t p
    → Holds (advance m t tries spurious p)
unfolding advance
advance-Holds m o ws t true spurious idle v l = try_lock-Holds m o ws t idle v l
advance-Holds m o ws t false spurious idle v l = try_lock-Holds m o ws t suspending v l
advance-Holds m o ws t tries spurious suspending v l = (o, ws, goto-Inv m o ws t _ v l)
advance-Holds m o ws t tries spurious (looping c) v l = suspend_loop-Holds m o ws t spurious c v l
advance-Holds m o ws t tries spurious (linked c) v l = suspend_link-Holds m o ws t spurious c v l
advance-Holds m o ws t tries spurious waiting v l = (o, ws, v)
advance-Holds m o ws t tries spurious owning v l =
    (o, ws, goto-Inv m o ws t _ v (unlocking_now m o ws t v l.0 l.1))
advance-Holds m o ws t tries spurious (unlocking c) v l = unlock_loop-Holds m o ws t spurious c v l
advance-Holds m o ws t tries spurious (popping c) v l = pop_loop-Holds m o ws t c v l
advance-Holds m o ws t tries spurious (popping_next w a) v l =
    pop_exchange-Holds m o ws t spurious w a v l
advance-Holds m o ws t tries spurious threw v l = absurd l
advance-Holds m o ws t tries spurious crashed v l = absurd l
