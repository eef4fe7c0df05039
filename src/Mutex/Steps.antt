-- ===== src/Mutex/Steps.antt =====
-- src/mutex.cpp: every access keeps the invariant.
use libcoro.Base.{
  ℕ, ◌≡◌, ◌≢◌, refl, sym, ap, ◌∙◌, inl, inr, Option, none, some, List, [], ◌∷◌, arith, ◌==◌,
  Bool-cases,
}
use libcoro.Mutex.{
  Word, unlocked_value, nullptr, operation, Phase, idle, linked, waiting, owning, Mutex, update,
  goto,
}
use libcoro.Mutex.Chain.{In, Chain-update, update_self}
use libcoro.Mutex.Invariant.{
  Shape, Local, Inv, Local-next, Local-acquire, Local-release, Local-push, Local-pop, Local-update,
  Local-owns, Held-update, owns,
}

pub goto-Inv :
    (m : Mutex) (o : Option ℕ) (ws : List ℕ) (t : ℕ) (p : Phase)
    → Inv m o ws
    → Local m.next o ws t p
    → Inv (goto m t p) o ws
goto-Inv m o ws t p v l = record {
  shape = v.shape;
  distinct = v.distinct;
  held = Held-update m.phase o t p (Local-owns m.next o ws t p l) v.held;
  each = Local-update m.next o ws m.phase t p l (λ u h. v.each u);
}

pub acquire-Inv :
    (m : Mutex) (o : Option ℕ) (ws : List ℕ) (t : ℕ)
    → Inv m o ws
    → m.state ≡ unlocked_value
    → Inv (record m { state = nullptr; phase = update m.phase t owning }) (some t) []
acquire-Inv m none [] t v e = record {
  shape = refl;
  distinct = tt;
  held = ap owns (update_self m.phase t owning);
  each =
      Local-update m.next (some t) [] m.phase t owning (refl, λ i. i)
        (λ u h. Local-acquire m.next t u (m.phase u) h (v.each u));
}
acquire-Inv m none (w ∷ ws) t v e = absurd (cc v.shape.1)
acquire-Inv m (some h) [] t v e = absurd (cc (v.shape, e))
acquire-Inv m (some h) (w ∷ ws) t v e = absurd (cc (v.shape.0, e))

pub release-Inv :
    (m : Mutex) (ws : List ℕ) (t : ℕ)
    → Inv m (some t) ws
    → m.state ≡ nullptr
    → Inv (record m { state = unlocked_value; phase = update m.phase t idle }) none []
release-Inv m [] t v e = record {
  shape = (refl, refl);
  distinct = tt;
  held = tt;
  each =
      Local-update m.next none [] m.phase t idle (λ p. cc, λ i. i)
        (λ u h. Local-release m.next t u (m.phase u) h (v.each u));
}
release-Inv m (w ∷ ws) t v e = absurd (cc (v.shape.0, e))

Shape-update :
    (w : Word) (next : ℕ → Word) (o : Option ℕ) (ws : List ℕ) (t : ℕ) (c : Word)
    → ¬ In t ws
    → Shape w next o ws
    → Shape w (update next t c) o ws
Shape-update w next none ws t c n s = s
Shape-update w next (some h) ws t c n s = Chain-update next t c w ws n s

pub link-Inv :
    (m : Mutex) (o : Option ℕ) (ws : List ℕ) (t : ℕ) (c : Word)
    → Inv m o ws
    → o ≢ some t
    → ¬ In t ws
    → c ≢ unlocked_value
    → Inv (record m { next = update m.next t c; phase = update m.phase t (linked c) }) o ws
link-Inv m o ws t c v n i k = record {
  shape = Shape-update m.state m.next o ws t c i v.shape;
  distinct = v.distinct;
  held = Held-update m.phase o t (linked c) (λ e. absurd (n e)) v.held;
  each =
      Local-update (update m.next t c) o ws m.phase t (linked c) (n, i, update_self m.next t c, k)
        (λ u h. Local-next m.next o ws t c u (m.phase u) h i (v.each u));
}

pub push-Inv :
    (m : Mutex) (o : Option ℕ) (ws : List ℕ) (t : ℕ) (c : Word)
    → Inv m o ws
    → Local m.next o ws t (linked c)
    → m.state ≡ c
    → Inv (record m { state = operation t; phase = update m.phase t waiting }) o (t ∷ ws)
push-Inv m none ws t c v l e = absurd (l.3 (sym e ∙ v.shape.0))
push-Inv m (some h) ws t c v l e = record {
  shape = (refl, rw (l.2 ∙ sym e) v.shape);
  distinct = (l.1, v.distinct);
  held = Held-update m.phase (some h) t waiting (λ e. absurd (l.0 e)) v.held;
  each =
      Local-update m.next (some h) (t ∷ ws) m.phase t waiting (l.0, inl refl)
        (λ u k. Local-push m.next (some h) ws t u (m.phase u) k (v.each u));
}

pub pop-Inv :
    (m : Mutex) (ws : List ℕ) (t w : ℕ) (a : Word)
    → Inv m (some t) ws
    → ¬ In t ws
    → m.next w ≡ a
    → m.state ≡ operation w
    → (rest : List ℕ) × Inv
        (record m { state = a; phase = update (update m.phase t idle) w owning })
        (some w)
        rest
pop-Inv m [] t w a v n e s = absurd (cc (v.shape, s))
pop-Inv m (x ∷ ws) t w a v n e s = (
  ws,
  record {
    shape = rw (sym e ∙ ap m.next same) v.shape.1;
    distinct = v.distinct.1;
    held = ap owns (update_self (update m.phase t idle) w owning);
    each =
        Local-update m.next (some w) ws (update m.phase t idle) w owning
          (refl, λ i. v.distinct.0 (rw same at i)) others;
  },
)
  where
    same : w ≡ x
    same = cc (v.shape.0, s)

    gone : (u : ℕ) → u ≢ w → u ≢ t → Local m.next (some w) ws u (m.phase u)
    gone u h k = Local-pop m.next ws t w u (m.phase u) k h (rw same (v.each u))

    others : (u : ℕ) → u ≢ w → Local m.next (some w) ws u (update m.phase t idle u)
    others u h = elim (Bool-cases (u == t)) [
      | inl e ↦ let it : u ≡ t = ground arith in rw (e) (λ p. h (cc p), λ i. n (inr (rw it at i)))
      | inr e ↦ rw e (gone u h (ground arith))
    ]
