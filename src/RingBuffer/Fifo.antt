-- ===== src/RingBuffer/Fifo.antt =====
-- include/coro/ring_buffer.hpp: every interleaving delivers the produced elements once and in order.
use mathlib.Core.Path.{subst}
use libcoro.Base.{
  ◌+◌, ◌<◌, ◌≡◌, sym, ap, ◌∙◌, Option, none, some, List, [], ◌∷◌, ◌++◌, append_assoc, arith, All,
  All-append, size_mod,
}
use libcoro.RingBuffer.Contents.{
  IsValid, contents, store-IsValid, contents-store, discard-IsValid, contents-discard,
}
use libcoro.RingBuffer.System.{given}
use libcoro.RingBuffer.{
  Produce, RunningState, ProduceOperation, ConsumeOperation, RingBuffer, store, oldest, discard,
  consume_resume,
}

module _ {A : Type 0} where
  abbrev pub IsFull : Option A → Type 0
  IsFull e = (x : A) × (e ≡ some x)

  -- A suspended producer still holds its element, and its result is the initial one.
  abbrev pub Waits : ProduceOperation A → Type 0
  Waits op = (op.result ≡ Produce.produced) × IsFull op.e

  abbrev pub IsEmpty : ConsumeOperation A → Type 0
  IsEmpty op = op.e ≡ none

  -- What has been reported is what has been delivered, and then the contents.
  pub record Inv (rb : RingBuffer A) (reported delivered : List (Option A)) : Type 0 where
    pub valid : IsValid rb
    pub full : All IsFull (contents rb)
    pub producers : All Waits rb.produce_waiters
    pub consumers : All IsEmpty rb.consume_waiters
    pub fifo : reported ≡ delivered ++ contents rb

  pub Inv-waiters :
      {rb : RingBuffer A} {r d : List (Option A)} (ps : List (ProduceOperation A))
      (cs : List (ConsumeOperation A)) (state : RunningState)
      → All Waits ps
      → All IsEmpty cs
      → Inv rb r d
      → Inv (record rb { produce_waiters = ps; consume_waiters = cs; running_state = state }) r d
  Inv-waiters {rb} ps cs state hp hc v = record {
    valid = omega (arith, v.valid);
    full = v.full;
    producers = hp;
    consumers = hc;
    fifo = v.fifo;
  }

  pub Inv-store :
      {rb : RingBuffer A} {r d : List (Option A)} (e : Option A)
      → Inv rb r d
      → rb.used < rb.num_elements
      → rb.front + 1 < size_mod
      → IsFull e
      → Inv (store rb e) (r ++ e ∷ []) d
  unfolding store
  Inv-store {rb} {r} {d} e v h b full = record {
    valid = store-IsValid rb v.valid e h b;
    full =
        subst (All IsFull) (sym more) (All-append IsFull (contents rb) (e ∷ []) v.full (full, tt));
    producers = v.producers;
    consumers = v.consumers;
    fifo =
        ap (λ t. t ++ e ∷ []) v.fifo
        ∙ append_assoc d (contents rb) (e ∷ [])
        ∙ ap (◌++◌ d) (sym more);
  }
    where
      more : contents (store rb e) ≡ contents rb ++ e ∷ []
      more = contents-store rb v.valid e h b

  given_full : (op : ConsumeOperation A) → IsFull op.e → given (consume_resume op) ≡ op.e ∷ []
  unfolding consume_resume
  given_full op (x, e) = rw e

  pub Inv-discard :
      {rb : RingBuffer A} {r d : List (Option A)} (op : ConsumeOperation A)
      → Inv rb r d
      → 0 < rb.used
      → Inv (discard rb) r (d ++ (given (consume_resume (record op { e = oldest rb })) ++ []))
  unfolding discard
  Inv-discard {rb} {r} {d} op v h = record {
    valid = discard-IsValid rb v.valid h;
    full = full.1;
    producers = v.producers;
    consumers = v.consumers;
    fifo =
        rw (given_full (record op { e = oldest rb }) full.0) (
          v.fifo
          ∙ ap (◌++◌ d) less
          ∙ sym (append_assoc d (oldest rb ∷ []) (contents (discard rb))));
  }
    where
      less : contents rb ≡ oldest rb ∷ contents (discard rb)
      less = contents-discard rb v.valid h

      full : All IsFull (oldest rb ∷ contents (discard rb))
      full = subst (All IsFull) less v.full
