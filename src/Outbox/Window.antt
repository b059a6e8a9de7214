-- ===== src/Outbox/Window.antt =====
-- The window of parallel publications in vigilo/src/outbox.rs against events that are settled one
-- after another.
use agent_vigilo.Prelude.{
  ℕ, zero, suc, ◌+◌, ◌<◌, ◌≡◌, ◌⊎◌, refl, sym, ap, ◌∙◌, inl, inr, Bool, List, [], ◌∷◌, ◌++◌, arith,
  ltb, Bool-cases, length, any, All, length-append,
}
use mathlib.Core.Path.{subst}
use mathlib.Core.List.{Permᴰ, append_assoc}
use mathlib.Core.List.Permᴰ
use agent_vigilo.Outbox.{OutboxEvent, Tables}
use agent_vigilo.Outbox.Publisher.{
  OutboxPublishStats, Surroundings, fill, next_completed, settle_event, publish_loop,
}

module _ {A : Type 0} where
  pub length-perm : {xs ys : List A} → Permᴰ xs ys → length xs ≡ length ys
  length-perm Permᴰ.nil = refl
  length-perm (Permᴰ.cons e p) = ap suc (length-perm p)
  length-perm (Permᴰ.swap e e') = refl
  length-perm (Permᴰ.trans p q) = length-perm p ∙ length-perm q

  pub any-perm : (t : A → Bool) {xs ys : List A} → Permᴰ xs ys → any t xs ≡ any t ys
  any-perm t Permᴰ.nil = refl
  any-perm t (Permᴰ.cons e p) = cc (e, any-perm t p)
  any-perm t (Permᴰ.swap e e') = rw (e, e') (ground arith)
  any-perm t (Permᴰ.trans p q) = any-perm t p ∙ any-perm t q

  pub All-perm : (P : A → Type 0) {xs ys : List A} → Permᴰ xs ys → All P xs → All P ys
  All-perm P Permᴰ.nil u = tt
  All-perm P (Permᴰ.cons e p) (x, u) = (subst P e x, All-perm P p u)
  All-perm P (Permᴰ.swap e e') (x, (y, u)) = (subst P e' y, (subst P e x, u))
  All-perm P (Permᴰ.trans p q) u = All-perm P q (All-perm P p u)

List-cases : {A : Type 0} (xs : List A) → (xs ≡ []) ⊎ ((x : A) × (ys : List A) × (xs ≡ x ∷ ys))
List-cases [] = inl refl
List-cases (x ∷ xs) = inr (x, xs, refl)

length-zero : {A : Type 0} (xs : List A) → length xs ≡ 0 → xs ≡ []
length-zero [] h = refl
length-zero (x ∷ xs) h = absurd (omega (arith, h))

fill-append :
    (parallelism : ℕ) (in_flight events : List OutboxEvent)
    → (fill parallelism in_flight events).0 ++ (fill parallelism in_flight events).1
      ≡ in_flight ++ events
unfolding fill
fill-append parallelism in_flight [] = refl
fill-append parallelism in_flight (e ∷ events) =
    elim (Bool-cases (ltb (length in_flight) parallelism)) [
      | inl room ↦
          rw (fill, room)
            (fill-append parallelism (in_flight ++ e ∷ []) events
              ∙ append_assoc in_flight (e ∷ []) events)
      | inr full ↦ rw (fill, full) refl
    ]

-- The window of a positive parallelism is empty only at the end.
fill-empty :
    (parallelism : ℕ) (in_flight events : List OutboxEvent)
    → 0 < parallelism
    → length (fill parallelism in_flight events).0 ≡ 0
    → length in_flight + length events ≡ 0
unfolding fill
fill-empty parallelism in_flight [] positive none_left = omega (arith, none_left)
fill-empty parallelism in_flight (e ∷ events) positive none_left =
    elim (Bool-cases (ltb (length in_flight) parallelism)) [
      | inl room ↦
          let more =
            fill-empty parallelism (in_flight ++ e ∷ []) events positive
              (rw (fill, room) at none_left) in
          absurd (omega (arith, more, length-append in_flight (e ∷ [])))
      | inr full ↦ absurd (ground arith)
    ]

next_completed-perm :
    (n : ℕ) (e : OutboxEvent) (es : List OutboxEvent)
    → Permᴰ ((next_completed n e es).0 ∷ (next_completed n e es).1) (e ∷ es)
unfolding next_completed
next_completed-perm zero e es = Permᴰ.refl (e ∷ es)
next_completed-perm (suc n) e [] = Permᴰ.refl (e ∷ [])
next_completed-perm (suc n) e (f ∷ es) =
    Permᴰ.trans (Permᴰ.swap refl refl) (Permᴰ.cons refl (next_completed-perm n f es))

module _ (s : Surroundings) (delay : ℕ) where
  -- Events that complete one after another.
  unfoldable pub settle_events :
      List OutboxEvent → OutboxPublishStats × Tables → OutboxPublishStats × Tables
  settle_events [] state = state
  settle_events (e ∷ es) state = settle_events es (settle_event s delay e state)

  -- The loop with enough fuel settles every event once, in an order that the completions decide.
  pub publish_loop-settles :
      (fuel parallelism : ℕ) (in_flight events : List OutboxEvent)
      (state : OutboxPublishStats × Tables)
      → 0 < parallelism
      → length in_flight + length events < fuel
      → (order : List OutboxEvent) × Permᴰ order (in_flight ++ events)
        × (publish_loop s delay fuel parallelism in_flight events state ≡ settle_events order state)
  unfolding publish_loop settle_events
  publish_loop-settles zero parallelism in_flight events state positive enough =
      absurd (omega (arith, enough))
  publish_loop-settles (suc fuel) parallelism in_flight events state positive enough =
      let window = (fill parallelism in_flight events).0 in
      let waiting = (fill parallelism in_flight events).1 in
      let split : window ++ waiting ≡ in_flight ++ events =
        fill-append parallelism in_flight events in
      elim (List-cases window) [
        | inl empty ↦
            let none_left = fill-empty parallelism in_flight events positive (ap length empty) in
            let all : in_flight ++ events ≡ [] =
              length-zero (in_flight ++ events)
                (omega (arith, length-append in_flight events, none_left)) in
            ([], subst (Permᴰ []) (sym all) Permᴰ.nil, rw (publish_loop, empty) refl)
        | inr (e, es, found) ↦
            let picked = next_completed (s.completes (e ∷ es)) e es in
            let perm : Permᴰ (picked.0 ∷ picked.1) (e ∷ es) =
              next_completed-perm (s.completes (e ∷ es)) e es in
            let counted : length picked.1 + length waiting < fuel = omega (
              arith,
              enough,
              length-perm perm,
              ap length split,
              ap length found,
              length-append window waiting,
              length-append in_flight events,
            ) in
            let (order, same, run) =
              publish_loop-settles fuel parallelism picked.1 waiting
                (settle_event s delay picked.0 state) positive counted in
            (
              picked.0 ∷ order,
              subst (Permᴰ (picked.0 ∷ order)) (ap (λ w. w ++ waiting) (sym found) ∙ split)
                  (Permᴰ.trans (Permᴰ.cons refl same) (Permᴰ.append_right waiting perm)),
              rw (publish_loop, found) run,
            )
      ]
