-- ===== src/Operations/Invariant/Queue.antt =====
-- The two bounded queues of the registry: what a push, and a publication, keep.
use kernmux.Prelude.{
  ℕ, suc, ◌+◌, ◌≤◌, ◌<◌, ◌≡◌, inl, inr, refl, sym, List, [], ◌∷◌, ◌++◌, length, length-append, All,
  All-append, arith, ◌==◌, u64_max, Bool-cases,
}
use kernmux.Prelude.Order.{bytes_ord}
use kernmux.Api.{Event, Operation}
use kernmux.Operations.{
  OperationRegistry, RegistryState, advance_generation, operation_event, operation_id,
  publish_operation_event, push_bounded,
}
use kernmux.Operations.Invariant.{Chain, Numbered, IsWellFormed, Inv}

-- Dropping the oldest event, and appending the newest.
pub Chain-weaken :
    (s low low' high : ℕ) (es : List Event)
    → low' ≤ low
    → Chain s low high es
    → Chain s low' high es
Chain-weaken s low low' high [] h c = omega arith
Chain-weaken s low low' high (e ∷ es) h c = (c.0, omega arith, c.2)

pub Chain-snoc :
    (s low high high' : ℕ) (es : List Event) (e : Event)
    → Chain s low high es
    → high ≤ high'
    → e.sequence ≡ s + length es
    → e.snapshot_generation ≡ high'
    → Chain s low high' (es ++ e ∷ [])
Chain-snoc s low high high' [] e c h p q = (omega arith, omega arith, omega arith)
Chain-snoc s low high high' (x ∷ es) e c h p q =
    (c.0, c.1, Chain-snoc (suc s) x.snapshot_generation high high' es e c.2 h (omega arith) q)

pub Numbered-snoc :
    (n m : ℕ) (os : List Operation) (o : Operation)
    → Numbered n os
    → n + length os ≡ m
    → o.id ≡ operation_id m
    → Numbered n (os ++ o ∷ [])
Numbered-snoc n m [] o h k e = (let same_number : m ≡ n = omega arith in cc, tt)
Numbered-snoc n m (x ∷ os) o h k e = (h.0, Numbered-snoc (suc n) m os o h.1 (omega arith) e)

pub length-push_bounded {ℓ} :
    {A : Type ℓ} (capacity : ℕ) (xs : List A) (x : A)
    → 0 < capacity
    → length xs ≤ capacity
    → length (push_bounded capacity xs x) ≤ capacity
unfolding push_bounded
length-push_bounded capacity [] x h k = ground arith
length-push_bounded capacity (y ∷ xs) x h k =
    ground (arith, length-append xs (x ∷ []), length-append (y ∷ xs) (x ∷ []))

snoc-ne-nil {ℓ} : {A : Type ℓ} (xs : List A) (x : A) → (xs ++ x ∷ []) ≡ [] → ⊥
snoc-ne-nil [] x e = cc
snoc-ne-nil (y ∷ xs) x e = cc

push_bounded-ne-nil {ℓ} :
    {A : Type ℓ} (capacity : ℕ) (xs : List A) (x : A) → push_bounded capacity xs x ≡ [] → ⊥
unfolding push_bounded
push_bounded-ne-nil capacity xs x e = snoc-ne-nil _ x e

-- Where the chain starts after a push, by whether the oldest event had to go.
pub Chain-push_bounded :
    (capacity s high high' : ℕ) (es : List Event) (e : Event)
    → Chain s 0 high es
    → high ≤ high'
    → e.sequence ≡ s + length es
    → e.snapshot_generation ≡ high'
    → (s' : ℕ) × (s ≤ s')
      × (s' + length (push_bounded capacity es e) ≡ suc (s + length es))
      × Chain s' 0 high' (push_bounded capacity es e)
unfolding push_bounded
Chain-push_bounded capacity s high high' [] e c h p q =
    (s, ground arith, ground arith, ground arith)
Chain-push_bounded capacity s high high' (x ∷ es) e c h p q =
    elim (Bool-cases (suc (length es) == capacity)) [
      | inl full ↦ rw full (
        suc s,
        omega arith,
        omega (arith, length-append es (e ∷ [])),
        Chain-weaken (suc s) x.snapshot_generation 0 high' _ (omega arith)
            (Chain-snoc (suc s) x.snapshot_generation high high' es e c.2 h (omega arith) q),
      )
      | inr room ↦ rw room (
        s,
        omega arith,
        omega (arith, length-append es (e ∷ [])),
        Chain-snoc s 0 high high' (x ∷ es) e c h p q,
      )
    ]

pub Numbered-push_bounded :
    (capacity n m : ℕ) (os : List Operation) (o : Operation)
    → Numbered n os
    → n + length os ≡ m
    → o.id ≡ operation_id m
    → (n' : ℕ) × (n' + length (push_bounded capacity os o) ≡ suc m)
      × Numbered n' (push_bounded capacity os o)
unfolding push_bounded
Numbered-push_bounded capacity n m [] o h k e =
    let here : n ≡ m = omega arith in (m, ground arith, ground arith)
Numbered-push_bounded capacity n m (x ∷ os) o h k e =
    elim (Bool-cases (suc (length os) == capacity)) [
      | inl full ↦ rw full (
        suc n,
        omega (arith, length-append os (o ∷ [])),
        Numbered-snoc (suc n) m os o h.1 (omega arith) e,
      )
      | inr room ↦
          rw room (n, omega (arith, length-append os (o ∷ [])), Numbered-snoc n m (x ∷ os) o h k e)
    ]

pub All-push_bounded :
    (P : Operation → Type 0) (capacity : ℕ) (os : List Operation) (o : Operation)
    → All P os
    → P o
    → All P (push_bounded capacity os o)
unfolding push_bounded
All-push_bounded P capacity [] o h k = ground arith
All-push_bounded P capacity (x ∷ os) o h k =
    ground (arith, All-append P os (o ∷ []), All-append P (x ∷ os) (o ∷ []))

pub advance_generation-le : (g : ℕ) (o : Operation) → g ≤ advance_generation g o
unfolding advance_generation
advance_generation-le g o = ground arith

-- The invariant but for the event stream, which a publication then extends.
pub publish-Inv :
    (r : OperationRegistry) (next : ℕ) (os : List Operation) (n : ℕ) (o : Operation)
    → Inv r
    → r.next_sequence < u64_max
    → length os ≤ r.operation_capacity
    → n + length os ≡ next
    → Numbered n os
    → All IsWellFormed os
    → Inv (record r {
      state =
          publish_operation_event r.event_capacity
            (record r.state { next_operation = next; operations = os })
            o;
    })
unfolding publish_operation_event operation_event
publish-Inv r next os n o v h b c d w =
    let state' : RegistryState = record r.state { next_operation = next; operations = os } in
    let (s', low, counted, chained) =
      Chain-push_bounded r.event_capacity v.first_event r.latest_generation
        (advance_generation r.latest_generation o) r.events (operation_event state' o) v.chained
        (advance_generation-le r.latest_generation o) (sym v.events_counted) refl in
    record {
      operations_bounded = b;
      events_bounded =
          length-push_bounded r.event_capacity r.events (operation_event state' o) v.event_room
            v.events_bounded;
      operation_room = v.operation_room;
      event_room = v.event_room;
      first_operation = n;
      operations_counted = c;
      numbered = d;
      well_formed = w;
      first_event = s';
      events_positive = omega (arith, v.events_positive);
      nothing_dropped =
          λ e. absurd (push_bounded-ne-nil r.event_capacity r.events (operation_event state' o) e);
      events_counted = ground (arith, v.events_counted);
      chained = chained;
    }
