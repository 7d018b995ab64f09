-- ===== src/Operations/History/Retention.antt =====
-- Which operations the history keeps: `create` adds a fresh id and evicts the oldest at most, and a
-- terminal operation never changes.
use kernmux.Prelude.{
  ℕ, suc, ◌+◌, ◌≤◌, ◌<◌, ◌≡◌, ◌≢◌, refl, sym, ap, subst, ◌∙◌, ◌⊎◌, inl, inr, false, none, some,
  List, [], ◌∷◌, ◌++◌, length, arith, if◌then◌else◌, Bool-cases, ◌==◌,
}
use kernmux.Prelude.Text.{text, decimal-injective}
use kernmux.Prelude.Order.{same, same_iff, bytes_ord}
use kernmux.Api.{Operation, OperationId}
use kernmux.Operations.{
  NewOperation, OperationRegistry, create, get, new_operation, operation_id,
  publish_operation_event, push_bounded,
}
use kernmux.Operations.Invariant.{Numbered, Inv}
use kernmux.Operations.History.{find_id}

pub operation_id-injective : (m n : ℕ) → operation_id m ≡ operation_id n → m ≡ n
unfolding operation_id
operation_id-injective m n e = decimal-injective m n (unfold text in (cc))

-- Only the numbers from `n` up to the end of the list are found.
Numbered-below :
    (n k : ℕ) (os : List Operation) → Numbered n os → k < n → find_id (operation_id k) os ≡ none
Numbered-below n k [] h lt = refl
Numbered-below n k (o ∷ os) h lt = ground (
  arith,
  same_iff o.id (operation_id k),
  operation_id-injective n k,
  Numbered-below (suc n) k os h.1,
)

Numbered-above :
    (n k : ℕ) (os : List Operation)
    → Numbered n os
    → n + length os ≤ k
    → find_id (operation_id k) os ≡ none
Numbered-above n k [] h le = refl
Numbered-above n k (o ∷ os) h le = ground (
  arith,
  same_iff o.id (operation_id k),
  operation_id-injective n k,
  Numbered-above (suc n) k os h.1,
)

-- A retained id is the id of a number below the next one.
pub Numbered-found :
    (n : ℕ) (id : OperationId) (os : List Operation) (o : Operation)
    → Numbered n os
    → find_id id os ≡ some o
    → (k : ℕ) × (id ≡ operation_id k) × (k < n + length os)
Numbered-found n id [] o h e = absurd (ground arith)
Numbered-found n id (x ∷ os) o h e = elim (Bool-cases (same x.id id)) [
  | inl hit ↦ (n, sym ((same_iff x.id id).0 hit) ∙ h.0, omega arith)
  | inr miss ↦
      let (k, p, lt) = Numbered-found (suc n) id os o h.1 (ground arith) in (k, p, omega arith)
]

find_id-snoc :
    (id : OperationId) (os : List Operation) (o : Operation)
    → find_id id os ≡ none
    → find_id id (os ++ o ∷ []) ≡ (if same o.id id then some o else none)
find_id-snoc id [] o e = refl
find_id-snoc id (x ∷ os) o e = ground (arith, find_id-snoc id os o)

find_id-snoc_other :
    (id : OperationId) (os : List Operation) (o : Operation)
    → same o.id id ≡ false
    → find_id id (os ++ o ∷ []) ≡ find_id id os
find_id-snoc_other id [] o e = rw e
find_id-snoc_other id (x ∷ os) o e = ground (arith, find_id-snoc_other id os o e)

-- What is found after a push: the new operation, or what was there unless it was the oldest of a
-- full history.
abbrev AfterPush : ℕ → ℕ → List Operation → Operation → OperationId → Type 0
AfterPush capacity n os o id =
    (find_id id (push_bounded capacity os o) ≡ find_id id os)
    ⊎ (length os ≡ capacity)
      × (id ≡ operation_id n)
      × (find_id id (push_bounded capacity os o) ≡ none)

push_bounded_other :
    (capacity n : ℕ) (os : List Operation) (o : Operation) (id : OperationId)
    → Numbered n os
    → same o.id id ≡ false
    → AfterPush capacity n os o id
unfolding push_bounded
push_bounded_other capacity n [] o id h e = ground arith
push_bounded_other capacity n (x ∷ os) o id h e = elim (Bool-cases (suc (length os) == capacity)) [
  | inr room ↦ rw room (inl (find_id-snoc_other id (x ∷ os) o e))
  | inl full ↦ elim (Bool-cases (same x.id id)) [
    | inr miss ↦ rw full (inl (find_id-snoc_other id os o e ∙ rw miss))
    | inl hit ↦
        let named : id ≡ operation_id n = sym ((same_iff x.id id).0 hit) ∙ h.0 in
        let gone : find_id id os ≡ none =
          ap (λ i. find_id i os) named ∙ Numbered-below (suc n) n os h.1 (omega arith) in
        rw full (inr (ground arith, named, find_id-snoc_other id os o e ∙ gone))
  ]
]

push_bounded_new :
    (capacity n k : ℕ) (os : List Operation) (o : Operation)
    → Numbered n os
    → n + length os ≡ k
    → o.id ≡ operation_id k
    → find_id (operation_id k) (push_bounded capacity os o) ≡ some o
unfolding push_bounded
push_bounded_new capacity n k [] o h c e = ground (arith, same_iff o.id (operation_id k))
push_bounded_new capacity n k (x ∷ os) o h c e = elim (Bool-cases (suc (length os) == capacity)) [
  | inr room ↦ rw room (
      find_id-snoc (operation_id k) (x ∷ os) o (Numbered-above n k (x ∷ os) h (omega arith))
      ∙ rw ((same_iff o.id (operation_id k)).1 e))
  | inl full ↦ rw full (
      find_id-snoc (operation_id k) os o (Numbered-above (suc n) k os h.1 (omega arith))
      ∙ rw ((same_iff o.id (operation_id k)).1 e))
]

pub create-operations :
    (r : OperationRegistry) (request : NewOperation)
    → ((create r request).0.operations
        ≡ push_bounded r.operation_capacity r.operations (new_operation r.next_operation request))
      × ((create r request).1 ≡ new_operation r.next_operation request)
      × ((new_operation r.next_operation request).id ≡ operation_id r.next_operation)
unfolding create publish_operation_event new_operation
create-operations r request = (refl, refl, refl)

-- A new operation, and the fate of every other id.
pub create_others :
    (r : OperationRegistry) (request : NewOperation) (v : Inv r)
    → let (r', o) = create r request in
      (get r o.id ≡ none)
      × (get r' o.id ≡ some o)
      × ((id : OperationId)
          → id ≢ o.id
          → (get r' id ≡ get r id)
            ⊎ (length r.operations ≡ r.operation_capacity)
              × (id ≡ operation_id v.first_operation)
              × (get r' id ≡ none))
unfolding get
create_others r request v =
    let (stored, returned, named) = create-operations r request in
    let o : Operation = new_operation r.next_operation request in
    let name : (create r request).1.id ≡ operation_id r.next_operation =
      ap (λ (x : Operation). x.id) returned ∙ named in
    let same_id : (create r request).1.id ≡ o.id = ap (λ (x : Operation). x.id) returned in
    (
      ap (λ i. find_id i r.operations) name
          ∙ Numbered-above v.first_operation r.next_operation r.operations v.numbered
              (omega (arith, v.operations_counted)),
      ap (λ i. find_id i (create r request).0.operations) name
          ∙ ap (find_id (operation_id r.next_operation)) stored
          ∙ push_bounded_new r.operation_capacity v.first_operation r.next_operation r.operations o
              v.numbered v.operations_counted named
          ∙ sym (ap some returned),
      λ id ne.
          subst
            (λ l.
              (find_id id l ≡ find_id id r.operations)
              ⊎ (length r.operations ≡ r.operation_capacity)
                × (id ≡ operation_id v.first_operation)
                × (find_id id l ≡ none))
            (sym stored)
            (push_bounded_other r.operation_capacity v.first_operation r.operations o id v.numbered
              (other_id o id (λ e. ne (sym e ∙ sym same_id)))),
    )
  where
    other_id : (o : Operation) (id : OperationId) → o.id ≢ id → same o.id id ≡ false
    other_id o id ne = ground (arith, same_iff o.id id)

-- In a registry that keeps its invariant, `create` returns an operation under an id that the
-- history did not hold, which is then found under that id. Any other id is found as before, unless
-- the history was full and the id is that of the oldest operation, which is evicted.
pub create_view :
    (r : OperationRegistry) (request : NewOperation) (v : Inv r) (id : OperationId)
    → id ≢ (create r request).1.id
    → let (r', o) = create r request in
      (get r o.id ≡ none)
      × (get r' o.id ≡ some o)
      × ((get r' id ≡ get r id)
          ⊎ (length r.operations ≡ r.operation_capacity)
            × (id ≡ operation_id v.first_operation)
            × (get r' id ≡ none))
create_view r request v id other =
    let (fresh, found, others) = create_others r request v in (fresh, found, others id other)
