-- ===== src/Operations/History.antt =====
-- The registry as a map from ids to operations: what each method does to one entry.
pub mod Methods
pub mod Retention
pub mod Finality
pub mod Completion
use kernmux.Prelude.{
  ℕ, ◌≡◌, refl, sym, ap, ◌∙◌, ◌⊎◌, inl, inr, Bool, true, false, Option, none, some, List, [], ◌∷◌,
  find, arith, Result, ok, err, if◌then◌else◌, Bool-cases, Option-cases, find-some, subst,
}
use kernmux.Prelude.Order.{same, same_iff, bytes_ord}
use kernmux.Api.{Operation, OperationId}
use kernmux.Operations.{
  Mutation, MethodResult, OperationRegistry, OperationRegistryError, finish_update, get, keep_front,
  publish_operation_event, update, update_first,
}

abbrev pub find_id : OperationId → List Operation → Option Operation
find_id id os = find (λ o. same o.id id) os

pub find_id-id :
    (id : OperationId) (os : List Operation) (o : Operation) → find_id id os ≡ some o → o.id ≡ id
find_id-id id os o e = (same_iff o.id id).0 (find-some (λ x. same x.id id) os o e)

-- A mutation that keeps the id.
abbrev pub KeepsId : Mutation → Type 0
KeepsId m = (o : Operation) → (m o).0.id ≡ o.id

-- The list in which the found operation has changed.
pub record IsChanged (id : OperationId) (m : Mutation) (o : Operation) (os : List Operation)
    : Type 0 where
  pub after : List Operation
  pub computed : update_first id m os ≡ some ((m o).0, (m o).1, after)
  pub found :
      (j : OperationId) → find_id j after ≡ (if same id j then some (m o).0 else find_id j os)
  pub unchanged : (m o).0 ≡ o → after ≡ os

module _ (id : OperationId) (m : Mutation) (x : Operation) (os : List Operation) where
  update_first_hit :
      same x.id id ≡ true → update_first id m (x ∷ os) ≡ some ((m x).0, (m x).1, (m x).0 ∷ os)
  unfolding update_first
  update_first_hit h = rw h

  update_first_miss :
      same x.id id ≡ false → update_first id m (x ∷ os) ≡ keep_front x (update_first id m os)
  unfolding update_first
  update_first_miss h = rw h

  IsChanged-here : KeepsId m → same x.id id ≡ true → IsChanged id m x (x ∷ os)
  IsChanged-here k h = record {
    after = (m x).0 ∷ os;
    computed = update_first_hit h;
    found = λ j.
        let here : x.id ≡ id = (same_iff x.id id).0 h in
        let p : same (m x).0.id j ≡ same id j = ap (λ i. same i j) (k x ∙ here) in
        let q : same x.id j ≡ same id j = ap (λ i. same i j) here in ground (arith, p, q);
    unchanged = λ q. ap (λ y. y ∷ os) q;
  }

  IsChanged-later :
      (o : Operation) → same x.id id ≡ false → IsChanged id m o os → IsChanged id m o (x ∷ os)
  IsChanged-later o h rest = record {
    after = x ∷ rest.after;
    computed = update_first_miss h ∙ ap (keep_front x) rest.computed;
    found = λ j. ground (arith, rest.found j, same_iff x.id j, same_iff id j, same_iff x.id id);
    unchanged = λ q. ap (◌∷◌ x) (rest.unchanged q);
  }

pub update_first-missing :
    (id : OperationId) (m : Mutation) (os : List Operation)
    → find_id id os ≡ none
    → update_first id m os ≡ none
update_first-missing id m [] e = unfold update_first in refl
update_first-missing id m (o ∷ os) e = elim (Bool-cases (same o.id id)) [
  | inl hit ↦ absurd (ground arith)
  | inr miss ↦
      update_first_miss id m o os miss
      ∙ ap (keep_front o) (update_first-missing id m os (ground arith))
]

pub update_first-IsChanged :
    (id : OperationId) (m : Mutation) (os : List Operation) (o : Operation)
    → KeepsId m
    → find_id id os ≡ some o
    → IsChanged id m o os
update_first-IsChanged id m [] o k e = absurd (ground arith)
update_first-IsChanged id m (x ∷ os) o k e = elim (Bool-cases (same x.id id)) [
  | inl hit ↦ subst (λ y. IsChanged id m y (x ∷ os)) (ground arith) (IsChanged-here id m x os k hit)
  | inr miss ↦ IsChanged-later id m x os o miss (update_first-IsChanged id m os o k (ground arith))
]

-- What a method returns, by what the mutation did to the operation that it found.
abbrev pub outcome :
    Operation → Result (Unit {0}) OperationRegistryError → Result Operation OperationRegistryError
outcome o (ok _) = ok o
outcome o (err e) = err e

module _ (r : OperationRegistry) (o : Operation) (os : List Operation) where
  finish_update-outcome :
      (res : Result (Unit {0}) OperationRegistryError)
      → (finish_update r (some (o, res, os))).1 ≡ outcome o res
  unfolding finish_update
  finish_update-outcome (ok _) = refl
  finish_update-outcome (err e) = refl

  finish_update-operations :
      (res : Result (Unit {0}) OperationRegistryError)
      → (finish_update r (some (o, res, os))).0.operations ≡ os
  unfolding finish_update publish_operation_event
  finish_update-operations (ok _) = refl
  finish_update-operations (err e) = refl

  finish_update-failed :
      (res : Result (Unit {0}) OperationRegistryError) (e : OperationRegistryError)
      → res ≡ err e
      → os ≡ r.operations
      → (finish_update r (some (o, res, os))).0 ≡ r
  unfolding finish_update
  finish_update-failed (ok _) e h k = absurd (cc)
  finish_update-failed (err x) e h k =
      ap (λ (l : List Operation). record r { state = record r.state { operations = l } }) k

pub update_missing :
    (r : OperationRegistry) (id : OperationId) (m : Mutation)
    → get r id ≡ none
    → update r id m ≡ (r, err OperationRegistryError.not_found)
unfolding update get finish_update
update_missing r id m e = ap (finish_update r) (update_first-missing id m r.operations e)

-- An update returns the mutation's result, and changes the entry that it names and no other.
pub update_found :
    (r : OperationRegistry) (id : OperationId) (m : Mutation) (o : Operation)
    → KeepsId m
    → get r id ≡ some o
    → ((update r id m).1 ≡ outcome (m o).0 (m o).1)
      × ((j : OperationId)
          → get (update r id m).0 j ≡ (if same id j then some (m o).0 else get r j))
unfolding update get
update_found r id m o k e =
    let c : IsChanged id m o r.operations = update_first-IsChanged id m r.operations o k e in
    (
      ap (λ u. (finish_update r u).1) c.computed ∙ finish_update-outcome r (m o).0 c.after (m o).1,
      λ j.
          ap (λ u. find_id j (finish_update r u).0.operations) c.computed
          ∙ ap (find_id j) (finish_update-operations r (m o).0 c.after (m o).1)
          ∙ c.found j,
    )

-- A mutation that writes nothing when it fails.
abbrev pub IsAtomic : Mutation → Type 0
IsAtomic m = (o : Operation) (e : OperationRegistryError) → (m o).1 ≡ err e → (m o).0 ≡ o

outcome-err :
    (o : Operation) (res : Result (Unit {0}) OperationRegistryError) (e : OperationRegistryError)
    → outcome o res ≡ err e
    → res ≡ err e
outcome-err o (ok _) e h = absurd (cc)
outcome-err o (err x) e h = cc

pub update_failed :
    (r : OperationRegistry) (id : OperationId) (m : Mutation) (e : OperationRegistryError)
    → KeepsId m
    → IsAtomic m
    → (update r id m).1 ≡ err e
    → (update r id m).0 ≡ r
unfolding update get
update_failed r id m e k l h = elim (Option-cases (get r id)) [
  | inl missing ↦ ap (λ (x : MethodResult). x.0) (update_missing r id m missing)
  | inr (o, f) ↦
      let failed : (m o).1 ≡ err e =
        outcome-err (m o).0 (m o).1 e (sym (update_found r id m o k f).0 ∙ h) in
      unchanged_by o f failed
]
  where
    unchanged_by : (o : Operation) → get r id ≡ some o → (m o).1 ≡ err e → (update r id m).0 ≡ r
    unchanged_by o f failed =
        let c : IsChanged id m o r.operations =
          update_first-IsChanged id m r.operations o k (unfold get in f) in
        ap (λ u. (finish_update r u).0) c.computed
        ∙ finish_update-failed r (m o).0 c.after (m o).1 e failed (c.unchanged (l o e failed))
