-- ===== src/Operations/History/Finality.antt =====
-- An operation that has ended is never changed again.
use kernmux.Prelude.{
  ℕ, ◌+◌, ◌≤◌, ◌<◌, ◌≡◌, ◌≢◌, sym, ap, subst, ◌∙◌, ◌⊎◌, inl, inr, true, Option, none, some, List,
  [], ◌∷◌, length, arith, if◌then◌else◌, Bool-cases, Option-cases, u64_max,
}
use kernmux.Prelude.Order.{same, same_iff, bytes_ord}
use kernmux.Api.{Operation, OperationId}
use kernmux.Operations.{
  Call, creates, starts, progresses, finishes, Completion, MethodResult, Mutation, NewOperation,
  OperationRegistry, create, finish, finish_mutation, get, is_terminal, operation_id,
  progress_mutation, run, set_progress, start, start_mutation, step, update,
}
use kernmux.Operations.Invariant.{Inv}
use kernmux.Operations.Invariant.Calls.{Advances, step-Advances, step-Inv}
use kernmux.Operations.History.{KeepsId, update_missing, update_found}
use kernmux.Operations.History.Methods.{start-KeepsId, progress-KeepsId, finish-KeepsId}
use kernmux.Operations.History.Retention.{
  operation_id-injective, Numbered-found, create-operations, create_others,
}

-- A mutation that leaves terminal operations alone.
abbrev IsFinal : Mutation → Type 0
IsFinal m = (o : Operation) → is_terminal o.state ≡ true → (m o).0 ≡ o

start-IsFinal : IsFinal start_mutation
unfolding start_mutation is_terminal
start-IsFinal o h = ground arith

progress-IsFinal : (p : ℕ) → IsFinal (progress_mutation p)
unfolding progress_mutation is_terminal
progress-IsFinal p o h = ground arith

finish-IsFinal : (c : Completion) → IsFinal (finish_mutation c)
unfolding finish_mutation
finish-IsFinal c o h = ground arith

-- The entry is as it was, or has been evicted.
abbrev pub IsSettled : OperationRegistry → OperationId → Operation → Type 0
IsSettled r id o = (get r id ≡ some o) ⊎ (get r id ≡ none)

module _ (r : OperationRegistry) (j : OperationId) (o : Operation) (s : IsSettled r j o) where
  settled_value : (x : Operation) → get r j ≡ some x → x ≡ o
  settled_value x found = elim s [ inl e ↦ cc | inr e ↦ absurd (cc) ]

  update-IsSettled :
      (id : OperationId) (m : Mutation)
      → KeepsId m
      → IsFinal m
      → is_terminal o.state ≡ true
      → IsSettled (update r id m).0 j o
  update-IsSettled id m k f t = elim (Option-cases (get r id)) [
    | inl missing ↦
        subst (λ (x : OperationRegistry). IsSettled x j o)
          (sym (ap (λ (x : MethodResult). x.0) (update_missing r id m missing))) s
    | inr (x, found) ↦
        let w : get (update r id m).0 j ≡ (if same id j then some (m x).0 else get r j) =
          (update_found r id m x k found).1 j in
        elim (Bool-cases (same id j)) [
          | inr other ↦
              let kept : get (update r id m).0 j ≡ get r j = rw other at w in
              subst (λ (y : Option Operation). (y ≡ some o) ⊎ (y ≡ none)) (sym kept) s
          | inl hit ↦
              let here : get (update r id m).0 j ≡ some (m x).0 = rw hit at w in
              let x_is : x ≡ o =
                settled_value x (ap (get r) (sym ((same_iff id j).0 hit)) ∙ found) in
              inl (here ∙ ap some (ap (λ (y : Operation). (m y).0) x_is ∙ f o t))
        ]
  ]

  create-IsSettled :
      (request : NewOperation) (k : ℕ)
      → Inv r
      → j ≡ operation_id k
      → k < r.next_operation
      → IsSettled (create r request).0 j o
  create-IsSettled request k v named lt =
      let (stored, returned, name) = create-operations r request in
      let new_name : (create r request).1.id ≡ operation_id r.next_operation =
        ap (λ (x : Operation). x.id) returned ∙ name in
      let other : j ≢ (create r request).1.id = λ e. absurd (
        let clash : k ≡ r.next_operation =
          operation_id-injective k r.next_operation (sym named ∙ e ∙ new_name) in
        omega arith) in
      elim ((create_others r request v).2 j other) [
        | inl kept ↦ subst (λ (y : Option Operation). (y ≡ some o) ⊎ (y ≡ none)) (sym kept) s
        | inr (full, oldest, gone) ↦ inr gone
      ]

  step-IsSettled :
      (c : Call) (k : ℕ)
      → Inv r
      → is_terminal o.state ≡ true
      → j ≡ operation_id k
      → k < r.next_operation
      → IsSettled (step r c) j o
  unfolding step start set_progress finish
  step-IsSettled (creates request) k v t e lt = create-IsSettled request k v e lt
  step-IsSettled (starts id) k v t e lt =
      update-IsSettled id start_mutation start-KeepsId start-IsFinal t
  step-IsSettled (progresses id p) k v t e lt =
      update-IsSettled id (progress_mutation p) (progress-KeepsId p) (progress-IsFinal p) t
  step-IsSettled (finishes id c) k v t e lt =
      update-IsSettled id (finish_mutation c) (finish-KeepsId c) (finish-IsFinal c) t

run-IsSettled :
    (cs : List Call) (r : OperationRegistry) (j : OperationId) (o : Operation) (k : ℕ)
    → Inv r
    → IsSettled r j o
    → is_terminal o.state ≡ true
    → j ≡ operation_id k
    → k < r.next_operation
    → r.next_sequence + length cs ≤ u64_max
    → r.next_operation + length cs ≤ u64_max
    → IsSettled (run r cs) j o
unfolding run
run-IsSettled [] r j o k v s t e lt a b = s
run-IsSettled (c ∷ cs) r j o k v s t e lt a b =
    let moved : Advances r (step r c) = step-Advances r c in
    run-IsSettled cs (step r c) j o k (step-Inv r c v (omega arith) (omega arith))
      (step-IsSettled r j o s c k v t e lt) t e
      (omega (arith, moved.operation_grows, moved.operation_step))
      (omega (arith, moved.sequence_step)) (omega (arith, moved.operation_step))

-- In a registry that keeps its invariant, while its counters stay within 64 bits: once an
-- operation has succeeded, failed, been cancelled or become indeterminate, no sequence of calls
-- changes it or reuses its id. Whoever asks for that id later gets the same operation, or nothing
-- if it has been evicted.
pub terminal_is_final :
    (r : OperationRegistry) (cs : List Call) (id : OperationId) (o : Operation)
    → Inv r
    → get r id ≡ some o
    → is_terminal o.state ≡ true
    → r.next_sequence + length cs ≤ u64_max
    → r.next_operation + length cs ≤ u64_max
    → IsSettled (run r cs) id o
terminal_is_final r cs id o v found t a b =
    let (k, e, lt) =
      Numbered-found v.first_operation id r.operations o v.numbered (unfold get in found) in
    run-IsSettled cs r id o k v (inl found) t e (omega (arith, v.operations_counted)) a b
