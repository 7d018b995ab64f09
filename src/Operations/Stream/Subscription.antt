-- ===== src/Operations/Stream/Subscription.antt =====
-- A subscription reads batch after batch: its cursor moves to the latest event.
use kernmux.Prelude.{
  ℕ, suc, ◌+◌, ◌-◌, ◌≤◌, ◌<◌, ◌≡◌, refl, ap, inl, inr, List, [], ◌∷◌, length, arith, u64_max,
}
use kernmux.Api.{Event}
use kernmux.Operations.{
  EventBatch, OperationRegistry, RegistryState, event_batch, event_batch_from, last_sequence,
  next_batch,
}
use kernmux.Operations.Invariant.{Chain, Inv}
use kernmux.Operations.Stream.{last_sequence-Chain, event_batch_nil, event_batch_cons, batch-cases}

marked_end :
    (m : Event) (s low high cursor : ℕ) (es : List Event)
    → Chain s low high es
    → m.sequence + 1 ≡ s
    → last_sequence cursor (m ∷ es) + 1 ≡ s + length es
marked_end m s low high cursor es c e =
    omega (arith, last_sequence-Chain m.sequence s low high es c (omega arith))

latest_sequence_lem :
    (st : RegistryState) (cursor : ℕ) (es : List Event)
    → st.events ≡ es
    → (event_batch st cursor).latest_sequence ≡ st.next_sequence - 1
unfolding event_batch_from
latest_sequence_lem st cursor [] e =
    ap (λ (b : EventBatch). b.latest_sequence) (event_batch_nil st cursor e)
latest_sequence_lem st cursor (o ∷ es) e =
    ap (λ (b : EventBatch). b.latest_sequence) (event_batch_cons st cursor o es e)

nil_of_length : (es : List Event) → length es ≡ 0 → es ≡ []
nil_of_length [] e = refl
nil_of_length (x ∷ es) e = absurd (omega arith)

module _ (r : OperationRegistry) (v : Inv r) (b : r.next_sequence ≤ u64_max) where
  end_of_batch :
      (cursor : ℕ)
      → cursor < r.next_sequence
      → last_sequence cursor (event_batch r.state cursor).events + 1 ≡ r.next_sequence
  end_of_batch cursor h = elim (batch-cases r v cursor h b r.events refl) [
    | inl c ↦ omega (
      arith,
      c.counted,
      last_sequence-Chain cursor (suc cursor) c.low r.latest_generation _ c.chain refl,
    )
    | inr c ↦ rw (c.all_retained) (
        omega (
          arith,
          v.events_counted,
          c.oldest_counted,
          c.before_oldest,
          marked_end c.marker v.first_event 0 r.latest_generation cursor r.events v.chained,
        ))
  ]

  nothing_more :
      (cursor : ℕ) → cursor + 1 ≡ r.next_sequence → (event_batch r.state cursor).events ≡ []
  nothing_more cursor e = elim (batch-cases r v cursor (omega arith) b r.events refl) [
    | inl c ↦ nil_of_length _ (omega (arith, c.counted))
    | inr c ↦ absurd (omega (arith, c.lost, c.oldest_counted))
  ]

-- In a registry that keeps its invariant and whose sequence numbers fit in 64 bits: reading a
-- batch moves a subscription's cursor, at a number that was given out, to the latest sequence
-- number, whether or not the stream overflowed, so that the next read returns nothing until
-- something new is published.
pub next_batch_catches_up :
    (r : OperationRegistry) (cursor : ℕ)
    → Inv r
    → cursor < r.next_sequence
    → r.next_sequence ≤ u64_max
    → let cursor' = (next_batch r cursor).1 in
      (cursor' ≡ (next_batch r cursor).0.latest_sequence)
      × (cursor' + 1 ≡ r.next_sequence)
      × ((next_batch r cursor').0.events ≡ [])
unfolding next_batch
next_batch_catches_up r cursor v h b =
    let end : last_sequence cursor (event_batch r.state cursor).events + 1 ≡ r.next_sequence =
      end_of_batch r v b cursor h in
    (omega (arith, latest_sequence_lem r.state cursor r.events refl), end, nothing_more r v b _ end)
