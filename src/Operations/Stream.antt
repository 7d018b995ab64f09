-- ===== src/Operations/Stream.antt =====
-- What a client of the event stream reads: no gap, no repetition, and a marker where events are lost.
pub mod Subscription
use kernmux.Prelude.{
  ℕ, suc, ◌+◌, ◌-◌, ◌≤◌, ◌<◌, ◌≡◌, refl, sym, ap, subst, ◌⊎◌, inl, inr, true, false, none, List, [],
  ◌∷◌, ◌++◌, All, length, filter, arith, Bool-cases, ltb, u64_max, saturating_add, saturating_sub,
}
use kernmux.Api.{Event, EventKind, is_contiguous_after}
use kernmux.Operations.{
  EventBatch, OperationRegistry, RegistryState, event_batch, event_batch_from, events_after,
  last_sequence, next_batch,
}
use kernmux.Operations.Invariant.{Chain, Inv}

abbrev later : ℕ → List Event → List Event
later cursor es = filter (λ event. ltb cursor event.sequence) es

later_all :
    (cursor s low high : ℕ) (es : List Event)
    → cursor < s
    → Chain s low high es
    → later cursor es ≡ es
later_all cursor s low high [] h c = refl
later_all cursor s low high (e ∷ es) h c =
    let rest : later cursor es ≡ es =
      later_all cursor (suc s) e.snapshot_generation high es (omega arith) c.2 in
    ground (arith, rest)

-- The events after a cursor are the end of the chain that starts right after it.
later_some :
    (cursor s low high : ℕ) (es : List Event)
    → s ≤ suc cursor
    → Chain s low high es
    → ((low' : ℕ) × (low ≤ low') × Chain (suc cursor) low' high (later cursor es))
      × (length (later cursor es) ≡ s + length es - suc cursor)
later_some cursor s low high [] h c = ((low, omega arith, c), omega arith)
later_some cursor s low high (e ∷ es) h c = elim (Bool-cases (ltb cursor e.sequence)) [
  | inl kept ↦
      let here : s ≡ suc cursor = ground arith in
      let rest : later cursor es ≡ es =
        later_all cursor (suc s) e.snapshot_generation high es (omega arith) c.2 in
      let whole : later cursor (e ∷ es) ≡ e ∷ es = rw kept (ap (◌∷◌ e) rest) in
      rw whole ((low, omega arith, subst (λ t. Chain t low high (e ∷ es)) here c), omega arith)
  | inr dropped ↦
      let ((low', le, chain), len) =
        later_some cursor (suc s) e.snapshot_generation high es (ground arith) c.2 in
      rw dropped ((low', omega arith, chain), omega arith)
]

-- They are what is left of the stream when the events up to the cursor are passed over.
later_rest :
    (cursor s low high : ℕ) (es : List Event)
    → Chain s low high es
    → (passed : List Event) × All (λ event. event.sequence ≤ cursor) passed
      × (es ≡ passed ++ later cursor es)
later_rest cursor s low high [] c = ([], tt, refl)
later_rest cursor s low high (e ∷ es) c = elim (Bool-cases (ltb cursor e.sequence)) [
  | inl kept ↦
      let rest : later cursor es ≡ es =
        later_all cursor (suc s) e.snapshot_generation high es (ground arith) c.2 in
      rw kept ([], tt, sym (ap (◌∷◌ e) rest))
  | inr dropped ↦
      let (passed, old, whole) = later_rest cursor (suc s) e.snapshot_generation high es c.2 in
      rw dropped (e ∷ passed, (ground arith, old), ap (◌∷◌ e) whole)
]

pub last_sequence-Chain :
    (cursor s low high : ℕ) (es : List Event)
    → Chain s low high es
    → s ≡ suc cursor
    → last_sequence cursor es ≡ cursor + length es
last_sequence-Chain cursor s low high [] c e = omega arith
last_sequence-Chain cursor s low high (x ∷ es) c e =
    omega (
      arith,
      last_sequence-Chain x.sequence (suc s) x.snapshot_generation high es c.2 (omega arith),
    )

-- Each event directly follows the one before it, by the contract's own test.
abbrev pub IsContiguous : List Event → Type 0
IsContiguous [] = Unit
IsContiguous (e ∷ []) = Unit
IsContiguous (e ∷ f ∷ es) = (is_contiguous_after f e ≡ true) × IsContiguous (f ∷ es)

Chain-IsContiguous :
    (s low high : ℕ) (es : List Event)
    → Chain s low high es
    → s + length es ≤ suc u64_max
    → IsContiguous es
unfolding is_contiguous_after
Chain-IsContiguous s low high [] c h = tt
Chain-IsContiguous s low high (e ∷ []) c h = tt
Chain-IsContiguous s low high (e ∷ f ∷ es) c h =
    (ground arith, Chain-IsContiguous (suc s) e.snapshot_generation high (f ∷ es) c.2 (omega arith))

-- A marker before the oldest event that is left, with that event's generation, continues the chain.
marked-IsContiguous :
    (m : Event) (s low high : ℕ) (es : List Event)
    → Chain s low high es
    → s + length es ≤ suc u64_max
    → m.sequence + 1 ≡ s
    → m.snapshot_generation ≤ low
    → IsContiguous (m ∷ es)
unfolding is_contiguous_after
marked-IsContiguous m s low high [] c h p q = tt
marked-IsContiguous m s low high (e ∷ es) c h p q =
    (ground arith, Chain-IsContiguous s low high (e ∷ es) c h)

-- What a batch is, by whether events after the cursor were already dropped.
pub record IsComplete (r : OperationRegistry) (cursor : ℕ) (b : EventBatch) : Type 0 where
  pub kept_up : b.overflowed ≡ false
  pub low : ℕ
  pub chain : Chain (suc cursor) low r.latest_generation b.events
  pub counted : suc cursor + length b.events ≡ r.next_sequence
  pub passed : List Event
  pub passed_before : All (λ event. event.sequence ≤ cursor) passed
  pub all_later : r.events ≡ passed ++ b.events

pub record IsCut (r : OperationRegistry) (cursor : ℕ) (b : EventBatch) : Type 0 where
  pub fell_behind : b.overflowed ≡ true
  pub marker : Event
  pub all_retained : b.events ≡ marker ∷ r.events
  pub is_overflow : marker.kind ≡ EventKind.stream_overflow
  pub of_nothing : marker.resource ≡ none
  pub oldest : ℕ
  pub oldest_counted : oldest + length r.events ≡ r.next_sequence
  pub lost : suc cursor < oldest
  pub before_oldest : marker.sequence + 1 ≡ oldest
  pub contiguous : IsContiguous b.events

pub event_batch_nil :
    (st : RegistryState) (cursor : ℕ)
    → st.events ≡ []
    → event_batch st cursor ≡ record {
      events = [];
      overflowed = false;
      latest_sequence = saturating_sub st.next_sequence 1;
    }
unfolding event_batch
event_batch_nil st cursor e = ground arith

pub event_batch_cons :
    (st : RegistryState) (cursor : ℕ) (oldest : Event) (es : List Event)
    → st.events ≡ oldest ∷ es
    → event_batch st cursor ≡ event_batch_from st cursor oldest
unfolding event_batch
event_batch_cons st cursor oldest es e = ground arith

module _ (r : OperationRegistry) (v : Inv r) (cursor : ℕ) (h : cursor < r.next_sequence)
    (bound : r.next_sequence ≤ u64_max) where
  empty-IsComplete : r.events ≡ [] → IsComplete r cursor (event_batch r.state cursor)
  empty-IsComplete e =
      subst (IsComplete r cursor) (sym (event_batch_nil r.state cursor e)) (record {
        kept_up = refl;
        low = 0;
        chain = omega arith;
        counted =
            omega
              (arith, v.nothing_dropped e, v.events_counted, ap (λ (l : List Event). length l) e);
        passed = [];
        passed_before = tt;
        all_later = e;
      })

  module _ (oldest : Event) (es : List Event) (e : r.events ≡ oldest ∷ es) where
    whole : Chain v.first_event 0 r.latest_generation (oldest ∷ es)
    whole = subst (Chain v.first_event 0 r.latest_generation) e v.chained

    kept_up-IsComplete :
        ltb (saturating_add cursor 1) oldest.sequence ≡ false
        → IsComplete r cursor (event_batch_from r.state cursor oldest)
    unfolding event_batch_from
    kept_up-IsComplete k =
        let ((low, le, chain), len) =
          later_some cursor v.first_event 0 r.latest_generation r.events (ground (arith, whole))
            v.chained in
        let (passed, old, rest) =
          later_rest cursor v.first_event 0 r.latest_generation r.events v.chained in
        record {
          kept_up = k;
          low = low;
          chain = rw k chain;
          counted = rw k (omega (arith, v.events_counted, len));
          passed = passed;
          passed_before = old;
          all_later = rw k rest;
        }

    fell_behind-IsCut :
        ltb (saturating_add cursor 1) oldest.sequence ≡ true
        → IsCut r cursor (event_batch_from r.state cursor oldest)
    unfolding event_batch_from
    fell_behind-IsCut k =
        let behind : suc cursor < v.first_event = ground (arith, whole) in
        let marker : Event = record {
          sequence = saturating_sub oldest.sequence 1;
          snapshot_generation = oldest.snapshot_generation;
          kind = EventKind.stream_overflow;
          resource = none;
        } in
        let retained : later cursor r.events ≡ r.events =
          later_all cursor v.first_event 0 r.latest_generation r.events (omega arith) v.chained in
        let onward : Chain v.first_event oldest.snapshot_generation r.latest_generation r.events =
          subst (Chain v.first_event oldest.snapshot_generation r.latest_generation) (sym e)
            (whole.0, omega arith, whole.2) in
        record {
          fell_behind = k;
          marker = marker;
          all_retained = rw k (ap (◌∷◌ marker) retained);
          is_overflow = refl;
          of_nothing = refl;
          oldest = v.first_event;
          oldest_counted = v.events_counted;
          lost = behind;
          before_oldest = omega (arith, whole.0);
          contiguous = rw k (
              rw retained (
                marked-IsContiguous marker v.first_event oldest.snapshot_generation
                  r.latest_generation r.events onward (omega (arith, v.events_counted))
                  (omega (arith, whole.0)) (omega arith)));
        }

    batch_cons :
        IsComplete r cursor (event_batch r.state cursor)
        ⊎ IsCut r cursor (event_batch r.state cursor)
    batch_cons = elim (Bool-cases (ltb (saturating_add cursor 1) oldest.sequence)) [
      | inl k ↦ inr (
          subst (IsCut r cursor) (sym (event_batch_cons r.state cursor oldest es e))
            (fell_behind-IsCut k))
      | inr k ↦ inl (
          subst (IsComplete r cursor) (sym (event_batch_cons r.state cursor oldest es e))
            (kept_up-IsComplete k))
    ]

  pub batch-cases :
      (es : List Event)
      → r.events ≡ es
      → IsComplete r cursor (event_batch r.state cursor)
        ⊎ IsCut r cursor (event_batch r.state cursor)
  batch-cases [] e = inl (empty-IsComplete e)
  batch-cases (oldest ∷ es) e = batch_cons oldest es e

-- In a registry that keeps its invariant and whose sequence numbers fit in 64 bits: a client that
-- asks for the events after a sequence number that was given out gets all of them, as they stand in
-- the stream after those up to that number, in order and with no gap; or, exactly if some of them
-- were already dropped, a batch that says so, opens with an overflow marker right before the oldest
-- retained event, and then has every retained event. In both cases each event directly follows the
-- one before it, by the contract's own test.
pub events_after_lem :
    (r : OperationRegistry) (cursor : ℕ)
    → Inv r
    → cursor < r.next_sequence
    → r.next_sequence ≤ u64_max
    → (IsComplete r cursor (events_after r cursor) ⊎ IsCut r cursor (events_after r cursor))
      × IsContiguous (events_after r cursor).events
unfolding events_after
events_after_lem r cursor v h b =
    let cases : IsComplete r cursor (event_batch r.state cursor)
        ⊎ IsCut r cursor (event_batch r.state cursor) =
      batch-cases r v cursor h b r.events refl in
    (
      cases,
      elim cases [
        | inl c ↦
            Chain-IsContiguous (suc cursor) c.low r.latest_generation _ c.chain
              (omega (arith, c.counted))
        | inr c ↦ c.contiguous
      ],
    )
