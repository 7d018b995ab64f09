-- ===== src/HostApi/Service/Occupancy.antt =====
-- What the other permits leave of the count of mutations.
use kernmux.Prelude.{
  some_injective, ok_injective, ℕ, zero, suc, ◌-◌, ◌≡◌, ◌≢◌, inl, inr, refl, sym, ap, subst, ◌∙◌,
  Bool, true, false, some, List, [], ◌∷◌, length, All, Result, ok, err, Bool-cases, if◌then◌else◌,
  leb,
}
use kernmux.Api.{ApiError}
use kernmux.Security.{
  LimitKind, ServiceLimits, ServiceLimiter, ServicePermit, acquire, drop, held, limit,
  limit_reached, set_held,
}
use kernmux.Security.Uses.{nth, without, same_kind, same_kind_iff}
use kernmux.Security.Admission.{set_held_other}
use kernmux.HostApi.Service.Types.{HostState}
use kernmux.HostApi.Service.Permits.{IsAccounted}

pub length-without :
    {A : Type 0} (xs : List A) (n : ℕ) (x : A)
    → nth xs n ≡ some x
    → length xs ≡ suc (length (without xs n))
length-without [] n x h = cc
length-without (y ∷ ys) zero x h = refl
length-without (y ∷ ys) (suc n) x h = ap suc (length-without ys n x h)

pub All-nth :
    {A : Type 0} (P : A → Type 0) (xs : List A) (n : ℕ) (x : A)
    → nth xs n ≡ some x
    → All P xs
    → P x × All P (without xs n)
All-nth P [] n x h k = absurd (cc)
All-nth P (y ∷ ys) zero x h k = (subst P (some_injective h) k.0, k.1)
All-nth P (y ∷ ys) (suc n) x h k = let (here, rest) = All-nth P ys n x h k.1 in (here, (k.0, rest))

-- The limiter as far as mutations go.
unfoldable pub SameMutations : ServiceLimiter → ServiceLimiter → Type 0
SameMutations l m =
    (m.limits ≡ l.limits) × (held m.shared LimitKind.mutation ≡ held l.shared LimitKind.mutation)

pub acquire-SameMutations :
    (l : ServiceLimiter) (kind : LimitKind)
    → kind ≢ LimitKind.mutation
    → SameMutations l (acquire l kind).0
unfolding acquire SameMutations held limit set_held
acquire-SameMutations l LimitKind.connection h =
    elim (Bool-cases (leb l.limits.connections l.shared.connections)) [
      | inl full ↦ rw full (refl, refl)
      | inr room ↦ rw room (refl, refl)
    ]
acquire-SameMutations l LimitKind.mutation h = absurd (h refl)
acquire-SameMutations l LimitKind.console h =
    elim (Bool-cases (leb l.limits.consoles l.shared.consoles)) [
      | inl full ↦ rw full (refl, refl)
      | inr room ↦ rw room (refl, refl)
    ]

pub drop-SameMutations :
    (l : ServiceLimiter) (permit : ServicePermit)
    → permit.kind ≢ LimitKind.mutation
    → SameMutations l (drop l permit)
unfolding drop SameMutations
drop-SameMutations l permit h = elim (Bool-cases (same_kind permit.kind LimitKind.mutation)) [
  | inl same ↦ absurd (h ((same_kind_iff permit.kind LimitKind.mutation).0 same))
  | inr other ↦ (refl, set_held_other l.shared permit.kind LimitKind.mutation _ other)
]

pub console_not_mutation : LimitKind.console ≢ LimitKind.mutation
console_not_mutation h = cc

pub connection_not_mutation : LimitKind.connection ≢ LimitKind.mutation
connection_not_mutation h = cc

pub acquire-kind :
    (l : ServiceLimiter) (kind : LimitKind) (p : ServicePermit)
    → (acquire l kind).1 ≡ ok p
    → p.kind ≡ kind
unfolding acquire
acquire-kind l kind p h = granted (leb (limit l.limits kind) (held l.shared kind)) h
  where
    refused : ServiceLimiter × Result ServicePermit ApiError
    refused = (l, err limit_reached)

    given : ServiceLimiter × Result ServicePermit ApiError
    given = (
      record l { shared = set_held l.shared kind (suc (held l.shared kind)) },
      ok (record { kind = kind }),
    )

    granted : (full : Bool) → (if full then refused else given).1 ≡ ok p → p.kind ≡ kind
    granted true e = cc
    granted false e = ap (λ (q : ServicePermit). q.kind) (sym (ok_injective e))

pub drop-mutation :
    (l : ServiceLimiter) (permit : ServicePermit)
    → permit.kind ≡ LimitKind.mutation
    → held (drop l permit).shared LimitKind.mutation ≡ held l.shared LimitKind.mutation - 1
unfolding drop held set_held
drop-mutation l permit h = rw h refl

pub limiter_moved :
    (limits : ServiceLimits) (s : HostState) (l : ServiceLimiter)
    → SameMutations s.limiter l
    → IsAccounted limits s
    → IsAccounted limits (record s { limiter = l })
unfolding SameMutations
limiter_moved limits s l (same, counted) v = record {
  limits_kept = same ∙ v.limits_kept;
  counted = counted ∙ v.counted;
  bounded = v.bounded;
  owned = v.owned;
}
