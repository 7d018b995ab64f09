-- ===== src/Security/Admission.antt =====
-- The limiter against what it stands for: the permits that are held.
use kernmux.Prelude.{
  ℕ, zero, suc, ◌-◌, ◌≤◌, ◌<◌, ◌≡◌, ◌↔◌, refl, ap, sym, subst, ◌∙◌, Option-cases, true, false,
  Bool-cases, inl, inr, some, List, [], ◌∷◌, ok, arith, leb, if◌then◌else◌, >>=-eq-ok, reject_if,
}
use kernmux.Security.{
  LimitKind, ServiceLimits, ServiceLimiter, ServicePermit, LimitState, held, limit, set_held,
  acquire, drop, new_limiter, validate, nothing_held,
}
use kernmux.Security.Uses.{
  same_kind, count, Use, ask, let_go, Service, keep, nth, without, use_service, run_service, Counts,
  same_kind_iff,
}

pub held-set_held :
    (s : LimitState) (kind other : LimitKind) (n : ℕ)
    → held (set_held s kind n) other ≡ (if same_kind kind other then n else held s other)
unfolding held set_held
held-set_held s LimitKind.connection LimitKind.connection n = refl
held-set_held s LimitKind.connection LimitKind.mutation n = refl
held-set_held s LimitKind.connection LimitKind.console n = refl
held-set_held s LimitKind.mutation LimitKind.connection n = refl
held-set_held s LimitKind.mutation LimitKind.mutation n = refl
held-set_held s LimitKind.mutation LimitKind.console n = refl
held-set_held s LimitKind.console LimitKind.connection n = refl
held-set_held s LimitKind.console LimitKind.mutation n = refl
held-set_held s LimitKind.console LimitKind.console n = refl

count-without :
    (ps : List ServicePermit) (n : ℕ) (p : ServicePermit) (kind : LimitKind)
    → nth ps n ≡ some p
    → count kind ps ≡ (
        if same_kind p.kind kind
        then suc (count kind (without ps n))
        else count kind (without ps n))
count-without [] n p kind h = cc
count-without (q ∷ qs) zero p kind h = cc
count-without (q ∷ qs) (suc n) p kind h = ground (arith, count-without qs n p kind h)

pub acquired_limits :
    (l : ServiceLimiter) (kind : LimitKind) (ps : List ServicePermit)
    → (keep (acquire l kind) ps).limiter.limits ≡ l.limits
unfolding acquire
acquired_limits l kind ps = elim (Bool-cases (leb (limit l.limits kind) (held l.shared kind))) [
  | inl full ↦ rw full refl
  | inr room ↦ rw room refl
]

Matches : ServiceLimits → LimitState → List ServicePermit → LimitKind → Type 0
Matches limits s ps kind = (held s kind ≡ count kind ps) × (count kind ps ≤ limit limits kind)

-- A counter that is set, and the others.
pub set_held_same :
    (s : LimitState) (kind other : LimitKind) (n : ℕ)
    → same_kind kind other ≡ true
    → held (set_held s kind n) other ≡ n
set_held_same s kind other n h =
    held-set_held s kind other n ∙ ap (λ b. if b then n else held s other) h

pub set_held_other :
    (s : LimitState) (kind other : LimitKind) (n : ℕ)
    → same_kind kind other ≡ false
    → held (set_held s kind n) other ≡ held s other
set_held_other s kind other n h =
    held-set_held s kind other n ∙ ap (λ b. if b then n else held s other) h

Matches-eq :
    (limits : ServiceLimits) (s : LimitState) (ps : List ServicePermit) (kind other : LimitKind)
    → same_kind kind other ≡ true
    → Matches limits s ps other
    → Matches limits s ps kind
Matches-eq limits s ps kind other h k =
    subst (Matches limits s ps) (sym ((same_kind_iff kind other).0 h)) k

pub leb_room : (a b : ℕ) → leb a b ≡ false → b < a
leb_room a b h = ground arith

acquire-Matches :
    (l : ServiceLimiter) (ps : List ServicePermit) (kind other : LimitKind)
    → Matches l.limits l.shared ps other
    → let t = keep (acquire l kind) ps in Matches l.limits t.limiter.shared t.permits other
unfolding acquire Matches
acquire-Matches l ps kind other k =
    elim (Bool-cases (leb (limit l.limits kind) (held l.shared kind))) [
      | inl full ↦ rw full k
      | inr room ↦ rw room (elim (Bool-cases (same_kind kind other)) [
        | inl same ↦
            let e : kind ≡ other = (same_kind_iff kind other).0 same in
            let counter = set_held_same l.shared kind other (suc (held l.shared kind)) same in
            let held_eq = ap (held l.shared) e in
            let limit_eq = ap (limit l.limits) e in
            let free : held l.shared kind < limit l.limits kind =
              leb_room (limit l.limits kind) (held l.shared kind) room in
            rw same (omega arith, omega arith)
        | inr differs ↦
            let counter = set_held_other l.shared kind other (suc (held l.shared kind)) differs in
            rw differs (omega arith, omega arith)
      ])
    ]

drop-Matches :
    (l : ServiceLimiter) (ps : List ServicePermit) (n : ℕ) (p : ServicePermit) (other : LimitKind)
    → nth ps n ≡ some p
    → Matches l.limits l.shared ps other
    → Matches l.limits (drop l p).shared (without ps n) other
unfolding drop Matches
drop-Matches l ps n p other e k =
    let removed = count-without ps n p other e in
    elim (Bool-cases (same_kind p.kind other)) [
      | inl same ↦
          let counter = set_held_same l.shared p.kind other (held l.shared p.kind - 1) same in
          let held_eq = ap (held l.shared) ((same_kind_iff p.kind other).0 same) in
          let counted : count other ps ≡ suc (count other (without ps n)) =
            removed
            ∙ ap (λ b. if b then suc (count other (without ps n)) else count other (without ps n))
                same in
          (omega arith, omega arith)
      | inr differs ↦
          let counter = set_held_other l.shared p.kind other (held l.shared p.kind - 1) differs in
          let counted : count other ps ≡ count other (without ps n) =
            removed
            ∙ ap (λ b. if b then suc (count other (without ps n)) else count other (without ps n))
                differs in
          (omega arith, omega arith)
    ]

use_service-Counts :
    (limits : ServiceLimits) (s : Service) (u : Use)
    → Counts limits s
    → Counts limits (use_service s u)
unfolding use_service Matches drop
use_service-Counts limits s (ask kind) (same, h) = (
  acquired_limits s.limiter kind s.permits ∙ same,
  λ other.
      subst
        (λ (x : ServiceLimits).
          let t = keep (acquire s.limiter kind) s.permits in
          Matches x t.limiter.shared t.permits other)
        same (acquire-Matches s.limiter s.permits kind other (at_limits other)),
)
  where
    at_limits : (kind : LimitKind) → Matches s.limiter.limits s.limiter.shared s.permits kind
    at_limits kind = subst (λ x. Matches x s.limiter.shared s.permits kind) (sym same) (h kind)
use_service-Counts limits s (let_go n) (same, h) = elim (Option-cases (nth s.permits n)) [
  | inl gone ↦ rw gone (same, h)
  | inr (p, e) ↦ rw e (
    same,
    λ other.
        subst
          (λ (x : ServiceLimits). Matches x (drop s.limiter p).shared (without s.permits n) other)
          same (drop-Matches s.limiter s.permits n p other e (at_limits other)),
  )
]
  where
    at_limits : (kind : LimitKind) → Matches s.limiter.limits s.limiter.shared s.permits kind
    at_limits kind = subst (λ x. Matches x s.limiter.shared s.permits kind) (sym same) (h kind)

run_service-Counts :
    (limits : ServiceLimits) (s : Service) (us : List Use)
    → Counts limits s
    → Counts limits (run_service s us)
unfolding run_service
run_service-Counts limits s [] h = h
run_service-Counts limits s (u ∷ us) h =
    run_service-Counts limits (use_service s u) us (use_service-Counts limits s u h)

validate_same : (limits valid : ServiceLimits) → validate limits ≡ ok valid → limits ≡ valid
unfolding validate
validate_same limits valid h =
    let (u, passed, same) = >>=-eq-ok (reject_if _ _) (λ _. ok limits) h in cc

new_limiter_fresh :
    (limits : ServiceLimits) (l : ServiceLimiter)
    → new_limiter limits ≡ ok l
    → record { shared = nothing_held; limits = limits } ≡ l
unfolding new_limiter
new_limiter_fresh limits l h =
    let (valid, checked, built) = >>=-eq-ok (validate limits) _ h in
    let e : limits ≡ valid = validate_same limits valid checked in cc

pub new_limiter-Counts :
    (limits : ServiceLimits) (l : ServiceLimiter)
    → new_limiter limits ≡ ok l
    → Counts limits (record { limiter = l; permits = [] })
new_limiter-Counts limits l h =
    subst (λ x. Counts limits (record { limiter = x; permits = [] })) (new_limiter_fresh limits l h)
      (refl, λ kind. (nothing kind, omega arith))
  where
    nothing : (kind : LimitKind) → held nothing_held kind ≡ 0
    nothing LimitKind.connection = unfold held in refl
    nothing LimitKind.mutation = unfold held in refl
    nothing LimitKind.console = unfold held in refl

acquire-held :
    (l : ServiceLimiter) (kind : LimitKind)
    → ((p : ServicePermit) × ((acquire l kind).1 ≡ ok p))
      ↔ (held l.shared kind < limit l.limits kind)
unfolding acquire
acquire-held l kind = elim (Bool-cases (leb (limit l.limits kind) (held l.shared kind))) [
  | inl full ↦
      rw full (
        λ (p, e). cc,
        λ room. absurd (leb_full (limit l.limits kind) (held l.shared kind) full room),
      )
  | inr room ↦ rw room (
    λ _. leb_room (limit l.limits kind) (held l.shared kind) room,
    λ _. (record { kind = kind }, refl),
  )
]
  where
    leb_full : (a b : ℕ) → leb a b ≡ true → b < a → ⊥
    leb_full a b h k = ground arith

-- Whatever calls of `acquire` and drops of permits that are held follow the construction of a
-- limiter: each of its counters is the number of permits of that kind that are held, which never
-- exceeds the configured limit; and another permit is granted exactly if fewer than the limit are held.
pub run_service_refines :
    (limits : ServiceLimits) (l : ServiceLimiter) (us : List Use) (kind : LimitKind)
    → new_limiter limits ≡ ok l
    → let s = run_service (record { limiter = l; permits = [] }) us in
      (held s.limiter.shared kind ≡ count kind s.permits)
      × (count kind s.permits ≤ limit limits kind)
      × (((p : ServicePermit) × ((acquire s.limiter kind).1 ≡ ok p))
          ↔ (count kind s.permits < limit limits kind))
run_service_refines limits l us kind h =
    let start : Service = record { limiter = l; permits = [] } in
    let s : Service = run_service start us in
    let (same, counts) = run_service-Counts limits start us (new_limiter-Counts limits l h) in
    let granted = acquire-held s.limiter kind in
    ((counts kind).0, (counts kind).1, rw (sym (counts kind).0, sym same) granted)
