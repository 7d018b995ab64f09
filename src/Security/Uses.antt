-- ===== src/Security/Uses.antt =====
-- The uses of the limiter of security.rs over time, and the permits that are held.
use kernmux.Prelude.{
  ℕ, zero, suc, ◌≤◌, ◌≡◌, ◌↔◌, Bool, true, Option, none, some, List, [], ◌∷◌, Result, ok, err,
  arith, ◌==◌, if◌then◌else◌,
}
use kernmux.Api.{ApiError}
use kernmux.Security.{
  LimitKind, ServiceLimits, ServiceLimiter, ServicePermit, held, limit, acquire, drop,
}

abbrev kind_tag : LimitKind → ℕ
kind_tag LimitKind.connection = 0
kind_tag LimitKind.mutation = 1
kind_tag LimitKind.console = 2

abbrev pub same_kind : LimitKind → LimitKind → Bool
same_kind a b = kind_tag a == kind_tag b

-- The permits of a kind.
abbrev pub count : LimitKind → List ServicePermit → ℕ
count kind [] = 0
count kind (p ∷ ps) = if same_kind p.kind kind then suc (count kind ps) else count kind ps

-- What the threads do: ask for a slot, or let go of one that they hold.
pub data Use : Type 0 where
  ask : LimitKind → Use
  let_go : ℕ → Use

-- A limiter and the permits that it has given out and that are still held.
pub record Service : Type 0 where
  pub limiter : ServiceLimiter
  pub permits : List ServicePermit

abbrev pub keep : ServiceLimiter × Result ServicePermit ApiError → List ServicePermit → Service
keep (l, ok p) ps = record { limiter = l; permits = p ∷ ps }
keep (l, err e) ps = record { limiter = l; permits = ps }

abbrev pub nth {ℓ} : {A : Type ℓ} → List A → ℕ → Option A
nth [] n = none
nth (p ∷ ps) zero = some p
nth (p ∷ ps) (suc n) = nth ps n

abbrev pub without {ℓ} : {A : Type ℓ} → List A → ℕ → List A
without [] n = []
without (p ∷ ps) zero = ps
without (p ∷ ps) (suc n) = p ∷ without ps n

abbrev pub let_go_of : Service → Option ServicePermit → List ServicePermit → Service
let_go_of s none ps = s
let_go_of s (some p) ps = record { limiter = drop s.limiter p; permits = ps }

unfoldable pub use_service : Service → Use → Service
use_service s (ask kind) = keep (acquire s.limiter kind) s.permits
use_service s (let_go n) = let_go_of s (nth s.permits n) (without s.permits n)

unfoldable pub run_service : Service → List Use → Service
unfolding use_service
run_service s [] = s
run_service s (u ∷ us) = run_service (use_service s u) us

-- Each counter is the number of permits of its kind that are held, and within its limit.
abbrev pub Counts : ServiceLimits → Service → Type 0
Counts limits s =
    (s.limiter.limits ≡ limits)
    × ((kind : LimitKind)
        → (held s.limiter.shared kind ≡ count kind s.permits)
          × (count kind s.permits ≤ limit limits kind))

pub same_kind_iff : (a b : LimitKind) → (same_kind a b ≡ true) ↔ (a ≡ b)
same_kind_iff a b = ground arith
