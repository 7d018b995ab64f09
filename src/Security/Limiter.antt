-- ===== src/Security/Limiter.antt =====
-- `ServiceLimits`, `ServiceLimiter` and `ServicePermit`. The mutex makes each call one step; the
-- state that the permits share is threaded through.
use kernmux.Prelude.{
  ℕ, suc, true, false, ◌||◌, none, [], ◌==◌, leb, if◌then◌else◌, Result, ok, err, reject_if, ◌>>◌,
  ◌>>=◌, saturating_sub,
}
use kernmux.Prelude.Text.{text}
use kernmux.Api.{ApiError, ErrorCode}

-- Independently bounded daemon resource.
pub data LimitKind : Type 0 where
  connection mutation console : LimitKind

-- Configured concurrency limits for privileged service resources.
pub record ServiceLimits : Type 0 where
  pub connections : ℕ
  pub mutations : ℕ
  pub consoles : ℕ

-- What is held, by kind.
pub record LimitState : Type 0 where
  pub connections : ℕ
  pub mutations : ℕ
  pub consoles : ℕ

-- Thread-safe concurrency limiter with RAII release.
pub record ServiceLimiter : Type 0 where
  pub shared : LimitState
  pub limits : ServiceLimits

-- Held admission slot; the state it shares is that of its limiter.
pub record ServicePermit : Type 0 where
  pub kind : LimitKind

-- `ServiceLimits::validate`.
unfoldable pub validate : ServiceLimits → Result ServiceLimits ApiError
validate limits =
    reject_if ((limits.connections == 0) || (limits.mutations == 0) || (limits.consoles == 0))
      (record {
        code = ErrorCode.internal;
        message = text "service concurrency limits are invalid";
        retryable = false;
        current_generation = none;
        diagnostics = [];
      })
    >> ok limits

-- `LimitState::default()`.
abbrev pub nothing_held : LimitState
nothing_held = record { connections = 0; mutations = 0; consoles = 0 }

-- `ServiceLimiter::new`.
unfoldable pub new_limiter : ServiceLimits → Result ServiceLimiter ApiError
unfolding validate
new_limiter limits =
    validate limits >>= λ valid. ok (record { shared = nothing_held; limits = valid })

-- The counter of a kind, and its limit.
unfoldable pub held : LimitState → LimitKind → ℕ
held s LimitKind.connection = s.connections
held s LimitKind.mutation = s.mutations
held s LimitKind.console = s.consoles

unfoldable pub limit : ServiceLimits → LimitKind → ℕ
limit l LimitKind.connection = l.connections
limit l LimitKind.mutation = l.mutations
limit l LimitKind.console = l.consoles

-- An assignment to the counter of a kind.
unfoldable pub set_held : LimitState → LimitKind → ℕ → LimitState
set_held s LimitKind.connection n = record s { connections = n }
set_held s LimitKind.mutation n = record s { mutations = n }
set_held s LimitKind.console n = record s { consoles = n }

abbrev pub limit_reached : ApiError
limit_reached = record {
  code = ErrorCode.backend_unavailable;
  message = text "service concurrency limit reached";
  retryable = true;
  current_generation = none;
  diagnostics = [];
}

-- `ServiceLimiter::acquire`: the limiter after the call, and its result.
unfoldable pub acquire : ServiceLimiter → LimitKind → ServiceLimiter × Result ServicePermit ApiError
unfolding held limit set_held
acquire l kind =
    if leb (limit l.limits kind) (held l.shared kind) then (l, err limit_reached) else (
      record l { shared = set_held l.shared kind (suc (held l.shared kind)) },
      ok (record { kind = kind }),
    )

-- `ServicePermit::drop`.
unfoldable pub drop : ServiceLimiter → ServicePermit → ServiceLimiter
unfolding held set_held
drop l permit = record l {
  shared = set_held l.shared permit.kind (saturating_sub (held l.shared permit.kind) 1);
}
