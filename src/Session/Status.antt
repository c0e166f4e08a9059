-- ===== src/Session/Status.antt =====
-- What `session_checker` and `session_pre_call` decide, on every status of a session.
use ezrpc.Base.{
  ℕ, ◌*◌, ◌<◌, ◌^◌, if◌then◌else◌, ◌≡◌, ◌↔◌, arith, Bool, true, false, ◌&&◌, none, some,
}
use ezrpc.Base.Int.{ℤ, pos, ◌*ℤ◌, ◌-ℤ◌, ◌≤ℤ◌}
use ezrpc.Rpc.Faults.{Fault, fault_eq, is_error}
use ezrpc.Rpc.State.{Str, CStr, Ctx, Effect, Session, lit}
use ezrpc.Rpc.Macros.{ctx_return, emit}
use ezrpc.Rpc.Env.{Env}
use ezrpc.Session.Check.{to_int, session_timeout, session_status, session_checker}
use ezrpc.Session.PreCall.{pre_call_decide, pre_call_status, session_pre_call, is_login}

-- The seconds that a session may rest: 15 minutes where no timeout is configured, where its lookup has
-- failed or where it is no number, and otherwise the configured minutes, as far as their seconds fit
-- an `int`.
pub data IsTimeout (env : Env) : Fault → CStr → ℤ → Type 0 where
  unset : {e : Fault} → IsTimeout env e none (pos 900)
  lookup_failed : {e : Fault} {c : Str} → is_error e ≡ true → IsTimeout env e (some c) (pos 900)
  no_number :
      {e : Fault} {c : Str}
      → is_error e ≡ false
      → env.strtol_failed c ≡ true
      → IsTimeout env e (some c) (pos 900)
  minutes :
      {e : Fault} {c : Str} (n : ℕ)
      → is_error e ≡ false
      → env.strtol_failed c ≡ false
      → env.strtol c ≡ pos n
      → n * 60 < 2 ^ 31
      → IsTimeout env e (some c) (pos (n * 60))

to_int-fits : (n : ℕ) → n < 2 ^ 31 → to_int (pos n) ≡ pos n
unfolding to_int
to_int-fits n h = ground arith

times : (n m : ℕ) → pos n *ℤ pos m ≡ pos (n * m)
unfolding ◌*ℤ◌
times n m = ground arith

session_timeout-IsTimeout :
    (env : Env) (e : Fault) (c : CStr) (t : ℤ) → IsTimeout env e c t → session_timeout env e c ≡ t
unfolding session_timeout
session_timeout-IsTimeout env e _ _ IsTimeout.unset = times 15 60
session_timeout-IsTimeout env e _ _ (IsTimeout.lookup_failed h) = rw h (times 15 60)
session_timeout-IsTimeout env e _ _ (IsTimeout.no_number h k) =
    rw (h, k, times 15 60) (to_int-fits 900 (omega arith))
session_timeout-IsTimeout env e _ _ (IsTimeout.minutes n h k l m) =
    rw (h, k, l, times n 60) (to_int-fits (n * 60) m)

-- A checked session is valid exactly when it is authenticated and its last use is at most the
-- timeout ago, expired exactly when it is authenticated and older, and not authorized exactly when
-- it is not authenticated. The timeout is 15 minutes where none is configured, where its lookup has
-- failed or where it is no number, and otherwise the configured minutes, where these are not
-- negative and their seconds fit an `int`.
pub session_checker_status :
    (env : Env) (configured : CStr) (session : Session) (s : Ctx) (timeout : ℤ)
    → IsTimeout env s.error configured timeout
    → let status = (session_checker env configured session s).1.status in
      ((status ≡ Fault.valid_session)
        ↔ ((session.authenticated ≡ true) × (env.now -ℤ session.timestamp ≤ℤ timeout)))
      × ((status ≡ Fault.not_authorized) ↔ (session.authenticated ≡ false))
      × ((status ≡ Fault.expired_session)
          ↔ ((session.authenticated ≡ true) × (¬ (env.now -ℤ session.timestamp ≤ℤ timeout))))
unfolding session_checker session_status
session_checker_status env configured session s timeout h =
    let e = session_timeout-IsTimeout env s.error configured timeout h in rw e (ground arith)

-- The fault for a session that is not valid.
abbrev pub refusal : Fault → Fault
refusal Fault.expired_session = Fault.expired_session
refusal Fault.not_authorized = Fault.not_authorized
refusal _ = Fault.invalid_session

abbrev pub is_some : CStr → Bool
is_some none = false
is_some (some _) = true

-- A checked call of a method that is open to logged-in clients only, with the address of the client
-- known and a well-formed cookie.
pub record IsProtectedCall (env : Env) (s : Ctx) : Type 0 where
  pub has_host : is_some s.session.client_host ≡ true
  pub has_cookie : env.validate_uuid s.cookie ≡ true
  pub was_checked : s.checked ≡ true
  pub no_login : is_login env s.method ≡ false
  pub no_logout : (s.session.authenticated && env.same s.method (some (lit "User.logout"))) ≡ false
  pub no_get : env.is_get ≡ false
  pub content : s.has_content ≡ true

pre_call_status_refuses :
    (env : Env) (s : Ctx)
    → s.has_content ≡ true
    → fault_eq s.session.status Fault.valid_session ≡ false
    → pre_call_status env s ≡ (
      emit
          (Effect.resume false)
          (record s { error = refusal s.session.status; content_fault = refusal s.session.status }),
      false,
    )
unfolding pre_call_status ctx_return
pre_call_status_refuses env s content invalid = rw invalid (go s.session.status invalid)
  where
    go :
        (e : Fault)
        → fault_eq e Fault.valid_session ≡ false
        → ctx_return (record s {
          error =
              if fault_eq e Fault.expired_session
              then Fault.expired_session
              else if fault_eq e Fault.not_authorized
              then Fault.not_authorized
              else Fault.invalid_session;
        })
          ≡ (
            emit (Effect.resume false) (record s { error = refusal e; content_fault = refusal e }),
            false,
          )
    go Fault.valid_session h = cc
    go Fault.no_error h = rw content
    go _ h = rw content

-- A protected call whose session is not valid is refused: the handler returns false, resumes the
-- call with false, sets the fault of the status on the answer, and does nothing else.
pub session_pre_call_refuses :
    (env : Env) (s : Ctx)
    → IsProtectedCall env s
    → fault_eq s.session.status Fault.valid_session ≡ false
    → session_pre_call env s ≡ (
      emit
          (Effect.resume false)
          (record s { error = refusal s.session.status; content_fault = refusal s.session.status }),
      false,
    )
unfolding session_pre_call pre_call_decide
session_pre_call_refuses env s call invalid =
    ground (arith, pre_call_status_refuses env s call.content invalid)
