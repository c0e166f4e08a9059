-- ===== src/Session/ClientIp.antt =====
-- `session_getClientIP` and its callback: where the address of the client comes from.
use ezrpc.Base.{leb, drop, Bool, false, none, some, if◌then◌else◌}
use ezrpc.Rpc.State.{Str, CStr, Ctx, Fn, Value, lit}
use ezrpc.Rpc.Macros.{ctx_cb_add, mark_cb, Handoff, next_cb}
use ezrpc.Rpc.Env.{Env, bytes_eq, strrchr}
use ezrpc.Session.Check.{get_config}

-- `proxied != true`: `true` is the stringshare of "true".
abbrev pub is_true : Value → Bool
is_true (Value.text s) = bytes_eq s (lit "true")
is_true _ = false

abbrev pub validated : Env → Str → CStr
validated env s = if env.validate_ip (some s) then some s else none

-- The address that the X-Forwarded-For header gives: after the last comma and the space, or all.
unfoldable pub forwarded_ip : Env → Str → CStr
forwarded_ip env forwarded = elim (strrchr b',' forwarded) [
  | some last ↦ if leb 9 (env.strlen_bounded last 10) then validated env (drop 2 last) else none
  | none ↦ if leb 7 (env.strlen_bounded forwarded 8) then validated env forwarded else none
]

abbrev pub forwarded_header : Env → CStr
forwarded_header env = env.header (lit "X-Forwarded-For")

unfoldable pub proxied_ip : Env → Value → CStr
unfolding forwarded_ip
proxied_ip env proxied =
    if is_true proxied
    then elim (forwarded_header env) [ none ↦ none | some f ↦ forwarded_ip env f ]
    else none

abbrev pub text_value : CStr → Value
text_value none = Value.null
text_value (some s) = Value.text s

-- `session_getClientIP_cb`.
unfoldable pub session_get_client_ip_cb : Env → Value → Ctx → Ctx × Handoff
unfolding mark_cb proxied_ip
session_get_client_ip_cb env proxied s = (
  mark_cb s,
  next_cb
      (elim (proxied_ip env proxied) [ some ip ↦ Value.text ip | none ↦ text_value env.net_ip ]),
)

-- `session_getClientIP`.
unfoldable pub session_get_client_ip : Env → Ctx → Ctx
unfolding get_config ctx_cb_add
session_get_client_ip env s =
    ctx_cb_add Fn.session_get_client_ip_cb (get_config env s (some (lit "proxied"))).0
