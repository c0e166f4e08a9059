-- ===== src/Rpc/Records.antt =====
-- The records of zentific-server.azy that calls and queries take. C strings are lists of bytes,
-- `none` for NULL.
use Prim.Native.Char.{code}
use Prim.Native.String.{String}
use ezrpc.Base.{ℕ, Bool, Option, List, [], ◌∷◌}
use ezrpc.Base.Int.{ℤ}
use ezrpc.Rpc.Faults.{Fault}

abbrev pub Str : Type 0
Str = List ℕ

abbrev pub CStr : Type 0
CStr = Option Str

-- The bytes of a literal.
abbrev pub lit : String → Str
lit String.[] = []
lit (String.◌∷◌ c s) = code c ∷ lit s

-- Fields of `SESSION` (zentific-server.azy). `authenticated` is an `int` that is only tested.
pub record Session : Type 0 where
  pub authenticated : Bool
  pub uid : ℤ
  pub username : CStr
  pub session_id : CStr
  pub client_host : CStr
  pub referrer : CStr
  pub failures : ℤ
  pub timestamp : ℤ
  pub status : Fault

-- `USER` and `USER_GROUP` (zentific-server.azy).
pub record User : Type 0 where
  pub uid : ℤ
  pub username : Str
  pub givenname : Str
  pub email : Str
  pub active : ℤ
  pub type : ℤ
  pub language : Str

pub record UserGroup : Type 0 where
  pub gid : ℤ
  pub privilege : ℤ
  pub name : Str
  pub desc : Str

-- `NETWORK` (zentific-server.azy).
pub record Network : Type 0 where
  pub id : ℤ
  pub mid : ℤ
  pub name : CStr
  pub host : CStr
  pub type : CStr
  pub vlans : List ℤ
  pub network : CStr
  pub netmask : CStr
  pub gateway : CStr
  pub mac : CStr
  pub interface : CStr

-- `JOB` (zentific-server.azy), less the fields that only the scheduler sets.
pub record Job : Type 0 where
  pub id : ℤ
  pub uid : ℤ
  pub resource : CStr
  pub module_name : CStr
  pub module_function : CStr
  pub input_string : CStr
  pub target_vm : CStr
  pub target_node : CStr
  pub target_host : CStr
  pub extra : CStr
  pub dependencies : List ℤ
