-- ===== src/Console/Ports.antt =====
-- The search for a free port of functions-console.c. The results are `uint16_t`, also where a
-- function means to return -1.
use ezrpc.Base.{ℕ, zero, suc, ◌+◌, ◌%◌, ◌^◌, ltb, Bool, Option, none, some, if◌then◌else◌}
use ezrpc.Base.Int.{pos}
use ezrpc.Rpc.State.{Ctx, Value}

-- `(uint16_t)-1`.
abbrev pub no_port : ℕ
no_port = 65535

-- How the loop of `get_free_tcp_port_between` ends: `bind` has worked, no port is left, or the fuel
-- has run out.
pub data Search : Type 0 where
  found : ℕ → Search
  exhausted : Search
  out_of_fuel : Search

-- The loop, with `bind` and the port in use; `port++` wraps around.
unfoldable pub search_port : (ℕ → Bool) → (end_port : ℕ) (fuel port : ℕ) → Search
search_port bind end_port zero port = Search.out_of_fuel
search_port bind end_port (suc fuel) port =
    let next = (port + 1) % 2 ^ 16 in
    let rest = search_port bind end_port fuel next in
    if bind port then Search.found port else if ltb end_port next then Search.exhausted else rest

-- The port of a search; `none` where the loop never ends.
abbrev pub port_of : Search → Option ℕ
port_of (Search.found port) = some port
port_of Search.exhausted = some no_port
port_of Search.out_of_fuel = none

-- `get_free_tcp_port_between`; `socket` tells whether there is a socket to bind. There are no more
-- ports than units of fuel, so a search that has used it up has tried every port and goes round for
-- ever.
unfoldable pub get_free_tcp_port_between :
    (socket : Bool) (bind : ℕ → Bool) (start end_port : ℕ) → Option ℕ
unfolding search_port
get_free_tcp_port_between socket bind start end_port =
    if socket then port_of (search_port bind end_port (2 ^ 16) start) else some 0

-- `get_random_free_tcp_port`: none where localhost is unknown or there is no socket or port, and
-- otherwise the port that `getsockname` gives.
unfoldable pub get_random_free_tcp_port : Option ℕ → ℕ
get_random_free_tcp_port none = no_port
get_random_free_tcp_port (some port) = port % 2 ^ 16

abbrev pub keep_port : ℕ → Ctx → Ctx
keep_port port s = record s { data_ptr = Value.int (pos port) }

-- `console_graphical_port_find`, with the range that `sscanf` reads in the configured string, if any;
-- `none` where it does not return.
unfoldable pub console_graphical_port_find :
    (socket : Bool) (bind : ℕ → Bool) (random : Option ℕ) → Option (ℕ × ℕ) → Ctx → Option Ctx
unfolding get_free_tcp_port_between get_random_free_tcp_port
console_graphical_port_find socket bind random none s =
    some (keep_port (get_random_free_tcp_port random) s)
console_graphical_port_find socket bind random (some (start, end_port)) s =
    elim (get_free_tcp_port_between socket bind start end_port) [
      | none ↦ none
      | some port ↦ some (keep_port port s)
    ]
