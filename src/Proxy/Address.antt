-- ===== src/Proxy/Address.antt =====
-- `zconnect`, as built with HAVE_ADDRINFO: the first address that gives a usable socket. The socket
-- options set before the return change nothing here.
use ezrpc.Base.{
  ℕ, ◌≡◌, refl, arith, Bool, true, false, not, ◌&&◌, Option, none, some, List, [], ◌∷◌, ◌++◌,
  if◌then◌else◌,
}

-- What the kernel answers for one entry of `getaddrinfo`: the socket, if one is opened, and whether
-- `bind`, `listen` and `connect` succeed on it.
pub record Address : Type 0 where
  pub socket : Option ℕ
  pub binds : Bool
  pub listens : Bool
  pub connects : Bool

pub record Dial : Type 0 where
  pub fd : Option ℕ  -- none for -1
  pub closed : List ℕ

-- The body of the loop on an address and its socket, with the rest of the loop.
unfoldable pub dial_address : (servermode : Bool) → Address → Option ℕ → Dial → Dial
dial_address servermode a none rest = rest
dial_address servermode a (some fd) rest =
    let again : Dial = record rest { closed = fd ∷ rest.closed } in
    let stop : Dial = record { fd = some fd; closed = [] } in
    if servermode
    then if not a.binds then again else if not a.listens then again else stop
    else if not a.connects
    then again
    else stop

unfoldable pub dial : (servermode : Bool) → List Address → Dial
dial servermode [] = record { fd = none; closed = [] }
dial servermode (a ∷ l) = dial_address servermode a a.socket (dial servermode l)

-- `none` where `getaddrinfo` fails.
unfoldable pub zconnect : (servermode : Bool) → Option (List Address) → Dial
zconnect servermode none = record { fd = none; closed = [] }
zconnect servermode (some l) = dial servermode l

-- Whether a socket of the address can be used.
abbrev pub is_usable : Bool → Address → Bool
is_usable servermode a = if servermode then a.binds && a.listens else a.connects

-- The sockets that are opened: those of the addresses up to the first one that is usable.
abbrev pub opened_at : Bool → Option ℕ → List ℕ → List ℕ
opened_at usable none rest = rest
opened_at usable (some fd) rest = fd ∷ (if usable then [] else rest)

abbrev pub opened : Bool → List Address → List ℕ
opened servermode [] = []
opened servermode (a ∷ l) = opened_at (is_usable servermode a) a.socket (opened servermode l)

-- The socket of the first address that has one and can use it.
abbrev pub usable_at : Bool → Option ℕ → Option ℕ → Option ℕ
usable_at usable none rest = rest
usable_at usable (some fd) rest = if usable then some fd else rest

abbrev pub first_usable : Bool → List Address → Option ℕ
first_usable servermode [] = none
first_usable servermode (a ∷ l) =
    usable_at (is_usable servermode a) a.socket (first_usable servermode l)

abbrev pub to_list : Option ℕ → List ℕ
to_list none = []
to_list (some fd) = fd ∷ []

dial_address-first :
    (servermode : Bool) (a : Address) (o : Option ℕ) (rest : Dial) {first : Option ℕ}
    {others : List ℕ}
    → rest.fd ≡ first
    → others ≡ rest.closed ++ to_list rest.fd
    → ((dial_address servermode a o rest).fd ≡ usable_at (is_usable servermode a) o first)
      × (opened_at (is_usable servermode a) o others
          ≡ (dial_address servermode a o rest).closed
            ++ to_list (dial_address servermode a o rest).fd)
unfolding dial_address
dial_address-first servermode a none rest h k = (h, k)
dial_address-first true a (some fd) rest h k = ground arith
dial_address-first false a (some fd) rest h k = ground arith

-- `zconnect` returns the socket of the first usable address, and of the sockets that it opened
-- every other one is closed.
pub zconnect-first :
    (servermode : Bool) (l : List Address)
    → ((zconnect servermode (some l)).fd ≡ first_usable servermode l)
      × (opened servermode l
          ≡ (zconnect servermode (some l)).closed ++ to_list (zconnect servermode (some l)).fd)
unfolding zconnect dial
zconnect-first servermode [] = (refl, refl)
zconnect-first servermode (a ∷ l) =
    let ih = zconnect-first servermode l in
    dial_address-first servermode a a.socket (dial servermode l) ih.0 ih.1
