-- ===== src/Console/Search.antt =====
-- What the search for a port in a range finds (functions-console.c).
use ezrpc.Base.{
  ℕ, zero, suc, ◌+◌, ◌%◌, ◌^◌, ◌≤◌, ◌<◌, ◌≡◌, ◌⊎◌, inl, inr, refl, subst, ap, ◌∙◌, ltb, ltb→lt,
  Bool, true, false, Option, some, if◌then◌else◌, arith,
}
use ezrpc.Console.Ports.{Search, search_port, port_of, no_port, get_free_tcp_port_between}

-- No port of the range can be bound.
abbrev pub AllTaken : (ℕ → Bool) → ℕ → ℕ → Type 0
AllTaken bind a b = (p : ℕ) → a ≤ p → p ≤ b → bind p ≡ false

-- The first port of the range that can be bound, or that there is none.
pub data IsSearched (bind : ℕ → Bool) (end_port port : ℕ) : Search → Type 0 where
  first :
      (p : ℕ)
      → port ≤ p
      → p ≤ end_port
      → bind p ≡ true
      → ((q : ℕ) → port ≤ q → q < p → bind q ≡ false)
      → IsSearched bind end_port port (Search.found p)
  none_left : AllTaken bind port end_port → IsSearched bind end_port port Search.exhausted

-- A port that is taken, and those after it, are those from it on.
module _ (bind : ℕ → Bool) (port : ℕ) (taken : bind port ≡ false) (Within : ℕ → Type 0) where
  here_or_later : (q : ℕ) → port ≤ q → (port ≡ q) ⊎ (port + 1 ≤ q)
  here_or_later q h = ground arith

  widen :
      ((q : ℕ) → port + 1 ≤ q → Within q → bind q ≡ false)
      → (q : ℕ) → port ≤ q
      → Within q
      → bind q ≡ false
  widen h q k w = elim (here_or_later q k) [
    | inl e ↦ subst (λ r. bind r ≡ false) e taken
    | inr l ↦ h q l w
  ]

later :
    (bind : ℕ → Bool) (end_port port : ℕ) (rest : Search)
    → bind port ≡ false
    → IsSearched bind end_port (port + 1) rest
    → IsSearched bind end_port port rest
later bind end_port port _ e (IsSearched.first p l m b h) =
    IsSearched.first p (omega arith) m b (widen bind port e (λ q. q < p) h)
later bind end_port port _ e (IsSearched.none_left h) =
    IsSearched.none_left (widen bind port e (λ q. q ≤ end_port) h)

past_end : (bind : ℕ → Bool) (end_port port : ℕ) → end_port < port → AllTaken bind port end_port
past_end bind end_port port h q k l = ground arith

-- One turn of the loop, by what `bind` answers and by whether the range is left.
turn :
    (bind : ℕ → Bool) (end_port port : ℕ) (b c : Bool) (rest : Search)
    → bind port ≡ b
    → ltb end_port (port + 1) ≡ c
    → port ≤ end_port
    → (c ≡ false → IsSearched bind end_port (port + 1) rest)
    → IsSearched bind end_port port
        (if b then Search.found port else if c then Search.exhausted else rest)
turn bind end_port port true c rest e f h k =
    IsSearched.first port (omega arith) h e (λ q l m. ground arith)
turn bind end_port port false true rest e f h k =
    later bind end_port port Search.exhausted e
      (IsSearched.none_left (past_end bind end_port (port + 1) (ltb→lt end_port (port + 1) f)))
turn bind end_port port false false rest e f h k = later bind end_port port rest e (k refl)

no_wrap : (port end_port : ℕ) → port ≤ end_port → end_port < 65535 → (port + 1) % 2 ^ 16 ≡ port + 1
no_wrap port end_port h k = omega arith

search_port-IsSearched :
    (bind : ℕ → Bool) (end_port fuel port : ℕ)
    → end_port < 65535
    → port ≤ end_port
    → end_port < port + fuel
    → IsSearched bind end_port port (search_port bind end_port fuel port)
unfolding search_port
search_port-IsSearched bind end_port zero port h k l = ground arith
search_port-IsSearched bind end_port (suc fuel) port h k l = rw (no_wrap port end_port k h) (
    turn bind end_port port _ _ _ refl refl k
      (λ c. search_port-IsSearched bind end_port fuel (port + 1) h (ground arith) (omega arith)))

-- What `get_free_tcp_port_between` returns where it does.
pub data IsPort (bind : ℕ → Bool) (start end_port : ℕ) : Option ℕ → Type 0 where
  free :
      (p : ℕ)
      → start ≤ p
      → p ≤ end_port
      → bind p ≡ true
      → ((q : ℕ) → start ≤ q → q < p → bind q ≡ false)
      → IsPort bind start end_port (some p)
  no_free : AllTaken bind start end_port → IsPort bind start end_port (some no_port)

port_of-IsPort :
    (bind : ℕ → Bool) (start end_port : ℕ) (r : Search)
    → IsSearched bind end_port start r
    → IsPort bind start end_port (port_of r)
port_of-IsPort bind start end_port _ (IsSearched.first p l m b h) = IsPort.free p l m b h
port_of-IsPort bind start end_port _ (IsSearched.none_left h) = IsPort.no_free h

-- For a range that ends before the last port, and with a socket, the search ends and returns the
-- first port of the range that can be bound, or 65535 where none can.
pub get_free_tcp_port_between-IsPort :
    (bind : ℕ → Bool) (start end_port : ℕ)
    → start ≤ end_port
    → end_port < 65535
    → IsPort bind start end_port (get_free_tcp_port_between true bind start end_port)
unfolding get_free_tcp_port_between
get_free_tcp_port_between-IsPort bind start end_port h k =
    port_of-IsPort bind start end_port _
      (search_port-IsSearched bind end_port (2 ^ 16) start k h (omega arith))

never_past : (n : ℕ) → ltb 65535 (n % 2 ^ 16) ≡ false
never_past n = ground arith

one_turn :
    (bind : ℕ → Bool) (fuel port : ℕ)
    → bind port ≡ false
    → search_port bind 65535 (suc fuel) port ≡ search_port bind 65535 fuel ((port + 1) % 2 ^ 16)
unfolding search_port
one_turn bind fuel port e = rw (e, never_past (port + 1)) refl

at_zero :
    (bind : ℕ → Bool) (fuel : ℕ)
    → bind 0 ≡ true
    → search_port bind 65535 (suc fuel) 0 ≡ Search.found 0
unfolding search_port
at_zero bind fuel z = rw (z) refl

last_or_before :
    (port : ℕ)
    → port ≤ 65535
    → ((port + 1) % 2 ^ 16 ≡ 0) ⊎ (((port + 1) % 2 ^ 16 ≡ port + 1) × (port + 1 ≤ 65535))
last_or_before port k = ground arith

search_port-wraps :
    (bind : ℕ → Bool) (fuel port : ℕ)
    → AllTaken bind port 65535
    → bind 0 ≡ true
    → port ≤ 65535
    → 65535 < port + fuel
    → search_port bind 65535 (suc fuel) port ≡ Search.found 0
search_port-wraps bind zero port h z k l = ground arith
search_port-wraps bind (suc fuel) port h z k l =
    one_turn bind (suc fuel) port (h port (omega arith) k) ∙ elim (last_or_before port k) [
      | inl e ↦ ap (search_port bind 65535 (suc fuel)) e ∙ at_zero bind fuel z
      | inr e ↦
          ap (search_port bind 65535 (suc fuel)) e.0
          ∙ search_port-wraps bind fuel (port + 1) (λ q i j. h q (omega arith) j) z e.1
              (omega arith)
    ]

-- For a range up to the last port in which no port can be bound, the search goes on below the range:
-- where port 0 can be bound, the result is 0.
pub get_free_tcp_port_between-wraps :
    (bind : ℕ → Bool) (start : ℕ)
    → 0 < start
    → start ≤ 65535
    → AllTaken bind start 65535
    → bind 0 ≡ true
    → get_free_tcp_port_between true bind start 65535 ≡ some 0
unfolding get_free_tcp_port_between
get_free_tcp_port_between-wraps bind start p k h z =
    ap port_of (search_port-wraps bind 65535 start h z k (omega arith))
