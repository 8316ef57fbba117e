-- ===== src/Request/Bounds.antt =====
-- The request parser stays within its array, and keeps NUL bytes out of a domain name.
use protos_tpe.Prelude.{
  ℕ, suc, ◌+◌, ◌^◌, ◌%◌, ◌<◌, ◌≡◌, ◌≢◌, refl, ap, sym, ◌∙◌, Bool, true, false, ◌&&◌, List, [], ◌∷◌,
  ◌++◌, arith, length, set, take, All, length-set, take-suc-set, ◌==◌, ◌⊎◌, Bool-cases, inl, inr,
}
use protos_tpe.Request.{
  Parser, ReqState, init, ver, cmd_byte, rsv, atyp_byte, dlen, daddr, dport, done, error, step,
  atyp_domain,
}

-- The states before the address.
abbrev pub is_early : ReqState → Bool
is_early ver = true
is_early cmd_byte = true
is_early rsv = true
is_early atyp_byte = true
is_early dlen = true
is_early _ = false

-- The numbers that index the array or count, in range.
pub record InBounds (p : Parser) : Type 0 where
  pub addr_size : length p.dst_addr ≡ 256
  pub addr_byte : p.addr_len < 256
  pub port_word : p.dst_port < 2 ^ 16
  pub early : is_early p.state ≡ true → (p.addr_read ≡ 0) × (p.port_read ≡ 0)
  pub addr_room : p.state ≡ daddr → (p.addr_read < p.addr_len) × (p.port_read ≡ 0)
  pub port_room : p.state ≡ dport → p.port_read < 2

pub init-InBounds : (p : Parser) → length p.dst_addr ≡ 256 → InBounds (init p)
unfolding init
init-InBounds p h = ground arith

-- A byte, in any state of a parser within its bounds, leaves it within its bounds: an array of
-- 256 bytes, a length below 256, in the state that stores a byte a position below the length, a
-- port below 2^16, and at most two bytes of the port, so that no write is outside of `dst_addr`
-- and no counter wraps.
pub request_step-InBounds : (p : Parser) (c : ℕ) → c < 256 → InBounds p → InBounds (step p c)
unfolding step
request_step-InBounds p c hc v = ground (arith, length-set p.dst_addr p.addr_read c)

-- What is stored of a domain name has no NUL byte.
abbrev pub HasNoNul : Parser → Type 0
HasNoNul p = p.atyp ≡ atyp_domain → All (λ c. c ≢ 0) (take p.addr_read p.dst_addr)

All-snoc : (xs : List ℕ) (c : ℕ) → All (λ d. d ≢ 0) xs → c ≢ 0 → All (λ d. d ≢ 0) (xs ++ c ∷ [])
All-snoc [] c a h = (h, tt)
All-snoc (x ∷ xs) c a h = (a.0, All-snoc xs c a.1 h)

-- The address after one more byte.
stored : Parser → ℕ → Parser
stored p c = record p {
  dst_addr = set p.dst_addr p.addr_read c;
  addr_read = (p.addr_read + 1) % 256;
}

stored-HasNoNul :
    (p : Parser) (c : ℕ)
    → InBounds p
    → p.addr_read < p.addr_len
    → HasNoNul p
    → (p.atyp ≡ atyp_domain → c ≢ 0)
    → HasNoNul (stored p c)
unfolding stored
stored-HasNoNul p c v room n h domain =
    let next : suc p.addr_read ≡ (p.addr_read + 1) % 256 = omega (arith, v.addr_byte) in
    let grown = take-suc-set p.dst_addr p.addr_read c (omega (arith, v.addr_size, v.addr_byte)) in
    rw (← next, grown) (All-snoc (take p.addr_read p.dst_addr) c (n domain) (h domain))

-- An address byte: it is refused, or stored with a change of the state at most.
record Stored (p q : Parser) : Type 0 where
  same_atyp : q.atyp ≡ p.atyp
  same_addr : q.dst_addr ≡ p.dst_addr
  same_read : q.addr_read ≡ p.addr_read

Stored-HasNoNul : (p q : Parser) → Stored p q → HasNoNul p → HasNoNul q
Stored-HasNoNul p q s n domain =
    let here = n (sym s.same_atyp ∙ domain) in rw (s.same_addr, s.same_read) here

step-address :
    (p : Parser) (c : ℕ)
    → p.state ≡ daddr
    → (p.atyp == atyp_domain && c == 0) ≡ false
    → Stored (stored p c) (step p c)
unfolding step stored
step-address p c e h = ground arith

step-refused :
    (p : Parser) (c : ℕ)
    → p.state ≡ daddr
    → (p.atyp == atyp_domain && c == 0) ≡ true
    → Stored p (step p c)
unfolding step
step-refused p c e h = ground arith

step-elsewhere : (p : Parser) (c : ℕ) → p.state ≢ daddr → p.state ≢ atyp_byte → Stored p (step p c)
unfolding step
step-elsewhere p c e h = ground arith

read-step : (p : Parser) (c : ℕ) → p.state ≡ atyp_byte → (step p c).addr_read ≡ p.addr_read
unfolding step
read-step p c e = ground arith

state-cases : (s : ReqState) → (s ≡ daddr) ⊎ ((s ≡ atyp_byte) ⊎ ((s ≢ daddr) × (s ≢ atyp_byte)))
state-cases daddr = inl refl
state-cases atyp_byte = inr (inl refl)
state-cases ver = inr (inr ((λ e. absurd (cc e)), (λ e. absurd (cc e))))
state-cases cmd_byte = inr (inr ((λ e. absurd (cc e)), (λ e. absurd (cc e))))
state-cases rsv = inr (inr ((λ e. absurd (cc e)), (λ e. absurd (cc e))))
state-cases dlen = inr (inr ((λ e. absurd (cc e)), (λ e. absurd (cc e))))
state-cases dport = inr (inr ((λ e. absurd (cc e)), (λ e. absurd (cc e))))
state-cases done = inr (inr ((λ e. absurd (cc e)), (λ e. absurd (cc e))))
state-cases error = inr (inr ((λ e. absurd (cc e)), (λ e. absurd (cc e))))

-- Whatever byte arrives, in a parser within its bounds, the part of a domain name that is stored
-- stays free of NUL bytes.
pub request_step-HasNoNul : (p : Parser) (c : ℕ) → InBounds p → HasNoNul p → HasNoNul (step p c)
request_step-HasNoNul p c v n = elim (state-cases p.state) [
  | inl address ↦ elim (Bool-cases (p.atyp == atyp_domain && c == 0)) [
    | inl refused ↦ Stored-HasNoNul p (step p c) (step-refused p c address refused) n
    | inr kept ↦ Stored-HasNoNul (stored p c) (step p c) (step-address p c address kept) (
        stored-HasNoNul p c v (v.addr_room address).0 n
          (λ domain zero_byte. absurd (ground (arith, kept, domain, zero_byte))))
  ]
  | inr (inl kind) ↦ λ domain. rw (read-step p c kind, (v.early (ap is_early kind)).0) tt
  | inr (inr (a, b)) ↦ Stored-HasNoNul p (step p c) (step-elsewhere p c a b) n
]
