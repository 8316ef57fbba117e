-- ===== src/Request/Laws.antt =====
-- The request parser against the message format, state by state.
use protos_tpe.Prelude.{
  ℕ, suc, ◌+◌, ◌*◌, ◌/◌, ◌%◌, ◌<◌, ◌≡◌, ◌≢◌, refl, ap, ◌∙◌, sym, List, [], ◌∷◌, ◌++◌, arith, length,
  All, store_from,
}
use protos_tpe.Buffer.Feed.{consume, consume-finished, consume_more, Field, consume-Field}
use protos_tpe.Request.{
  Parser, init, daddr, dport, done, finished, finished_state, step, socks5_version, atyp_ipv4,
  atyp_ipv6, atyp_domain,
}

-- Where a request goes to.
pub data Target : Type 0 where
  ipv4 : List ℕ → Target
  ipv6 : List ℕ → Target
  domain : List ℕ → Target

abbrev pub target_atyp : Target → ℕ
target_atyp (ipv4 _) = atyp_ipv4
target_atyp (ipv6 _) = atyp_ipv6
target_atyp (domain _) = atyp_domain

abbrev pub target_bytes : Target → List ℕ
target_bytes (ipv4 a) = a
target_bytes (ipv6 a) = a
target_bytes (domain a) = a

-- `DST.ADDR`, and the length byte of a domain before it.
abbrev pub target_field : Target → List ℕ → List ℕ
target_field (domain a) rest = length a ∷ (a ++ rest)
target_field t rest = target_bytes t ++ rest

abbrev pub IsTarget : Target → Type 0
IsTarget (ipv4 a) = length a ≡ 4
IsTarget (ipv6 a) = length a ≡ 16
IsTarget (domain a) = (0 < length a) × (length a < 256) × All (λ c. c ≢ 0) a

-- `VER CMD RSV ATYP DST.ADDR DST.PORT`, with what follows.
abbrev pub message : ℕ → Target → ℕ → List ℕ → List ℕ
message cmd t port rest =
    socks5_version ∷ cmd ∷ 0 ∷ target_atyp t ∷ target_field t (port / 256 ∷ port % 256 ∷ rest)

-- A byte that `case REQ_DADDR` stores.
abbrev OkByte : ℕ → ℕ → Type 0
OkByte atyp c = atyp ≡ atyp_domain → c ≢ 0

module _ (p : Parser) (n : ℕ) where
  abbrev addr_at : List ℕ → ℕ → Parser
  addr_at arr i = record p { state = daddr; addr_len = n; dst_addr = arr; addr_read = i }

  abbrev addr_full : List ℕ → Parser
  addr_full arr = record p { state = dport; addr_len = n; dst_addr = arr; addr_read = n }

  addr-Field : n < 256 → Field finished step (OkByte p.atyp) n addr_at addr_full
  unfolding step
  addr-Field le = record {
    reads = λ arr i. refl;
    stores = λ arr i c okc h. ground arith;
    ends = λ arr i c okc h. ground arith;
  }

step-port_high :
    (p : Parser) (c : ℕ)
    → p.state ≡ dport
    → p.dst_port ≡ 0
    → p.port_read ≡ 0
    → c < 256
    → step p c ≡ record p { dst_port = c; port_read = 1 }
unfolding step
step-port_high p c e d r h = ground arith

step-port_low :
    (p : Parser) (c : ℕ)
    → p.state ≡ dport
    → p.port_read ≡ 1
    → p.dst_port < 256
    → c < 256
    → step p c ≡ record p { state = done; dst_port = p.dst_port * 256 + c; port_read = 2 }
unfolding step
step-port_low p c e r d h = ground arith

-- The state behind a whole request.
unfoldable pub final : Parser → ℕ → ℕ → List ℕ → ℕ → Parser
final p cmd atyp a port = record p {
  state = done;
  cmd = cmd;
  atyp = atyp;
  dst_addr = store_from p.dst_addr 0 a;
  addr_len = length a;
  addr_read = length a;
  dst_port = port;
  port_read = 2;
}

-- The state in front of the address.
before : Parser → ℕ → ℕ → Parser
before p cmd atyp = record p {
  state = daddr;
  cmd = cmd;
  atyp = atyp;
  addr_len = 0;
  addr_read = 0;
  dst_port = 0;
  port_read = 0;
}

consume-port :
    (p : Parser) (port : ℕ) (rest : List ℕ)
    → p.state ≡ dport
    → p.dst_port ≡ 0
    → p.port_read ≡ 0
    → port < 65536
    → consume finished step p (port / 256 ∷ port % 256 ∷ rest)
      ≡ (record p { state = done; dst_port = port; port_read = 2 }, rest)
consume-port p port rest e d r h =
    let half = record p { dst_port = port / 256; port_read = 1 } in
    let whole = record p { state = done; dst_port = port; port_read = 2 } in
    consume_more finished step p (port / 256) (port % 256 ∷ rest) (ap finished_state e)
    ∙ ap (λ q. consume finished step q (port % 256 ∷ rest))
        (step-port_high p (port / 256) e d r (omega arith))
    ∙ consume_more finished step half (port % 256) rest (ap finished_state e)
    ∙ ap (λ q. consume finished step q rest)
        (step-port_low half (port % 256) e refl (omega arith) (omega arith)
          ∙ ap (λ k. record p { state = done; dst_port = k; port_read = 2 }) (omega arith))
    ∙ consume-finished finished step whole rest refl

consume-address :
    (p : Parser) (cmd atyp port x : ℕ) (xs rest : List ℕ)
    → length (x ∷ xs) < 256
    → OkByte atyp x
    → All (OkByte atyp) xs
    → port < 65536
    → consume finished step
        (addr_at (before p cmd atyp) (length (x ∷ xs)) p.dst_addr 0)
        (x ∷ (xs ++ (port / 256 ∷ port % 256 ∷ rest)))
      ≡ (final p cmd atyp (x ∷ xs) port, rest)
unfolding final before
consume-address p cmd atyp port x xs rest h okx okxs hp =
    let q = before p cmd atyp in
    let n = length (x ∷ xs) in
    consume-Field finished step (addr-Field q n h) xs (port / 256 ∷ port % 256 ∷ rest) x 0
      p.dst_addr okx okxs (omega arith)
    ∙ consume-port (addr_full q n (store_from p.dst_addr 0 (x ∷ xs))) port rest refl refl refl hp

-- The bytes before the address, for each kind of target.
header_ipv4 :
    (p : Parser) (cmd : ℕ) (r : List ℕ)
    → consume finished step (init p) (socks5_version ∷ cmd ∷ 0 ∷ atyp_ipv4 ∷ r)
      ≡ consume finished step (addr_at (before p cmd atyp_ipv4) 4 p.dst_addr 0) r
unfolding consume step init before
header_ipv4 p cmd r = refl

header_ipv6 :
    (p : Parser) (cmd : ℕ) (r : List ℕ)
    → consume finished step (init p) (socks5_version ∷ cmd ∷ 0 ∷ atyp_ipv6 ∷ r)
      ≡ consume finished step (addr_at (before p cmd atyp_ipv6) 16 p.dst_addr 0) r
unfolding consume step init before
header_ipv6 p cmd r = refl

header_domain :
    (p : Parser) (cmd k : ℕ) (r : List ℕ)
    → consume finished step (init p) (socks5_version ∷ cmd ∷ 0 ∷ atyp_domain ∷ suc k ∷ r)
      ≡ consume finished step (addr_at (before p cmd atyp_domain) (suc k) p.dst_addr 0) r
unfolding consume step init before
header_domain p cmd k r = ground arith

All-OkByte : (atyp : ℕ) (xs : List ℕ) → atyp ≢ atyp_domain → All (OkByte atyp) xs
All-OkByte atyp [] h = tt
All-OkByte atyp (x ∷ xs) h = ((λ e. absurd (h e)), All-OkByte atyp xs h)

All-ne_zero : (xs : List ℕ) → All (λ c. c ≢ 0) xs → All (OkByte atyp_domain) xs
All-ne_zero [] h = tt
All-ne_zero (x ∷ xs) h = ((λ _. h.0), All-ne_zero xs h.1)

-- A well-formed request is read to the end, and nothing behind it is taken.
pub consume-message :
    (t : Target) (cmd port : ℕ) (rest : List ℕ) (p : Parser)
    → IsTarget t
    → port < 65536
    → consume finished step (init p) (message cmd t port rest)
      ≡ (final p cmd (target_atyp t) (target_bytes t) port, rest)
consume-message (ipv4 []) cmd port rest p w h = absurd (omega arith)
consume-message (ipv4 (x ∷ xs)) cmd port rest p w h =
    header_ipv4 p cmd (x ∷ (xs ++ (port / 256 ∷ port % 256 ∷ rest)))
    ∙ ap
        (λ n.
          consume finished step (addr_at (before p cmd atyp_ipv4) n p.dst_addr 0)
            (x ∷ (xs ++ (port / 256 ∷ port % 256 ∷ rest))))
        (sym w)
    ∙ consume-address p cmd atyp_ipv4 port x xs rest (omega arith) (λ e. absurd (omega arith))
        (All-OkByte atyp_ipv4 xs (omega arith)) h
consume-message (ipv6 []) cmd port rest p w h = absurd (omega arith)
consume-message (ipv6 (x ∷ xs)) cmd port rest p w h =
    header_ipv6 p cmd (x ∷ (xs ++ (port / 256 ∷ port % 256 ∷ rest)))
    ∙ ap
        (λ n.
          consume finished step (addr_at (before p cmd atyp_ipv6) n p.dst_addr 0)
            (x ∷ (xs ++ (port / 256 ∷ port % 256 ∷ rest))))
        (sym w)
    ∙ consume-address p cmd atyp_ipv6 port x xs rest (omega arith) (λ e. absurd (omega arith))
        (All-OkByte atyp_ipv6 xs (omega arith)) h
consume-message (domain []) cmd port rest p w h = absurd (omega arith)
consume-message (domain (x ∷ xs)) cmd port rest p w h =
    header_domain p cmd (length xs) (x ∷ (xs ++ (port / 256 ∷ port % 256 ∷ rest)))
    ∙ consume-address p cmd atyp_domain port x xs rest w.1 (λ _. w.2.0) (All-ne_zero xs w.2.1) h
