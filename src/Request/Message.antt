-- ===== src/Request/Message.antt =====
-- A whole request in a buffer is parsed to what it says.
use protos_tpe.Prelude.{
  ℕ, ◌+◌, ◌<◌, ◌≡◌, refl, ap, ◌∙◌, some, List, arith, length, take, store_from, take-store_from,
}
use protos_tpe.Buffer.{Buffer, IsValid, contents}
use protos_tpe.Buffer.Feed.{feed_lem, consume}
use protos_tpe.Request.{Parser, init, done, finished, step, parser_feed}
use protos_tpe.Request.Laws.{
  ipv4, ipv6, domain, Target, target_atyp, target_bytes, IsTarget, message, final, consume-message,
}

-- What a parsed request says.
pub record Parsed (cmd : ℕ) (t : Target) (port : ℕ) (q : Parser) : Type 0 where
  pub is_done : q.state ≡ done
  pub cmd_is : q.cmd ≡ cmd
  pub atyp_is : q.atyp ≡ target_atyp t
  pub len_is : q.addr_len ≡ length (target_bytes t)
  pub addr_is : take q.addr_len q.dst_addr ≡ target_bytes t
  pub port_is : q.dst_port ≡ port

target_fits : (t : Target) → IsTarget t → length (target_bytes t) < 256
target_fits (ipv4 a) w = omega arith
target_fits (ipv6 a) w = omega arith
target_fits (domain a) w = w.1

final-Parsed :
    (t : Target) (cmd port : ℕ) (p : Parser)
    → length p.dst_addr ≡ 256
    → IsTarget t
    → Parsed cmd t port (final p cmd (target_atyp t) (target_bytes t) port)
unfolding final
final-Parsed t cmd port p s w =
    let a = target_bytes t in
    record {
      is_done = refl;
      cmd_is = refl;
      atyp_is = refl;
      len_is = refl;
      addr_is =
          ap (λ k. take k (store_from p.dst_addr 0 a)) {y = 0 + length a} (omega arith)
          ∙ take-store_from a p.dst_addr 0 (omega (arith, target_fits t w));
      port_is = refl;
    }

-- A request for an IPv4 address of 4 bytes, an IPv6 address of 16 bytes, or a domain of 1 to 255
-- bytes without NUL, and a port below 65536, in a valid buffer with any bytes behind it, is
-- parsed, by a parser whose array has 256 bytes, to its command, its address and its port; the
-- bytes behind it stay in the buffer.
pub request_feed-message :
    (t : Target) (cmd port : ℕ) (rest : List ℕ) (p : Parser) {b : Buffer}
    → length p.dst_addr ≡ 256
    → IsValid b
    → contents b ≡ message cmd t port rest
    → IsTarget t
    → port < 65536
    → (q : Parser) × (b' : Buffer) × (parser_feed (init p) b ≡ some (q, b'))
      × Parsed cmd t port q
      × (contents b' ≡ rest)
      × IsValid b'
unfolding parser_feed
request_feed-message t cmd port rest p {b} s v e w h =
    let (b', runs, left) = feed_lem finished step (init p) v (λ nil. cc) in
    let whole = ap (consume finished step (init p)) e ∙ consume-message t cmd port rest p w h in
    (
      final p cmd (target_atyp t) (target_bytes t) port,
      b',
      rw whole at runs,
      final-Parsed t cmd port p s w,
      rw whole at left.left,
      left.valid,
    )
