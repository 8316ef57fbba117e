-- ===== src/Socks5/Feeding.antt =====
-- A parser in a connection, and what one call of its feed function takes.
use protos_tpe.Prelude.{
  ℕ, ◌<◌, ◌≤◌, ◌≡◌, sym, ap, ◌∙◌, Bool, true, false, Option, some, List, [], ◌++◌, arith, length,
  append-nil, ◌>>=◌, ◌-◌, take, take-append_left, take_all, length-append,
}
use protos_tpe.Buffer.{Buffer, IsValid, contents}
use protos_tpe.Buffer.Laws.{length-contents}
use protos_tpe.Buffer.Feed.{feed}
use protos_tpe.Buffer.Fed.{Fed, IsDrained, feed-Fed}
use protos_tpe.Socks5.{Conn, Key, Net}
use protos_tpe.Socks5.Os.{Os}
use protos_tpe.Socks5.Phases.{Verdict, is_final, taken}

-- Where a parser stands in the connection.
pub record Slot {P : Type 0} (finished : P → Bool) (step : P → ℕ → P) (get : Conn → P)
    (put : P → Buffer → List ℕ → Conn → Conn) (fed : Conn → Option Conn) (verdict : Conn → Verdict)
    : Type 0 where
  pub feeds :
      (c : Conn)
      → fed c ≡ (
          feed finished step (get c) c.read_buffer >>= λ r.
          some (put r.0 r.1 (c.parsed ++ taken c.read_buffer r.1) c))
  pub get-put : (p : P) (b : Buffer) (g : List ℕ) (c : Conn) → get (put p b g c) ≡ p
  pub parsed-put : (p : P) (b : Buffer) (g : List ℕ) (c : Conn) → (put p b g c).parsed ≡ g
  pub buffer-put : (p : P) (b : Buffer) (g : List ℕ) (c : Conn) → (put p b g c).read_buffer ≡ b
  pub client-put :
      (p : P) (b : Buffer) (g : List ℕ) (c : Conn) → (put p b g c).client_fd ≡ c.client_fd
  pub put-put :
      (p q : P) (b d : Buffer) (g h : List ℕ) (c : Conn) → put q d h (put p b g c) ≡ put q d h c
  pub refill :
      (p : P) (b d : Buffer) (g : List ℕ) (c : Conn)
      → record (put p b g c) { read_buffer = d } ≡ put p d g c
  pub verdicts : (c : Conn) → is_final (verdict c) ≡ finished (get c)

-- The key when `xs` has come in from the client, the parser has taken `gone` and become `p`.
abbrev pub fed_key :
    {P : Type 0}
    → (P → Buffer → List ℕ → Conn → Conn)
    → P
    → Buffer
    → List ℕ
    → List ℕ
    → ℕ
    → Key
    → Key
fed_key put p b gone xs calls k = record k {
  conn = put p b (k.conn.parsed ++ gone) k.conn;
  net = record k.net { calls = calls; from_client = k.net.from_client ++ xs };
}

pub record FedKey {P : Type 0} (finished : P → Bool) (get : Conn → P)
    (put : P → Buffer → List ℕ → Conn → Conn) (run : Option (Bool × Key)) (k : Key) : Type 0 where
  pub alive : Bool
  pub parser : P
  pub buffer : Buffer
  pub gone : List ℕ
  pub came : List ℕ
  pub calls : ℕ
  pub runs : run ≡ some (alive, fed_key put parser buffer gone came calls k)
  pub valid : IsValid buffer
  pub same_limit : buffer.limit ≡ k.conn.read_buffer.limit
  pub drained : IsDrained buffer
  pub split : contents k.conn.read_buffer ++ came ≡ gone ++ contents buffer
  pub emptied : alive ≡ true → finished parser ≡ false → contents buffer ≡ []
  pub shorter :
      finished (get k.conn) ≡ false
      → finished parser ≡ true
      → length (contents buffer) < buffer.limit

pub nil_net :
    (n : Net) (c : ℕ)
    → record n { calls = c } ≡ record n { calls = c; from_client = n.from_client ++ [] }
nil_net n c = ap (λ xs. record n { calls = c; from_client = xs }) (sym (append-nil n.from_client))

taken-split : (b d : Buffer) {gone : List ℕ} → contents b ≡ gone ++ contents d → taken b d ≡ gone
unfolding taken
taken-split b d {gone} e =
    let n : length (contents b) - length (contents d) ≡ length gone =
      omega (arith, ap (length {A = ℕ}) e, length-append gone (contents d)) in
    ap (λ m. take m (contents b)) n
    ∙ ap (take (length gone)) e
    ∙ take-append_left (length gone) gone (contents d) (omega arith)
    ∙ take_all (length gone) gone (omega arith)

pub length_le : {b : Buffer} → IsValid b → length (contents b) ≤ b.limit
length_le v = omega (arith, length-contents v)

module _ {P : Type 0} {finished : P → Bool} {step : P → ℕ → P} {get : Conn → P}
    {put : P → Buffer → List ℕ → Conn → Conn} {fed : Conn → Option Conn} {verdict : Conn → Verdict}
    (os : Os) (slot : Slot finished step get put fed verdict) where
  pub feed_once :
      (c : Conn)
      → IsValid c.read_buffer
      → IsDrained c.read_buffer
      → (p : P) × (b : Buffer) × (f : Fed c.read_buffer b) × (fed c
          ≡ some (put p b (c.parsed ++ f.gone) c))
        × (finished p ≡ false → contents b ≡ [])
        × (finished (get c) ≡ false
            → finished p ≡ true
            → length (contents b) < length (contents c.read_buffer))
  feed_once c v d =
      let (p, b, runs, f, e, s) = feed-Fed finished step (get c) v d in
      (
        p,
        b,
        f,
        slot.feeds c
            ∙ rw runs
                (ap (λ g. some (put p b (c.parsed ++ g) c)) (taken-split c.read_buffer b f.split)),
        e,
        s,
      )
