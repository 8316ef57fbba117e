-- ===== src/Socks5/Sends.antt =====
-- What one `send`, one `recv` and the loop of `relay_flush` do to the bytes.
use protos_tpe.Prelude.{
  ℕ, ◌+◌, ◌-◌, ◌≡◌, refl, sym, ap, ◌∙◌, Bool, true, false, some, List, [], ◌++◌, arith, ◌==◌,
  length, min, append-nil, append_assoc, Bool-cases, inl, inr,
}
use protos_tpe.Buffer.{Buffer, IsValid, write_ptr, read_ptr}
use protos_tpe.Buffer.Reads.{Took, waiting, read_adv_lem, length-waiting}
use protos_tpe.Socks5.{Key, Net}
use protos_tpe.Socks5.Os.{Os, Io, io_ok, io_again, io_failed, called, log_sent, send_from}

pub log_sent-nil : (to : Bool) (n : Net) → log_sent to [] n ≡ n
log_sent-nil true n = ap (λ xs. record n { to_client = xs }) (append-nil n.to_client)
log_sent-nil false n = ap (λ xs. record n { to_origin = xs }) (append-nil n.to_origin)

pub log_sent-append :
    (to : Bool) (xs ys : List ℕ) (n : Net)
    → log_sent to ys (log_sent to xs n) ≡ log_sent to (xs ++ ys) n
log_sent-append true xs ys n =
    ap (λ zs. record n { to_client = zs }) (append_assoc n.to_client xs ys)
log_sent-append false xs ys n =
    ap (λ zs. record n { to_origin = zs }) (append_assoc n.to_origin xs ys)

-- The key when `out` has gone out and `c` calls have been made.
abbrev pub sent_key : Bool → List ℕ → ℕ → Key → Key
sent_key to out c k = record k { net = log_sent to out (record k.net { calls = c }) }

pub read_ptr_lem : {b : Buffer} → IsValid b → read_ptr b ≡ some (b.read, b.write - b.read)
unfolding read_ptr
read_ptr_lem v = ground arith

pub write_ptr_lem : {b : Buffer} → IsValid b → write_ptr b ≡ some (b.write, b.limit - b.write)
unfolding write_ptr
write_ptr_lem v = ground arith

-- What the result of a `send` says of the bytes.
abbrev pub Says : Io ℕ → List ℕ → Type 0
Says (io_ok n) out = length out ≡ n
Says io_again out = out ≡ []
Says io_failed out = out ≡ []

pub record Sends (os : Os) (to : Bool) (b : Buffer) (k : Key) : Type 0 where
  pub result : Io ℕ
  pub behind : Buffer
  pub out : List ℕ
  pub runs : send_from os to b k ≡ some (result, behind, sent_key to out (k.net.calls + 1) k)
  pub took : Took b behind out
  pub says : Says result out

module _ (os : Os) where
  nothing_sent :
      (to : Bool) {b : Buffer} (k : Key) (r : Io ℕ)
      → IsValid b
      → send_from os to b k ≡ some (r, b, called k)
      → Says r []
      → Sends os to b k
  nothing_sent to {b} k r v e s = record {
    result = r;
    behind = b;
    out = [];
    runs = e ∙ ap (λ n. some (r, b, record k { net = n })) (sym (log_sent-nil to (called k).net));
    took = record { valid = v; split = refl; same_limit = refl; drained = λ d. d };
    says = s;
  }

  send_answer :
      (to : Bool) {b : Buffer} (k : Key) (r : Io ℕ)
      → IsValid b
      → os.send k.net.calls ≡ r
      → Sends os to b k
  unfolding send_from
  send_answer to {b} k io_again v e =
      nothing_sent to k io_again v (rw (read_ptr_lem v) (rw (e, send_from) refl)) refl
  send_answer to {b} k io_failed v e =
      nothing_sent to k io_failed v (rw (read_ptr_lem v) (rw (e, send_from) refl)) refl
  send_answer to {b} k (io_ok m) v e =
      let n = min m (b.write - b.read) in
      elim (Bool-cases (n == 0)) [
        | inl nil ↦
            nothing_sent to k (io_ok 0) v
              (rw (read_ptr_lem v) (rw (e, send_from) (rw (nil, send_from) refl))) refl
        | inr more ↦
            let (b', takes, t) = read_adv_lem n v (omega arith) in
            record {
              result = io_ok n;
              behind = b';
              out = waiting n b;
              runs = rw (read_ptr_lem v) (rw (e, send_from) (rw (more, send_from) (rw takes refl)));
              took = t;
              says = length-waiting n v (omega arith);
            }
      ]

  -- A `send` from a valid buffer takes bytes from its front, as many as it says.
  pub send_from_lem : (to : Bool) {b : Buffer} (k : Key) → IsValid b → Sends os to b k
  send_from_lem to k v = send_answer to k (os.send k.net.calls) v refl
