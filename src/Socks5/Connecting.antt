-- ===== src/Socks5/Connecting.antt =====
-- `request_connect_success` of server/socks5.c: what the connection to the origin keeps.
use protos_tpe.Prelude.{
  ℕ, ◌<◌, ◌≡◌, refl, ◌∙◌, true, false, Option, none, some, List, ◌∷◌, Option-cases, inl, inr,
  length,
}
use protos_tpe.Buffer.{Buffer, contents}
use protos_tpe.Buffer.Writes.{Pushed}
use protos_tpe.Auth
use protos_tpe.Text.{codes}
use protos_tpe.Request.{SockAddr, get_addr_port, fill_reply_addr}
use protos_tpe.Request.Reply.{fill_reply_addr_lem}
use protos_tpe.Users.{Users}
use protos_tpe.Socks5.{failed, Key, noop}
use protos_tpe.Socks5.Os.{Os, origin_side, called, arm}
use protos_tpe.Socks5.Access.{log_access-server, rep_general_failure, rep_success}
use protos_tpe.Socks5.Connect.{connect_success, success_reply, success_armed}
use protos_tpe.Socks5.Machine.{arrival_of}
use protos_tpe.Socks5.Holds.{Base, Admits, Calm, HasRoom, Documented}
use protos_tpe.Socks5.Replying.{
  Yields, request_fail_lem, reply_armed, set_interest-cases, reply_room, Pushed-Buffers,
}

module _ (os : Os) (client : ℕ) (Open : Type 0) (Accepts : Auth.Parser → Type 0)
    (system : Documented os client) where
  success_armed_lem :
      (k : Key) (users : Option Users)
      → k.server.users_store ≡ users
      → Base client k
      → 0 < length (contents k.conn.write_buffer)
      → Admits client Open Accepts k
      → HasRoom k.conn.read_buffer
      → Yields os client Open Accepts users (some (success_armed os k))
  unfolding success_armed arrival_of
  success_armed_lem k users same b pending admits room =
      elim (set_interest-cases os origin_side noop k) [
        | inr bad ↦ record {
          next = failed;
          key = called k;
          runs = rw bad refl;
          holds = b.1;
          same_users = same;
          plain = refl;
          quiet = refl;
        }
        | inl ok ↦
            let k₁ = record k { net = arm origin_side noop (called k).net } in
            rw ok (
              reply_armed os client Open Accepts k₁ users same b pending admits (λ _. (room, refl))
                (inr refl))
      ]

  -- A reply that says yes.
  success_reply_lem :
      (out : Buffer) (k : Key) (users : Option Users) {c : ℕ} {src : List ℕ}
      → k.server.users_store ≡ users
      → Calm client Open Accepts k
      → HasRoom k.conn.read_buffer
      → Pushed k.conn.write_buffer out (c ∷ src)
      → Yields os client Open Accepts users (success_reply os (true, out) k)
  unfolding success_reply
  success_reply_lem out k users same ((buffers, refs, ledger, plain), nil, admits) room p =
      let (buffers', pending) = Pushed-Buffers buffers p in
      let k₁ = record k { conn = record k.conn { connected = true; write_buffer = out } } in
      let (s, e, u) = log_access-server os (codes "OK") k₁ in
      rw e (
        success_armed_lem (record k₁ { server = s }) users (u ∙ same)
          (buffers', refs, ledger, plain) pending admits room)

  unknown_family :
      (sa : SockAddr) (b : Buffer)
      → get_addr_port sa ≡ none
      → fill_reply_addr b rep_success sa ≡ some (false, b)
  unfolding fill_reply_addr
  unknown_family sa b e = rw (e, fill_reply_addr) refl

  -- The address of the new connection cannot be read, or it goes into the reply.
  pub connect_success_lem :
      (k : Key) (users : Option Users)
      → k.server.users_store ≡ users
      → Calm client Open Accepts k
      → HasRoom k.conn.read_buffer
      → Yields os client Open Accepts users (connect_success os k)
  unfolding connect_success
  connect_success_lem k users same calm room = elim (Option-cases (os.sockname k.net.calls)) [
    | inl e ↦
        rw (e, connect_success)
          (request_fail_lem os client Open Accepts rep_general_failure (called k) users same calm)
    | inr (local, e) ↦ elim (system.sized k.net.calls local e) [
      | inl size ↦
          let (out, fills, p) =
            fill_reply_addr_lem rep_success local size calm.0.0.write_valid
              (reply_room calm.0.0 calm.1) in
          rw (e, connect_success)
            (rw fills (success_reply_lem out (called k) users same calm room p))
      | inr unknown ↦
          rw (e, connect_success)
            (rw (unknown_family local k.conn.write_buffer unknown) (
              unfold success_reply in
              request_fail_lem os client Open Accepts rep_general_failure
                (record (called k) { conn = record k.conn { connected = true } }) users same calm))
    ]
  ]
