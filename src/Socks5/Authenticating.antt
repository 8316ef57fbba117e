-- ===== src/Socks5/Authenticating.antt =====
-- `auth_read` on the connection.
use protos_tpe.Prelude.{
  ℕ, ◌≡◌, refl, sym, ap, ◌∙◌, Bool, true, false, some, [], arith, if◌then◌else◌, Bool-cases, inl,
  inr,
}
use protos_tpe.Buffer.{contents}
use protos_tpe.Buffer.Laws.{can_read-nil}
use protos_tpe.Auth
use protos_tpe.Auth.{auth_ok, auth_fail, auth_version}
use protos_tpe.Users.{Users, validate}
use protos_tpe.Socks5.{auth_read, auth_write, failed, Key, is_client, writing}
use protos_tpe.Socks5.Os.{Os, client_side, called, arm}
use protos_tpe.Socks5.Phases.{
  Verdict, complete, bad, partial, auth_verdict, is_final, accepts, read_auth, auth_fed,
}
use protos_tpe.Socks5.Machine.{arrival_of}
use protos_tpe.Socks5.Feeding.{fed_key}
use protos_tpe.Socks5.Parsing.{feed_parser_lem}
use protos_tpe.Socks5.Holds.{Base, Listening}
use protos_tpe.Socks5.Replying.{reply_room, Pushed-Buffers}
use protos_tpe.Socks5.Handshake.{
  Seen, Leaves, put_auth, auth_slot, fed_Buffers, fed_Ledger, auth_verdicts,
}
use protos_tpe.Socks5.Negotiating.{fill_reply_room, armed_lem}

module _ (os : Os) (client : ℕ) (Open : Type 0) (Accepts : Auth.Parser → Type 0) where
  auth_fed_lem :
      (v : Verdict) (k : Key) (u : Users)
      → Seen Open Accepts u
      → k.server.users_store ≡ some u
      → is_client k ≡ true
      → Listening client Open Accepts k
      → (v ≡ partial → contents k.conn.read_buffer ≡ [])
      → Leaves os client Open Accepts (some u) true auth_read (auth_fed os v k)
  unfolding auth_fed arrival_of accepts
  auth_fed_lem bad k u seen same cl h quiet = record {
    next = failed;
    key = k;
    runs = refl;
    holds = h.0.1;
    same_users = λ _. (same, cl);
    quiet = λ _ e. absurd (cc e);
  }
  auth_fed_lem partial k u seen same cl h quiet = record {
    next = auth_read;
    key = k;
    runs = refl;
    holds = h;
    same_users = λ _. (same, cl);
    quiet = λ _ _. can_read-nil h.0.0.read_valid (quiet refl);
  }
  auth_fed_lem complete k u seen same cl ((buffers, refs, ledger, plain), nil, armed, no_origin)
        quiet =
      let p = k.conn.auth in
      let ok = validate u p.uname p.ulen p.passwd p.plen in
      let status = if ok then auth_ok else auth_fail in
      let (out, fills, pushed) =
        fill_reply_room status buffers.write_valid (reply_room buffers nil) in
      let (buffers', pending) = Pushed-Buffers buffers pushed in
      let k₁ = record k { conn = record k.conn { auth_status = status; write_buffer = out } } in
      let judged : accepts k.server.users_store p ≡ some ok = ap (λ x. accepts x p) same in
      elim (armed_lem os client Open Accepts auth_write writing k₁ cl) [
        | inl yes_ ↦ record {
          next = auth_write;
          key = record k₁ { net = arm client_side writing (called k₁).net };
          runs = rw judged (rw fills (ap some yes_));
          holds = (
            ((buffers', refs, ledger, plain), pending, refl),
            no_origin,
            λ e. seen.accepts_when p (status_ok ok e),
          );
          same_users = λ _. (same, cl);
          quiet = λ _ e. absurd (cc e);
        }
        | inr no_ ↦ record {
          next = failed;
          key = called k₁;
          runs = rw judged (rw fills (ap some no_));
          holds = refs;
          same_users = λ _. (same, cl);
          quiet = λ _ e. absurd (cc e);
        }
      ]
    where
      status_ok : (b : Bool) → (if b then auth_ok else auth_fail) ≡ auth_ok → b ≡ true
      status_ok true e = refl
      status_ok false e = absurd (omega arith)

  -- A read event in AUTH_READ.
  pub read_auth_lem :
      (k : Key) (u : Users)
      → Seen Open Accepts u
      → k.server.users_store ≡ some u
      → is_client k ≡ true
      → Listening client Open Accepts k
      → Leaves os client Open Accepts (some u) true auth_read (read_auth os k)
  unfolding read_auth arrival_of
  read_auth_lem k u seen same cl ((buffers, refs, ledger, plain), nil, armed, no_origin) =
      let f = feed_parser_lem os auth_slot k cl buffers.read_valid buffers.read_drained in
      let base : Base client (fed_key put_auth f.parser f.buffer f.gone f.came f.calls k) =
        (fed_Buffers f buffers, refs, fed_Ledger f ledger, plain) in
      elim (Bool-cases f.alive) [
        | inr gone ↦ rw f.runs (
            rw gone (record {
              next = failed;
              key = _;
              runs = refl;
              holds = refs;
              same_users = λ _. (same, cl);
              quiet = λ _ e. absurd (cc e);
            }))
        | inl alive ↦ rw f.runs (
            rw alive (
              auth_fed_lem (auth_verdict f.parser.state) _ u seen same cl
                (base, nil, armed, no_origin)
                (λ e. f.emptied alive (sym (auth_verdicts f.parser.state) ∙ ap is_final e))))
      ]
