-- ===== src/Socks5/Negotiating.antt =====
-- The replies of the handshake, and `negotiation_read` on the connection.
use protos_tpe.Prelude.{
  ℕ, ◌+◌, ◌≤◌, ◌≡◌, refl, sym, ap, ◌∙◌, true, some, [], ◌∷◌, arith, Bool-cases, inl, inr, ltb, ◌⊎◌,
}
use protos_tpe.Buffer.{Buffer, IsValid, contents}
use protos_tpe.Buffer.Laws.{can_read-nil}
use protos_tpe.Buffer.Writes.{Pushed, Pushed-trans, write_byte_room}
use protos_tpe.Negotiation
use protos_tpe.Negotiation.{method_userpass, method_none, choose_method}
use protos_tpe.Negotiation.Policy.{fill_reply-method}
use protos_tpe.Auth
use protos_tpe.Auth.{auth_ok, auth_fail, auth_version}
use protos_tpe.Users.{Users}
use protos_tpe.Selector.{Interest}
use protos_tpe.Socks5.{State, neg_read, neg_write, failed, Key, is_client, writing}
use protos_tpe.Socks5.Os.{Os, set_interest, key_side, client_side, called, arm}
use protos_tpe.Socks5.Phases.{
  Verdict, complete, bad, partial, neg_verdict, is_final, negotiation_read, negotiation_fed,
  auth_required,
}
use protos_tpe.Socks5.Connect.{armed_or_failed}
use protos_tpe.Socks5.Machine.{arrival_of}
use protos_tpe.Socks5.Feeding.{fed_key}
use protos_tpe.Socks5.Parsing.{feed_parser_lem}
use protos_tpe.Socks5.Holds.{Base, Listening}
use protos_tpe.Socks5.Replying.{set_interest-cases, reply_room, Pushed-Buffers}
use protos_tpe.Socks5.Handshake.{
  Seen, Leaves, put_neg, neg_slot, fed_Buffers, fed_Ledger, neg_verdicts,
}

pub key_side_client : (k : Key) → is_client k ≡ true → key_side k ≡ client_side
key_side_client k e = rw (e, key_side) refl

-- A method other than user/password is chosen only without users.
chosen :
    (p : Negotiation.Parser) (u : Users)
    → (choose_method p (auth_required (some u)) ≡ method_userpass)
      ⊎ ((choose_method p (auth_required (some u)) ≡ method_none) ⊎ (u.count ≡ 0))
unfolding choose_method auth_required
chosen p u = elim (Bool-cases (ltb 0 u.count)) [
  | inr empty ↦ inr (inr (ground arith))
  | inl users ↦ elim (Bool-cases p.has_userpass) [
    | inl offered ↦ inl (rw (users, offered) refl)
    | inr not_offered ↦ inr (inl (rw (users, not_offered) refl))
  ]
]

pub fill_reply_room :
    (status : ℕ) {b : Buffer}
    → IsValid b
    → b.write + 22 ≤ b.limit
    → (b' : Buffer) × (Auth.fill_reply b status ≡ some b')
      × Pushed b b' (auth_version ∷ status ∷ [])
unfolding Auth.fill_reply
fill_reply_room status {b} v h =
    let (m, first, q) = write_byte_room auth_version v (omega arith) in
    let (b', second, r) =
      write_byte_room status q.valid (omega (arith, q.advanced, q.same_limit)) in
    (b', rw first second, Pushed-trans q r)

module _ (os : Os) (client : ℕ) (Open : Type 0) (Accepts : Auth.Parser → Type 0) where
  -- The interest behind a step, on the client.
  pub armed_lem :
      (next : State) (i : Interest) (k : Key)
      → is_client k ≡ true
      → ((armed_or_failed next (set_interest os (key_side k) i k)
            ≡ (next, record k { net = arm client_side i (called k).net }))
          ⊎ (armed_or_failed next (set_interest os (key_side k) i k) ≡ (failed, called k)))
  armed_lem next i k cl = rw (key_side_client k cl) (elim (set_interest-cases os client_side i k) [
    | inl ok ↦ inl (rw ok refl)
    | inr bad_ ↦ inr (rw bad_ refl)
  ])

  negotiation_fed_lem :
      (v : Verdict) (k : Key) (u : Users)
      → Seen Open Accepts u
      → k.server.users_store ≡ some u
      → is_client k ≡ true
      → Listening client Open Accepts k
      → (v ≡ partial → contents k.conn.read_buffer ≡ [])
      → Leaves os client Open Accepts (some u) true neg_read (negotiation_fed os v k)
  unfolding negotiation_fed arrival_of
  negotiation_fed_lem bad k u seen same cl h quiet = record {
    next = failed;
    key = k;
    runs = refl;
    holds = h.0.1;
    same_users = λ _. (same, cl);
    quiet = λ _ e. absurd (cc e);
  }
  negotiation_fed_lem partial k u seen same cl h quiet = record {
    next = neg_read;
    key = k;
    runs = refl;
    holds = h;
    same_users = λ _. (same, cl);
    quiet = λ _ _. can_read-nil h.0.0.read_valid (quiet refl);
  }
  negotiation_fed_lem complete k u seen same cl
        ((buffers, refs, ledger, plain), nil, armed, no_origin) quiet =
      let required = auth_required (some u) in
      let (out, fills, p) =
        fill_reply-method k.conn.neg required buffers.write_valid
          (omega (arith, reply_room buffers nil)) in
      let (buffers', pending) = Pushed-Buffers buffers p in
      let method = choose_method k.conn.neg required in
      let k₁ = record k { conn = record k.conn { method = method; write_buffer = out } } in
      let filled : Negotiation.fill_reply k.conn.neg k.conn.write_buffer
            (auth_required k.server.users_store)
          ≡ some (method, out) =
        ap (λ x. Negotiation.fill_reply k.conn.neg k.conn.write_buffer (auth_required x)) same
        ∙ fills in
      elim (armed_lem neg_write writing k₁ cl) [
        | inl ok ↦ record {
          next = neg_write;
          key = record k₁ { net = arm client_side writing (called k₁).net };
          runs = rw filled (ap some ok);
          holds = (
            ((buffers', refs, ledger, plain), pending, refl),
            no_origin,
            elim (chosen k.conn.neg u) [
              | inl e ↦ inl e
              | inr (inl e) ↦ inr (inl e)
              | inr (inr e) ↦ inr (inr (seen.open_when e))
            ],
          );
          same_users = λ _. (same, cl);
          quiet = λ _ e. absurd (cc e);
        }
        | inr no_ ↦ record {
          next = failed;
          key = called k₁;
          runs = rw filled (ap some no_);
          holds = refs;
          same_users = λ _. (same, cl);
          quiet = λ _ e. absurd (cc e);
        }
      ]

  -- A read event in NEG_READ.
  pub negotiation_read_lem :
      (k : Key) (u : Users)
      → Seen Open Accepts u
      → k.server.users_store ≡ some u
      → is_client k ≡ true
      → Listening client Open Accepts k
      → Leaves os client Open Accepts (some u) true neg_read (negotiation_read os k)
  unfolding negotiation_read arrival_of
  negotiation_read_lem k u seen same cl ((buffers, refs, ledger, plain), nil, armed, no_origin) =
      let f = feed_parser_lem os neg_slot k cl buffers.read_valid buffers.read_drained in
      let base : Base client (fed_key put_neg f.parser f.buffer f.gone f.came f.calls k) =
        (fed_Buffers f buffers, refs, fed_Ledger f ledger, plain) in
      elim (Bool-cases f.alive) [
        | inr gone ↦ rw f.runs (
            rw gone (record {
              next = failed;
              key = _;
              runs = refl;
              holds = refs;
              same_users = λ _. (same, cl);
              quiet = λ _ e. absurd (cc e);
            }))
        | inl alive ↦ rw f.runs (
            rw alive (
              negotiation_fed_lem (neg_verdict f.parser.state) _ u seen same cl
                (base, nil, armed, no_origin)
                (λ e. f.emptied alive (sym (neg_verdicts f.parser.state) ∙ ap is_final e))))
      ]
