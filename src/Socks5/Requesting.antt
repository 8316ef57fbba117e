-- ===== src/Socks5/Requesting.antt =====
-- The request on the connection: what the read handler keeps.
use protos_tpe.Prelude.{
  ℕ, ◌+◌, ◌≡◌, refl, sym, ap, ◌∙◌, Bool, true, false, ◌&&◌, ◌||◌, not, Option, none, [], ◌∷◌, arith,
  ◌==◌, Bool-cases, inl, inr, ◌⊎◌,
}
use protos_tpe.Buffer.{contents}
use protos_tpe.Buffer.Laws.{can_read-nil}
use protos_tpe.Auth
use protos_tpe.Request
use protos_tpe.Request.{atyp_ipv4, atyp_ipv6}
use protos_tpe.Users.{Users}
use protos_tpe.Socks5.{State, req_read, req_resolve, failed, Key, is_client, noop}
use protos_tpe.Socks5.Os.{Os, client_side, called, arm}
use protos_tpe.Socks5.Access.{rep_general_failure, rep_cmd_not_supported}
use protos_tpe.Socks5.Phases.{
  Verdict, complete, bad, partial, req_verdict, is_final, read_request, request_fed, resolve,
  resolve_queued, queue_job,
}
use protos_tpe.Socks5.Connect.{request_fail, request_connect, literal_addr}
use protos_tpe.Socks5.Machine.{arrival_of}
use protos_tpe.Socks5.Fire.{arrive}
use protos_tpe.Socks5.Feeding.{fed_key}
use protos_tpe.Socks5.Parsing.{feed_parser_lem}
use protos_tpe.Socks5.Holds.{
  Base, RefsOf, Admits, Calm, Listening, Unfinished, HasRoom, Documented, one_if, fds,
}
use protos_tpe.Socks5.Replying.{Yields, request_fail_lem, set_interest-cases}
use protos_tpe.Socks5.Candidates.{connect_loop_lem}
use protos_tpe.Socks5.Handshake.{
  Leaves, put_request, req_slot, fed_Buffers, fed_Ledger, req_verdicts,
}
use protos_tpe.Socks5.Negotiating.{key_side_client}

-- A state without an arrival is entered as it is.
arrive_plain :
    (os : Os) (s next : State) (k : Key) → arrival_of os next ≡ none → arrive os s next k ≡ k
arrive_plain os s next k e = rw e (ground arith)

module _ (os : Os) (client : ℕ) (Open : Type 0) (Accepts : Auth.Parser → Type 0) where
  pub Yields-Leaves :
      (reads : Bool) (s : State) (users : Option Users) (m : Option (State × Key))
      → Yields os client Open Accepts users m
      → Leaves os client Open Accepts users reads s m
  Yields-Leaves reads s users m y = record {
    next = y.next;
    key = y.key;
    runs = y.runs;
    holds = rw (arrive_plain os s y.next y.key y.plain) y.holds;
    same_users = λ e. absurd (cc (y.quiet, e));
    quiet = λ _ e. absurd (cc (y.quiet, e));
  }

  queue_job-cases :
      (k : Key)
      → (queue_job os k ≡ (
        true,
        record (called k) {
          conn = record k.conn {
            references = k.conn.references + 1;
            job = true;
            job_completed = false;
            resolver_done = false;
          };
        },
      ))
          × (k.conn.job ≡ false)
        ⊎ (queue_job os k ≡ (false, called k))
  unfolding queue_job
  queue_job-cases k = elim (Bool-cases (os.queue_job k.net.calls && not k.conn.job)) [
    | inl ok ↦ inl (rw ok refl, ground arith)
    | inr bad_ ↦ inr (rw bad_ refl)
  ]

  module _ (system : Documented os client) where
    resolve_lem :
        (k : Key) (users : Option Users)
        → k.server.users_store ≡ users
        → is_client k ≡ true
        → Calm client Open Accepts k
        → k.conn.origin_fd ≡ none
        → HasRoom k.conn.read_buffer
        → Yields os client Open Accepts users (resolve os k)
    unfolding resolve resolve_queued arrival_of
    resolve_lem k users same cl ((buffers, refs, ledger, plain), nil, admits) no_origin room =
        rw (key_side_client k cl) (elim (set_interest-cases os client_side noop k) [
          | inr bad_ ↦ rw bad_ (record {
            next = failed;
            key = _;
            runs = refl;
            holds = refs;
            same_users = same;
            plain = refl;
            quiet = refl;
          })
          | inl ok ↦
              let k₁ = record k { net = arm client_side noop (called k).net } in
              rw ok (elim (queue_job-cases k₁) [
                | inr full ↦ rw full (
                    request_fail_lem os client Open Accepts rep_general_failure (called k₁) users
                      same ((buffers, refs, ledger, plain), nil, admits))
                | inl (queued, idle) ↦
                    let k₂ = record (called k₁) {
                      conn = record k.conn {
                        references = k.conn.references + 1;
                        job = true;
                        job_completed = false;
                        resolver_done = false;
                      };
                    } in
                    let refs' : RefsOf client k₂.conn = record {
                      client_there = refs.client_there;
                      distinct = refs.distinct;
                      counted =
                          omega (
                            arith,
                            refs.counted,
                            ap (λ x. 1 + fds k.conn.origin_fd + one_if x) idle,
                          );
                      alive = refs.alive;
                    } in
                    rw queued (record {
                      next = req_resolve;
                      key = k₂;
                      runs = refl;
                      holds =
                          (((buffers, refs', ledger, plain), nil, admits), no_origin, room, refl);
                      same_users = same;
                      plain = refl;
                      quiet = refl;
                    })
              ])
        ])

    Calm-Listening :
        (k : Key)
        → Listening client Open Accepts k
        → Admits client Open Accepts k
        → Calm client Open Accepts k
    Calm-Listening k (base, nil, armed, no_origin) admits = (base, nil, admits)

    request_complete :
        (k : Key) (users : Option Users)
        → k.server.users_store ≡ users
        → is_client k ≡ true
        → Listening client Open Accepts k
        → Admits client Open Accepts k
        → HasRoom k.conn.read_buffer
        → Yields os client Open Accepts users (request_fed os complete k)
    unfolding request_fed request_connect
    request_complete k users same cl h admits room =
        let calm = Calm-Listening k h admits in
        elim (Bool-cases (not (k.conn.request.cmd == 1))) [
          | inl other ↦
              rw (other, request_fed)
                (request_fail_lem os client Open Accepts rep_cmd_not_supported k users same calm)
          | inr ours ↦
              elim (Bool-cases
                (k.conn.request.atyp == atyp_ipv4 || k.conn.request.atyp == atyp_ipv6)) [
                  | inl direct ↦
                      rw (ours, request_fed)
                        (rw (direct, request_fed)
                          (connect_loop_lem os client Open Accepts system (literal_addr k.conn ∷ [])
                            (record k {
                              conn = record k.conn { next_addr = literal_addr k.conn ∷ [] };
                            })
                            users same calm h.3 room))
                  | inr named ↦
                      rw (ours, request_fed)
                        (rw (named, request_fed) (resolve_lem k users same cl calm h.3 room))
                ]
        ]

    request_fed_lem :
        (v : Verdict) (k : Key) (users : Option Users)
        → k.server.users_store ≡ users
        → is_client k ≡ true
        → Listening client Open Accepts k
        → Admits client Open Accepts k
        → (v ≡ complete → HasRoom k.conn.read_buffer)
        → (v ≡ partial → (contents k.conn.read_buffer ≡ []) × Unfinished client Open Accepts k)
        → Leaves os client Open Accepts users true req_read (request_fed os v k)
    unfolding request_fed arrival_of
    request_fed_lem bad k users same cl h admits room quiet =
        Yields-Leaves true req_read users (request_fail os rep_general_failure k) (
          request_fail_lem os client Open Accepts rep_general_failure k users same
            (Calm-Listening k h admits))
    request_fed_lem partial k users same cl h admits room quiet = record {
      next = req_read;
      key = k;
      runs = refl;
      holds = (h, (quiet refl).1, admits);
      same_users = λ _. (same, cl);
      quiet = λ _ _. can_read-nil h.0.0.read_valid (quiet refl).0;
    }
    request_fed_lem complete k users same cl h admits room quiet =
        Yields-Leaves true req_read users (request_fed os complete k)
          (request_complete k users same cl h admits (room refl))

    over_finished :
        (p : Request.Parser) → req_verdict p.state ≡ complete → Request.finished p ≡ true
    over_finished p e = sym (req_verdicts p.state) ∙ ap is_final e

    more_unfinished :
        (p : Request.Parser) → req_verdict p.state ≡ partial → Request.finished p ≡ false
    more_unfinished p e = sym (req_verdicts p.state) ∙ ap is_final e

    -- A read event in REQ_READ.
    pub read_request_lem :
        (k : Key) (users : Option Users)
        → k.server.users_store ≡ users
        → is_client k ≡ true
        → Listening client Open Accepts k
        → Unfinished client Open Accepts k
        → Admits client Open Accepts k
        → Leaves os client Open Accepts users true req_read (read_request os k)
    unfolding read_request arrival_of
    read_request_lem k users same cl ((buffers, refs, ledger, plain), nil, armed, no_origin) more
          admits =
        let f = feed_parser_lem os req_slot k cl buffers.read_valid buffers.read_drained in
        let base : Base client (fed_key put_request f.parser f.buffer f.gone f.came f.calls k) =
          (fed_Buffers f buffers, refs, fed_Ledger f ledger, plain) in
        elim (Bool-cases f.alive) [
          | inr gone ↦ rw f.runs (
              rw gone (record {
                next = failed;
                key = _;
                runs = refl;
                holds = refs;
                same_users = λ _. (same, cl);
                quiet = λ _ e. absurd (cc e);
              }))
          | inl alive ↦ rw f.runs (
              rw alive (
                request_fed_lem (req_verdict f.parser.state) _ users same cl
                  (base, nil, armed, no_origin) admits
                  (λ e. f.shorter more (over_finished f.parser e))
                  (λ e.
                    (f.emptied alive (more_unfinished f.parser e), more_unfinished f.parser e))))
        ]
