-- ===== src/Socks5/Relaying.antt =====
-- REQ_WRITE and RELAY on the connection: what they keep.
use protos_tpe.Prelude.{
  ℕ, ◌≡◌, refl, sym, ap, ◌∙◌, subst, Bool, true, false, Option, some, List, [], ◌⊎◌, inl, inr,
}
use protos_tpe.Buffer.{contents}
use protos_tpe.Auth
use protos_tpe.Users.{Users}
use protos_tpe.Socks5.{State, req_write, relay, finished, failed, Conn, Key}
use protos_tpe.Socks5.Os.{Os}
use protos_tpe.Socks5.Phases.{write_request, after_reply}
use protos_tpe.Socks5.Relay.{relay_init, relay_read, relay_write}
use protos_tpe.Socks5.Machine.{arrival_of}
use protos_tpe.Socks5.Forward.{Frame, frame}
use protos_tpe.Socks5.Delivery.{InRelay, Outcome, stays, ends, gives_up, relay_write_lem}
use protos_tpe.Socks5.Arrivals.{key_armed, relay_read_lem}
use protos_tpe.Socks5.Run.{relay_init-cases}
use protos_tpe.Socks5.Holds.{Base, Admits, Holds, Connected, Refs, RefsOf}
use protos_tpe.Socks5.Writing.{waits, goes, breaks, replied_key, send_reply_lem}
use protos_tpe.Socks5.Handshake.{Leaves}
use protos_tpe.Socks5.Writes.{replied_Base, entering}

abbrev FrameRefs : ℕ → Frame → Type 0
FrameRefs client t = Refs client t.0 t.1 t.2 t.3 t.4

frame-Refs : (client : ℕ) (c c' : Conn) → frame c' ≡ frame c → RefsOf client c → RefsOf client c'
frame-Refs client c c' e r = subst (FrameRefs client) (sym e) r

module _ (os : Os) (client : ℕ) (Open : Type 0) (Accepts : Auth.Parser → Type 0) where
  frame-Admits :
      (k k' : Key)
      → frame k'.conn ≡ frame k.conn
      → Admits client Open Accepts k
      → Admits client Open Accepts k'
  frame-Admits k k' e a = subst (λ (t : Frame). Open ⊎ Accepts t.5) (sym e) a

  -- The arrival in the relay.
  arrives :
      (k : Key)
      → Base client k
      → contents k.conn.write_buffer ≡ []
      → Connected client Open Accepts k
      → Admits client Open Accepts k
      → Holds client Open Accepts relay (relay_init os k)
  arrives k base nil c admits =
      let (e, out) = relay_init-cases os k (entering os client Open Accepts k base nil c) in
      (
        (
          frame-Refs client k.conn (relay_init os k).conn e base.1,
          elim out [
            | inl marked ↦ inl marked
            | inr r ↦ inr (
              k.net.to_client,
              subst (λ (t : Frame). InRelay t.6 k.net.to_client t (relay_init os k)) (sym e) r,
            )
          ],
        ),
        frame-Admits k (relay_init os k) e admits,
      )

  -- Where the reply has gone out.
  replied_lem :
      (connected : Bool) (k : Key) (users : Option Users)
      → Base client k
      → contents k.conn.write_buffer ≡ []
      → Admits client Open Accepts k
      → (connected ≡ true → Connected client Open Accepts k)
      → Leaves os client Open Accepts users false req_write (some (after_reply connected, k))
  unfolding arrival_of
  replied_lem true k users base nil admits c = record {
    next = relay;
    key = k;
    runs = refl;
    holds = arrives k base nil (c refl) admits;
    same_users = λ e. absurd (cc e);
    quiet = λ e _. absurd (cc e);
  }
  replied_lem false k users base nil admits c = record {
    next = finished;
    key = k;
    runs = refl;
    holds = base.1;
    same_users = λ e. absurd (cc e);
    quiet = λ e _. absurd (cc e);
  }

  -- A write event in REQ_WRITE.
  pub write_request_lem :
      (k : Key) (users : Option Users)
      → Holds client Open Accepts req_write k
      → Leaves os client Open Accepts users false req_write (write_request os k)
  unfolding write_request arrival_of
  write_request_lem k users ((base, pending, armed), admits, c, q) =
      elim (send_reply_lem os req_write (λ k'. (after_reply k'.conn.connected, k')) true k
        base.0.write_valid pending) [
          | waits out b runs t more ↦ record {
            next = req_write;
            key = replied_key true out b k;
            runs = runs;
            holds =
                ((replied_Base os client Open Accepts out b k base t, more, armed), admits, c, q);
            same_users = λ e. absurd (cc e);
            quiet = λ e _. absurd (cc e);
          }
          | goes out b runs t nil ↦ rw runs (
              replied_lem k.conn.connected (replied_key true out b k) users
                (replied_Base os client Open Accepts out b k base t) nil admits c)
          | breaks out b runs ↦ record {
            next = failed;
            key = replied_key true out b k;
            runs = runs;
            holds = base.1;
            same_users = λ e. absurd (cc e);
            quiet = λ e _. absurd (cc e);
          }
        ]

  -- An outcome of the relay.
  outcome_lem :
      (replies : List ℕ) (k k' : Key) (st : State) (users : Option Users) (m : Option (State × Key))
      (reads : Bool)
      → RefsOf client k.conn
      → Admits client Open Accepts k
      → m ≡ some (st, k')
      → Outcome k.conn.parsed replies (frame k.conn) st k'
      → Leaves os client Open Accepts users reads relay m
  unfolding arrival_of
  outcome_lem replies k k' st users m reads refs admits runs (stays is r) = record {
    next = relay;
    key = k';
    runs = runs ∙ ap (λ s. some (s, k')) is;
    holds = (
      (
        frame-Refs client k.conn k'.conn r.relaying.framed refs,
        inr (replies, subst (λ (t : Frame). InRelay t.6 replies t k') (sym r.relaying.framed) r),
      ),
      frame-Admits k k' r.relaying.framed admits,
    );
    same_users = λ e. absurd (cc e);
    quiet = λ _ e. absurd (cc e);
  }
  outcome_lem replies k k' st users m reads refs admits runs (ends is d) = record {
    next = finished;
    key = k';
    runs = runs ∙ ap (λ s. some (s, k')) is;
    holds = frame-Refs client k.conn k'.conn d.framed refs;
    same_users = λ e. absurd (cc e);
    quiet = λ _ e. absurd (cc e);
  }
  outcome_lem replies k k' st users m reads refs admits runs (gives_up is r) = record {
    next = failed;
    key = k';
    runs = runs ∙ ap (λ s. some (s, k')) is;
    holds = frame-Refs client k.conn k'.conn r.framed refs;
    same_users = λ e. absurd (cc e);
    quiet = λ _ e. absurd (cc e);
  }

  -- Events in RELAY.
  pub relay_Leaves :
      (replies : List ℕ) (k : Key) (users : Option Users)
      → RefsOf client k.conn
      → Admits client Open Accepts k
      → InRelay k.conn.parsed replies (frame k.conn) k
      → ((key_armed k).op_read ≡ true
          → Leaves os client Open Accepts users true relay (relay_read os k))
        × Leaves os client Open Accepts users false relay (relay_write os k)
  relay_Leaves replies k users refs admits r =
      let (st, k', runs, out) = relay_write_lem os k r in
      (
        λ armed.
            (let (st', k'', runs', out') = relay_read_lem os k r armed in
              outcome_lem replies k k'' st' users (relay_read os k) true refs admits runs' out'),
        outcome_lem replies k k' st users (relay_write os k) false refs admits runs out,
      )
