-- ===== src/Socks5/Writes.antt =====
-- NEG_WRITE, AUTH_WRITE and REQ_WRITE on the connection: what they keep, up to the arrival in the
-- next phase.
use protos_tpe.Prelude.{
  ℕ, ◌≡◌, refl, sym, ap, ◌∙◌, true, false, Option, none, some, List, [], ◌++◌, arith, ◌==◌,
  Bool-cases, inl, inr, ◌⊎◌,
}
use protos_tpe.Buffer.{Buffer, contents}
use protos_tpe.Buffer.Laws.{length-contents}
use protos_tpe.Buffer.Reads.{Took}
use protos_tpe.Auth
use protos_tpe.Auth.{auth_ok}
use protos_tpe.Negotiation.{method_none, method_userpass}
use protos_tpe.Request
use protos_tpe.Users.{Users}
use protos_tpe.Socks5.{neg_write, auth_read, auth_write, req_read, failed, Key, is_client, reading}
use protos_tpe.Socks5.Os.{Os, client_side, called, arm}
use protos_tpe.Socks5.Phases.{negotiation_write, negotiated, write_auth, authenticated}
use protos_tpe.Socks5.Machine.{arrival_of}
use protos_tpe.Socks5.Forward.{frame}
use protos_tpe.Socks5.Run.{Entering}
use protos_tpe.Socks5.Holds.{Base, Holds, Connected}
use protos_tpe.Socks5.Writing.{waits, goes, breaks, replied_key, send_reply_lem, sent_Buffers}
use protos_tpe.Socks5.Handshake.{Leaves}
use protos_tpe.Socks5.Negotiating.{armed_lem}

module _ (os : Os) (client : ℕ) (Open : Type 0) (Accepts : Auth.Parser → Type 0) where
  -- The base behind a `send` to the client.
  pub replied_Base :
      (out : List ℕ) (b : Buffer) (k : Key)
      → Base client k
      → Took k.conn.write_buffer b out
      → Base client (replied_key true out b k)
  replied_Base out b k (buffers, refs, ledger, plain) t =
      (sent_Buffers buffers t, refs, ledger, plain)

  method_rule :
      (m : ℕ)
      → (m ≡ method_userpass) ⊎ ((m ≡ method_none) ⊎ Open)
      → (m == method_none) ≡ false
      → (m == method_userpass) ≡ false
      → Open
  method_rule m (inl e) a b = absurd (ground arith)
  method_rule m (inr (inl e)) a b = absurd (ground arith)
  method_rule m (inr (inr o)) a b = o

  negotiated_lem :
      (k : Key) (users : Option Users)
      → k.server.users_store ≡ users
      → is_client k ≡ true
      → Base client k
      → contents k.conn.write_buffer ≡ []
      → k.conn.origin_fd ≡ none
      → (k.conn.method ≡ method_userpass) ⊎ ((k.conn.method ≡ method_none) ⊎ Open)
      → Leaves os client Open Accepts users false neg_write (some (negotiated os k))
  unfolding negotiated arrival_of Request.init
  negotiated_lem k users same cl base nil no_origin rule =
      elim (Bool-cases (k.conn.method == method_none)) [
        | inl refused ↦ rw refused (record {
          next = failed;
          key = _;
          runs = refl;
          holds = base.1;
          same_users = λ _. (same, cl);
          quiet = λ e _. absurd (cc e);
        })
        | inr some_method ↦ elim (Bool-cases (k.conn.method == method_userpass)) [
          | inl password ↦
              rw (some_method, password)
                (elim (armed_lem os client Open Accepts auth_read reading k cl) [
                  | inl ok ↦ record {
                    next = auth_read;
                    key = record k { net = arm client_side reading (called k).net };
                    runs = ap some ok;
                    holds = (base, nil, refl, no_origin);
                    same_users = λ _. (same, cl);
                    quiet = λ e _. absurd (cc e);
                  }
                  | inr bad ↦ record {
                    next = failed;
                    key = called k;
                    runs = ap some bad;
                    holds = base.1;
                    same_users = λ _. (same, cl);
                    quiet = λ e _. absurd (cc e);
                  }
                ])
          | inr plain ↦
              rw (some_method, plain)
                (elim (armed_lem os client Open Accepts req_read reading k cl) [
                  | inl ok ↦ record {
                    next = req_read;
                    key = record k { net = arm client_side reading (called k).net };
                    runs = ap some ok;
                    holds = (
                      (base, nil, refl, no_origin),
                      refl,
                      inl (method_rule k.conn.method rule some_method plain),
                    );
                    same_users = λ _. (same, cl);
                    quiet = λ e _. absurd (cc e);
                  }
                  | inr bad ↦ record {
                    next = failed;
                    key = called k;
                    runs = ap some bad;
                    holds = base.1;
                    same_users = λ _. (same, cl);
                    quiet = λ e _. absurd (cc e);
                  }
                ])
        ]
      ]

  -- A write event in NEG_WRITE.
  pub negotiation_write_lem :
      (k : Key) (users : Option Users)
      → k.server.users_store ≡ users
      → is_client k ≡ true
      → Holds client Open Accepts neg_write k
      → Leaves os client Open Accepts users false neg_write (negotiation_write os k)
  unfolding negotiation_write arrival_of
  negotiation_write_lem k users same cl ((base, pending, armed), no_origin, rule) =
      rw cl (elim (send_reply_lem os neg_write (negotiated os) true k base.0.write_valid pending) [
        | waits out b runs t more ↦ record {
          next = neg_write;
          key = replied_key true out b k;
          runs = runs;
          holds = ((replied_Base out b k base t, more, armed), no_origin, rule);
          same_users = λ _. (same, cl);
          quiet = λ e _. absurd (cc e);
        }
        | goes out b runs t nil ↦ rw runs (
            negotiated_lem (replied_key true out b k) users same cl (replied_Base out b k base t)
              nil no_origin rule)
        | breaks out b runs ↦ record {
          next = failed;
          key = replied_key true out b k;
          runs = runs;
          holds = base.1;
          same_users = λ _. (same, cl);
          quiet = λ e _. absurd (cc e);
        }
      ])

  authenticated_lem :
      (k : Key) (users : Option Users)
      → k.server.users_store ≡ users
      → is_client k ≡ true
      → Base client k
      → contents k.conn.write_buffer ≡ []
      → k.conn.origin_fd ≡ none
      → (k.conn.auth_status ≡ auth_ok → Accepts k.conn.auth)
      → Leaves os client Open Accepts users false auth_write (some (authenticated os k))
  unfolding authenticated arrival_of Request.init
  authenticated_lem k users same cl base nil no_origin rule =
      elim (Bool-cases (k.conn.auth_status == auth_ok)) [
        | inr refused ↦ rw refused (record {
          next = failed;
          key = _;
          runs = refl;
          holds = base.1;
          same_users = λ _. (same, cl);
          quiet = λ e _. absurd (cc e);
        })
        | inl good ↦ rw good (elim (armed_lem os client Open Accepts req_read reading k cl) [
          | inl ok ↦ record {
            next = req_read;
            key = record k { net = arm client_side reading (called k).net };
            runs = ap some ok;
            holds = ((base, nil, refl, no_origin), refl, inr (rule (ground arith)));
            same_users = λ _. (same, cl);
            quiet = λ e _. absurd (cc e);
          }
          | inr bad ↦ record {
            next = failed;
            key = called k;
            runs = ap some bad;
            holds = base.1;
            same_users = λ _. (same, cl);
            quiet = λ e _. absurd (cc e);
          }
        ])
      ]

  -- A write event in AUTH_WRITE.
  pub write_auth_lem :
      (k : Key) (users : Option Users)
      → k.server.users_store ≡ users
      → is_client k ≡ true
      → Holds client Open Accepts auth_write k
      → Leaves os client Open Accepts users false auth_write (write_auth os k)
  unfolding write_auth arrival_of
  write_auth_lem k users same cl ((base, pending, armed), no_origin, rule) =
      rw cl
        (elim (send_reply_lem os auth_write (authenticated os) true k base.0.write_valid pending) [
          | waits out b runs t more ↦ record {
            next = auth_write;
            key = replied_key true out b k;
            runs = runs;
            holds = ((replied_Base out b k base t, more, armed), no_origin, rule);
            same_users = λ _. (same, cl);
            quiet = λ e _. absurd (cc e);
          }
          | goes out b runs t nil ↦ rw runs (
              authenticated_lem (replied_key true out b k) users same cl
                (replied_Base out b k base t) nil no_origin rule)
          | breaks out b runs ↦ record {
            next = failed;
            key = replied_key true out b k;
            runs = runs;
            holds = base.1;
            same_users = λ _. (same, cl);
            quiet = λ e _. absurd (cc e);
          }
        ])

  -- What the handshake hands to the relay.
  pub entering :
      (k : Key)
      → Base client k
      → contents k.conn.write_buffer ≡ []
      → Connected client Open Accepts k
      → Entering k.conn.parsed k.net.to_client (frame k.conn) k
  entering k (buffers, refs, ledger, plain) nil (room, idle) = record {
    framed = refl;
    read_valid = buffers.read_valid;
    write_valid = buffers.write_valid;
    read_room = omega (arith, room, length-contents buffers.read_valid);
    write_room = omega (arith, buffers.write_size);
    upload =
        ledger.upload
        ∙ ap (λ xs. k.conn.parsed ++ (xs ++ contents k.conn.read_buffer)) (sym ledger.no_upload);
    download =
        ap (λ xs. k.net.to_client ++ xs) ledger.no_download
        ∙ ap (λ xs. k.net.to_client ++ xs) (sym nil);
    origin_open = ledger.origin_open;
    client_open = ledger.client_open;
    nothing_cached = plain.client_noop;
    origin_cached = plain.origin_noop ∙ sym idle;
  }
