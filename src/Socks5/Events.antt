-- ===== src/Socks5/Events.antt =====
-- What the arrival in a state of reading and the stamp of the time in `socks5_advance` keep.
use protos_tpe.Prelude.{ℕ, ◌≡◌, refl, Bool, true, false, List, ◌==◌, if◌then◌else◌, inl, inr}
use protos_tpe.Auth
use protos_tpe.Socks5.{
  State, neg_read, neg_write, auth_read, auth_write, req_read, req_resolve, req_connecting,
  req_write, relay, finished, failed, code, Key, is_client,
}
use protos_tpe.Socks5.Os.{Os}
use protos_tpe.Socks5.Machine.{arrival_of, is_read_state, touch}
use protos_tpe.Socks5.Relay.{client_wants, origin_wants}
use protos_tpe.Socks5.Fire.{arrive}
use protos_tpe.Socks5.Forward.{Frame}
use protos_tpe.Socks5.Halved.{Progress}
use protos_tpe.Socks5.Delivery.{InRelay}
use protos_tpe.Socks5.Arrivals.{InRelay-called}
use protos_tpe.Socks5.Holds.{Holds}

abbrev pub KeptByArrival : Key → Key → Type 0
KeptByArrival k k' =
    (k'.conn.read_buffer ≡ k.conn.read_buffer)
    × (k'.server ≡ k.server)
    × (is_client k' ≡ is_client k)

kept_if : (b : Bool) (k k' : Key) → KeptByArrival k k' → KeptByArrival k (if b then k else k')
kept_if true k k' h = (refl, refl, refl)
kept_if false k k' h = h

-- A read state keeps the buffer, the server and the descriptors when it is entered.
pub arrive-kept :
    (os : Os) (s next : State) (k : Key)
    → is_read_state (code next) ≡ true
    → KeptByArrival k (arrive os s next k)
unfolding arrival_of
arrive-kept os s neg_read k e = kept_if (code s == code neg_read) k _ (refl, refl, refl)
arrive-kept os s auth_read k e = kept_if (code s == code auth_read) k _ (refl, refl, refl)
arrive-kept os s req_read k e = kept_if (code s == code req_read) k _ (refl, refl, refl)
arrive-kept os s neg_write k e = absurd (cc e)
arrive-kept os s auth_write k e = absurd (cc e)
arrive-kept os s req_resolve k e = absurd (cc e)
arrive-kept os s req_connecting k e = absurd (cc e)
arrive-kept os s req_write k e = absurd (cc e)
arrive-kept os s relay k e = absurd (cc e)
arrive-kept os s finished k e = absurd (cc e)
arrive-kept os s failed k e = absurd (cc e)

Progress-touch : (os : Os) (k : Key) → Progress k.conn → Progress (touch os k).conn
unfolding client_wants origin_wants
Progress-touch os k p = record { upload_moves = p.upload_moves; download_moves = p.download_moves }

InRelay-touch :
    {early replies : List ℕ} {fr : Frame} (os : Os) (k : Key)
    → InRelay early replies fr k
    → InRelay early replies fr (touch os k)
unfolding client_wants origin_wants
InRelay-touch os k h =
    let r = InRelay-called h in
    record {
      relaying = record {
        framed = r.relaying.framed;
        read_valid = r.relaying.read_valid;
        write_valid = r.relaying.write_valid;
        read_room = r.relaying.read_room;
        write_room = r.relaying.write_room;
        upload = r.relaying.upload;
        download = r.relaying.download;
        origin_half = r.relaying.origin_half;
        client_half = r.relaying.client_half;
        origin_after = r.relaying.origin_after;
        client_after = r.relaying.client_after;
      };
      armed = record { client_has = r.armed.client_has; origin_has = r.armed.origin_has };
      progress = Progress-touch os k r.progress;
    }

module _ (os : Os) (client : ℕ) (Open : Type 0) (Accepts : Auth.Parser → Type 0) where
  pub Holds-touch :
      (st : State) (k : Key)
      → Holds client Open Accepts st k
      → Holds client Open Accepts st (touch os k)
  Holds-touch neg_read k h = h
  Holds-touch neg_write k h = h
  Holds-touch auth_read k h = h
  Holds-touch auth_write k h = h
  Holds-touch req_read k h = h
  Holds-touch req_resolve k h = h
  Holds-touch req_connecting k h = h
  Holds-touch req_write k h = h
  Holds-touch finished k h = h
  Holds-touch failed k h = h
  Holds-touch relay k ((refs, inl marked), admits) = ((refs, inl marked), admits)
  Holds-touch relay k ((refs, inr (replies, r)), admits) =
      ((refs, inr (replies, InRelay-touch os k r)), admits)
