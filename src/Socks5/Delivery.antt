-- ===== src/Socks5/Delivery.antt =====
-- The handlers of the relay: what they answer, and what has been delivered then.
use protos_tpe.Prelude.{
  ℕ, ◌≡◌, refl, sym, ap, ◌∙◌, subst, Bool, true, false, ◌&&◌, some, List, ◌++◌, ◌>>=◌, Bool-cases,
  inl, inr, ◌⊎◌, arith, append-nil,
}
use protos_tpe.Buffer.{Buffer, IsValid}
use protos_tpe.Socks5.{State, relay, finished, failed, Conn, Key, Net, is_client}
use protos_tpe.Socks5.Os.{Os}
use protos_tpe.Socks5.Relay.{
  relay_update, relay_flush, relay_write, flushed, source, client_wants, origin_wants,
}
use protos_tpe.Socks5.Flush.{relay_flush_lem, flushed_key}
use protos_tpe.Socks5.Arming.{Rearmed, ArmedKey, TrustsBoth, arm_both_lem, goes_on, refuses}
use protos_tpe.Socks5.Forward.{Frame, frame, Relaying, halved, halved-Relaying, Rearmed-Relaying}
use protos_tpe.Socks5.Moved.{flushed_key-Relaying}
use protos_tpe.Socks5.Halved.{Progress, halved-Kept, halved-Progress}

-- Every byte has arrived and both streams have ended.
pub record Delivered (early replies : List ℕ) (fr : Frame) (c : Conn) (n : Net) : Type 0 where
  pub framed : frame c ≡ fr
  pub upload_all : n.from_client ≡ early ++ n.to_origin
  pub download_all : replies ++ n.from_origin ≡ n.to_client
  pub client_ended : c.client_closed ≡ true
  pub origin_ended : c.origin_closed ≡ true
  pub origin_told : n.origin_half_closed ≡ true
  pub client_told : n.client_half_closed ≡ true

-- A connection that waits in the relay: the selector is armed for what it wants, and no direction
-- is stuck.
pub record InRelay (early replies : List ℕ) (fr : Frame) (k : Key) : Type 0 where
  pub relaying : Relaying early replies fr k.conn k.net
  pub armed : ArmedKey k
  pub progress : Progress k.conn

pub data Outcome (early replies : List ℕ) (fr : Frame) (st : State) (k : Key) : Type 0 where
  stays : st ≡ relay → InRelay early replies fr k → Outcome early replies fr st k
  ends : st ≡ finished → Delivered early replies fr k.conn k.net → Outcome early replies fr st k
  gives_up : st ≡ failed → Relaying early replies fr k.conn k.net → Outcome early replies fr st k

-- What the selector has is what the connection remembers.
pub record Cached (c : Conn) (n : Net) : Type 0 where
  pub client_same : c.client_interest ≡ n.client_armed
  pub origin_same : c.origin_interest ≡ n.origin_armed

pub ArmedKey-Cached : {k : Key} → ArmedKey k → Cached k.conn k.net
ArmedKey-Cached a = record {
  client_same = a.client_has.0 ∙ sym a.client_has.1;
  origin_same = a.origin_has.0 ∙ sym a.origin_has.1;
}

pub halved-TrustsBoth : (k : Key) → Cached k.conn k.net → TrustsBoth (halved k)
halved-TrustsBoth k h =
    let s = halved-Kept k in
    (
      λ e. s.client_armed ∙ sym h.client_same ∙ sym s.client_interest ∙ e,
      λ e. s.origin_armed ∙ sym h.origin_same ∙ sym s.origin_interest ∙ e,
    )

wants-Progress : {k k' : Key} → Rearmed k k' → Progress k.conn → Progress k'.conn
wants-Progress r p =
    subst (λ j. Progress j.conn) (sym r.same)
      (record {
        upload_moves = unfold client_wants origin_wants in p.upload_moves;
        download_moves = unfold client_wants origin_wants in p.download_moves;
      })

module _ {early replies : List ℕ} {fr : Frame} where
  Relaying-Delivered :
      (k : Key)
      → Relaying early replies fr k.conn k.net
      → k.conn.client_wr_shut ≡ true
      → k.conn.origin_wr_shut ≡ true
      → Delivered early replies fr k.conn k.net
  Relaying-Delivered k h c o =
      let (client_ended, empty) = h.origin_after o in
      let (origin_ended, empty') = h.client_after c in
      record {
        framed = h.framed;
        upload_all =
            h.upload
            ∙ ap (λ xs. early ++ (k.net.to_origin ++ xs)) empty
            ∙ ap (λ xs. early ++ xs) (append-nil k.net.to_origin);
        download_all =
            h.download ∙ ap (λ xs. k.net.to_client ++ xs) empty' ∙ append-nil k.net.to_client;
        client_ended = client_ended;
        origin_ended = origin_ended;
        origin_told = h.origin_half ∙ o;
        client_told = h.client_half ∙ c;
      }

  module _ (os : Os) where
    -- `relay_update` while a direction is open.
    pub open_lem :
        (k : Key)
        → Relaying early replies fr k.conn k.net
        → TrustsBoth (halved k)
        → ((halved k).conn.client_wr_shut && (halved k).conn.origin_wr_shut) ≡ false
        → (st : State) × (k' : Key) × (relay_update os k ≡ (st, k'))
          × (((st ≡ relay) × InRelay early replies fr k')
              ⊎ ((st ≡ failed) × Relaying early replies fr k'.conn k'.net))
    unfolding relay_update
    open_lem k h t more =
        let (k', st, runs, r, a) = arm_both_lem os (halved k) t in
        let kept = Rearmed-Relaying {k = halved k} r (halved-Relaying k h) in
        (
          st,
          k',
          rw more runs,
          elim a [
            | goes_on e armed ↦ inl (
              e,
              record {
                relaying = kept;
                armed = armed;
                progress =
                    wants-Progress r
                      (halved-Progress k h.read_valid h.write_valid h.read_room h.write_room);
              },
            )
            | refuses e ↦ inr (e, kept)
          ],
        )

    pub relay_update_lem :
        (k : Key)
        → Relaying early replies fr k.conn k.net
        → TrustsBoth (halved k)
        → (st : State) × (k' : Key) × (relay_update os k ≡ (st, k'))
          × Outcome early replies fr st k'
    relay_update_lem k h t =
        let h' = halved-Relaying k h in
        let both = (halved k).conn.client_wr_shut && (halved k).conn.origin_wr_shut in
        elim (Bool-cases both) [
          | inl over ↦
              let c : (halved k).conn.client_wr_shut ≡ true = ground arith in
              let o : (halved k).conn.origin_wr_shut ≡ true = ground arith in
              (
                finished,
                halved k,
                unfold relay_update in rw over refl,
                ends refl (Relaying-Delivered (halved k) h' c o),
              )
          | inr more ↦
              let (st, k', runs, out) = open_lem k h t more in
              (st, k', runs, elim out [ inl (e, r) ↦ stays e r | inr (e, r) ↦ gives_up e r ])
        ]

    pub flushed_lem :
        (to : Bool) (k : Key)
        → Relaying early replies fr k.conn k.net
        → Cached k.conn k.net
        → (st : State) × (k' : Key) × ((relay_flush os to k >>= λ r. some (flushed os r))
            ≡ some (st, k'))
          × Outcome early replies fr st k'
    unfolding relay_flush
    flushed_lem to k h c =
        let f = relay_flush_lem os to k (valid to) in
        let k₁ = flushed_key to f.out f.calls f.behind k in
        let h₁ = flushed_key-Relaying to f.out f.calls f.behind k f.took h in
        elim (Bool-cases f.fine) [
          | inr bad ↦ (failed, k₁, rw f.runs (rw bad refl), gives_up refl h₁)
          | inl good ↦
              let (st, k', runs, out) =
                relay_update_lem k₁ h₁ (halved-TrustsBoth k₁ (cached to f.out f.calls f.behind)) in
              (st, k', rw f.runs (rw good (rw runs refl)), out)
        ]
      where
        valid : (b : Bool) → IsValid (source b k.conn)
        valid true = h.write_valid
        valid false = h.read_valid

        cached :
            (b : Bool) (out : List ℕ) (n : ℕ) (buf : Buffer)
            → Cached (flushed_key b out n buf k).conn (flushed_key b out n buf k).net
        cached true out n buf = record { client_same = c.client_same; origin_same = c.origin_same }
        cached false out n buf = record { client_same = c.client_same; origin_same = c.origin_same }

    -- A write event in the relay runs without a fault, and its outcome is one of the three.
    pub relay_write_lem :
        (k : Key)
        → InRelay early replies fr k
        → (st : State) × (k' : Key) × (relay_write os k ≡ some (st, k'))
          × Outcome early replies fr st k'
    unfolding relay_write
    relay_write_lem k h = flushed_lem (is_client k) k h.relaying (ArmedKey-Cached h.armed)
