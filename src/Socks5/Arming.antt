-- ===== src/Socks5/Arming.antt =====
-- The interests that `relay_update` arms, and when it half-closes.
use protos_tpe.Prelude.{
  ℕ, ◌+◌, ◌≡◌, refl, sym, ap, ◌∙◌, Bool, true, false, arith, Bool-cases, inl, inr,
}
use protos_tpe.Selector.{Interest}
use protos_tpe.Socks5.{State, relay, failed, Key, bool_eq, interest_eq}
use protos_tpe.Socks5.Os.{Os, set_interest, called}
use protos_tpe.Socks5.Relay.{client_wants, origin_wants, arm_client, arm_origin, arm_both}

bool_eq→≡ : (a b : Bool) → bool_eq a b ≡ true → a ≡ b
bool_eq→≡ true true h = refl
bool_eq→≡ true false h = cc
bool_eq→≡ false true h = cc
bool_eq→≡ false false h = refl

interest_eq→≡ : (i j : Interest) → interest_eq i j ≡ true → i ≡ j
interest_eq→≡ i j h = ground (arith, bool_eq→≡ i.op_read j.op_read, bool_eq→≡ i.op_write j.op_write)

-- A key with other interests.
abbrev pub rearm : ℕ → Interest → Interest → Interest → Interest → Key → Key
rearm calls ci oi ca oa k = record k {
  conn = record k.conn { client_interest = ci; origin_interest = oi };
  net = record k.net { calls = calls; client_armed = ca; origin_armed = oa };
}

-- Nothing but the interests has changed.
pub record Rearmed (k k' : Key) : Type 0 where
  pub calls : ℕ
  pub same :
      k'
      ≡ rearm calls k'.conn.client_interest k'.conn.origin_interest k'.net.client_armed
          k'.net.origin_armed k

-- The remembered interest may be what is wanted only if the selector has it too.
abbrev pub Trusts : Interest → Interest → Interest → Type 0
Trusts wants cached armed = cached ≡ wants → armed ≡ wants

abbrev pub Wants : Interest → Interest → Interest → Type 0
Wants wants cached armed = (cached ≡ wants) × (armed ≡ wants)

pub record ArmedKey (k : Key) : Type 0 where
  pub client_has : Wants (client_wants k.conn) k.conn.client_interest k.net.client_armed
  pub origin_has : Wants (origin_wants k.conn) k.conn.origin_interest k.net.origin_armed

module _ (os : Os) where
  arm_client_lem :
      (k : Key)
      → Trusts (client_wants k.conn) k.conn.client_interest k.net.client_armed
      → (k' : Key) × (ok : Bool) × (arm_client os k ≡ (ok, k'))
        × Rearmed k k'
        × (k'.conn.origin_interest ≡ k.conn.origin_interest)
        × (k'.net.origin_armed ≡ k.net.origin_armed)
        × (ok ≡ true → Wants (client_wants k.conn) k'.conn.client_interest k'.net.client_armed)
  unfolding arm_client set_interest
  arm_client_lem k t =
      elim (Bool-cases (interest_eq (client_wants k.conn) k.conn.client_interest)) [
        | inl same ↦
            let e = interest_eq→≡ (client_wants k.conn) k.conn.client_interest same in
            (
              k,
              true,
              rw same refl,
              record { calls = k.net.calls; same = refl },
              refl,
              refl,
              λ _. (sym e, t (sym e)),
            )
        | inr other ↦ elim (Bool-cases (os.set_interest k.net.calls)) [
          | inl ok ↦
              let w = client_wants k.conn in
              let k' = rearm (k.net.calls + 1) w k.conn.origin_interest w k.net.origin_armed k in
              (
                k',
                true,
                rw other (rw ok refl),
                record { calls = k.net.calls + 1; same = refl },
                refl,
                refl,
                λ _. (refl, refl),
              )
          | inr bad ↦ (
            called k,
            false,
            rw other (rw bad refl),
            record { calls = k.net.calls + 1; same = refl },
            refl,
            refl,
            λ e. absurd (cc e),
          )
        ]
      ]

  arm_origin_lem :
      (k : Key)
      → Trusts (origin_wants k.conn) k.conn.origin_interest k.net.origin_armed
      → (k' : Key) × (ok : Bool) × (arm_origin os k ≡ (ok, k'))
        × Rearmed k k'
        × (k'.conn.client_interest ≡ k.conn.client_interest)
        × (k'.net.client_armed ≡ k.net.client_armed)
        × (ok ≡ true → Wants (origin_wants k.conn) k'.conn.origin_interest k'.net.origin_armed)
  unfolding arm_origin set_interest
  arm_origin_lem k t =
      let w = origin_wants k.conn in
      elim (Bool-cases (interest_eq w k.conn.origin_interest)) [
        | inl same ↦
            let e = interest_eq→≡ w k.conn.origin_interest same in
            (
              k,
              true,
              rw same refl,
              record { calls = k.net.calls; same = refl },
              refl,
              refl,
              λ _. (sym e, t (sym e)),
            )
        | inr other ↦ elim (Bool-cases (os.set_interest k.net.calls)) [
          | inl ok ↦
              let k' = rearm (k.net.calls + 1) k.conn.client_interest w k.net.client_armed w k in
              (
                k',
                true,
                rw other (rw ok refl),
                record { calls = k.net.calls + 1; same = refl },
                refl,
                refl,
                λ _. (refl, refl),
              )
          | inr bad ↦ (
            called k,
            false,
            rw other (rw bad refl),
            record { calls = k.net.calls + 1; same = refl },
            refl,
            refl,
            λ e. absurd (cc e),
          )
        ]
      ]

-- How `arm_both` ends.
pub data Armed (st : State) (k : Key) : Type 0 where
  goes_on : st ≡ relay → ArmedKey k → Armed st k
  refuses : st ≡ failed → Armed st k

Rearmed-trans : {a b c : Key} → Rearmed a b → Rearmed b c → Rearmed a c
Rearmed-trans {a} {b} {c} p q = record {
  calls = q.calls;
  same =
      q.same
      ∙ ap
          (rearm q.calls c.conn.client_interest c.conn.origin_interest c.net.client_armed
            c.net.origin_armed)
          p.same;
}

client_wants-Rearmed : {k k' : Key} → Rearmed k k' → client_wants k'.conn ≡ client_wants k.conn
unfolding client_wants
client_wants-Rearmed r = ap (λ j. client_wants j.conn) r.same

origin_wants-Rearmed : {k k' : Key} → Rearmed k k' → origin_wants k'.conn ≡ origin_wants k.conn
unfolding origin_wants
origin_wants-Rearmed r = ap (λ j. origin_wants j.conn) r.same

abbrev pub TrustsBoth : Key → Type 0
TrustsBoth k =
    Trusts (client_wants k.conn) k.conn.client_interest k.net.client_armed
    × Trusts (origin_wants k.conn) k.conn.origin_interest k.net.origin_armed

module _ (os : Os) where
  pub arm_both_lem :
      (k : Key)
      → TrustsBoth k
      → (k' : Key) × (st : State) × (arm_both os k ≡ (st, k')) × Rearmed k k' × Armed st k'
  unfolding arm_both
  arm_both_lem k (tc, to) =
      let (k₁, ok, runs, r, oi, oa, wc) = arm_client_lem os k tc in
      let trusts : Trusts (origin_wants k₁.conn) k₁.conn.origin_interest k₁.net.origin_armed =
        (λ e. oa ∙ to (sym oi ∙ e ∙ origin_wants-Rearmed r) ∙ sym (origin_wants-Rearmed r)) in
      let (k₂, ok', runs', r', ci, ca, wo) = arm_origin_lem os k₁ trusts in
      let whole = Rearmed-trans r r' in
      elim (Bool-cases ok) [
        | inr bad ↦ (k₁, failed, rw runs (rw bad refl), r, refuses refl)
        | inl good ↦ elim (Bool-cases ok') [
          | inr bad ↦ (k₂, failed, rw runs (rw good (rw runs' (rw bad refl))), whole, refuses refl)
          | inl fine ↦
              let (c₁, c₂) = wc good in
              let (o₁, o₂) = wo fine in
              let cw = sym (client_wants-Rearmed whole) in
              let ow = sym (origin_wants-Rearmed r') in
              (
                k₂,
                relay,
                rw runs (rw good (rw runs' (rw fine refl))),
                whole,
                goes_on refl (record {
                  client_has = (ci ∙ c₁ ∙ cw, ca ∙ c₂ ∙ cw);
                  origin_has = (o₁ ∙ ow, o₂ ∙ ow);
                }),
              )
        ]
      ]
