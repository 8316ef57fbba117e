-- ===== src/Negotiation/Laws.antt =====
-- The negotiation parser against the message format.
use protos_tpe.Prelude.{
  ℕ, zero, suc, ◌≤◌, ◌<◌, ◌≡◌, ◌≢◌, refl, ap, ◌∙◌, sym, Bool, false, some, List, [], ◌∷◌, ◌++◌,
  ◌||◌, take, drop, take-append-drop, length-take, dec_lt, ℕ_discrete, subst, arith, ◌==◌, length,
  All,
}
use protos_tpe.Buffer.{Buffer, IsValid, contents}
use protos_tpe.Buffer.Feed.{feed_lem, consume, consume-finished, consume_more}
use protos_tpe.Negotiation.{
  Parser, nmethods, methods, done, invalid, init, finished, step, parser_feed, socks5_version,
  method_noauth, method_userpass, finished_state,
}

abbrev pub offers : ℕ → List ℕ → Bool
offers m [] = false
offers m (c ∷ cs) = c == m || offers m cs

-- `VER NMETHODS METHODS`
abbrev pub message : List ℕ → List ℕ
message ms = socks5_version ∷ length ms ∷ ms

-- The state while the methods are read.
abbrev reading : ℕ → Bool → Bool → Parser
reading k u n = record { state = methods; pending_methods = k; has_userpass = u; has_noauth = n }

step-reading :
    (k m : ℕ) (u n : Bool)
    → suc k < 255
    → step (reading (suc (suc k)) u n) m
      ≡ reading (suc k) (u || m == method_userpass) (n || m == method_noauth)
unfolding step
step-reading k m u n h = ground arith

step-reading_last :
    (m : ℕ) (u n : Bool)
    → step (reading 1 u n) m ≡ record {
      state = done;
      pending_methods = 0;
      has_userpass = u || m == method_userpass;
      has_noauth = n || m == method_noauth;
    }
unfolding step
step-reading_last m u n = ground arith

reading_methods :
    (ms rest : List ℕ) (m : ℕ) (u n : Bool)
    → length ms < 255
    → consume finished step (reading (suc (length ms)) u n) (m ∷ (ms ++ rest)) ≡ (
      record {
        state = done;
        pending_methods = 0;
        has_userpass = u || offers method_userpass (m ∷ ms);
        has_noauth = n || offers method_noauth (m ∷ ms);
      },
      rest,
    )
reading_methods [] rest m u n h =
    consume_more finished step (reading 1 u n) m rest refl
    ∙ rw (step-reading_last m u n) (consume-finished finished step _ rest refl ∙ ground arith)
reading_methods (m' ∷ ms) rest m u n h =
    consume_more finished step (reading (suc (suc (length ms))) u n) m (m' ∷ (ms ++ rest)) refl
    ∙ rw (step-reading (length ms) m u n h) (
        reading_methods ms rest m' (u || m == method_userpass) (n || m == method_noauth)
          (omega arith)
        ∙ ground arith)

-- What a whole message leaves.
abbrev pub parsed : List ℕ → Parser
parsed ms = record {
  state = done;
  pending_methods = 0;
  has_userpass = offers method_userpass ms;
  has_noauth = offers method_noauth ms;
}

abbrev waiting : Parser
waiting = record { state = nmethods; pending_methods = 0; has_userpass = false; has_noauth = false }

step-waiting : (k : ℕ) → step waiting (suc k) ≡ reading (suc k) false false
unfolding step
step-waiting k = ground arith

-- A complete message, whatever follows it, is parsed to the methods that it offers, and no byte
-- behind it is taken.
pub consume-message :
    (ms rest : List ℕ)
    → length ms < 256
    → consume finished step init (message ms ++ rest) ≡ (parsed ms, rest)
unfolding step
consume-message [] rest h =
    consume_more finished step init socks5_version (0 ∷ rest) refl
    ∙ consume_more finished step waiting 0 rest refl
    ∙ consume-finished finished step (parsed []) rest refl
consume-message (m ∷ ms) rest h =
    consume_more finished step init socks5_version (length (m ∷ ms) ∷ m ∷ (ms ++ rest)) refl
    ∙ consume_more finished step waiting (length (m ∷ ms)) (m ∷ (ms ++ rest)) refl
    ∙ rw (step-waiting (length ms)) (reading_methods ms rest m false false (omega arith))

-- Too few methods leave the parser waiting for the others.
reading_short :
    (ms : List ℕ) (k : ℕ) (u n : Bool)
    → length ms < k
    → k < 256
    → (consume finished step (reading k u n) ms).0.state ≡ methods
unfolding consume
reading_short ms zero u n h l = absurd (omega arith)
reading_short [] (suc k) u n h l = refl
reading_short (m ∷ ms) (suc zero) u n h l = absurd (omega arith)
reading_short (m ∷ ms) (suc (suc k)) u n h l = rw (step-reading k m u n (omega arith)) (
    reading_short ms (suc k) (u || m == method_userpass) (n || m == method_noauth) (omega arith)
      (omega arith))

-- What an accepted input consists of.
pub record Accepts (xs : List ℕ) (out : Parser × List ℕ) : Type 0 where
  pub ms : List ℕ
  pub split : xs ≡ message ms ++ out.1
  pub fits : length ms < 256
  pub result : out.0 ≡ parsed ms

Accepts-message :
    (ms rest : List ℕ)
    → length ms < 256
    → Accepts (message ms ++ rest) (consume finished step init (message ms ++ rest))
Accepts-message ms rest h =
    rw (consume-message ms rest h) (record { ms = ms; split = refl; fits = h; result = refl })

methods_read :
    (n : ℕ) (tail : List ℕ)
    → n < 256
    → (consume finished step (step waiting n) tail).0.state ≡ done
    → n ≤ length tail
methods_read zero tail hb h = omega arith
methods_read (suc k) tail hb h = elim (dec_lt (length tail) (suc k)) [
  | yes short ↦
      let stuck = reading_short tail (suc k) false false short hb in
      absurd (cc (rw (step-waiting k) at h, stuck))
  | no enough ↦ omega arith
]

Accepts-from_length :
    (n : ℕ) (tail : List ℕ)
    → n < 256
    → n ≤ length tail
    → Accepts (socks5_version ∷ n ∷ tail) (consume finished step init (socks5_version ∷ n ∷ tail))
Accepts-from_length n tail hb h =
    let len : length (take n tail) ≡ n = omega (arith, length-take n tail) in
    let whole =
      ap (λ k. socks5_version ∷ k ∷ (take n tail ++ drop n tail)) len
      ∙ ap (λ t. socks5_version ∷ n ∷ t) (take-append-drop n tail) in
    subst (λ ys. Accepts ys (consume finished step init ys)) whole
      (Accepts-message (take n tail) (drop n tail) (omega arith))

step-version_ok : step init socks5_version ≡ waiting
unfolding step
step-version_ok = refl

step-version_bad : (v : ℕ) → v ≢ socks5_version → (step init v).state ≡ invalid
unfolding step
step-version_bad v h = ground arith

bad_version :
    (v : ℕ) (xs : List ℕ)
    → v ≢ socks5_version
    → (consume finished step init (v ∷ xs)).0.state ≡ invalid
bad_version v xs h = rw (consume_more finished step init v xs refl) (
    rw (consume-finished finished step (step init v) xs (ap finished_state (step-version_bad v h)))
      (step-version_bad v h))

good_version :
    (xs : List ℕ)
    → All (λ c. c < 256) xs
    → (consume finished step init (socks5_version ∷ xs)).0.state ≡ done
    → Accepts (socks5_version ∷ xs) (consume finished step init (socks5_version ∷ xs))
good_version [] hb h = absurd (unfold consume step in cc)
good_version (n ∷ tail) hb h =
    let two =
      consume_more finished step init socks5_version (n ∷ tail) refl
      ∙ ap (λ p. consume finished step p (n ∷ tail)) step-version_ok
      ∙ consume_more finished step waiting n tail refl in
    Accepts-from_length n tail hb.0 (methods_read n tail hb.0 (rw two at h))

-- If the parser ends as done on some bytes, each below 256, they start with a complete message,
-- the bytes behind it are left, and the flags are those of the methods that it lists.
pub negotiation_sound :
    (xs : List ℕ)
    → All (λ c. c < 256) xs
    → (consume finished step init xs).0.state ≡ done
    → Accepts xs (consume finished step init xs)
negotiation_sound [] hb h = absurd (unfold consume in cc)
negotiation_sound (v ∷ xs) hb h = elim (ℕ_discrete v socks5_version) [
  | yes e ↦ subst Sound (sym e) (good_version xs hb.1) h
  | no ne ↦ absurd (cc (bad_version v xs ne, h))
]
  where
    Sound : ℕ → Type 0
    Sound c =
        (consume finished step init (c ∷ xs)).0.state ≡ done
        → Accepts (c ∷ xs) (consume finished step init (c ∷ xs))

-- A complete message, of any number of methods up to 255, in a valid buffer with any bytes behind
-- it: the parser ends as done, with a flag for each of the two methods exactly if the message lists
-- it, and the bytes behind it stay in the buffer.
pub negotiation_feed-message :
    (ms rest : List ℕ) {b : Buffer}
    → IsValid b
    → contents b ≡ message ms ++ rest
    → length ms < 256
    → (b' : Buffer) × (parser_feed init b ≡ some (parsed ms, b'))
      × (contents b' ≡ rest)
      × IsValid b'
unfolding parser_feed
negotiation_feed-message ms rest {b} v e h =
    let (b', runs, q) = feed_lem finished step init v (λ nil. cc) in
    let done_with = ap (consume finished step init) e ∙ consume-message ms rest h in
    (b', rw done_with at runs, rw done_with at q.left, q.valid)
