-- ===== src/Auth/Laws.antt =====
-- The user/password parser against the message format.
use protos_tpe.Prelude.{
  ℕ, suc, ◌+◌, ◌<◌, ◌≡◌, refl, ap, ◌∙◌, some, List, [], ◌∷◌, ◌++◌, arith, length, All, set, take,
  get_elem?, get_elem?-set_self, store_from, take-store_from, length-store_from, length-set,
  take-set_ge,
}
use protos_tpe.Buffer.{Buffer, IsValid, contents}
use protos_tpe.Buffer.Feed.{feed_lem, consume, consume-finished, consume_more, Field, consume-Field}
use protos_tpe.Auth.{
  Parser, init, ver, ulen_byte, uname_bytes, plen_byte, passwd_bytes, done, finished,
  finished_state, step, parser_feed, auth_version,
}

-- `VER ULEN UNAME PLEN PASSWD`, with what follows.
abbrev pub message : List ℕ → List ℕ → List ℕ → List ℕ
message user pass rest = auth_version ∷ length user ∷ (user ++ (length pass ∷ (pass ++ rest)))

abbrev IsByte : ℕ → Type 0
IsByte c = Unit {0}

module _ (p : Parser) (n : ℕ) where
  abbrev name_at : List ℕ → ℕ → Parser
  name_at arr i = record p { state = uname_bytes; ulen = n; uname = arr; uname_read = i }

  abbrev name_full : List ℕ → Parser
  name_full arr = record p { state = plen_byte; ulen = n; uname = set arr n 0; uname_read = n }

  name-Field : n < 256 → Field finished step IsByte n name_at name_full
  unfolding step
  name-Field le = record {
    reads = λ arr i. refl;
    stores = λ arr i c okc h. ground arith;
    ends = λ arr i c okc h. ground arith;
  }

  abbrev pass_at : List ℕ → ℕ → Parser
  pass_at arr i = record p { state = passwd_bytes; plen = n; passwd = arr; passwd_read = i }

  abbrev pass_full : List ℕ → Parser
  pass_full arr = record p { state = done; plen = n; passwd = set arr n 0; passwd_read = n }

  pass-Field : n < 256 → Field finished step IsByte n pass_at pass_full
  unfolding step
  pass-Field le = record {
    reads = λ arr i. refl;
    stores = λ arr i c okc h. ground arith;
    ends = λ arr i c okc h. ground arith;
  }

All-bytes : (xs : List ℕ) → All IsByte xs
All-bytes [] = tt
All-bytes (x ∷ xs) = (tt, All-bytes xs)

step-ulen_zero : (p : Parser) → p.state ≡ ulen_byte → step p 0 ≡ name_full p 0 p.uname
unfolding step
step-ulen_zero p e = ground arith

step-ulen_suc :
    (p : Parser) (k : ℕ)
    → suc k < 256
    → p.state ≡ ulen_byte
    → step p (suc k) ≡ name_at p (suc k) p.uname 0
unfolding step
step-ulen_suc p k le e = ground arith

step-plen_zero : (p : Parser) → p.state ≡ plen_byte → step p 0 ≡ pass_full p 0 p.passwd
unfolding step
step-plen_zero p e = ground arith

step-plen_suc :
    (p : Parser) (k : ℕ)
    → suc k < 256
    → p.state ≡ plen_byte
    → step p (suc k) ≡ pass_at p (suc k) p.passwd 0
unfolding step
step-plen_suc p k le e = ground arith

-- The length byte and the name behind it.
consume-name :
    (user rest : List ℕ) (p : Parser) (le : length user < 256)
    → p.state ≡ ulen_byte
    → consume finished step p (length user ∷ (user ++ rest))
      ≡ consume finished step (name_full p (length user) (store_from p.uname 0 user)) rest
consume-name [] rest p le e =
    consume_more finished step p 0 rest (ap finished_state e)
    ∙ ap (λ q. consume finished step q rest) (step-ulen_zero p e)
consume-name (x ∷ xs) rest p le e =
    consume_more finished step p (length (x ∷ xs)) (x ∷ (xs ++ rest)) (ap finished_state e)
    ∙ ap (λ q. consume finished step q (x ∷ (xs ++ rest))) (step-ulen_suc p (length xs) le e)
    ∙ consume-Field finished step (name-Field p (length (x ∷ xs)) le) xs rest x 0 p.uname tt
        (All-bytes xs) (omega arith)

consume-pass :
    (pass rest : List ℕ) (p : Parser) (le : length pass < 256)
    → p.state ≡ plen_byte
    → consume finished step p (length pass ∷ (pass ++ rest))
      ≡ consume finished step (pass_full p (length pass) (store_from p.passwd 0 pass)) rest
consume-pass [] rest p le e =
    consume_more finished step p 0 rest (ap finished_state e)
    ∙ ap (λ q. consume finished step q rest) (step-plen_zero p e)
consume-pass (x ∷ xs) rest p le e =
    consume_more finished step p (length (x ∷ xs)) (x ∷ (xs ++ rest)) (ap finished_state e)
    ∙ ap (λ q. consume finished step q (x ∷ (xs ++ rest))) (step-plen_suc p (length xs) le e)
    ∙ consume-Field finished step (pass-Field p (length (x ∷ xs)) le) xs rest x 0 p.passwd tt
        (All-bytes xs) (omega arith)

-- The array holds a text, with a NUL behind it.
abbrev pub HoldsText : List ℕ → List ℕ → Type 0
HoldsText arr text = (take (length text) arr ≡ text) × (get_elem? arr (length text) ≡ some 0)

HoldsText-stored :
    (arr text : List ℕ)
    → length text < length arr
    → HoldsText (set (store_from arr 0 text) (length text) 0) text
HoldsText-stored arr text h =
    let stored = store_from arr 0 text in
    (
      take-set_ge stored (length text) (length text) 0 (omega arith)
          ∙ ap (λ k. take k stored) {y = 0 + length text} (omega arith)
          ∙ take-store_from text arr 0 (omega arith),
      get_elem?-set_self stored (length text) 0 (omega (arith, length-store_from text arr 0)),
    )

-- What a whole message leaves in the parser.
pub record Parsed (user pass : List ℕ) (q : Parser) : Type 0 where
  pub is_done : q.state ≡ done
  pub ulen_is : q.ulen ≡ length user
  pub uname_is : HoldsText q.uname user
  pub plen_is : q.plen ≡ length pass
  pub passwd_is : HoldsText q.passwd pass

-- A parser whose arrays have the declared size.
pub record IsSized (p : Parser) : Type 0 where
  pub uname_size : length p.uname ≡ 256
  pub passwd_size : length p.passwd ≡ 256

step-version : (p : Parser) → p.state ≡ ver → step p auth_version ≡ record p { state = ulen_byte }
unfolding step
step-version p e = ground arith

-- The parser after the whole message.
finals : Parser → List ℕ → List ℕ → Parser
finals p user pass = record p {
  state = done;
  ulen = length user;
  uname_read = length user;
  uname = set (store_from p.uname 0 user) (length user) 0;
  plen = length pass;
  passwd_read = length pass;
  passwd = set (store_from p.passwd 0 pass) (length pass) 0;
}

consume-message_from :
    (user pass rest : List ℕ) (p : Parser)
    → p.state ≡ ver
    → length user < 256
    → length pass < 256
    → consume finished step p (message user pass rest) ≡ (finals p user pass, rest)
unfolding finals
consume-message_from user pass rest p e hu hp =
    let after_version = record p { state = ulen_byte } in
    let tail = length pass ∷ (pass ++ rest) in
    let after_name = name_full after_version (length user) (store_from p.uname 0 user) in
    consume_more finished step p auth_version (length user ∷ (user ++ tail)) (ap finished_state e)
    ∙ ap (λ q. consume finished step q (length user ∷ (user ++ tail))) (step-version p e)
    ∙ consume-name user tail after_version hu refl
    ∙ consume-pass pass rest after_name hp refl
    ∙ consume-finished finished step (finals p user pass) rest refl

finals-Parsed :
    (user pass : List ℕ) (p : Parser)
    → IsSized p
    → length user < 256
    → length pass < 256
    → Parsed user pass (finals p user pass)
unfolding finals
finals-Parsed user pass p s hu hp = record {
  is_done = refl;
  ulen_is = refl;
  uname_is = HoldsText-stored p.uname user (omega arith);
  plen_is = refl;
  passwd_is = HoldsText-stored p.passwd pass (omega arith);
}

-- A complete message with a user name and a password of at most 255 bytes each, in a valid buffer
-- with any bytes behind it, is parsed, by a parser whose arrays have their declared size, to the
-- user name and the password, each NUL-terminated in its array; the bytes behind it stay in the
-- buffer.
pub auth_feed-message :
    (user pass rest : List ℕ) (p : Parser) {b : Buffer}
    → IsSized p
    → IsValid b
    → contents b ≡ message user pass rest
    → length user < 256
    → length pass < 256
    → (q : Parser) × (b' : Buffer) × (parser_feed (init p) b ≡ some (q, b'))
      × Parsed user pass q
      × (contents b' ≡ rest)
      × IsValid b'
unfolding parser_feed init
auth_feed-message user pass rest p {b} s v e hu hp =
    let start = init p in
    let (b', runs, left) = feed_lem finished step start v (λ nil. cc) in
    let whole =
      ap (consume finished step start) e ∙ consume-message_from user pass rest start refl hu hp in
    (
      finals start user pass,
      b',
      rw whole at runs,
      finals-Parsed user pass start
          (record {
            uname_size = length-set p.uname 0 0 ∙ s.uname_size;
            passwd_size = length-set p.passwd 0 0 ∙ s.passwd_size;
          })
          hu hp,
      rw whole at left.left,
      left.valid,
    )
