-- ===== src/Line/Tokens.antt =====
-- The tokenizer against words that spaces separate.
use protos_tpe.Prelude.{
  ℕ, zero, suc, ◌≡◌, ◌≢◌, refl, ap, ◌∙◌, sym, List, [], ◌∷◌, ◌++◌, arith, All, take, take-nil,
  replicate, append-nil,
}
use protos_tpe.Line.{space, skip_spaces, take_token, tokenize}

abbrev pub NoSpace : List ℕ → Type 0
NoSpace = All (λ c. c ≢ space)

-- A word: at least one byte, and no space.
abbrev pub IsWord : List ℕ → Type 0
IsWord w = (w ≢ []) × NoSpace w

-- Words behind any number of spaces each, but at least one between two of them, and `k` spaces at
-- the end.
abbrev pub spread : ℕ → List (ℕ × List ℕ) → List ℕ
spread k [] = replicate k space
spread k ((n, w) ∷ []) = replicate n space ++ (w ++ replicate k space)
spread k ((n, w) ∷ x ∷ ws) = replicate n space ++ (w ++ space ∷ spread k (x ∷ ws))

abbrev pub words : List (ℕ × List ℕ) → List (List ℕ)
words [] = []
words ((n, w) ∷ ws) = w ∷ words ws

abbrev pub AllWords : List (ℕ × List ℕ) → Type 0
AllWords [] = Unit
AllWords ((n, w) ∷ ws) = IsWord w × AllWords ws

skip_spaces-replicate : (n : ℕ) (s : List ℕ) → skip_spaces (replicate n space ++ s) ≡ skip_spaces s
unfolding skip_spaces
skip_spaces-replicate zero s = refl
skip_spaces-replicate (suc n) s = skip_spaces-replicate n s

skip_spaces_stop : (c : ℕ) (cs : List ℕ) → c ≢ space → skip_spaces (c ∷ cs) ≡ c ∷ cs
unfolding skip_spaces
skip_spaces_stop c cs h = ground arith

take_token-word : (w rest : List ℕ) → NoSpace w → take_token (w ++ space ∷ rest) ≡ (w, rest)
unfolding take_token
take_token-word [] rest h = refl
take_token-word (c ∷ cs) rest h = ground (arith, take_token-word cs rest h.1)

tokenize-cons :
    (k : ℕ) (s : List ℕ) (c : ℕ) (cs : List ℕ)
    → skip_spaces s ≡ c ∷ cs
    → tokenize (suc k) s ≡ (take_token (c ∷ cs)).0 ∷ tokenize k (take_token (c ∷ cs)).1
unfolding tokenize
tokenize-cons k s c cs h = rw (h, tokenize)

take_token-end : (w : List ℕ) → NoSpace w → take_token w ≡ (w, [])
unfolding take_token
take_token-end [] h = refl
take_token-end (c ∷ cs) h = ground (arith, take_token-end cs h.1)

skip_spaces-only : (k : ℕ) → skip_spaces (replicate k space) ≡ []
unfolding skip_spaces
skip_spaces-only zero = refl
skip_spaces-only (suc k) = skip_spaces-only k

tokenize-nil : (m k : ℕ) → tokenize m (replicate k space) ≡ []
unfolding tokenize
tokenize-nil zero k = refl
tokenize-nil (suc m) k = rw (skip_spaces-only k, tokenize)

-- The first token, if a word is followed by the end of the text or by a space.
tokenize-word :
    (m n c : ℕ) (cs after rest : List ℕ)
    → IsWord (c ∷ cs)
    → take_token ((c ∷ cs) ++ after) ≡ (c ∷ cs, rest)
    → tokenize (suc m) (replicate n space ++ ((c ∷ cs) ++ after)) ≡ (c ∷ cs) ∷ tokenize m rest
tokenize-word m n c cs after rest h e =
    tokenize-cons m (replicate n space ++ ((c ∷ cs) ++ after)) c (cs ++ after)
      (skip_spaces-replicate n ((c ∷ cs) ++ after) ∙ skip_spaces_stop c (cs ++ after) h.1.0)
    ∙ rw e

-- The tokens of words that are not empty and contain no space, with any number of spaces before and
-- behind and at least one between two words, are the first `max_args` of the words.
pub tokenize-spread :
    (ws : List (ℕ × List ℕ)) (k max_args : ℕ)
    → AllWords ws
    → tokenize max_args (spread k ws) ≡ take max_args (words ws)
tokenize-spread ws k zero h = unfold tokenize in refl
tokenize-spread [] k (suc m) h = tokenize-nil (suc m) k
tokenize-spread ((n, []) ∷ ws) k (suc m) h = absurd (h.0.0 refl)
tokenize-spread ((n, c ∷ cs) ∷ []) zero (suc m) h =
    tokenize-word m n c cs [] [] h.0
      (ap take_token (append-nil (c ∷ cs)) ∙ take_token-end (c ∷ cs) h.0.1)
    ∙ ap (λ ts. (c ∷ cs) ∷ ts) (tokenize-nil m 0 ∙ sym (take-nil m))
tokenize-spread ((n, c ∷ cs) ∷ []) (suc k) (suc m) h =
    tokenize-word m n c cs (replicate (suc k) space) (replicate k space) h.0
      (take_token-word (c ∷ cs) (replicate k space) h.0.1)
    ∙ ap (λ ts. (c ∷ cs) ∷ ts) (tokenize-nil m k ∙ sym (take-nil m))
tokenize-spread ((n, c ∷ cs) ∷ x ∷ ws) k (suc m) h =
    tokenize-word m n c cs (space ∷ spread k (x ∷ ws)) (spread k (x ∷ ws)) h.0
      (take_token-word (c ∷ cs) (spread k (x ∷ ws)) h.0.1)
    ∙ ap (λ ts. (c ∷ cs) ∷ ts) (tokenize-spread (x ∷ ws) k m h.1)
