-- ===== src/Auth/Headers.antt =====
-- src/auth.rs: the cookie that `session_cookie_header` sets is the one that `session_token` reads.
use mathlib.Core.List.{append_assoc}
use crypto_nav_manager.Base.{
  ℕ, ◌==◌, ◌≡◌, refl, ap, ◌∙◌, false, inl, inr, Option-cases, none, some, List, [], ◌∷◌, ◌++◌, All,
  All-append, arith, if◌then◌else◌,
}
use crypto_nav_manager.Base.Text.{codes, is_blank, trim, trim_start, trim_end, prepend, split}
use crypto_nav_manager.Auth.Cookies.{pair_token, first_token, session_token}
use crypto_nav_manager.Auth.Middleware.{session_cookie_header, clear_cookie_header, ttl_digits}

-- Neither a blank nor the end of a pair.
abbrev pub IsTokenByte : ℕ → Type 0
IsTokenByte c = (is_blank c ≡ false) × ((c == b';') ≡ false)

-- The name and the value of a cookie that is set, in front of its attributes.
abbrev pub cookie_pair : List ℕ → List ℕ
cookie_pair [] = []
cookie_pair (c ∷ cs) = if c == b';' then [] else c ∷ cookie_pair cs

cookie_pair-value :
    (token rest : List ℕ) → All IsTokenByte token → cookie_pair (token ++ b';' ∷ rest) ≡ token
cookie_pair-value [] rest a = refl
cookie_pair-value (c ∷ cs) rest ((b, h), a) = rw h (ap (λ ds. c ∷ ds) (cookie_pair-value cs rest a))

-- A pair does not have the end of a pair in it.
abbrev pub IsPair : List ℕ → Type 0
IsPair = All (λ c. (c == b';') ≡ false)

-- These pairs in one header.
abbrev pub cookie_header : List (List ℕ) → List ℕ
cookie_header [] = []
cookie_header (p ∷ []) = p
cookie_header (p ∷ q ∷ qs) = p ++ (b';' ∷ b' ' ∷ cookie_header (q ∷ qs))

split-own : (xs : List ℕ) → IsPair xs → split b';' xs ≡ xs ∷ []
split-own [] a = refl
split-own (c ∷ cs) (h, a) = rw (h, split-own cs a) refl

split-pair : (xs rest : List ℕ) → IsPair xs → split b';' (xs ++ b';' ∷ rest) ≡ xs ∷ split b';' rest
split-pair [] rest a = refl
split-pair (c ∷ cs) rest (h, a) = rw (h, split-pair cs rest a) refl

first_token-prepend : (parts : List (List ℕ)) → first_token (prepend 32 parts) ≡ first_token parts
unfolding first_token pair_token trim trim_start
first_token-prepend [] = refl
first_token-prepend (p ∷ ps) = refl

first_token-after :
    (p : List ℕ) (ps qs : List (List ℕ))
    → first_token ps ≡ first_token qs
    → first_token (p ∷ ps) ≡ first_token (p ∷ qs)
unfolding first_token
first_token-after p ps qs h = ap (λ r. elim (pair_token p) [ some token ↦ some token | none ↦ r ]) h

first_token-cookie_header :
    (ps : List (List ℕ))
    → All IsPair ps
    → first_token (split b';' (cookie_header ps)) ≡ first_token ps
unfolding first_token
first_token-cookie_header [] a = refl
first_token-cookie_header (p ∷ []) (h, a) = ap first_token (split-own p h)
first_token-cookie_header (p ∷ q ∷ qs) (h, a) =
    ap first_token (split-pair p (b' ' ∷ cookie_header (q ∷ qs)) h)
    ∙ first_token-after p (split b';' (b' ' ∷ cookie_header (q ∷ qs))) (q ∷ qs) (
        first_token-prepend (split b';' (cookie_header (q ∷ qs)))
        ∙ first_token-cookie_header (q ∷ qs) a)

trim_end-value : (xs : List ℕ) → All IsTokenByte xs → trim_end xs ≡ xs
unfolding trim_end
trim_end-value [] a = refl
trim_end-value (c ∷ []) ((h, s), a) = rw h refl
trim_end-value (c ∷ d ∷ ds) (h, a) = rw (trim_end-value (d ∷ ds) a) refl

trim_start-value : (xs : List ℕ) → All IsTokenByte xs → trim_start xs ≡ xs
unfolding trim_start
trim_start-value [] a = refl
trim_start-value (c ∷ cs) ((h, s), a) = rw h refl

trim-value : (xs : List ℕ) → All IsTokenByte xs → trim xs ≡ xs
unfolding trim
trim-value xs a = rw (trim_start-value xs a) (trim_end-value xs a)

trim_end-append :
    (xs : List ℕ) (c : ℕ) (cs : List ℕ)
    → trim_end (c ∷ cs) ≡ c ∷ cs
    → trim_end (xs ++ c ∷ cs) ≡ xs ++ c ∷ cs
unfolding trim_end
trim_end-append [] c cs h = h
trim_end-append (x ∷ []) c cs h = rw h refl
trim_end-append (x ∷ y ∷ ys) c cs h = rw (trim_end-append (y ∷ ys) c cs h) refl

first_token-append :
    (ps qs : List (List ℕ)) → first_token ps ≡ none → first_token (ps ++ qs) ≡ first_token qs
unfolding first_token
first_token-append [] qs h = refl
first_token-append (p ∷ ps) qs h = elim (Option-cases (pair_token p)) [
  | inl e ↦ rw (first_token, e) (first_token-append ps qs (rw (first_token, e) at h))
  | inr (t, e) ↦ let g = rw (first_token, e) at h in cc
]

pair_token-value :
    (c : ℕ) (cs : List ℕ)
    → All IsTokenByte (c ∷ cs)
    → pair_token (codes "nav_session=" ++ c ∷ cs) ≡ some (c ∷ cs)
unfolding pair_token trim trim_start
pair_token-value c cs a =
    rw
      (
        trim_end-append (codes "nav_session=") c cs (trim_end-value (c ∷ cs) a),
        trim-value (c ∷ cs) a,
      )
      refl

IsPair-append : (xs ys : List ℕ) → IsPair xs → IsPair ys → IsPair (xs ++ ys)
IsPair-append xs ys a b = All-append _ xs ys a b

token-IsPair : (xs : List ℕ) → All IsTokenByte xs → IsPair xs
token-IsPair [] a = tt
token-IsPair (c ∷ cs) ((b, h), a) = (h, token-IsPair cs a)

session_token-sent :
    (before after : List (List ℕ)) (own : List ℕ)
    → first_token before ≡ none
    → All IsPair before
    → All IsPair after
    → IsPair own
    → session_token (some (cookie_header (before ++ own ∷ after))) ≡ first_token (own ∷ after)
unfolding session_token
session_token-sent before after own missing b a o =
    first_token-cookie_header (before ++ own ∷ after)
      (All-append IsPair before (own ∷ after) b (o, a))
    ∙ first_token-append before (own ∷ after) missing

own-session_cookie_header :
    (token : List ℕ)
    → All IsTokenByte token
    → cookie_pair (session_cookie_header token) ≡ codes "nav_session=" ++ token
unfolding session_cookie_header
own-session_cookie_header token a =
    ap (λ cs. codes "nav_session=" ++ cookie_pair cs) (append_assoc token _ ttl_digits)
    ∙ ap (λ cs. codes "nav_session=" ++ cs) (cookie_pair-value token _ a)

-- The round trip of a session's cookie: a `Cookie` header with the pair that `session_cookie_header` sets, among
-- other pairs of which none in front of it gives a token, gives the token, where the token is not empty and has
-- no blank and no semicolon. With the pair that `clear_cookie_header` sets, it gives what the pairs after it give.
pub session_token-session_cookie_header :
    (before after : List (List ℕ)) (c : ℕ) (cs : List ℕ)
    → first_token before ≡ none
    → All IsPair before
    → All IsPair after
    → All IsTokenByte (c ∷ cs)
    → (session_token
          (some (cookie_header (before ++ cookie_pair (session_cookie_header (c ∷ cs)) ∷ after)))
        ≡ some (c ∷ cs))
      × (session_token (some (cookie_header (before ++ cookie_pair clear_cookie_header ∷ after)))
          ≡ first_token after)
unfolding clear_cookie_header first_token pair_token trim trim_start trim_end
session_token-session_cookie_header before after c cs missing b a t =
    let own = codes "nav_session=" ++ c ∷ cs in
    let whole : IsPair own =
      IsPair-append (codes "nav_session=") (c ∷ cs) (ground arith) (token-IsPair (c ∷ cs) t) in
    (
      rw (own-session_cookie_header (c ∷ cs) t) (
          session_token-sent before after own missing b a whole
          ∙ rw (first_token, pair_token-value c cs t) refl),
      session_token-sent before after (codes "nav_session=") missing b a (ground arith) ∙ refl,
    )
