-- ===== src/Server/Bucket.antt =====
-- `rateLimitKey` and `requestCredential` of internal/server/middleware.go: which bucket of a rate limit a
-- request counts against. Text is the list of its bytes.
use district_scheduler.Common.{
  ℕ, zero, suc, ◌≡◌, refl, ap, Bool, true, false, not, ◌&&◌, ◌||◌, List, [], ◌∷◌, ◌++◌, arith, ltb,
  ◌==◌, if◌then◌else◌, any, length,
}

-- The library's text functions: `strings.ToLower`, `strings.TrimSpace`, whether a text is "bearer " up to
-- case (`strings.EqualFold`), and the first eight bytes of SHA-256 in hexadecimal.
pub record TextFunctions : Type 0 where
  pub lower : List ℕ → List ℕ
  pub trim : List ℕ → List ℕ
  pub is_bearer : List ℕ → Bool
  pub hash : List ℕ → List ℕ

-- What the limiter reads of a request; a header or a cookie that is missing is the empty text.
pub record Caller : Type 0 where
  pub host : List ℕ
  pub api_key : List ℕ
  pub authorization : List ℕ
  pub session : List ℕ
  pub ip : List ℕ

unfoldable pub take_bytes : ℕ → List ℕ → List ℕ
take_bytes zero cs = []
take_bytes (suc n) [] = []
take_bytes (suc n) (c ∷ cs) = c ∷ take_bytes n cs

unfoldable pub drop_bytes : ℕ → List ℕ → List ℕ
drop_bytes zero cs = cs
drop_bytes (suc n) [] = []
drop_bytes (suc n) (c ∷ cs) = drop_bytes n cs

-- `host[:i]` for the last colon at `i`, where no dot follows it. With a colon further on, this one is not
-- the last.
unfoldable pub strip_port : List ℕ → List ℕ
strip_port [] = []
strip_port (c ∷ cs) =
    let rest = strip_port cs in
    if c == b':' && not (any (λ d. d == b':' || d == b'.') cs) then [] else c ∷ rest

abbrev pub or_else : List ℕ → List ℕ → List ℕ
or_else [] next = next
or_else (c ∷ cs) next = c ∷ cs

module _ (f : TextFunctions) where
  open f use {lower, trim, is_bearer, hash}

  abbrev pub bearer_of : List ℕ → List ℕ
  bearer_of text =
      if ltb 7 (length text) && is_bearer (take_bytes 7 text) then trim (drop_bytes 7 text) else []

  -- The API key, or else the bearer value, or else the session cookie.
  unfoldable pub request_credential : Caller → List ℕ
  unfolding take_bytes drop_bytes
  request_credential r =
      or_else (trim r.api_key) (or_else (bearer_of (trim r.authorization)) r.session)

  abbrev pub key_of : List ℕ → List ℕ → List ℕ → List ℕ
  key_of host ip [] = host ++ b'|' ∷ b'i' ∷ b'p' ∷ b':' ∷ ip
  key_of host ip (c ∷ cs) = host ++ b'|' ∷ b'c' ∷ b':' ∷ hash (c ∷ cs)

  unfoldable pub rate_limit_key : Bool → Caller → List ℕ
  unfolding strip_port request_credential
  rate_limit_key multi_tenant r =
      if not multi_tenant
      then r.ip
      else key_of (strip_port (lower r.host)) r.ip (request_credential r)

head_of : ℕ → List ℕ → ℕ
head_of d [] = d
head_of d (c ∷ cs) = c

tail_of : List ℕ → List ℕ
tail_of [] = []
tail_of (c ∷ cs) = cs

-- What stands before and behind the first bar is determined by the text.
bar_splits :
    (h k r s : List ℕ)
    → any (λ c. c == b'|') h ≡ false
    → any (λ c. c == b'|') k ≡ false
    → h ++ b'|' ∷ r ≡ k ++ b'|' ∷ s
    → (h ≡ k) × (r ≡ s)
unfolding head_of tail_of
bar_splits [] [] r s p q e = (refl, ap tail_of e)
bar_splits [] (d ∷ ks) r s p q e = absurd (ground (arith, ap (head_of 0) e))
bar_splits (c ∷ hs) [] r s p q e = absurd (ground (arith, ap (head_of 0) e))
bar_splits (c ∷ hs) (d ∷ ks) r s p q e =
    let (same, rest) = bar_splits hs ks r s (ground arith) (ground arith) (ap tail_of e) in
    (ground (arith, ap (head_of 0) e, same), rest)

-- Both requests carry a credential and the hashes agree, or neither does and the addresses agree.
abbrev pub SameCaller : TextFunctions → List ℕ → List ℕ → List ℕ → List ℕ → Type 0
SameCaller f ip ip' [] [] = ip ≡ ip'
SameCaller f ip ip' [] (c ∷ cs) = ⊥
SameCaller f ip ip' (c ∷ cs) [] = ⊥
SameCaller f ip ip' (c ∷ cs) (d ∷ ds) = f.hash (c ∷ cs) ≡ f.hash (d ∷ ds)

key_of-same :
    (f : TextFunctions) (h k ip ip' a b : List ℕ)
    → any (λ c. c == b'|') h ≡ false
    → any (λ c. c == b'|') k ≡ false
    → key_of f h ip a ≡ key_of f k ip' b
    → (h ≡ k) × SameCaller f ip ip' a b
unfolding head_of tail_of
key_of-same f h k ip ip' [] [] p q e =
    let (same, rest) = bar_splits h k (b'i' ∷ b'p' ∷ b':' ∷ ip) (b'i' ∷ b'p' ∷ b':' ∷ ip') p q e in
    (same, ap (λ t. tail_of (tail_of (tail_of t))) rest)
key_of-same f h k ip ip' [] (c ∷ cs) p q e =
    let (same, rest) =
      bar_splits h k (b'i' ∷ b'p' ∷ b':' ∷ ip) (b'c' ∷ b':' ∷ f.hash (c ∷ cs)) p q e in
    absurd (ground (arith, ap (head_of 0) rest))
key_of-same f h k ip ip' (c ∷ cs) [] p q e =
    let (same, rest) =
      bar_splits h k (b'c' ∷ b':' ∷ f.hash (c ∷ cs)) (b'i' ∷ b'p' ∷ b':' ∷ ip') p q e in
    absurd (ground (arith, ap (head_of 0) rest))
key_of-same f h k ip ip' (c ∷ cs) (d ∷ ds) p q e =
    let (same, rest) =
      bar_splits h k (b'c' ∷ b':' ∷ f.hash (c ∷ cs)) (b'c' ∷ b':' ∷ f.hash (d ∷ ds)) p q e in
    (same, ap (λ t. tail_of (tail_of t)) rest)

-- With several tenants, two requests share a bucket only when they name one workspace host, and either
-- carry credentials of one hash or, both without a credential, come from one address. Host names hold no
-- bar.
pub rate_limit_key_separates :
    (f : TextFunctions) (r s : Caller)
    → any (λ c. c == b'|') (strip_port (f.lower r.host)) ≡ false
    → any (λ c. c == b'|') (strip_port (f.lower s.host)) ≡ false
    → rate_limit_key f true r ≡ rate_limit_key f true s
    → (strip_port (f.lower r.host) ≡ strip_port (f.lower s.host))
      × SameCaller f r.ip s.ip (request_credential f r) (request_credential f s)
unfolding rate_limit_key
rate_limit_key_separates f r s p q e =
    key_of-same f (strip_port (f.lower r.host)) (strip_port (f.lower s.host)) r.ip s.ip
      (request_credential f r) (request_credential f s) p q e
