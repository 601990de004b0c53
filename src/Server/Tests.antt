-- ===== src/Server/Tests.antt =====
-- Runs of internal/server/middleware.go: a limit of two requests, a peer that is a trusted proxy, and two
-- callers of one workspace.
use district_scheduler.Common.{
  ℕ, ◌≡◌, refl, ◌≤◌, Bool, true, false, Option, none, some, List, [], ◌∷◌, arith, ◌==◌,
}
use district_scheduler.Server.RateLimit.{RateLimiter, allow, cleanup}
use district_scheduler.Server.RateLimit.Budget.{
  Event, request, tick, admissions, is_idle, admissions_bounded,
}
use district_scheduler.Server.ClientIp.{
  Addresses, resolve_client_ip, join_lines, split_hops, client_ip_unforged,
}
use district_scheduler.Server.Bucket.{
  TextFunctions, Caller, rate_limit_key, strip_port, request_credential, SameCaller,
  rate_limit_key_separates,
}

abbrev two_a_period : RateLimiter
two_a_period = record { windows = []; limit = 2; period = 60 }

abbrev traffic : List Event
traffic = request 1 7 ∷ request 2 7 ∷ request 3 8 ∷ tick 4 ∷ request 5 7 ∷ []

admissions_bounded_example :
    ((allow 0 7 two_a_period).0 ≡ true) × (admissions 7 (request 0 7 ∷ traffic) two_a_period ≤ 2)
unfolding is_idle allow
admissions_bounded_example = admissions_bounded 7 0 traffic two_a_period (omega arith) refl refl

-- Two requests of the key are let through, and no third.
admissions-traffic : admissions 7 (request 0 7 ∷ traffic) two_a_period ≡ 2
unfolding admissions allow cleanup
admissions-traffic = refl

-- Each text of one digit is an address, and `1` is the proxy's.
abbrev digits_read : List ℕ → Option (List ℕ)
digits_read [] = none
digits_read (c ∷ cs) = some (c ∷ cs)

abbrev is_proxy : List ℕ → Bool
is_proxy [] = false
is_proxy (c ∷ cs) = c == b'1'

abbrev one_digit : Addresses
one_digit = record { read = digits_read; trusts = is_proxy }

client_ip_unforged_example :
    (resolve_client_ip one_digit (b'1' ∷ []) ((b'6' ∷ []) ∷ (b'5' ∷ []) ∷ [])
      ≡ resolve_client_ip one_digit (b'1' ∷ []) ((b'5' ∷ []) ∷ []))
    × (is_proxy (b'1' ∷ []) ≡ false
        → resolve_client_ip one_digit (b'1' ∷ []) ((b'6' ∷ []) ∷ (b'5' ∷ []) ∷ []) ≡ b'1' ∷ [])
unfolding join_lines split_hops
client_ip_unforged_example =
    client_ip_unforged one_digit (b'1' ∷ []) ((b'6' ∷ []) ∷ []) (b'5' ∷ []) [] refl refl

behind_proxy : resolve_client_ip one_digit (b'1' ∷ []) ((b'6' ∷ []) ∷ (b'5' ∷ []) ∷ []) ≡ b'5' ∷ []
unfolding resolve_client_ip
behind_proxy = refl

abbrev same_text : List ℕ → List ℕ
same_text t = t

abbrev texts : TextFunctions
texts = record { lower = same_text; trim = same_text; is_bearer = λ t. false; hash = same_text }

abbrev visitor : Caller
visitor = record {
  host = b'w' ∷ b':' ∷ b'8' ∷ [];
  api_key = b'k' ∷ [];
  authorization = [];
  session = [];
  ip = b'5' ∷ [];
}

-- The same key of the same workspace, from elsewhere.
abbrev elsewhere : Caller
elsewhere = record visitor { host = b'w' ∷ []; ip = b'6' ∷ [] }

rate_limit_key_separates_example :
    (strip_port visitor.host ≡ strip_port elsewhere.host)
    × SameCaller texts visitor.ip elsewhere.ip
        (request_credential texts visitor)
        (request_credential texts elsewhere)
unfolding rate_limit_key strip_port request_credential
rate_limit_key_separates_example = rate_limit_key_separates texts visitor elsewhere refl refl refl
