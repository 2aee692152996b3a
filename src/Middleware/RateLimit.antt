-- ===== src/Middleware/RateLimit.antt =====
-- ratelimit.go of backend/internal/platform/httpx/middleware: one token bucket for each client
-- address. The buckets are golang.org/x/time/rate's, addresses and prefixes net/netip's.
use smartclass.Prelude.{
  ℕ, ◌-◌, Bool, false, ◌||◌, ◌&&◌, not, Option, none, some, List, [], ◌∷◌, ◌≡◌, ◌==◌, nat_eq,
  text_eq, if◌then◌else◌, ltb, arith,
}
use smartclass.Prelude.Dict.{Dict, get, put, remove_where, get-put}
use smartclass.Prelude.Text.{Text, is_nil, trim_space}

pub record Limiters : Type 1 where
  pub Limiter : Type 0
  pub new_limiter : Limiter  -- rate.NewLimiter(rl.rps, rl.burst)
  pub allow : ℕ → Limiter → Bool × Limiter  -- Allow, at a time

pub record Addresses : Type 1 where
  pub Address : Type 0
  pub Prefix : Type 0
  pub split_host_port : Text → Option Text
  pub parse_addr : Text → Option Address
  pub contains : Prefix → Address → Bool
  pub is_loopback : Address → Bool
  pub is_private : Address → Bool

-- The remote address of the connection, and X-Forwarded-For, empty where it is missing.
pub record Incoming : Type 0 where
  pub remote_addr : Text
  pub forwarded_for : Text

pub record Visitor (Limiter : Type 0) : Type 0 where
  pub limiter : Limiter
  pub last_seen : ℕ

abbrev pub comma : ℕ
comma = 44

cut : ℕ → Option Text → Option Text
cut c none = none
cut c (some t) = some (c ∷ t)

-- `xff[:comma]` for the first comma
unfoldable pub before_comma : Text → Option Text
unfolding cut
before_comma [] = none
before_comma (c ∷ cs) = let rest = before_comma cs in if c == comma then some [] else cut c rest

abbrev pub filled : Option Text → Text → Text
filled none t = t
filled (some s) t = if is_nil s then t else s

abbrev pub contains_any : (a : Addresses) → List a.Prefix → a.Address → Bool
contains_any a [] ip = false
contains_any a (p ∷ ps) ip = a.contains p ip || contains_any a ps ip

abbrev pub or_whole : Option Text → Text → Text
or_whole none t = t
or_whole (some host) t = host

abbrev pub trusts : (a : Addresses) → List a.Prefix → a.Address → Bool
trusts a [] ip = a.is_loopback ip || a.is_private ip
trusts a (p ∷ ps) ip = contains_any a (p ∷ ps) ip

unfoldable pub is_trusted_proxy : (a : Addresses) → List a.Prefix → Text → Bool
is_trusted_proxy a trusted addr = elim (a.parse_addr (or_whole (a.split_host_port addr) addr)) [
  | none ↦ false
  | some ip ↦ trusts a trusted ip
]

-- clientIP; a list that begins with a comma is taken whole.
unfoldable pub client_ip : (a : Addresses) → List a.Prefix → Incoming → Text
client_ip a trusted r =
    if not (is_nil r.forwarded_for) && is_trusted_proxy a trusted r.remote_addr
    then trim_space (filled (before_comma r.forwarded_for) r.forwarded_for)
    else or_whole (a.split_host_port r.remote_addr) r.remote_addr

abbrev pub limiter_of : (l : Limiters) → Option (Visitor l.Limiter) → l.Limiter
limiter_of l none = l.new_limiter
limiter_of l (some v) = v.limiter

-- Middleware: `get`, then Allow; whether the request goes on
unfoldable pub limit :
    (l : Limiters) (a : Addresses)
    → List a.Prefix
    → ℕ
    → Incoming
    → Dict Text (Visitor l.Limiter)
    → Bool × Dict Text (Visitor l.Limiter)
limit l a trusted now r visitors =
    let key = client_ip a trusted r in
    let answer = l.allow now (limiter_of l (get visitors key)) in
    (answer.0, put visitors key (record { limiter = answer.1; last_seen = now }))

-- five minutes
abbrev pub ttl : ℕ
ttl = 300

-- A tick of cleanupLoop
unfoldable pub cleanup_visitors :
    {Limiter : Type 0} → ℕ → Dict Text (Visitor Limiter) → Dict Text (Visitor Limiter)
cleanup_visitors now visitors = remove_where (λ k v. ltb ttl (now - v.last_seen)) visitors

client_ip_untrusted :
    (a : Addresses) (trusted : List a.Prefix) (r : Incoming) (xff : Text)
    → is_trusted_proxy a trusted r.remote_addr ≡ false
    → client_ip a trusted (record r { forwarded_for = xff }) ≡ client_ip a trusted r
unfolding client_ip
client_ip_untrusted a trusted r xff untrusted = ground (arith, untrusted)

-- What a client may do does not hang on the headers that it makes up, unless it is a trusted proxy,
-- and not on the requests of clients with another address.
pub limit_own :
    (l : Limiters) (a : Addresses) (trusted : List a.Prefix) (now now' : ℕ) (r r' : Incoming)
    (xff : Text) (visitors : Dict Text (Visitor l.Limiter))
    → is_trusted_proxy a trusted r.remote_addr ≡ false
    → (limit l a trusted now (record r { forwarded_for = xff }) visitors
        ≡ limit l a trusted now r visitors)
      × (client_ip a trusted r' == client_ip a trusted r ≡ false
          → (limit l a trusted now r (limit l a trusted now' r' visitors).1).0
            ≡ (limit l a trusted now r visitors).0)
unfolding limit
limit_own l a trusted now now' r r' xff visitors untrusted = (
  ground (arith, client_ip_untrusted a trusted r xff untrusted),
  λ other.
      let key = client_ip a trusted r' in
      ground (
        arith,
        other,
        get-put visitors key (client_ip a trusted r) (record {
          limiter = (l.allow now' (limiter_of l (get visitors key))).1;
          last_seen = now';
        }),
      ),
)
