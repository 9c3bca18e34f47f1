-- ===== src/Tests/CacheRuns.antt =====
-- The cache over the Redis in memory, and the application that it knows.
use llmgov.Base.{
  ℕ, ◌≡◌, ◌≢◌, refl, List, [], ◌∷◌, map, Option, none, some, Text, Lacks, codes, strip, head-eq,
  arith,
}
use llmgov.Auth.{auth_unavailable, authenticate_api_key}
use llmgov.Models.{ChatMessage}
use llmgov.Cache.{normalize, normalized_text, Json, set_commands, set_cached_completion}
use llmgov.Cache.Hash.{normal_form, normalized_text_inj}
use llmgov.Cache.Store.{RoundTrips}
use llmgov.Tests.Store.{Db, memory, accounts}

abbrev same_text : Text → Text
same_text t = t

abbrev pub quoted : Json Text
quoted = record { dumps = λ t. b'"' ∷ t; loads = λ t. elim t [ [] ↦ none | c ∷ rest ↦ some rest ] }

pub quoted-RoundTrips : RoundTrips quoted
quoted-RoundTrips = record { not_empty = λ v. refl; loads-dumps = λ v. refl }

abbrev key : Text
key = codes "k1"

abbrev known : Db
known = accounts (codes "llmgov:auth:k1")

no_client : authenticate_api_key memory same_text key 0 none ≡ auth_unavailable
unfolding authenticate_api_key
no_client = refl

v1-Lacks : Lacks b':' (codes "v1")
v1-Lacks = (λ e. omega arith, (λ e. omega arith, tt))

h-Lacks : Lacks b':' (codes "h")
h-Lacks = (λ e. omega arith, tt)

abbrev spoken : Text → ChatMessage
spoken content = record { role = codes "u"; content = content }

abbrev padded : List ChatMessage
padded = spoken (codes " hi") ∷ []

abbrev trimmed : List ChatMessage
trimmed = spoken (codes "hi") ∷ []

normalized_text_inj_example :
    map (normal_form same_text) padded ≡ map (normal_form same_text) trimmed
unfolding normalize strip normalized_text
normalized_text_inj_example =
    normalized_text_inj same_text padded trimmed
      (((λ e. omega arith, tt), (λ e. omega arith, (λ e. omega arith, tt))), tt)
      (((λ e. omega arith, tt), (λ e. omega arith, (λ e. omega arith, tt))), tt) refl

-- What an answer `p` leaves in the cache for `v1`, `m` and `h`.
abbrev cached : Option Db
cached =
    set_cached_completion memory quoted (codes "v1") (codes "m") (codes "h") (codes "p")
      (codes "[]") 0 (some known)

abbrev after_write : Db
after_write =
    (memory.transaction 0
      (set_commands memory quoted (codes "v1") (codes "m") (codes "h") (codes "p") (codes "[]"))
      known).1

m-ne-n : codes "m" ≢ codes "n"
m-ne-n e = let same : ◌≡◌ {A = ℕ} b'm' b'n' = head-eq e in absurd (omega arith)
