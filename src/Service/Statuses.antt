-- ===== src/Service/Statuses.antt =====
-- `Providers` and `ProviderStatuses` of service.go.
use procyon_modules.Base.{
  ℕ, ◌/◌, ◌≡◌, refl, subst, Bool, true, false, ◌&&◌, ◌||◌, Option, none, some, List, [], ◌∷◌, All,
  arith, ltb, eqb, if◌then◌else◌, map, Option-cases, inl, inr,
}
use procyon_modules.Base.Text.{Text, normalized}
use procyon_modules.Models.Inputs.{PaymentProviderStatus}
use procyon_modules.Exec.{Result, ok, err, World, ProviderMetrics}
use procyon_modules.Config.{Platform, RuntimeConfig}
use procyon_modules.Service.{
  PaymentSystemService, Provider, Factory, lookup, missing, new_payment_system_service, complete,
  completed, register_all,
}

-- The order of Go's strings: by their bytes.
unfoldable pub text_le : Text → Text → Bool
text_le [] t = true
text_le (c ∷ s) [] = false
text_le (c ∷ s) (d ∷ t) = let rest = text_le s t in ltb c d || (eqb c d && rest)

abbrev insert_name : Text → List Text → List Text
insert_name name [] = name ∷ []
insert_name name (n ∷ ns) =
    let further = n ∷ insert_name name ns in if text_le name n then name ∷ n ∷ ns else further

-- `sort.Strings`
unfoldable pub sort_names : List Text → List Text
unfolding text_le
sort_names [] = []
sort_names (n ∷ ns) = insert_name n (sort_names ns)

abbrev pub is_ready : Option Provider → Bool
is_ready none = false
is_ready (some p) = true

-- The sum of the latencies in microseconds, and the number of requests: the average of the source
-- is their quotient in floating point, over 1000, and 0 where there is no request.
abbrev average_of : ProviderMetrics → ℕ × ℕ
average_of metric = (metric.total_latency / 1000, metric.requests)

module _ (s : PaymentSystemService) where
  -- `Providers`
  unfoldable pub provider_names : List Text
  unfolding sort_names
  provider_names = sort_names (map (λ entry. entry.0) s.providers)

  abbrev status_of : World → Text → PaymentProviderStatus
  status_of w name = record {
    name = name;
    ready = is_ready (lookup name s.providers);
    requests = (w.metrics name).requests;
    failures = (w.metrics name).failures;
    average_latency = average_of (w.metrics name);
  }

  -- `ProviderStatuses`
  unfoldable pub provider_statuses : World → List PaymentProviderStatus
  unfolding lookup
  provider_statuses w = map (status_of w) s.config.enabled_providers

  -- Every configured provider is there.
  abbrev pub IsComplete : Type 0
  IsComplete = All (λ name. is_ready (lookup name s.providers) ≡ true) s.config.enabled_providers

  All-is_ready :
      (w : World) (names : List Text)
      → All (λ name. is_ready (lookup name s.providers) ≡ true) names
      → All (λ status. status.ready ≡ true) (map (status_of w) names)
  All-is_ready w [] h = tt
  All-is_ready w (n ∷ ns) h = (h.0, All-is_ready w ns h.1)

  -- Where every configured provider is there, every status is "ready".
  pub statuses_ready :
      (w : World) → IsComplete → All (λ status. status.ready ≡ true) (provider_statuses w)
  unfolding provider_statuses
  statuses_ready w h = All-is_ready w s.config.enabled_providers h

All-missing :
    (ps : List (Text × Provider)) (names : List Text)
    → missing ps names ≡ none
    → All (λ name. is_ready (lookup name ps) ≡ true) names
unfolding missing
All-missing ps [] h = tt
All-missing ps (n ∷ ns) h = elim (Option-cases (lookup n ps)) [
  | inl e ↦ absurd (ground (arith, h, e))
  | inr (p, e) ↦ (rw e refl, All-missing ps ns (ground (arith, h, e)))
]

-- A service that `NewPaymentSystemService` returns reports every configured provider as ready,
-- whatever the factories have answered and whatever requests have been counted.
pub new_service-ready :
    (platform : Platform) (config : RuntimeConfig) (parse_url : Text → Option (Text × Text))
    (factories : List Factory) (s : PaymentSystemService) (w : World)
    → new_payment_system_service platform config parse_url factories ≡ ok s
    → All (λ status. status.ready ≡ true) (provider_statuses s w)
unfolding new_payment_system_service
new_service-ready platform config parse_url factories s w h =
    statuses_ready s w (go (register_all (map normalized config.enabled_providers) factories []) h)
  where
    same : (a : PaymentSystemService) → ◌≡◌ {A = Result PaymentSystemService} (ok a) (ok s) → a ≡ s
    same a q = cc

    finished :
        (ps : List (Text × Provider)) (m : Option Text)
        → missing ps config.enabled_providers ≡ m
        → complete platform config parse_url ps m ≡ ok s
        → IsComplete s
    finished ps none e q = subst IsComplete (same _ q) (All-missing ps config.enabled_providers e)
    finished ps (some name) e q = cc

    go :
        (r : Result (List (Text × Provider)))
        → completed platform config parse_url r ≡ ok s
        → IsComplete s
    go (err e) q = cc
    go (ok ps) q = finished ps (missing ps config.enabled_providers) refl q
