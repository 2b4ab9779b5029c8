-- ===== src/Tests/Plugin.antt =====
-- The plugin, its routes and its statuses on concrete values.
use procyon_modules.Base.{
  false, ◌+◌, ◌⊎◌, if◌then◌else◌, ◌≡◌, ◌≤◌, refl, true, false, some, [], ◌∷◌, All, length, arith,
}
use procyon_modules.Base.Text.{◌==◌, to_lower, trim_space, normalized}
use procyon_modules.Exec.{ok}
use procyon_modules.Config.{contains_provider}
use procyon_modules.Service.{
  new_payment_system_service, register_all, missing, lookup, put, payment_allowed_return_origins,
}
use procyon_modules.Plugin.{Routes, register_routes, IsGuarded, register_routes-IsGuarded}
use procyon_modules.Plugin.Background.{
  Background, Reach, Step, start, request_stop, initial, shutdown_ends,
}
use procyon_modules.Tests.Config.{platform, config}
use procyon_modules.Tests.Service.{stripe, service}

abbrev routes : Routes
routes = record {
  has_public = true;
  has_authenticated = true;
  has_admin = false;
  can_require = true;
}

register_routes-IsGuarded_example : All (IsGuarded service routes) (register_routes routes)
register_routes-IsGuarded_example = register_routes-IsGuarded service routes

routes_test : length (register_routes routes) ≡ 10
unfolding register_routes
routes_test = refl

-- A start, a tick, and a shutdown that returns; a second start comes too late.
abbrev running : Background
running = record { started = true; cancelled = false; loops = 1; runs = 1; returned = false }

abbrev over : Background
over = record { started = true; cancelled = true; loops = 0; runs = 1; returned = true }

over_reached : Reach initial over
unfolding start request_stop
over_reached =
    Reach.next
      (Reach.next
        (Reach.next
          (Reach.next (Reach.next Reach.here (Step.starts initial))
            (Step.ticks (record running { runs = 0 }) (omega arith)))
          (Step.stops running))
        (Step.leaves (record running { cancelled = true }) refl 0 refl))
      (Step.returns (record over { returned = false }) refl refl)

started_late : Reach over (start over)
started_late = Reach.next Reach.here (Step.starts over)

shutdown_ends_example :
    ((start over).loops + (if over.returned then 1 else 0) ≤ 1)
    × ((over.returned ≡ false) ⊎ ((start over).runs ≡ over.runs))
shutdown_ends_example = shutdown_ends over (start over) over_reached started_late

-- The one factory makes the one provider that is configured.
service_made :
    new_payment_system_service platform config service.parse_url (ok (some stripe) ∷ [])
    ≡ ok (record service { allowed_returns = payment_allowed_return_origins platform })
unfolding new_payment_system_service register_all missing lookup put contains_provider normalized
    to_lower trim_space ◌==◌
service_made = refl
