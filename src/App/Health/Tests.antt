-- ===== src/App/Health/Tests.antt =====
-- A health interval whose product wraps.
use aeb_node.Prelude.{◌≡◌, refl}
use aeb_node.App.Health.{tick_ms}

wrapped_tick : tick_ms 4294968 ≡ 704
unfolding tick_ms
wrapped_tick = refl
