-- ===== src/App/Clock.antt =====
-- splittr-app/src/clock.rs: the clock of one device.
use splittr.Prelude.{
  ℕ, ◌+◌, ◌<◌, ◌≤◌, ◌%◌, ◌^◌, ◌≡◌, List, [], ◌∷◌, refl, ltb, if◌then◌else◌, arith,
}
use splittr.Prelude.Lists.{length}
use splittr.Crdt.Clock.{Hlc, SiteId, cmp_hlc}
use Prim.Native.Nat.Ordering.{lt}

pub record HlcGenerator : Type 0 where
  pub site : SiteId
  pub last : Hlc

unfoldable pub new_generator : SiteId → HlcGenerator
new_generator site = record { site = site; last = record { wall_ms = 0; counter = 0; site = site } }

-- `HlcGenerator::next`; the counter is a `u32`.
unfoldable pub next : HlcGenerator → ℕ → HlcGenerator × Hlc
next g wall_ms =
    let (wall, counter) =
      if ltb g.last.wall_ms wall_ms
      then (wall_ms, 0)
      else (g.last.wall_ms, (g.last.counter + 1) % 2 ^ 32) in
    let stamp : Hlc = record { wall_ms = wall; counter = counter; site = g.site } in
    (record g { last = stamp }, stamp)

-- The stamps of a sequence of wall times.
unfoldable pub stamps : HlcGenerator → List ℕ → List Hlc
unfolding next
stamps g [] = []
stamps g (w ∷ ws) = (next g w).1 ∷ stamps (next g w).0 ws

abbrev pub Ascending : Hlc → List Hlc → Type 0
Ascending h [] = Unit
Ascending h (s ∷ ss) = (cmp_hlc h s ≡ lt) × Ascending s ss

next-greater :
    (g : HlcGenerator) (w : ℕ) → g.last.counter + 1 < 2 ^ 32 → cmp_hlc g.last (next g w).1 ≡ lt
unfolding next
next-greater g w h = ground arith

next-last :
    (g : HlcGenerator) (w : ℕ)
    → ((next g w).0.last ≡ (next g w).1)
      × (g.last.counter + 1 < 2 ^ 32 → (next g w).1.counter ≤ g.last.counter + 1)
unfolding next
next-last g w = (refl, λ h. ground arith)

-- However the wall clock moves, back or forth, each stamp of a device is later than the one before,
-- as long as fewer stamps are taken than the counter has room for.
pub stamps-Ascending :
    (ws : List ℕ) (g : HlcGenerator)
    → g.last.counter + length ws < 2 ^ 32
    → Ascending g.last (stamps g ws)
unfolding stamps
stamps-Ascending [] g h = tt
stamps-Ascending (w ∷ ws) g h = (
  next-greater g w (omega arith),
  stamps-Ascending ws (next g w).0 (omega (arith, (next-last g w).1 (omega arith))),
)
