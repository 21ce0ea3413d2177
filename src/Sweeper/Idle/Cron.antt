-- ===== src/Sweeper/Idle/Cron.antt =====
-- What the cron half of the suspend gate decides (sweeper/idle.go).
use hermes_cluster.Base.{◌-◌, ◌≡◌, ◌↔◌, Option, none, some, arith}
use hermes_cluster.Base.Int.{
  ℤ, pos, negsuc, ◌+ℤ◌, ◌-ℤ◌, ◌≤ℤ◌, ◌<ℤ◌, half_range, wrap64, wrap64_of_IsInt64, +ℤ_parts, -ℤ_parts,
}
use hermes_cluster.Clock.{Duration, Time, add, sub-le_iff}
use hermes_cluster.Sweeper.Idle.{decide_cron}

negate_margin : (b : Duration) → pos 0 ≤ℤ b → b <ℤ pos half_range → wrap64 (pos 0 -ℤ b) ≡ pos 0 -ℤ b
negate_margin b p h =
    wrap64_of_IsInt64 (pos 0 -ℤ b) (ground (arith, -ℤ_parts (pos 0) b, -ℤ_parts (pos 0) b))

sub_add : (a b : ℤ) → (a +ℤ (pos 0 -ℤ b)) +ℤ b ≡ a
unfolding ◌+ℤ◌ ◌-ℤ◌
sub_add (pos a) (pos b) = ground arith
sub_add (pos a) (negsuc b) = ground arith
sub_add (negsuc a) (pos b) = ground arith
sub_add (negsuc a) (negsuc b) = ground arith

-- The cron half refuses a suspend exactly when the next fire is no further off than the horizon.
pub decide_cron_iff :
    (fire now : Time) (horizon boot_margin : Duration)
    → pos 0 ≤ℤ horizon
    → horizon <ℤ pos (half_range - 1)
    → (decide_cron (some fire) now horizon boot_margin ≡ none) ↔ (fire ≤ℤ now +ℤ horizon)
unfolding decide_cron
decide_cron_iff fire now horizon boot_margin low fits =
    let near = sub-le_iff fire now horizon low fits in ground arith

-- If the cron half lets a suspend through, it asks for a wake at the boot margin before the fire;
-- the horizon being at least the margin, that wake is still ahead.
pub decide_cron-ahead :
    (fire now : Time) (horizon boot_margin : Duration) (wake : Option Time)
    → horizon <ℤ pos (half_range - 1)
    → pos 0 ≤ℤ boot_margin
    → boot_margin ≤ℤ horizon
    → decide_cron (some fire) now horizon boot_margin ≡ some wake
    → (t : Time) × (wake ≡ some t) × (t +ℤ boot_margin ≡ fire) × (now <ℤ t)
unfolding decide_cron add
decide_cron-ahead fire now horizon boot_margin wake fits p q h =
    let near = sub-le_iff fire now horizon (omega arith) fits in
    let t : Time = fire +ℤ (pos 0 -ℤ boot_margin) in
    let exact = negate_margin boot_margin p (omega arith) in
    let back : t +ℤ boot_margin ≡ fire = sub_add fire boot_margin in
    (t, ground (arith, exact), back, ground (arith, +ℤ_parts t boot_margin, +ℤ_parts now horizon))
