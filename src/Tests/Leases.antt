-- ===== src/Tests/Leases.antt =====
-- Two collectors of one account.
use netriun_nexus.Prelude.{ℕ, ◌≡◌, ◌+◌, refl, arith}
use netriun_nexus.Lease.{
  System, lease_seconds, start, try_acquire, set_nx, Reach, here, later, asks,
}
use netriun_nexus.Lease.Exclusive.{Owns, exclusive, acquired_after}

abbrev held : System
held = try_acquire 0 start

held_reached : Reach start held
held_reached = later here (asks 0 refl)

held_owned : Owns held 0
unfolding try_acquire set_nx
held_owned = (120, refl, omega arith)

exclusive_example : ◌≡◌ {A = ℕ} 0 0
exclusive_example = exclusive held_reached 0 0 held_owned held_owned

-- The first call crashes while the second waits.
acquired_after_example : Owns (try_acquire 1 (record held { now = held.now + lease_seconds })) 1
unfolding try_acquire set_nx
acquired_after_example = acquired_after held_reached 1 refl
