-- ===== src/Lease/Exclusive.antt =====
-- Who holds the lease.
use netriun_nexus.Prelude.{
  ℕ, Bool, ◌==◌, ◌+◌, ◌<◌, ◌≤◌, ◌≡◌, ◌≢◌, refl, arith, Option, some, none, Bool-cases, inl, inr,
  ==_refl,
}
use netriun_nexus.Lease.{
  Held, lease_seconds, set_nx, renew_script, release_script, Phase, waiting, collecting, stopped,
  returned, System, set_phase, try_acquire, renew, cancel, release, Step, passes, asks, leaves,
  renews, cancels, finishes, gives_up, start, Reach, here, later,
}

-- A call collects within the time that Redis granted it.
abbrev pub Owns : System → ℕ → Type 0
Owns s i = (until : ℕ) × (s.phase i ≡ collecting until) × (s.now < until)

pub record Inv (s : System) : Type 0 where
  pub own :
      (i until : ℕ)
      → s.phase i ≡ collecting until
      → s.now < until
      → s.key ≡ some (record { token = i; deadline = until })
  pub short : (h : Held) → s.key ≡ some h → h.deadline ≤ s.now + lease_seconds

Inv-start : Inv start
Inv-start = record { own = λ i u p h. ground arith; short = λ h e. ground arith }

module _ (s : System) (v : Inv s) (i : ℕ) where
  -- A call that stops collecting takes nothing from the others.
  parted-Inv :
      (p : Phase) → ((u : ℕ) → p ≢ collecting u) → Inv (record s { phase = set_phase i p s.phase })
  parted-Inv p off = record {
    own = λ j u q h. elim (Bool-cases (j == i)) [
      | inl k ↦ absurd (off u (rw k at q))
      | inr k ↦ v.own j u (rw k at q) h
    ];
    short = v.short;
  }

  try_acquire-Inv : Inv (try_acquire i s)
  unfolding try_acquire set_nx
  try_acquire-Inv = record {
    own = λ j u q h. elim (Bool-cases (j == i)) [
      | inl k ↦ ground (arith, v.own j u)
      | inr k ↦ ground (arith, v.own j u)
    ];
    short = λ h q. ground (arith, v.short h);
  }

  renew-Inv : Inv (renew i s)
  unfolding renew renew_script
  renew-Inv = record {
    own = λ j u q h. elim (Bool-cases (j == i)) [
      | inl k ↦ ground (arith, v.own j u)
      | inr k ↦ ground (arith, v.own j u)
    ];
    short = λ h q. ground (arith, v.short h);
  }

  release-Inv : (redis_down : Bool) → Inv (release i redis_down s)
  unfolding release release_script
  release-Inv redis_down = record {
    own = λ j u q h. elim (Bool-cases (j == i)) [
      | inl k ↦ ground arith
      | inr k ↦ ground (arith, v.own j u)
    ];
    short = λ h q. ground (arith, v.short h);
  }

pub Step-Inv : {s t : System} → Step s t → Inv s → Inv t
unfolding cancel
Step-Inv {s} passes v = record {
  own = λ j u q h. v.own j u q (omega arith);
  short = λ h q. ground (arith, v.short h);
}
Step-Inv {s} (asks i e) v = try_acquire-Inv s v i
Step-Inv {s} (leaves i e) v = parted-Inv s v i returned (λ u. ground arith)
Step-Inv {s} (renews i u e) v = renew-Inv s v i
Step-Inv {s} (cancels i u e) v = parted-Inv s v i stopped (λ u. ground arith)
Step-Inv {s} (finishes i u d e) v = release-Inv s v i d
Step-Inv {s} (gives_up i d e) v = release-Inv s v i d

pub Reach-Inv : {s t : System} → Inv s → Reach s t → Inv t
Reach-Inv v here = v
Reach-Inv v (later r st) = Step-Inv st (Reach-Inv v r)

-- However the calls interleave, no two collect within the time that Redis granted them.
pub exclusive : {s : System} → Reach start s → (i j : ℕ) → Owns s i → Owns s j → i ≡ j
exclusive r i j (u, p, h) (u', p', h') =
    let v = Reach-Inv Inv-start r in ground (arith, v.own i u p h, v.own j u' p' h')

-- A holder that crashed keeps nobody out for long: from every state that the calls can reach, once
-- 120 seconds pass without a renewal, a call that still waits gets the lease when it next asks.
pub acquired_after :
    {s : System}
    → Reach start s
    → (i : ℕ) → s.phase i ≡ waiting
    → Owns (try_acquire i (record s { now = s.now + lease_seconds })) i
unfolding try_acquire set_nx
acquired_after {s} r i p =
    let v = Reach-Inv Inv-start r in
    (s.now + lease_seconds + lease_seconds, owned s.key v.short, omega arith)
  where
    owned :
        (key : Option Held)
        → ((h : Held) → key ≡ some h → h.deadline ≤ s.now + lease_seconds)
        → (try_acquire i (record s { now = s.now + lease_seconds; key = key })).phase i
          ≡ collecting (s.now + lease_seconds + lease_seconds)
    owned none f = ground (arith, ==_refl i)
    owned (some h) f = ground (arith, ==_refl i, f h refl)
