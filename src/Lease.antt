-- ===== src/Lease.antt =====
-- The lease that collectors of one account and service share: withAccountCollectorLock of
-- internal/app/collector.go and withServiceCollectorLock of internal/app/eds_refresh.go. Redis is
-- the one key of that account and service, with the second at which it expires; a token is the
-- number of the call that drew it, since tokens are random.
pub mod Exclusive
use netriun_nexus.Prelude.{
  ℕ, Bool, true, false, not, ◌==◌, ◌+◌, ◌≡◌, ltb, if◌then◌else◌, Option, some, none,
}

pub record Held : Type 0 where
  pub token : ℕ
  pub deadline : ℕ

-- 2*time.Minute, and the 120 that the script sets again.
abbrev pub lease_seconds : ℕ
lease_seconds = 120

-- GET: an entry is gone once its time is over.
abbrev pub live : (now : ℕ) → Option Held → Option Held
live now none = none
live now (some h) = if ltb now h.deadline then some h else none

abbrev pub granted : (token now : ℕ) → Held
granted token now = record { token = token; deadline = now + lease_seconds }

-- SetNX with an expiry.
unfoldable pub set_nx : (token now : ℕ) → Option Held → Bool × Option Held
set_nx token now key = elim (live now key) [
  | none ↦ (true, some (granted token now))
  | some h ↦ (false, key)
]

abbrev pub is_own : ℕ → Option Held → Bool
is_own token none = false
is_own token (some h) = h.token == token

-- if redis.call('GET',KEYS[1])==ARGV[1] then return redis.call('EXPIRE',…) else return 0 end.
unfoldable pub renew_script : (token now : ℕ) → Option Held → Bool × Option Held
renew_script token now key =
    if is_own token (live now key) then (true, some (granted token now)) else (false, key)

-- if redis.call('GET',KEYS[1])==ARGV[1] then return redis.call('DEL',KEYS[1]) else return 0 end.
unfoldable pub release_script : (token now : ℕ) → Option Held → Option Held
release_script token now key = if is_own token (live now key) then none else key

-- A call waits for the lease, collects under it, has its context cancelled, or has returned.
-- `until` is the deadline that Redis last granted it; the call does not know it.
pub data Phase : Type 0 where
  waiting : Phase
  collecting : (until : ℕ) → Phase
  stopped : Phase
  returned : Phase

pub record System : Type 0 where
  pub now : ℕ
  pub key : Option Held
  pub phase : ℕ → Phase

abbrev pub set_phase : ℕ → Phase → (ℕ → Phase) → ℕ → Phase
set_phase i p phase j = if j == i then p else phase j

abbrev pub entered : ℕ → System → Bool × Option Held → System
entered i s (locked, key) = record s {
  key = key;
  phase = if locked then set_phase i (collecting (s.now + lease_seconds)) s.phase else s.phase;
}

-- One turn of the loop that asks for the lease.
unfoldable pub try_acquire : ℕ → System → System
try_acquire i s = entered i s (set_nx i s.now s.key)

abbrev pub renewed : ℕ → System → Bool × Option Held → System
renewed i s (kept, key) = record s {
  key = key;
  phase = set_phase i (if kept then collecting (s.now + lease_seconds) else stopped) s.phase;
}

-- A tick of the goroutine that renews; it cancels the context where Redis refuses.
unfoldable pub renew : ℕ → System → System
renew i s = renewed i s (renew_script i s.now s.key)

unfoldable pub cancel : ℕ → System → System
cancel i s = record s { phase = set_phase i stopped s.phase }

-- The deferred release; Redis may not answer it.
unfoldable pub release : ℕ → (redis_down : Bool) → System → System
release i redis_down s = record s {
  key = if redis_down then s.key else release_script i s.now s.key;
  phase = set_phase i returned s.phase;
}

-- The calls in any order, while time passes. A call that waits may return, when its context ends or
-- when another call has collected since.
pub data Step (s : System) : System → Type 0 where
  passes : Step s (record s { now = s.now + 1 })
  asks : (i : ℕ) → s.phase i ≡ waiting → Step s (try_acquire i s)
  leaves :
      (i : ℕ) → s.phase i ≡ waiting → Step s (record s { phase = set_phase i returned s.phase })
  renews : (i until : ℕ) → s.phase i ≡ collecting until → Step s (renew i s)
  cancels : (i until : ℕ) → s.phase i ≡ collecting until → Step s (cancel i s)
  finishes :
      (i until : ℕ) (redis_down : Bool)
      → s.phase i ≡ collecting until
      → Step s (release i redis_down s)
  gives_up : (i : ℕ) (redis_down : Bool) → s.phase i ≡ stopped → Step s (release i redis_down s)

abbrev pub start : System
start = record { now = 0; key = none; phase = λ i. waiting }

pub data Reach (s : System) : System → Type 0 where
  here : Reach s s
  later : {t u : System} → Reach s t → Step t u → Reach s u
