-- ===== src/Streaming/History.antt =====
-- Histories of `acquire` and `release` calls over the leases that were handed out, in any order
-- and with any lease released any number of times.
use ai_serving_backend.Prelude.{
  ℕ, zero, suc, ◌+◌, ◌≤◌, ◌<◌, String, ◌≡◌, refl, true, false, Option, none, some, List, [], ◌∷◌,
  ◌++◌, arith, ◌↔◌, str_eq, eq_iff, if◌then◌else◌, get_elem?, set, Option-cases, Bool-cases, inl,
  inr, fun_ext, ap, ◌∙◌,
}
use ai_serving_backend.Prelude.Dict
use ai_serving_backend.Streaming.{StreamLease, StreamConcurrencyLimiter, init, acquire, release}
use ai_serving_backend.Streaming.Invariant.{
  Inv, bump, lower, init-Inv, acquired, acquire-Inv, release-Inv, acquire-refuses_iff, max-acquire,
  max-release,
}

-- The limiter, and every lease that it handed out, oldest first.
pub record World : Type 0 where
  pub limiter : StreamConcurrencyLimiter
  pub leases : List StreamLease

pub data Call : Type 0 where
  acquires : String → Call
  releases : ℕ → Call

abbrev add_lease : Option StreamLease → List StreamLease → List StreamLease
add_lease none ls = ls
add_lease (some lease) ls = ls ++ lease ∷ []

abbrev release_at : ℕ → Option StreamLease → World → World
release_at i none w = w
release_at i (some lease) w =
    let (lease', l) = release lease w.limiter in
    record { limiter = l; leases = set w.leases i lease' }

unfoldable pub step : World → Call → World
step w (acquires key) =
    let (lease, l) = acquire key w.limiter in
    record { limiter = l; leases = add_lease lease w.leases }
step w (releases i) = release_at i (get_elem? w.leases i) w

unfoldable pub run : World → List Call → World
unfolding step
run w [] = w
run w (c ∷ cs) = run (step w c) cs

abbrev pub start : ℕ → World
start max = record { limiter = init max; leases = [] }

-- The leases of a key that are not released.
unfoldable pub live : List StreamLease → String → ℕ
live [] k = 0
live (lease ∷ ls) k =
    if lease.released then live ls k else if str_eq lease.key k then live ls k + 1 else live ls k

abbrev pub IsSound : World → Type 0
IsSound w = Inv w.limiter (live w.leases)

live-append :
    (ls : List StreamLease) (lease : StreamLease) (k : String)
    → lease.released ≡ false
    → live (ls ++ lease ∷ []) k ≡ bump lease.key (live ls) k
unfolding live
live-append [] lease k r = ground arith
live-append (x ∷ ls) lease k r = ground (arith, live-append ls lease k r)

-- Marking a live lease lowers the count of its key by one; it was at least one.
live-set :
    (ls : List StreamLease) (i : ℕ) (lease : StreamLease) (k : String)
    → get_elem? ls i ≡ some lease
    → lease.released ≡ false
    → (live (set ls i (record lease { released = true })) k ≡ lower lease.key (live ls) k)
      × (lease.key ≡ k → 0 < live ls k)
unfolding live
live-set [] i lease k e r = cc
live-set (x ∷ ls) zero lease k e r = ground (arith, eq_iff lease.key k)
live-set (x ∷ ls) (suc i) lease k e r =
    ground (arith, live-set ls i lease k e r, eq_iff lease.key k)

pub acquire-lease :
    (key : String) (l : StreamConcurrencyLimiter) (lease : StreamLease)
    → (acquire key l).0 ≡ some lease
    → (lease.key ≡ key) × (lease.released ≡ false)
unfolding acquire
acquire-lease key l lease e = ground arith

live-add_lease :
    (key : String) (l : StreamConcurrencyLimiter) (o : Option StreamLease) (ls : List StreamLease)
    → (acquire key l).0 ≡ o
    → live (add_lease o ls) ≡ acquired key o (live ls)
live-add_lease key l none ls e = refl
live-add_lease key l (some lease) ls e =
    let (same, fresh) = acquire-lease key l lease e in
    fun_ext λ k. rw (← same) (live-append ls lease k fresh)

acquires-IsSound : (key : String) (w : World) → IsSound w → IsSound (step w (acquires key))
unfolding step
acquires-IsSound key w v =
    rw (live-add_lease key w.limiter (acquire key w.limiter).0 w.leases refl)
      (acquire-Inv key w.limiter (live w.leases) v)

released-release :
    (lease : StreamLease) (l : StreamConcurrencyLimiter)
    → lease.released ≡ true
    → release lease l ≡ (lease, l)
unfolding release
released-release lease l r = rw r

mark-release :
    (lease : StreamLease) (l : StreamConcurrencyLimiter)
    → lease.released ≡ false
    → (release lease l).0 ≡ record lease { released = true }
unfolding release
mark-release lease l r = rw r

set_same {ℓ} :
    {A : Type ℓ} (xs : List A) (i : ℕ) (x : A) → get_elem? xs i ≡ some x → set xs i x ≡ xs
set_same [] i x e = refl
set_same (y ∷ xs) zero x e = ground arith
set_same (y ∷ xs) (suc i) x e = ap (◌∷◌ y) (set_same xs i x e)

release_at-IsSound :
    (i : ℕ) (lease : StreamLease) (w : World)
    → get_elem? w.leases i ≡ some lease
    → IsSound w
    → IsSound (release_at i (some lease) w)
release_at-IsSound i lease w e v = elim (Bool-cases lease.released) [
  | inl gone ↦ rw (released-release lease w.limiter gone, set_same w.leases i lease e) v
  | inr held ↦
      rw (mark-release lease w.limiter held, fun_ext (λ k. (live-set w.leases i lease k e held).0))
        (release-Inv lease w.limiter (live w.leases) held v)
]

pub step-IsSound : (w : World) (c : Call) → IsSound w → IsSound (step w c)
unfolding step
step-IsSound w (acquires key) v = acquires-IsSound key w v
step-IsSound w (releases i) v = elim (Option-cases (get_elem? w.leases i)) [
  | inl missing ↦ rw missing v
  | inr (lease, e) ↦ rw e (release_at-IsSound i lease w e v)
]

pub run-IsSound : (w : World) (cs : List Call) → IsSound w → IsSound (run w cs)
unfolding run
run-IsSound w [] v = v
run-IsSound w (c ∷ cs) v = run-IsSound (step w c) cs (step-IsSound w c v)

start-IsSound : (max : ℕ) → 0 < max → IsSound (start max)
unfolding live
start-IsSound max h = init-Inv max h

max-step :
    (w : World) (c : Call)
    → (step w c).limiter.max_concurrent_streams ≡ w.limiter.max_concurrent_streams
unfolding step
max-step w (acquires key) = max-acquire key w.limiter
max-step w (releases i) = elim (Option-cases (get_elem? w.leases i)) [
  | inl missing ↦ rw missing
  | inr (lease, e) ↦ rw e (max-release lease w.limiter)
]

max-run :
    (w : World) (cs : List Call)
    → (run w cs).limiter.max_concurrent_streams ≡ w.limiter.max_concurrent_streams
unfolding run
max-run w [] = refl
max-run w (c ∷ cs) = max-run (step w c) cs ∙ max-step w c

max-run-start :
    (max : ℕ) (cs : List Call) → (run (start max) cs).limiter.max_concurrent_streams ≡ max
unfolding init
max-run-start max cs = max-run (start max) cs

-- From a fresh limiter, after any history of acquires and releases, with any lease released any
-- number of times, no key has more live leases than the limit, which is positive.
pub live-le-max :
    (max : ℕ) (cs : List Call) (k : String) → 0 < max → live (run (start max) cs).leases k ≤ max
live-le-max max cs k h =
    let v = run-IsSound (start max) cs (start-IsSound max h) in
    ground (arith, v.at k, max-run-start max cs)

-- After any such history a stream of a key is refused exactly when the key has as many live leases
-- as the limit allows.
pub acquire-refuses_iff_full :
    (max : ℕ) (cs : List Call) (k : String)
    → 0 < max
    → ((acquire k (run (start max) cs).limiter).0 ≡ none)
      ↔ (live (run (start max) cs).leases k ≡ max)
acquire-refuses_iff_full max cs k h =
    let w = run (start max) cs in
    let v = run-IsSound (start max) cs (start-IsSound max h) in
    let same : w.limiter.max_concurrent_streams ≡ max = max-run-start max cs in
    rw same at (acquire-refuses_iff k w.limiter (live w.leases) v)

-- After any such history the limiter keeps a semaphore and a count for a key exactly while a lease
-- of the key is live: nothing is left behind when all are released.
pub run-keeps_no_idle_key :
    (max : ℕ) (cs : List Call) (k : String)
    → 0 < max
    → let w = run (start max) cs in
      ((live w.leases k ≡ 0) ↔ (Dict.get k w.limiter.semaphores ≡ none))
      × ((live w.leases k ≡ 0) ↔ (Dict.get k w.limiter.active ≡ none))
run-keeps_no_idle_key max cs k h =
    let v = run-IsSound (start max) cs (start-IsSound max h) in ground (arith, v.at k)
