-- ===== src/Streaming.antt =====
-- app/streaming.py: the per-principal limit on concurrent streams. `asyncio.BoundedSemaphore` is
-- modelled by its counter and its bound. Each method runs under the limiter's lock, so a call is
-- one step. A lease is a shared object: a method that writes to it returns it too.
pub mod Invariant
pub mod History
pub mod Draining
mod Tests
use ai_serving_backend.Prelude.{
  ℕ, zero, suc, ◌+◌, ◌-◌, String, Bool, true, false, Option, none, some, List, [], ◌∷◌, ◌++◌, leb,
  ltb, ◌==◌, if◌then◌else◌, get_elem?, set, arith, refl, ◌≡◌,
}
use ai_serving_backend.Prelude.Dict
use ai_serving_backend.Prelude.Dict.{Dict, get_or}

pub record Semaphore : Type 0 where
  pub value : ℕ
  pub bound : ℕ

-- BoundedSemaphore.locked
unfoldable pub locked : Semaphore → Bool
locked s = s.value == 0

-- BoundedSemaphore.release: `none` is its ValueError, "released too many times"
unfoldable pub sem_release : Semaphore → Option Semaphore
sem_release s = if leb s.bound s.value then none else some (record s { value = s.value + 1 })

pub record StreamLease : Type 0 where
  pub key : String
  pub released : Bool

pub record StreamConcurrencyLimiter : Type 0 where
  pub max_concurrent_streams : ℕ
  pub semaphores : Dict Semaphore
  pub active : Dict ℕ

unfoldable pub init : ℕ → StreamConcurrencyLimiter
init max = record { max_concurrent_streams = max; semaphores = []; active = [] }

-- the semaphore of the key, made on first use
fetch : String → StreamConcurrencyLimiter → Semaphore × StreamConcurrencyLimiter
fetch key l = elim (Dict.get key l.semaphores) [
  | some semaphore ↦ (semaphore, l)
  | none ↦
      let fresh : Semaphore = record {
        value = l.max_concurrent_streams;
        bound = l.max_concurrent_streams;
      } in
      (fresh, record l { semaphores = Dict.put key fresh l.semaphores })
]

unfoldable pub acquire :
    String → StreamConcurrencyLimiter → Option StreamLease × StreamConcurrencyLimiter
unfolding fetch locked
acquire key limiter =
    let (semaphore, l) = fetch key limiter in
    if locked semaphore then (none, l) else (
      some (record { key = key; released = false }),
      record l {
        semaphores = Dict.put key (record semaphore { value = semaphore.value - 1 }) l.semaphores;
        active = Dict.put key (get_or key 0 l.active + 1) l.active;
      },
    )

-- the books after the semaphore has taken the slot back
settle : String → ℕ → Semaphore → StreamConcurrencyLimiter → StreamConcurrencyLimiter
settle key active s l =
    if active == 1
    then record l { active = Dict.pop key l.active; semaphores = Dict.pop key l.semaphores }
    else record l {
      active = Dict.put key (active - 1) l.active;
      semaphores = Dict.put key s l.semaphores;
    }

-- release of a lease that is not yet marked
give_back : String → Option Semaphore → ℕ → StreamConcurrencyLimiter → StreamConcurrencyLimiter
unfolding settle sem_release
give_back key none active l = l
give_back key (some s) zero l = l
give_back key (some s) (suc n) l = elim (sem_release s) [
  | none ↦ l
  | some s' ↦ settle key (suc n) s' l
]

unfoldable pub release :
    StreamLease → StreamConcurrencyLimiter → StreamLease × StreamConcurrencyLimiter
unfolding give_back
release lease l = if lease.released then (lease, l) else (
  record lease { released = true },
  give_back lease.key (Dict.get lease.key l.semaphores) (get_or lease.key 0 l.active) l,
)
