-- ===== src/Chat/Redis/Contexts.antt =====
-- project/CHAT/src/server/redis/redis.cpp: the two contexts of the Redis client, from the constructor of the chat service to the
-- destructor. A `redisContext*` is a number, and what redisConnect returns is an argument.
use alexproject.Common.{
  ℕ, ◌≡◌, refl, Bool, true, false, List, [], ◌∷◌, ◌++◌, Option, none, some, if◌then◌else◌,
}

pub record Redis : Type 0 where
  pub publish_context : Option ℕ
  pub subscribe_context : Option ℕ
  -- Whether `_notify_message_handler` is set.
  pub notifies : Bool

unfoldable pub new_redis : Redis
new_redis = record { publish_context = none; subscribe_context = none; notifies = false }

-- `connect`: whether it succeeds, the client, and whether the thread of the observer is started. The second context is asked
-- for only where there is the first.
unfoldable pub connect_redis : Option ℕ → Option ℕ → Redis → Bool × Redis × Bool
connect_redis none second r = (false, record r { publish_context = none }, false)
connect_redis (some c) none r =
    (false, record r { publish_context = some c; subscribe_context = none }, false)
connect_redis (some c) (some d) r =
    (true, record r { publish_context = some c; subscribe_context = some d }, true)

unfoldable pub init_notify_handler : Redis → Redis
init_notify_handler r = record r { notifies = true }

-- The part of the constructor of `ChatService` that connects.
unfoldable pub service_redis : Option ℕ → Option ℕ → Redis × Bool
unfolding connect_redis init_notify_handler new_redis
service_redis first second =
    let (connected, r, observes) = connect_redis first second new_redis in
    (if connected then init_notify_handler r else r, observes)

abbrev free_context : Option ℕ → List ℕ
free_context none = []
free_context (some c) = c ∷ []

-- `~Redis`: the contexts that it frees.
unfoldable pub destroy_redis : Redis → List ℕ
destroy_redis r = free_context r.publish_context ++ free_context r.subscribe_context

-- The contexts that redisConnect gave to `connect`.
abbrev obtained : Option ℕ → Option ℕ → List ℕ
obtained none second = []
obtained (some c) second = c ∷ free_context second

abbrev both : Option ℕ → Option ℕ → Bool
both (some c) (some d) = true
both _ _ = false

-- Whatever redisConnect returns: the destructor frees just the contexts that the service was given, and the observer
-- runs, with a handler to report to, exactly when both are there.
redis_life :
    (first second : Option ℕ)
    → let (r, observes) = service_redis first second in
      (destroy_redis r ≡ obtained first second)
      × (observes ≡ both first second)
      × (r.notifies ≡ both first second)
unfolding service_redis destroy_redis
redis_life none second = (refl, refl, refl)
redis_life (some c) none = (refl, refl, refl)
redis_life (some c) (some d) = (refl, refl, refl)
