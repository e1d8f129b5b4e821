-- ===== src/Tests/Manager.antt =====
-- src/models/manager.rs: the theorem at a manager with one model that loads and three that are ready, of which two must go.
use oxydllm.Base.{ℕ, suc, ◌≡◌, refl, [], ◌∷◌, some, length}
use oxydllm.Manager.{loading, ready, ModelManager, evict_lru_for_bytes, budget_of}
use oxydllm.Manager.Slots.{Unique}
use oxydllm.Manager.Evict.{Evicted, evict_lru_for_bytes-Evicted}

abbrev manager : ModelManager
manager = record {
  slots =
      (
        1,
        ready
            (record { last_used = 30; weights_size_bytes = 40; kv_cache_bytes = 10; shutdown = 7 }),
      )
      ∷ (
        2,
        ready
            (record { last_used = 10; weights_size_bytes = 20; kv_cache_bytes = 5; shutdown = 8 }),
      )
      ∷ (3, loading (5 ∷ []))
      ∷ (
        4,
        ready
            (record { last_used = 20; weights_size_bytes = 10; kv_cache_bytes = 5; shutdown = 9 }),
      )
      ∷ [];
  memory_budget_bytes = some 100;
  kv_budget = record { total_bytes = 50; allocated_bytes = 20 };
  stopped = [];
}

manager-Unique : Unique manager.slots
manager-Unique = ((refl, (refl, (refl, tt))), ((refl, (refl, tt)), ((refl, tt), (tt, tt))))

evict_lru_for_bytes-Evicted_example :
    (k : ℕ) × (m' : ModelManager) × (evict_lru_for_bytes 64 (suc (length manager.slots)) 45 manager
      ≡ some (k, m'))
    × Evicted (budget_of 64 manager.memory_budget_bytes) 45 0 manager k m'
evict_lru_for_bytes-Evicted_example = evict_lru_for_bytes-Evicted 64 45 manager manager-Unique
