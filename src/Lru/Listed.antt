-- ===== src/Lru/Listed.antt =====
-- An LRU cache that meets the documented behaviour: the list of entries itself, with its capacity.
use oxydllm.Base.{ℕ, List, Option}
use oxydllm.Lru.Spec.{find, promote, pop_last, push_front}

pub record Items (V : Type 0) : Type 0 where
  pub cap : ℕ
  pub items : List (ℕ × V)

module _ {V : Type 0} where
  abbrev pub get : ℕ → Items V → Option V × Items V
  get k c = (find k c.items, record c { items = promote k c.items })

  abbrev pub push : ℕ → V → Items V → Option (ℕ × V) × Items V
  push k v c = let r = push_front c.cap (k, v) c.items in (r.0, record c { items = r.1 })

  abbrev pub pop_lru : Items V → Option (ℕ × V) × Items V
  pop_lru c = let r = pop_last c.items in (r.0, record c { items = r.1 })
