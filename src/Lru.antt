-- ===== src/Lru.antt =====
-- The `lru` crate's cache, which the code only calls: its operations, and what its documentation
-- says of them, over a view of the entries from the most to the least recently used.
pub mod Spec
pub mod Listed
use oxydllm.Base.{ℕ, ◌≡◌, refl, Bool, true, false, List, [], ◌∷◌, Option, none, some}
use Spec.{find, promote, pop_last, push_front, is_some}
use Listed.{Items}
use Listed

pub record LruCache (V : Type 0) : Type 1 where
  pub Cache : Type 0
  pub new : ℕ → Cache
  pub peek : ℕ → Cache → Option V
  pub get : ℕ → Cache → Option V × Cache
  pub contains : ℕ → Cache → Bool
  pub push : ℕ → V → Cache → Option (ℕ × V) × Cache
  pub pop_lru : Cache → Option (ℕ × V) × Cache
  pub cap : Cache → ℕ
  pub view : Cache → List (ℕ × V)
  pub view-new : (n : ℕ) → view (new n) ≡ []
  pub peek-view : (k : ℕ) (c : Cache) → peek k c ≡ find k (view c)
  pub contains-view : (k : ℕ) (c : Cache) → contains k c ≡ is_some (find k (view c))
  pub get-view : (k : ℕ) (c : Cache) → (get k c).0 ≡ find k (view c)
  pub view-get : (k : ℕ) (c : Cache) → view (get k c).1 ≡ promote k (view c)
  pub cap-get : (k : ℕ) (c : Cache) → cap (get k c).1 ≡ cap c
  pub push-view :
      (k : ℕ) (v : V) (c : Cache)
      → contains k c ≡ false
      → (push k v c).0 ≡ (push_front (cap c) (k, v) (view c)).0
  pub view-push :
      (k : ℕ) (v : V) (c : Cache)
      → contains k c ≡ false
      → view (push k v c).1 ≡ (push_front (cap c) (k, v) (view c)).1
  pub pop_lru-view : (c : Cache) → (pop_lru c).0 ≡ (pop_last (view c)).0
  pub view-pop_lru : (c : Cache) → view (pop_lru c).1 ≡ (pop_last (view c)).1

-- The interface can be met.
abbrev pub listed : (V : Type 0) → LruCache V
listed V = record {
  Cache = Items V;
  new = λ n. record { cap = n; items = [] };
  peek = λ k c. find k c.items;
  get = Listed.get;
  contains = λ k c. is_some (find k c.items);
  push = Listed.push;
  pop_lru = Listed.pop_lru;
  cap = λ c. c.cap;
  view = λ c. c.items;
  view-new = λ n. refl;
  peek-view = λ k c. refl;
  contains-view = λ k c. refl;
  get-view = λ k c. refl;
  view-get = λ k c. refl;
  cap-get = λ k c. refl;
  push-view = λ k v c h. refl;
  view-push = λ k v c h. refl;
  pop_lru-view = λ c. refl;
  view-pop_lru = λ c. refl;
}
