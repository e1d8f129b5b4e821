-- ===== src/Paged/Contig.antt =====
-- src/common/paged.rs, `ContigBudget`, `ContigBufferPool` and `GlobalKvBudget`: byte budgets and the pool of
-- retired contiguous buffers. A buffer is its capacity in tokens. `buffers` is the code's `Vec` from its end: the
-- largest comes first. An atomic update is one step: its loop ends at the first exchange that nobody disturbs.
pub mod Bytes
use oxydllm.Base.{
  ℕ, zero, suc, ◌+◌, ◌-◌, ◌*◌, ◌%◌, ◌≤◌, ◌<◌, ◌≡◌, refl, ap, ◌∙◌, min, Bool, true, false, List, [],
  ◌∷◌, Option, none, some, arith, ltb, leb, ◌==◌, if◌then◌else◌, length, sum_by, u64_mod, sub64,
  sub64-eq-sub, Bool-cases, Option-cases,
}

pub record GlobalKvBudget : Type 0 where
  pub total_bytes : ℕ
  pub allocated_bytes : ℕ

-- What is granted, and the budget after it.
unfoldable pub acquire : ℕ → GlobalKvBudget → ℕ × GlobalKvBudget
acquire desired g =
    let granted = min desired (g.total_bytes - g.allocated_bytes) in
    (granted, record g { allocated_bytes = (g.allocated_bytes + granted) % u64_mod })

unfoldable pub give_back : ℕ → GlobalKvBudget → GlobalKvBudget
give_back bytes g = record g { allocated_bytes = g.allocated_bytes - bytes }

unfoldable pub available_bytes : GlobalKvBudget → ℕ
available_bytes g = g.total_bytes - g.allocated_bytes

pub record ContigBudget : Type 0 where
  pub limit : ℕ
  pub held : ℕ

-- `none` where the bytes do not fit.
unfoldable pub try_add : ℕ → ContigBudget → Option ContigBudget
try_add bytes g =
    if ltb g.limit (min (g.held + bytes) (u64_mod - 1))
    then none
    else some (record g { held = (g.held + bytes) % u64_mod })

unfoldable pub sub : ℕ → ContigBudget → ContigBudget
sub bytes g = record g { held = sub64 g.held bytes }

pub record ContigBufferPool : Type 0 where
  pub buffers : List ℕ
  pub max_buffers : ℕ
  pub bytes_per_token : ℕ

abbrev pub buffer_bytes : ContigBufferPool → ℕ → ℕ
buffer_bytes p tokens = tokens * p.bytes_per_token

-- The smallest buffer that is large enough, and the others.
unfoldable pub pick : ℕ → List ℕ → Option (ℕ × List ℕ)
pick needed [] = none
pick needed (b ∷ bs) =
    let rest = pick needed bs in
    elim rest [
      | some (x, others) ↦ some (x, b ∷ others)
      | none ↦ if leb needed b then some (b, bs) else none
    ]

-- `take`.
unfoldable pub take_buffer :
    ℕ → ContigBudget → ContigBufferPool → Option (ℕ × ContigBudget × ContigBufferPool)
unfolding pick sub
take_buffer needed g p = elim (pick needed p.buffers) [
  | none ↦ none
  | some (tokens, rest) ↦ some (tokens, sub (buffer_bytes p tokens) g, record p { buffers = rest })
]

-- The loop of `put`: the largest buffers go until the bytes fit. The flag says whether they do.
unfoldable pub make_space : ℕ → (ℕ → ℕ) → List ℕ → ContigBudget → Bool × List ℕ × ContigBudget
unfolding try_add sub
make_space bytes size [] g = elim (try_add bytes g) [
  | some g' ↦ (true, [], g')
  | none ↦ (false, [], g)
]
make_space bytes size (b ∷ bs) g =
    let rest = make_space bytes size bs (sub (size b) g) in
    elim (try_add bytes g) [ some g' ↦ (true, b ∷ bs, g') | none ↦ rest ]

-- `insert` at the `partition_point`.
unfoldable pub insert_cap : ℕ → List ℕ → List ℕ
insert_cap tokens [] = tokens ∷ []
insert_cap tokens (b ∷ bs) =
    let rest = insert_cap tokens bs in if ltb b tokens then tokens ∷ b ∷ bs else b ∷ rest

-- `remove(0)`: the smallest buffer, and the others.
unfoldable pub drop_smallest : ℕ → List ℕ → ℕ × List ℕ
drop_smallest b [] = (b, [])
drop_smallest b (c ∷ bs) = let r = drop_smallest c bs in (r.0, b ∷ r.1)

-- The bound on the number of buffers, once the new one is in.
unfoldable pub trim : List ℕ → ContigBudget → ContigBufferPool → ContigBudget × ContigBufferPool
unfolding drop_smallest sub
trim [] g p = (g, record p { buffers = [] })
trim (b ∷ bs) g p =
    let r = drop_smallest b bs in
    if ltb p.max_buffers (length (b ∷ bs))
    then (sub (buffer_bytes p r.0) g, record p { buffers = r.1 })
    else (g, record p { buffers = b ∷ bs })

unfoldable pub put : ℕ → ContigBudget → ContigBufferPool → ContigBudget × ContigBufferPool
unfolding make_space insert_cap trim
put tokens g p =
    let r = make_space (buffer_bytes p tokens) (buffer_bytes p) p.buffers g in
    if p.max_buffers == 0
    then (g, p)
    else if r.0
    then trim (insert_cap tokens r.1) r.2 p
    else (r.2, record p { buffers = r.1 })

-- The bytes of a pool's buffers.
abbrev pub pool_bytes : ContigBufferPool → ℕ
pool_bytes p = sum_by (buffer_bytes p) p.buffers

-- `set_budget`: the pool's bytes move from the budget `g` to `g'`.
unfoldable pub set_budget :
    ContigBudget → ContigBudget → ContigBufferPool → ContigBudget × ContigBudget
unfolding sub
set_budget g g' p = (sub (pool_bytes p) g, record g' { held = (g'.held + pool_bytes p) % u64_mod })
