-- ===== src/StopScan.antt =====
-- src/server/routes/stop_scan.rs: stop strings matched on the decoded text. A string is the list of its UTF-8
-- bytes.
pub mod Find
pub mod Held
use oxydllm.Base.{
  ℕ, zero, suc, ◌+◌, ◌-◌, ◌≡◌, min, max, Bool, true, false, not, ◌&&◌, ◌||◌, List, [], ◌∷◌, ◌++◌,
  Option, none, some, ltb, leb, ◌==◌, if◌then◌else◌, length, get_elem?, take, drop,
}
use oxydllm.PrefixCache.{tokens_eq}

pub record StopScanner : Type 0 where
  pub stops : List (List ℕ)
  pub held : List ℕ

pub data Scan : Type 0 where
  text stopped : List ℕ → Scan

unfoldable pub new : List (List ℕ) → StopScanner
new stops = record { stops = stops; held = [] }

unfoldable pub starts_with : List ℕ → List ℕ → Bool
unfolding tokens_eq
starts_with s word = tokens_eq (take (length word) s) word

unfoldable pub ends_with : List ℕ → List ℕ → Bool
unfolding tokens_eq
ends_with s word = leb (length word) (length s) && tokens_eq (drop (length s - length word) s) word

-- `str::find`: where the first occurrence begins.
unfoldable pub find_in : List ℕ → List ℕ → Option ℕ
unfolding starts_with
find_in [] word = if starts_with [] word then some 0 else none
find_in (c ∷ s) word =
    let rest = find_in s word in
    if starts_with (c ∷ s) word then some 0 else elim rest [ none ↦ none | some i ↦ some (i + 1) ]

-- The smaller of two optional positions.
unfoldable pub earlier : Option ℕ → Option ℕ → Option ℕ
earlier none o = o
earlier (some i) none = some i
earlier (some i) (some j) = some (min i j)

unfoldable pub match_in : List ℕ → List (List ℕ) → Option ℕ
unfolding find_in earlier
match_in held [] = none
match_in held (stop ∷ stops) = earlier (find_in held stop) (match_in held stops)

unfoldable pub earliest_match : StopScanner → Option ℕ
unfolding match_in
earliest_match s = match_in s.held s.stops

-- `str::is_char_boundary` inside a string: the byte there does not go on with a character.
unfoldable pub is_char_boundary : List ℕ → ℕ → Bool
is_char_boundary s n = elim (get_elem? s n) [
  | none ↦ n == length s
  | some c ↦ ltb c 0x80 || leb 0xc0 c
]

-- The lengths `n`, `n - 1`, ... down to 1, the first that fits.
unfoldable pub opening_from : ℕ → List ℕ → List ℕ → ℕ
unfolding is_char_boundary ends_with
opening_from zero s stop = 0
opening_from (suc n) s stop =
    let rest = opening_from n s stop in
    if is_char_boundary stop (n + 1) && ends_with s (take (n + 1) stop) then n + 1 else rest

unfoldable pub longest_suffix_opening : List ℕ → List ℕ → ℕ
unfolding opening_from
longest_suffix_opening s stop = opening_from (length stop - 1) s stop

-- The maximum over the stop strings, zero where there is none.
unfoldable pub keep_for : List ℕ → List (List ℕ) → ℕ
unfolding longest_suffix_opening
keep_for held [] = 0
keep_for held (stop ∷ stops) = max (longest_suffix_opening held stop) (keep_for held stops)

unfoldable pub is_empty {ℓ} : {A : Type ℓ} → List A → Bool
is_empty [] = true
is_empty (x ∷ xs) = false

unfoldable pub push : List ℕ → StopScanner → Scan × StopScanner
unfolding is_empty earliest_match keep_for
push delta s =
    let held = s.held ++ delta in
    let keep = keep_for held s.stops in
    if is_empty s.stops then (text delta, s) else elim (earliest_match (record s { held = held })) [
      | some i ↦ (stopped (take i held), record s { held = [] })
      | none ↦ (
        text (take (length held - keep) held),
        record s { held = drop (length held - keep) held },
      )
    ]

unfoldable pub finish : List ℕ → StopScanner → Scan × StopScanner
unfolding is_empty earliest_match
finish delta s =
    let held = s.held ++ delta in
    if is_empty s.stops then (text delta, s) else elim (earliest_match (record s { held = held })) [
      | some i ↦ (stopped (take i held), record s { held = [] })
      | none ↦ (text held, record s { held = [] })
    ]

-- The text that a step hands out.
abbrev pub handed : Scan → List ℕ
handed (text t) = t
handed (stopped t) = t
